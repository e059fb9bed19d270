-- ===== src/Ctx.antt =====
-- engine.rs: the shared handles (`NetCtx`) and the engine's own fields, as one state. Each operation
-- takes the state and returns the new one. What the outside sees (events, datagrams, clipboard writes)
-- is `trace`, the latest first. A map under a lock is a map; an operation here runs without a break,
-- also where the code lets a lock go before its end. What may then come between is modelled where it
-- shows: the reports of links (Transport/Live/Race, Engine/Reach/Reports).
use my_domain_core.Prelude.{nat_eq, string_eq, or_default, ℕ, ◌+◌, String, Bool, Option, List, ◌∷◌}
use my_domain_core.Prelude.Map.{Map}
use my_domain_core.Net.{SocketAddr}
use my_domain_core.Model.{Identity, Peer, P2pConn, Candidate, Signal, CoreEvent}

-- The threads that an operation starts; what each of them runs is a definition of its own.
pub data Thread : Type 0 where
  ws_driver : Thread
  -- the peer's candidates and its node
  punch_driver : List Candidate → String → Thread
  rtc_driver : String → Thread
  -- the answers to a punch offer and to an SDP offer: the sender, the negotiation, what was offered
  punch_answerer : String → String → List Candidate → Thread
  rtc_answerer : String → String → String → Thread
  connect_ladder : String → Thread
  -- the engine's own
  discovery_receiver tcp_receiver udp_receiver ws_server : Thread
  clipboard_watcher network_watcher heartbeater : Thread
  firewall_reporter : String → String → String → Thread

pub data Effect : Type 0 where
  emitted : CoreEvent → Effect
  -- a frame handed to the driver of a connection
  queued : ℕ → String → Effect
  -- a frame written to a connection's own transport by its driver
  written : ℕ → String → Effect
  -- what was written to a TCP stream: the whole message, or what came before an error
  tcp_sent : SocketAddr → List ℕ → Effect
  udp_sent : SocketAddr → List ℕ → Effect
  -- a datagram on the discovery socket, whether or not it can be sent
  beacon_sent : SocketAddr → List ℕ → Effect
  -- a datagram on the socket of a punched link
  punch_sent : SocketAddr → List ℕ → Effect
  -- a datagram that str0m sends, and a frame written to a data channel, by the connection's number
  rtc_sent : SocketAddr → List ℕ → Effect
  rtc_written : ℕ → String → Effect
  spawned : Thread → Effect
  -- requests to the registry, made with or without success, which the last field says: a signal to a
  -- node, the device's `ws_open` and `inbound_blocked`
  signalled : String → Signal → Bool → Effect
  state_sent : Option Bool → Option Bool → Bool → Effect
  clipboard_set : String → Effect
  posted : String → String → Effect
  stored : String → String → Effect
  -- an answer handed to a waiting thread, by the number of its channel
  clip_answered : ℕ → String → Effect
  punch_answered : ℕ → List Candidate → Effect
  rtc_answered : ℕ → String → Effect

-- `ws_conns` maps a node to the number of its connection; the sender's channel is that of the same
-- connection, and `gone` lists the connections whose receiver has been dropped.
pub record Ctx : Type 0 where
  pub identity : Identity
  pub key : Option (List ℕ)
  pub peers : Map String Peer
  pub ws_conns : Map String ℕ
  pub gone : List ℕ
  pub p2p_conns : Map String P2pConn
  pub punch_waiters : Map String ℕ
  pub rtc_waiters : Map String ℕ
  pub clip_active : Bool
  pub clip_last : String
  pub clip_pending : Map String ℕ
  pub installed_apps : String
  pub subs : Map String (List String)
  pub directed_transport : String
  pub server_url : Option String
  pub token : Option String
  pub username : Option String
  -- `WS_CONN_SEQ`, `PUNCH_CONN_SEQ`, `RTC_CONN_SEQ`
  pub ws_seq : ℕ
  pub punch_seq : ℕ
  pub rtc_seq : ℕ
  -- The registry of control handlers, by kind (`features`), is built once from this.
  pub has_clipboard : Bool
  -- `SystemTime::now()` in seconds, if it is past the epoch, and the number of external calls so far.
  pub clock : Option ℕ
  pub turn : ℕ
  pub trace : List Effect

-- What a login, the key and a logout are about.
abbrev pub session_of : Ctx → Option (List ℕ) × Option String × Option String × Option String
session_of s = (s.key, s.token, s.username, s.server_url)

unfoldable pub now_secs : Ctx → ℕ
now_secs s = or_default s.clock 0

unfoldable pub record_effect : Effect → Ctx → Ctx
record_effect e s = record s { trace = e ∷ s.trace }

-- `sink.emit`
unfoldable pub emit : CoreEvent → Ctx → Ctx
unfolding record_effect
emit ev s = record_effect (emitted ev) s

unfoldable pub next_turn : Ctx → Ctx
next_turn s = record s { turn = s.turn + 1 }
