-- ===== src/Engine/Reach/Session.antt =====
-- The running engine: its session, against what arrives from elsewhere.
use my_domain_core.Prelude.{nat_eq, string_eq, ℕ, String, ◌≡◌, some, List}
use my_domain_core.Net.{Ipv4Addr}
use my_domain_core.Host.{Host}
use my_domain_core.Ctx.{Ctx, session_of}
use my_domain_core.Transport.Live.Evolves.{Evolves, Evolves-session}
use my_domain_core.Transport.Send.Quiet.{Quiet-Evolves}
use my_domain_core.Transport.Incoming.{receive}
use my_domain_core.Transport.Incoming.Indicator.{receive-Evolves}
use my_domain_core.Transport.Links.{WsLink, WsRound, ws_round}
use my_domain_core.Transport.Links.WsConn.{ws_round_keeps}
use my_domain_core.Transport.Links.Indicator.{ws_read-Evolves}
use my_domain_core.Transport.Reasm.Valid.{IsPending}
use my_domain_core.Transport.Punch.Driver.{PunchLink, PunchRound, punch_round, Round}
use my_domain_core.Transport.Punch.Driver.Total.{IsRound}
use my_domain_core.Transport.Rtc.{RtcLink, RtcRound, drive_round}
use my_domain_core.Transport.Rtc.Drive.{drive_round-Evolves}
use my_domain_core.Discovery.{discovery_recv}
use my_domain_core.Engine.Signals.{on_signal}
use my_domain_core.Engine.Signals.Indicator.{on_signal-Evolves}
use my_domain_core.Engine.Reach.Lan.{discovery_recv-IsDim}
use my_domain_core.Engine.Reach.Indicator.{punch_round-Evolves}

-- Nothing that arrives changes the key, the token, the user or the server: not a TCP stream or a UDP
-- datagram, not a beacon, not a signal of the registry, and not a round of a WebSocket connection, of
-- a WebRTC link, or of a punched link that hears bytes and has a valid reassembly table.
pub arrival_keeps_session :
    (h : Host) (s : Ctx) (protocol ip from payload : String) (bytes : List ℕ) (sender : Ipv4Addr)
    (wr : WsRound) (wl : WsLink) (rr : RtcRound) (rl : RtcLink) (pr : PunchRound) (pl : PunchLink)
    → IsRound pr
    → IsPending pl.pending
    → (session_of (receive h protocol bytes ip s) ≡ session_of s)
      × (session_of (discovery_recv h bytes sender s) ≡ session_of s)
      × (session_of (on_signal h from payload s) ≡ session_of s)
      × (session_of (ws_round h wr wl s).0 ≡ session_of s)
      × (session_of (drive_round h rr rl s).0 ≡ session_of s)
      × ((round : Round) → punch_round h pr pl s ≡ some round → session_of round.0 ≡ session_of s)
arrival_keeps_session h s protocol ip from payload bytes sender wr wl rr rl pr pl heard table = (
  Evolves-session _ (receive-Evolves h protocol bytes ip s Evolves.starts),
  (discovery_recv-IsDim h bytes sender s).session,
  Evolves-session _ (on_signal-Evolves h from payload s Evolves.starts),
  Evolves-session _ (
      ws_round_keeps h (Evolves s) (λ u v q x. Quiet-Evolves q x) (ws_read-Evolves h) wr wl s
        Evolves.starts),
  Evolves-session _ (drive_round-Evolves h rr rl s Evolves.starts),
  λ round e. Evolves-session _ (punch_round-Evolves h pr pl s round heard table e Evolves.starts),
)
