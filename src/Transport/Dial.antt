-- ===== src/Transport/Dial.antt =====
-- transport/ws.rs: how a WebSocket connection comes about, from either side. Both start a thread that
-- runs `handle_ws_conn` (Links).
use my_domain_core.Prelude.{nat_eq, string_eq, ℕ, String, none, some, List, [], ◌∷◌}
use my_domain_core.Prelude.Result.{Result, ok, err}
use my_domain_core.Text.{parse_ipv4}
use my_domain_core.Host.{Host, dialled, not_connected, no_timeout, no_handshake}
use my_domain_core.Ctx.{Ctx, record_effect, next_turn, spawned, ws_driver}

pub data DialError : Type 0 where
  bad_peer_ip : DialError
  ws_connect_failed ws_timeout_failed ws_handshake_failed : String → DialError

abbrev pub Dialled : Type 0
Dialled = Ctx × Result DialError Unit

unfoldable pub ws_connect : Host → String → ℕ → Ctx → Dialled
ws_connect h ip ws_port s = elim (parse_ipv4 ip) [
  | none ↦ (s, err bad_peer_ip)
  | some addr ↦ elim (h.ws_dial s.turn (record { ip = addr; port = ws_port })) [
    | dialled ↦ (record_effect (spawned ws_driver) (next_turn s), ok tt)
    | not_connected e ↦ (next_turn s, err (ws_connect_failed e))
    | no_timeout e ↦ (next_turn s, err (ws_timeout_failed e))
    | no_handshake e ↦ (next_turn s, err (ws_handshake_failed e))
  ]
]

-- What the listener yields: no stream, a stream whose handshake fails, or a WebSocket.
pub data Accepted : Type 0 where
  no_stream failed_handshake accepted : Accepted

unfoldable pub ws_server_loop : List Accepted → Ctx → Ctx
ws_server_loop [] s = s
ws_server_loop (no_stream ∷ as') s = ws_server_loop as' s
ws_server_loop (failed_handshake ∷ as') s = ws_server_loop as' s
ws_server_loop (accepted ∷ as') s = ws_server_loop as' (record_effect (spawned ws_driver) s)
