-- ===== src/Transport/Send.antt =====
-- transport/mod.rs: choosing a transport and sending one encrypted message.
pub mod Quiet
pub mod Sealed
use my_domain_core.Prelude.{
  if◌then◌else◌, nat_eq, string_eq, contains, take, ℕ, String, List, [], ◌∷◌,
}
use my_domain_core.Prelude.Result.{Result, ok, err, ok_or, ◌>>=◌}
use my_domain_core.Prelude.Map.{get, keys, contains_key}
use my_domain_core.Text.{eq_ignore_ascii_case, trim, parse_ipv4}
use my_domain_core.Net.{SocketAddr, Ipv4Addr}
use my_domain_core.Model.{Envelope, Peer, msg}
use my_domain_core.Host.{
  Host, tcp_done, connect_failed, write_failed, shutdown_failed, udp_done, bind_failed, send_failed,
}
use my_domain_core.Crypto.{encrypt}
use my_domain_core.Ctx.{Ctx, record_effect, next_turn, queued, tcp_sent, udp_sent}

-- The messages of `send_payload`'s errors.
pub data SendError : Type 0 where
  no_key : SendError
  not_serialized : SendError
  encryption_failed : SendError
  no_ws_connection : SendError
  ws_closed : SendError
  peer_not_found : SendError
  bad_peer_ip : SendError
  tcp_connect_failed tcp_send_failed tcp_shutdown_failed : String → SendError
  udp_bind_failed udp_send_failed : String → SendError
  unknown_protocol : String → SendError

-- `best_proto`: the live channel if there is one, else the directed transport.
unfoldable pub best_proto : Ctx → String → String
best_proto s node_id =
    if contains_key s.ws_conns node_id
    then "WS"
    else if eq_ignore_ascii_case (trim s.directed_transport) "tcp"
    then "TCP"
    else "UDP"

abbrev pub Sent : Type 0
Sent = Ctx × Result SendError Unit

module _ (h : Host) where
  -- The envelope and its JSON bytes; the nonce is the draw of this turn.
  unfoldable pub seal : Ctx → String → String → Result SendError (Envelope × List ℕ)
  seal s from text = do
    key ← ok_or s.key no_key
    plaintext ← ok_or (h.plaintext_to_vec (record { from = from; text = text })) not_serialized
    env ← ok_or (encrypt h s.turn key plaintext) encryption_failed
    body ← ok_or (h.envelope_to_vec env) not_serialized
    ok (env, body)

  -- `sender.send(frame)`, which fails once the connection's driver has dropped its receiver.
  unfoldable pub send_frame : String → Envelope → Ctx → Sent
  send_frame node_id env s =
      let connection : Result SendError (ℕ × String) = do
        frame ← ok_or (h.frame_to_string (msg env.nonce env.ciphertext)) not_serialized
        conn_id ← ok_or (get s.ws_conns node_id) no_ws_connection
        ok (conn_id, frame)
      in elim connection [
        | err e ↦ (s, err e)
        | ok (conn_id, frame) ↦
            if contains conn_id s.gone
            then (s, err ws_closed)
            else (record_effect (queued conn_id frame) s, ok tt)
      ]

  -- The body is written before the stream is shut down: an error may follow a hand-over, of a part
  -- or of the whole.
  unfoldable pub send_tcp : SocketAddr → List ℕ → Ctx → Sent
  send_tcp addr body s = elim (h.tcp_send s.turn addr body) [
    | tcp_done ↦ (record_effect (tcp_sent addr body) s, ok tt)
    | connect_failed e ↦ (s, err (tcp_connect_failed e))
    | write_failed n e ↦ (record_effect (tcp_sent addr (take n body)) s, err (tcp_send_failed e))
    | shutdown_failed e ↦ (record_effect (tcp_sent addr body) s, err (tcp_shutdown_failed e))
  ]

  unfoldable pub send_udp : SocketAddr → List ℕ → Ctx → Sent
  send_udp addr body s = elim (h.udp_send s.turn addr body) [
    | udp_done ↦ (record_effect (udp_sent addr body) s, ok tt)
    | bind_failed e ↦ (s, err (udp_bind_failed e))
    | send_failed e ↦ (s, err (udp_send_failed e))
  ]

  -- The peer's address is looked up and parsed before the protocol is looked at.
  unfoldable pub send_direct : String → String → List ℕ → Ctx → Sent
  send_direct node_id protocol body s =
      let target : Result SendError (Peer × Ipv4Addr) = do
        peer ← ok_or (get s.peers node_id) peer_not_found
        ip ← ok_or (parse_ipv4 peer.ip) bad_peer_ip
        ok (peer, ip)
      in elim target [
        | err e ↦ (s, err e)
        | ok (peer, ip) ↦
            if eq_ignore_ascii_case protocol "TCP"
            then send_tcp (record { ip = ip; port = peer.tcp_port }) body s
            else if eq_ignore_ascii_case protocol "UDP"
            then send_udp (record { ip = ip; port = peer.udp_port }) body s
            else (s, err (unknown_protocol protocol))
      ]

  -- `protocol.to_uppercase() == "WS"` is a test that ignores case; the callers pass "WS", "TCP" and
  -- "UDP" only.
  unfoldable pub send_payload : String → String → String → String → Ctx → Sent
  send_payload from node_id protocol text s = elim (seal s from text) [
    | err e ↦ (s, err e)
    | ok (env, body) ↦
        if eq_ignore_ascii_case protocol "WS"
        then send_frame node_id env (next_turn s)
        else send_direct node_id protocol body (next_turn s)
  ]

  -- The result is dropped.
  unfoldable pub send_control_to : String → String → Ctx → Ctx
  send_control_to node_id text s =
      (send_payload s.identity.name node_id (best_proto s node_id) text s).0

  unfoldable pub send_to_each : List String → String → Ctx → Ctx
  send_to_each [] text s = s
  send_to_each (id ∷ ids) text s = send_to_each ids text (send_control_to id text s)

  unfoldable pub broadcast_control : String → Ctx → Ctx
  broadcast_control text s = send_to_each (keys s.peers) text s
