-- ===== src/Transport/Incoming.antt =====
-- transport/mod.rs: what happens to an incoming envelope.
pub mod EndToEnd
pub mod Indicator
use my_domain_core.Prelude.{
  if◌then◌else◌, nat_eq, string_eq, ◌>>=◌, take, ℕ, String, true, false, Option, none, some, List,
  [], ◌∷◌,
}
use my_domain_core.Model.{Plaintext, Envelope, IncomingMessage, message_received}
use my_domain_core.Host.{Host}
use my_domain_core.Crypto.{decrypt}
use my_domain_core.Ctx.{Ctx, emit, now_secs}
use my_domain_core.Features.{dispatch}

abbrev pub undecryptable : String → String → ℕ → IncomingMessage
undecryptable ip protocol now = record {
  from = "(unknown)";
  ip = ip;
  protocol = protocol;
  text = "🔒 message could not be decrypted (wrong encryption key)";
  ts = now;
  ok = false;
}

abbrev pub readable : Plaintext → String → String → ℕ → IncomingMessage
readable p ip protocol now = record {
  from = p.from;
  ip = ip;
  protocol = protocol;
  text = p.text;
  ts = now;
  ok = true;
}

module _ (h : Host) where
  unfoldable pub envelope_to_message :
      Option (List ℕ) → Envelope → String → String → ℕ → IncomingMessage
  envelope_to_message key env ip protocol now =
      let opened = do k ← key; pt ← decrypt h k env; h.plaintext_from_slice pt
      in elim opened [ some p ↦ readable p ip protocol now | none ↦ undecryptable ip protocol now ]

  -- The decrypted bytes, if there is a key and it opens the envelope.
  unfoldable pub open_envelope : Ctx → Envelope → Option (List ℕ)
  open_envelope s env = s.key >>= λ k. decrypt h k env

  -- A readable text is dispatched, and shown as chat only if no handler took it.
  unfoldable pub show_or_dispatch : Plaintext → String → String → Ctx → Ctx
  show_or_dispatch p ip protocol s =
      let (s', handled) = dispatch h p.from ip protocol p.text s in
      if handled then s' else emit (message_received (readable p ip protocol (now_secs s'))) s'

  unfoldable pub handle_incoming : Envelope → String → String → Ctx → Ctx
  handle_incoming env ip protocol s = elim (open_envelope s env) [
    | none ↦ emit (message_received (envelope_to_message s.key env ip protocol (now_secs s))) s
    | some pt ↦ elim (h.plaintext_from_slice pt) [
      | none ↦ s
      | some p ↦ show_or_dispatch p ip protocol s
    ]
  ]

  -- The bytes of one TCP stream or of one UDP datagram.
  unfoldable pub receive : String → List ℕ → String → Ctx → Ctx
  receive protocol bytes ip s = elim (h.envelope_from_slice bytes) [
    | none ↦ s
    | some env ↦ handle_incoming env ip protocol s
  ]

-- What a connection or a socket yields: a stream that could not be read to its end, or the bytes
-- and the sender's address as text.
pub data Arrival : Type 0 where
  failed : Arrival
  arrived : List ℕ → String → Arrival

-- `tcp_recv_loop`, one thread for each accepted stream.
unfoldable pub tcp_recv_loop : Host → List Arrival → Ctx → Ctx
tcp_recv_loop h [] s = s
tcp_recv_loop h (failed ∷ as') s = tcp_recv_loop h as' s
tcp_recv_loop h (arrived bytes ip ∷ as') s = tcp_recv_loop h as' (receive h "TCP" bytes ip s)

-- `udp_recv_loop` over the datagrams that arrive; the buffer keeps 65535 bytes of each.
unfoldable pub udp_recv_loop : Host → List Arrival → Ctx → Ctx
udp_recv_loop h [] s = s
udp_recv_loop h (failed ∷ as') s = udp_recv_loop h as' s
udp_recv_loop h (arrived bytes ip ∷ as') s =
    udp_recv_loop h as' (receive h "UDP" (take 65535 bytes) ip s)
