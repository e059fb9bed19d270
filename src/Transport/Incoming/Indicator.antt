-- ===== src/Transport/Incoming/Indicator.antt =====
-- transport/mod.rs: incoming traffic of any kind against the machine of the live registry.
use my_domain_core.Prelude.{
  Bool-cases, Option-cases, nat_eq, string_eq, take, ℕ, String, ◌≡◌, ◌∙◌, inl, inr, List, [], ◌∷◌,
  arith,
}
use my_domain_core.Model.{Plaintext, Envelope, message_received}
use my_domain_core.Host.{Host}
use my_domain_core.Ctx.{Ctx, emit}
use my_domain_core.Features.{dispatch}
use my_domain_core.Features.Dispatch.{dispatch-Evolves, dispatch-links}
use my_domain_core.Transport.Live.Events.{link_events}
use my_domain_core.Transport.Live.Evolves.{Evolves}
use my_domain_core.Transport.Send.Quiet.{Quiet, Quiet-Evolves}
use my_domain_core.Transport.Incoming.{
  handle_incoming, open_envelope, show_or_dispatch, receive, tcp_recv_loop, udp_recv_loop, Arrival,
  failed, arrived,
}
use my_domain_core.Model.{IncomingMessage}

message-Quiet : (m : IncomingMessage) (s : Ctx) → Quiet s (emit (message_received m) s)
unfolding emit link_events
message-Quiet m s = ground arith

module _ (h : Host) where
  show_or_dispatch-Evolves :
      {s0 : Ctx} (p : Plaintext) (ip protocol : String) (s : Ctx)
      → Evolves s0 s
      → Evolves s0 (show_or_dispatch h p ip protocol s)
  unfolding show_or_dispatch
  show_or_dispatch-Evolves p ip protocol s k =
      elim (Bool-cases (dispatch h p.from ip protocol p.text s).1) [
        | inl handled ↦ rw handled (dispatch-Evolves h p.from ip protocol p.text s k)
        | inr chat ↦ rw chat (
            Quiet-Evolves (message-Quiet _ (dispatch h p.from ip protocol p.text s).0)
              (dispatch-Evolves h p.from ip protocol p.text s k))
      ]

  -- Whatever envelope arrives, from whomever, over whatever transport, the machine takes its steps.
  pub handle_incoming-Evolves :
      {s0 : Ctx} (env : Envelope) (ip protocol : String) (s : Ctx)
      → Evolves s0 s
      → Evolves s0 (handle_incoming h env ip protocol s)
  unfolding handle_incoming
  handle_incoming-Evolves env ip protocol s k = elim (Option-cases (open_envelope h s env)) [
    | inl sealed ↦ rw (sealed, handle_incoming) (Quiet-Evolves (message-Quiet _ s) k)
    | inr (pt, e) ↦ elim (Option-cases (h.plaintext_from_slice pt)) [
      | inl garbage ↦ rw (e, handle_incoming) (rw (garbage, handle_incoming) k)
      | inr (p, f) ↦
          rw (e, handle_incoming)
            (rw (f, handle_incoming) (show_or_dispatch-Evolves p ip protocol s k))
    ]
  ]

  pub receive-Evolves :
      {s0 : Ctx} (protocol : String) (bytes : List ℕ) (ip : String) (s : Ctx)
      → Evolves s0 s
      → Evolves s0 (receive h protocol bytes ip s)
  unfolding receive
  receive-Evolves protocol bytes ip s k = elim (Option-cases (h.envelope_from_slice bytes)) [
    | inl garbage ↦ rw (garbage, receive) k
    | inr (env, e) ↦ rw (e, receive) (handle_incoming-Evolves env ip protocol s k)
  ]

  pub recv_loops-Evolves :
      {s0 : Ctx} (arrivals : List Arrival) (s : Ctx)
      → Evolves s0 s
      → Evolves s0 (tcp_recv_loop h arrivals s) × Evolves s0 (udp_recv_loop h arrivals s)
  unfolding tcp_recv_loop udp_recv_loop
  recv_loops-Evolves [] s k = (k, k)
  recv_loops-Evolves (failed ∷ as') s k = recv_loops-Evolves as' s k
  recv_loops-Evolves (arrived bytes ip ∷ as') s k = (
    (recv_loops-Evolves as' (receive h "TCP" bytes ip s) (receive-Evolves "TCP" bytes ip s k)).0,
    (recv_loops-Evolves as' (receive h "UDP" (take 65535 bytes) ip s)
        (receive-Evolves "UDP" (take 65535 bytes) ip s k)).1,
  )

module _ (h : Host) where
  links-show_or_dispatch :
      (p : Plaintext) (ip protocol : String) (s : Ctx)
      → (show_or_dispatch h p ip protocol s).ws_conns ≡ s.ws_conns
  unfolding show_or_dispatch
  links-show_or_dispatch p ip protocol s =
      elim (Bool-cases (dispatch h p.from ip protocol p.text s).1) [
        | inl handled ↦ rw handled (dispatch-links h p.from ip protocol p.text s)
        | inr chat ↦ rw chat (
            (message-Quiet _ (dispatch h p.from ip protocol p.text s).0).links
            ∙ dispatch-links h p.from ip protocol p.text s)
      ]

  -- No incoming message touches the table of connections.
  pub links-handle_incoming :
      (env : Envelope) (ip protocol : String) (s : Ctx)
      → (handle_incoming h env ip protocol s).ws_conns ≡ s.ws_conns
  unfolding handle_incoming
  links-handle_incoming env ip protocol s = elim (Option-cases (open_envelope h s env)) [
    | inl sealed ↦ rw (sealed, handle_incoming) (message-Quiet _ s).links
    | inr (pt, e) ↦ elim (Option-cases (h.plaintext_from_slice pt)) [
      | inl garbage ↦ rw (e, handle_incoming) (rw (garbage, handle_incoming))
      | inr (p, f) ↦
          rw (e, handle_incoming) (rw (f, handle_incoming) (links-show_or_dispatch p ip protocol s))
    ]
  ]
