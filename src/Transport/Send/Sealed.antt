-- ===== src/Transport/Send/Sealed.antt =====
-- transport/mod.rs: what leaves the device when it sends (`send_payload`).
use my_domain_core.Prelude.{
  Bool-cases, Option-cases, nat_eq, string_eq, contains, ℕ, String, ◌≡◌, refl, sym, ◌⊎◌, inl, inr,
  some, List, [], ◌∷◌, ◌++◌, take, drop, take-append-drop, append-nil,
}
use my_domain_core.Prelude.Result.{ok, err, ok_or-bind, Result-cases}
use my_domain_core.Prelude.Map.{get}
use my_domain_core.Text.{parse_ipv4, eq_ignore_ascii_case}
use my_domain_core.Net.{SocketAddr}
use my_domain_core.Model.{Envelope, msg}
use my_domain_core.Host.{
  Host, TcpResult, tcp_done, connect_failed, write_failed, shutdown_failed, UdpResult, udp_done,
  bind_failed, send_failed,
}
use my_domain_core.Crypto.{encrypt}
use my_domain_core.Ctx.{Ctx, Effect, queued, tcp_sent, udp_sent, record_effect, next_turn}
use my_domain_core.Transport.Send.{
  SendError, no_key, not_serialized, encryption_failed, tcp_send_failed, tcp_shutdown_failed, Sent,
  seal, send_frame, send_tcp, send_udp, send_direct, send_payload,
}

module _ (h : Host) where
  -- The effect that hands over the envelope, as a frame or as its JSON bytes.
  abbrev pub Carries : Envelope → List ℕ → Effect → Type 0
  Carries env body (queued conn_id frame) =
      h.frame_to_string (msg env.nonce env.ciphertext) ≡ some frame
  Carries env body (tcp_sent addr bytes) = bytes ≡ body
  Carries env body (udp_sent addr bytes) = bytes ≡ body
  Carries env body _ = ⊥

  -- A TCP stream that has taken the whole message, or a first part of it, before it failed.
  abbrev pub HandsPart : List ℕ → SendError → Ctx → Ctx → Type 0
  HandsPart body e s t =
      (addr : SocketAddr) × (part : List ℕ) × (rest : List ℕ) × (why : String) × ((e
          ≡ tcp_send_failed why)
        ⊎ ((e ≡ tcp_shutdown_failed why) × (part ≡ body)))
      × (body ≡ part ++ rest)
      × (t.trace ≡ tcp_sent addr part ∷ s.trace)

  -- One effect, which carries the envelope, on success; none on an error, but for those of TCP.
  abbrev pub Delivers : Envelope → List ℕ → Ctx → Sent → Type 0
  Delivers env body s (t, err e) = (t.trace ≡ s.trace) ⊎ HandsPart body e s t
  Delivers env body s (t, ok done) =
      (effect : Effect) × Carries env body effect × (t.trace ≡ effect ∷ s.trace)

  send_tcp-Delivers :
      (env : Envelope) (addr : SocketAddr) (body : List ℕ) (s : Ctx)
      → Delivers env body s (send_tcp h addr body s)
  unfolding send_tcp record_effect
  send_tcp-Delivers env addr body s = go (h.tcp_send s.turn addr body) refl
    where
      go :
          (r : TcpResult)
          → h.tcp_send s.turn addr body ≡ r
          → Delivers env body s (send_tcp h addr body s)
      go tcp_done e = rw (e, send_tcp) (tcp_sent addr body, refl, refl)
      go (connect_failed x) e = rw (e, send_tcp) (inl refl)
      go (write_failed n x) e =
          rw (e, send_tcp)
            (inr (addr, take n body, drop n body, x, inl refl, sym (take-append-drop n body), refl))
      go (shutdown_failed x) e =
          rw (e, send_tcp) (inr (addr, body, [], x, inr (refl, refl), sym (append-nil body), refl))

  send_udp-Delivers :
      (env : Envelope) (addr : SocketAddr) (body : List ℕ) (s : Ctx)
      → Delivers env body s (send_udp h addr body s)
  unfolding send_udp record_effect
  send_udp-Delivers env addr body s = go (h.udp_send s.turn addr body) refl
    where
      go :
          (r : UdpResult)
          → h.udp_send s.turn addr body ≡ r
          → Delivers env body s (send_udp h addr body s)
      go udp_done e = rw (e, send_udp) (udp_sent addr body, refl, refl)
      go (bind_failed x) e = rw (e, send_udp) (inl refl)
      go (send_failed x) e = rw (e, send_udp) (inl refl)

  send_frame-Delivers :
      (node_id : String) (env : Envelope) (body : List ℕ) (s : Ctx)
      → Delivers env body s (send_frame h node_id env s)
  unfolding send_frame record_effect
  send_frame-Delivers node_id env body s =
      elim (Option-cases (h.frame_to_string (msg env.nonce env.ciphertext))) [
        | inl fails ↦ rw (fails, send_frame) (inl refl)
        | inr (frame, e) ↦ elim (Option-cases (get s.ws_conns node_id)) [
          | inl nobody ↦ rw (e, nobody, send_frame) (inl refl)
          | inr (conn_id, f) ↦ elim (Bool-cases (contains conn_id s.gone)) [
            | inl closed ↦ rw (e, f, closed, send_frame) (inl refl)
            | inr up ↦ rw (e, f, up, send_frame) (queued conn_id frame, e, refl)
          ]
        ]
      ]

  send_direct-Delivers :
      (node_id protocol : String) (env : Envelope) (body : List ℕ) (s : Ctx)
      → Delivers env body s (send_direct h node_id protocol body s)
  unfolding send_direct
  send_direct-Delivers node_id protocol env body s = elim (Option-cases (get s.peers node_id)) [
    | inl unknown ↦ rw (unknown, send_direct) (inl refl)
    | inr (peer, e) ↦ elim (Option-cases (parse_ipv4 peer.ip)) [
      | inl bad ↦ rw (e, bad, send_direct) (inl refl)
      | inr (ip, f) ↦ elim (Bool-cases (eq_ignore_ascii_case protocol "TCP")) [
        | inl tcp ↦ rw (e, f, tcp, send_direct) (send_tcp-Delivers env _ body s)
        | inr other ↦ elim (Bool-cases (eq_ignore_ascii_case protocol "UDP")) [
          | inl udp ↦ rw (e, f, other, udp, send_direct) (send_udp-Delivers env _ body s)
          | inr neither ↦ rw (e, f, other, neither, send_direct) (inl refl)
        ]
      ]
    ]
  ]

  -- The envelope is the encryption of the message, under the device's key.
  abbrev pub IsSealOf : Envelope → List ℕ → String → String → Ctx → Type 0
  IsSealOf env body from text s =
      (key : List ℕ) × (plaintext : List ℕ) × (s.key ≡ some key)
      × (h.plaintext_to_vec (record { from = from; text = text }) ≡ some plaintext)
      × (encrypt h s.turn key plaintext ≡ some env)
      × (h.envelope_to_vec env ≡ some body)

  pub seal-IsSealOf :
      (from text : String) (env : Envelope) (body : List ℕ) (s : Ctx)
      → seal h s from text ≡ ok (env, body)
      → IsSealOf env body from text s
  unfolding seal
  seal-IsSealOf from text env body s e =
      let (key, has, e1) = ok_or-bind s.key no_key _ e in
      let (plaintext, made, e2) =
        ok_or-bind (h.plaintext_to_vec (record { from = from; text = text })) not_serialized _ e1 in
      let (env', sealed, e3) = ok_or-bind (encrypt h s.turn key plaintext) encryption_failed _ e2 in
      let (body', written, e4) = ok_or-bind (h.envelope_to_vec env') not_serialized _ e3 in
      (key, plaintext, has, made, cc, cc)

  abbrev pub SendsSealed : String → String → Ctx → Sent → Type 0
  SendsSealed from text s (t, err e) =
      (t.trace ≡ s.trace)
      ⊎ ((env : Envelope) × (body : List ℕ) × IsSealOf env body from text s × HandsPart body e s t)
  SendsSealed from text s (t, ok done) =
      (env : Envelope) × (body : List ℕ) × (effect : Effect) × IsSealOf env body from text s
      × Carries env body effect
      × (t.trace ≡ effect ∷ s.trace)

  delivered :
      (from text : String) (env : Envelope) (body : List ℕ) (s : Ctx) (x : Sent)
      → IsSealOf env body from text s
      → Delivers env body (next_turn s) x
      → SendsSealed from text s x
  unfolding next_turn
  delivered from text env body s (t, err e) seals (inl none_sent) = inl none_sent
  delivered from text env body s (t, err e) seals (inr part) = inr (env, body, seals, part)
  delivered from text env body s (t, ok done) seals (effect, carried, told) =
      (env, body, effect, seals, carried, told)

  -- Nothing leaves the device unencrypted: a send that succeeds has exactly one effect, and what it
  -- hands over is the encryption of this very message under the device's key with the nonce of its
  -- turn. A send that fails has no effect, or has failed at a TCP stream that had taken a first part
  -- of that encryption, or at the shutdown of one that had taken the whole of it, and then this is its
  -- only effect.
  pub send_payload-SendsSealed :
      (from node_id protocol text : String) (s : Ctx)
      → SendsSealed from text s (send_payload h from node_id protocol text s)
  unfolding send_payload
  send_payload-SendsSealed from node_id protocol text s = elim (Result-cases (seal h s from text)) [
    | inl (why, e) ↦ rw (e, send_payload) (inl refl)
    | inr ((env, body), e) ↦
        let seals = seal-IsSealOf from text env body s e in
        elim (Bool-cases (eq_ignore_ascii_case protocol "WS")) [
          | inl ws ↦
              rw (e, ws, send_payload)
                (delivered from text env body s (send_frame h node_id env (next_turn s)) seals
                  (send_frame-Delivers node_id env body (next_turn s)))
          | inr direct ↦
              rw (e, direct, send_payload)
                (delivered from text env body s (send_direct h node_id protocol body (next_turn s))
                  seals (send_direct-Delivers node_id protocol env body (next_turn s)))
        ]
  ]
