-- ===== src/Transport/Handshake.antt =====
-- transport/mod.rs, features/p2p_ping.rs and engine.rs on two devices: a ping, its pong, and what each
-- side makes of them.
use my_domain_core.Prelude.{
  nat_eq, string_eq, length, ℕ, String, ◌≡◌, refl, sym, ap, ◌∙◌, subst, inl, inr, Bool, true, false,
  none, some, List, ◌∷◌, arith,
}
use my_domain_core.Prelude.Result.{ok, err, is_ok}
use my_domain_core.Prelude.Map.{get, insert}
use my_domain_core.Text.{is_empty}
use my_domain_core.Net.{SocketAddr}
use my_domain_core.Model.{Envelope, udp}
use my_domain_core.Model.Json.{Value, object, field, end, string, str_field}
use my_domain_core.Host.{Host}
use my_domain_core.Crypto.{IsCipher}
use my_domain_core.Ctx.{Ctx, udp_sent}
use my_domain_core.Features.{
  kind_of, str_of, p2p_ping_handler, find_handler, dispatch, with_defaults, handle, for_p2p_ping,
}
use my_domain_core.Transport.Live.{mark_live, is_live}
use my_domain_core.Transport.Live.Links.{is_live-mark_live}
use my_domain_core.Transport.Send.{Sent, send_payload, send_control_to, best_proto}
use my_domain_core.Transport.Send.Sealed.{IsSealOf, Carries, SendsSealed, send_payload-SendsSealed}
use my_domain_core.Transport.Send.Quiet.{send_control_to-Quiet}
use my_domain_core.Transport.Incoming.{receive, show_or_dispatch}
use my_domain_core.Transport.Incoming.EndToEnd.{IsCodec, receive-IsSealOf}

-- A ping or a pong of the device `id`, and the text that carries it.
abbrev pub note : String → String → Value
note kind id = object (field "type" (string kind) (field "from" (string id) end))

abbrev pub note_text : Host → String → String → String
note_text h kind id = h.json_to_string (note kind id)

-- serde_json reads the note that it wrote.
abbrev pub ReadsNote : Host → String → String → Type 0
ReadsNote h kind id = h.json_from_str (note_text h kind id) ≡ some (note kind id)

-- What leaves in a send's only effect, if that is a datagram.
module _ (h : Host) where
  sealed_in :
      (from text : String) (s : Ctx) (addr : SocketAddr) (bytes : List ℕ) (x : Sent)
      → x.0.trace ≡ udp_sent addr bytes ∷ s.trace
      → SendsSealed h from text s x
      → ((env : Envelope) × IsSealOf h env bytes from text s) × (is_ok x.1 ≡ true)
  sealed_in from text s addr bytes (t, err why) e (inl kept) =
      absurd (omega (arith, ap length kept, ap length e))
  sealed_in from text s addr bytes (t, err why) e
        (inr (env, body, seals, (addr', part, rest, x, failed, cut, told))) =
      cc
  sealed_in from text s addr bytes (t, ok done) e (env, body, effect, seals, carries, told) =
      let same : effect ≡ udp_sent addr bytes = cc in
      let handed : bytes ≡ body = subst (Carries h env body) same carries in
      ((env, rw handed seals), refl)

  -- The datagram that a send hands over holds its message, sealed; and the send has succeeded.
  pub datagram-IsSealOf :
      (from to protocol text : String) (s : Ctx) (addr : SocketAddr) (bytes : List ℕ)
      → (send_payload h from to protocol text s).0.trace ≡ udp_sent addr bytes ∷ s.trace
      → ((env : Envelope) × IsSealOf h env bytes from text s)
        × (is_ok (send_payload h from to protocol text s).1 ≡ true)
  datagram-IsSealOf from to protocol text s addr bytes e =
      sealed_in from text s addr bytes (send_payload h from to protocol text s) e
        (send_payload-SendsSealed h from to protocol text s)

  -- Which handler a note has, on every platform.
  handler_of_note :
      (has_clipboard : Bool)
      → (get (with_defaults has_clipboard) "p2p_ping" ≡ some for_p2p_ping)
        × (get (with_defaults has_clipboard) "p2p_pong" ≡ some for_p2p_ping)
  unfolding with_defaults get insert
  handler_of_note true = (refl, refl)
  handler_of_note false = (refl, refl)

  -- A device that opens a note hands it to the handler of pings.
  note-heard :
      (kind id from ip protocol : String) (s r : Ctx) (env : Envelope) (bytes : List ℕ)
      → IsCipher h
      → IsCodec h
      → r.key ≡ s.key
      → ReadsNote h kind id
      → get (with_defaults r.has_clipboard) kind ≡ some for_p2p_ping
      → IsSealOf h env bytes from (note_text h kind id) s
      → receive h protocol bytes ip r
        ≡ p2p_ping_handler h
            (record { from = from; ip = ip; protocol = protocol; value = note kind id })
            r
  unfolding show_or_dispatch dispatch find_handler handle str_field
  note-heard kind id from ip protocol s r env bytes c d k reads handled seals =
      receive-IsSealOf h s r from (note_text h kind id) ip protocol env bytes c d k seals
      ∙ rw (reads, handled, show_or_dispatch, dispatch, find_handler)

  -- What the handler makes of a ping and of a pong.
  ping_handled :
      (id from ip protocol : String) (r : Ctx)
      → is_empty id ≡ false
      → p2p_ping_handler h
          (record { from = from; ip = ip; protocol = protocol; value = note "p2p_ping" id })
          r
        ≡ send_control_to h id
            (note_text h "p2p_pong" (mark_live id udp none r).identity.node_id)
            (mark_live id udp none r)
  unfolding p2p_ping_handler kind_of str_of str_field
  ping_handled id from ip protocol r named = rw named

  pong_handled :
      (id from ip protocol : String) (r : Ctx)
      → is_empty id ≡ false
      → p2p_ping_handler h
          (record { from = from; ip = ip; protocol = protocol; value = note "p2p_pong" id })
          r
        ≡ mark_live id udp none r
  unfolding p2p_ping_handler kind_of str_of str_field
  pong_handled id from ip protocol r named = rw named

  identity-mark_live :
      (id : String) (r : Ctx)
      → ((mark_live id udp none r).identity ≡ r.identity) × ((mark_live id udp none r).key ≡ r.key)
  unfolding mark_live
  identity-mark_live id r = (ground arith, ground arith)

  -- Two devices with one key. If `a` sends a ping to `b` as a datagram, and what `b` does with it sends
  -- a datagram, then at its end `b` has `a` live; and a device with that key that takes this answer,
  -- whatever else it has done, has `b` live.
  pub ping_pong :
      (a b r : Ctx) (to ip ip' : String) (addr addr' : SocketAddr) (ping pong : List ℕ)
      → IsCipher h
      → IsCodec h
      → ReadsNote h "p2p_ping" a.identity.node_id
      → ReadsNote h "p2p_pong" b.identity.node_id
      → b.key ≡ a.key
      → r.key ≡ a.key
      → is_empty a.identity.node_id ≡ false
      → is_empty b.identity.node_id ≡ false
      → (send_payload h a.identity.name to "UDP"
          (note_text h "p2p_ping" a.identity.node_id)
          a).0.trace
        ≡ udp_sent addr ping ∷ a.trace
      → (receive h "UDP" ping ip b).trace
        ≡ udp_sent addr' pong ∷ (mark_live a.identity.node_id udp none b).trace
      → (is_live (receive h "UDP" ping ip b) a.identity.node_id ≡ true)
        × (is_live (receive h "UDP" pong ip' r) b.identity.node_id ≡ true)
  unfolding is_live send_control_to
  ping_pong a b r to ip ip' addr addr' ping pong c d read read' kb kr named named' pinged ponged =
      let live : Ctx = mark_live a.identity.node_id udp none b in
      let (same, key) = identity-mark_live a.identity.node_id b in
      let ((env, seals), _) = datagram-IsSealOf a.identity.name to "UDP" _ a addr ping pinged in
      let heard =
        note-heard "p2p_ping" a.identity.node_id a.identity.name ip "UDP" a b env ping c d kb read
          (handler_of_note b.has_clipboard).0 seals
        ∙ ping_handled a.identity.node_id a.identity.name ip "UDP" b named in
      let text : String = note_text h "p2p_pong" live.identity.node_id in
      let quiet = send_control_to-Quiet h a.identity.node_id text live in
      let ((env', seals'), _) =
        datagram-IsSealOf live.identity.name a.identity.node_id (best_proto live a.identity.node_id)
          text live addr' pong (sym (ap (λ (t : Ctx). t.trace) heard) ∙ ponged) in
      let heard' =
        note-heard "p2p_pong" live.identity.node_id live.identity.name ip' "UDP" live r env' pong c
          d (kr ∙ sym kb ∙ sym key) (rw same read') (handler_of_note r.has_clipboard).1 seals'
        ∙ pong_handled live.identity.node_id live.identity.name ip' "UDP" r (rw same named') in
      (
        rw heard (rw quiet.live (is_live-mark_live a.identity.node_id b udp none)),
        rw heard' (rw same (is_live-mark_live b.identity.node_id r udp none)),
      )
