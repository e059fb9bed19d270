-- ===== src/Transport/Incoming/EndToEnd.antt =====
-- transport/mod.rs, both ends: a chat message that one device seals is what another one shows.
use my_domain_core.Prelude.{nat_eq, string_eq, ℕ, String, ◌≡◌, ◌∙◌, true, none, some, List}
use my_domain_core.Prelude.Result.{ok}
use my_domain_core.Model.{Plaintext, Envelope, WsFrame, message_received}
use my_domain_core.Host.{Host}
use my_domain_core.Crypto.{IsCipher, decrypt-encrypt}
use my_domain_core.Ctx.{Ctx, emit, now_secs}
use my_domain_core.Features.{dispatch, find_handler}
use my_domain_core.Transport.Send.{seal}
use my_domain_core.Transport.Send.Sealed.{IsSealOf, seal-IsSealOf}
use my_domain_core.Transport.Incoming.{handle_incoming, open_envelope, show_or_dispatch, receive}

-- What the core relies on of serde: each format reads what it wrote.
pub record IsCodec (h : Host) : Type 0 where
  pub plaintext :
      (p : Plaintext) (b : List ℕ)
      → h.plaintext_to_vec p ≡ some b
      → h.plaintext_from_slice b ≡ some p
  pub envelope :
      (e : Envelope) (b : List ℕ) → h.envelope_to_vec e ≡ some b → h.envelope_from_slice b ≡ some e
  pub frame :
      (f : WsFrame) (t : String) → h.frame_to_string f ≡ some t → h.frame_from_str t ≡ some f

-- What a device seals, another one with the same key opens: it goes to the dispatch as it was.
pub receive-IsSealOf :
    (h : Host) (s r : Ctx) (from text ip protocol : String) (env : Envelope) (body : List ℕ)
    → IsCipher h
    → IsCodec h
    → r.key ≡ s.key
    → IsSealOf h env body from text s
    → receive h protocol body ip r
      ≡ show_or_dispatch h (record { from = from; text = text }) ip protocol r
unfolding receive handle_incoming open_envelope
receive-IsSealOf h s r from text ip protocol env body c d k
      (key, plaintext, has, made, encrypted, written) =
    let opened : open_envelope h r env ≡ some plaintext =
      rw (k, has, open_envelope) (decrypt-encrypt h s.turn key plaintext env c encrypted) in
    rw (d.envelope env body written, receive)
      (rw (opened, handle_incoming) (rw (d.plaintext _ plaintext made, handle_incoming)))

-- A chat text sealed on one device and received by TCP or UDP on a device with the same key is
-- shown there, unchanged, as one readable message from the sender, and nothing else happens;
-- provided that the text is no control message which the receiver handles.
pub receive-seal :
    (h : Host) (s r : Ctx) (from text ip protocol : String) (env : Envelope) (body : List ℕ)
    → IsCipher h
    → IsCodec h
    → r.key ≡ s.key
    → seal h s from text ≡ ok (env, body)
    → find_handler h r text ≡ none
    → receive h protocol body ip r
      ≡ emit
          (message_received (record {
            from = from;
            ip = ip;
            protocol = protocol;
            text = text;
            ts = now_secs r;
            ok = true;
          }))
          r
unfolding show_or_dispatch dispatch
receive-seal h s r from text ip protocol env body c d k e chat =
    receive-IsSealOf h s r from text ip protocol env body c d k
      (seal-IsSealOf h from text env body s e)
    ∙ rw (chat, dispatch, show_or_dispatch)
