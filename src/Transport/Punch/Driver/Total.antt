-- ===== src/Transport/Punch/Driver/Total.antt =====
-- transport/punch.rs: a round of a punched link, whatever the peer sends.
use my_domain_core.Prelude.{
  if◌then◌else◌, Bool-cases, nat_eq, string_eq, take, All, IsByte, ℕ, zero, suc, String, ◌≡◌, refl,
  inl, inr, Bool, Option, none, some, List, [], ◌∷◌,
}
use my_domain_core.Net.{SocketAddr}
use my_domain_core.Text.{show_ipv4}
use my_domain_core.Model.{WsFrame, hello, msg}
use my_domain_core.Host.{Host}
use my_domain_core.Ctx.{Ctx, record_effect, punch_sent}
use my_domain_core.Transport.Live.Evolves.{Evolves, touch_live-Evolves}
use my_domain_core.Transport.Send.Quiet.{Quiet, Quiet-refl, Quiet-trans, Quiet-Evolves}
use my_domain_core.Transport.Incoming.Indicator.{handle_incoming-Evolves}
use my_domain_core.Transport.Chunk.{send_chunked}
use my_domain_core.Transport.Reasm.{Pending, reasm_feed}
use my_domain_core.Transport.Reasm.Valid.{IsPending}
use my_domain_core.Transport.Reasm.Invariant.{reasm_feed-IsPending}
use my_domain_core.Transport.Punch.{punch_ping, punch_pong, same_bytes, Heard}
use my_domain_core.Transport.Punch.Path.{punch_sent-Quiet}
use my_domain_core.Transport.Punch.Driver.{
  PunchLink, PunchRound, send_packets, send_frames, take_frame, take_chunk, take_datagram,
  take_heard, read_round, punch_round, Round,
}

-- The datagram, if one is heard, consists of bytes.
abbrev pub IsHeard : Heard → Type 0
IsHeard none = Unit
IsHeard (some (bytes, src)) = All IsByte bytes

abbrev pub IsRound : PunchRound → Type 0
IsRound r = IsHeard r.heard

-- What the loop keeps: the history of the registry and a valid reassembly table.
abbrev pub IsKept : Ctx → Ctx → PunchLink → Type 0
IsKept s0 s link = Evolves s0 s × IsPending link.pending

abbrev pub Keeps : Ctx → Option (Ctx × PunchLink) → Type 0
Keeps s0 none = ⊥
Keeps s0 (some (s, link)) = IsKept s0 s link

abbrev pub KeepsRound : Ctx → Option Round → Type 0
KeepsRound s0 none = ⊥
KeepsRound s0 (some (s, link, more)) = IsKept s0 s link

take-IsByte : (n : ℕ) (b : List ℕ) → All IsByte b → All IsByte (take n b)
take-IsByte zero b k = tt
take-IsByte (suc n) [] k = tt
take-IsByte (suc n) (x ∷ b) (k, ks) = (k, take-IsByte n b ks)

send_packets-Quiet :
    (peer : SocketAddr) (ps : List (List ℕ)) (s : Ctx) → Quiet s (send_packets peer ps s)
unfolding send_packets
send_packets-Quiet peer [] s = Quiet-refl s
send_packets-Quiet peer (p ∷ ps) s =
    Quiet-trans (punch_sent-Quiet peer p s)
      (send_packets-Quiet peer ps (record_effect (punch_sent peer p) s))

module _ (s0 : Ctx) (h : Host) where
  send_frames-IsKept :
      (send_ok : List ℕ → Bool) (fs : List String) (link : PunchLink) (s : Ctx)
      → IsKept s0 s link
      → IsKept s0 (send_frames h send_ok fs link s).0 (send_frames h send_ok fs link s).1
  unfolding send_frames
  send_frames-IsKept send_ok [] link s k = k
  send_frames-IsKept send_ok (f ∷ fs) link s (shown, table) =
      let (packets, sent) = send_chunked send_ok link.next_msg_id (h.utf8 f) in
      let still = Quiet-Evolves (send_packets-Quiet link.peer packets s) shown in
      elim (Bool-cases sent) [
        | inl all ↦ rw all (send_frames-IsKept send_ok fs _ _ (still, table))
        | inr failed ↦ rw failed (still, table)
      ]

  take_frame-Evolves :
      (f : Option WsFrame) (src : SocketAddr) (s : Ctx)
      → Evolves s0 s
      → Evolves s0 (take_frame h f src s)
  unfolding take_frame
  take_frame-Evolves none src s k = k
  take_frame-Evolves (some (hello n name)) src s k = k
  take_frame-Evolves (some (msg nonce ciphertext)) src s k =
      handle_incoming-Evolves h (record { nonce = nonce; ciphertext = ciphertext })
        (show_ipv4 src.ip) "UDP" s k

  fed-Keeps :
      (p : List ℕ) (src : SocketAddr) (link : PunchLink) (s : Ctx) (pending : Pending)
      (out : Option (List ℕ))
      → reasm_feed link.pending p ≡ some (pending, out)
      → Evolves s0 s
      → IsPending pending
      → Keeps s0 (take_chunk h p src link s)
  unfolding take_chunk
  fed-Keeps p src link s pending none e shown k = rw (e, take_chunk) (shown, k)
  fed-Keeps p src link s pending (some frame) e shown k =
      rw (e, take_chunk)
        (
          take_frame-Evolves (h.frame_from_slice frame) src _
              (touch_live-Evolves link.node_id s shown),
          k,
        )

  take_chunk-Keeps :
      (p : List ℕ) (src : SocketAddr) (link : PunchLink) (s : Ctx)
      → All IsByte p
      → IsKept s0 s link
      → Keeps s0 (take_chunk h p src link s)
  take_chunk-Keeps p src link s b (shown, table) =
      let (pending, out, e, k) = reasm_feed-IsPending link.pending p table b in
      fed-Keeps p src link s pending out e shown k

  take_datagram-Keeps :
      (p : List ℕ) (src : SocketAddr) (link : PunchLink) (s : Ctx)
      → All IsByte p
      → IsKept s0 s link
      → Keeps s0 (take_datagram h p src link s)
  unfolding take_datagram
  take_datagram-Keeps p src link s b (shown, table) = elim (Bool-cases (same_bytes p punch_ping)) [
    | inl ping ↦ rw ping (
      Quiet-Evolves (punch_sent-Quiet src punch_pong _) (touch_live-Evolves link.node_id s shown),
      table,
    )
    | inr other ↦ rw other (elim (Bool-cases (same_bytes p punch_pong)) [
      | inl pong ↦ rw pong (touch_live-Evolves link.node_id s shown, table)
      | inr chunk ↦ rw chunk (take_chunk-Keeps p src link s b (shown, table))
    ])
  ]

  take_heard-Keeps :
      (x : Heard) (link : PunchLink) (s : Ctx)
      → IsHeard x
      → IsKept s0 s link
      → Keeps s0 (take_heard h x link s)
  unfolding take_heard
  take_heard-Keeps none link s b k = k
  take_heard-Keeps (some (bytes, src)) link s b k =
      take_datagram-Keeps (take 65535 bytes) src link s (take-IsByte 65535 bytes b) k

  read_round-keeps :
      (r : PunchRound) (link : PunchLink) (s : Ctx)
      → IsRound r
      → IsKept s0 s link
      → KeepsRound s0 (read_round h r link s)
  unfolding read_round
  read_round-keeps r link s b (shown, table) =
      let s' : Ctx = if r.keepalive then record_effect (punch_sent link.peer punch_ping) s else s in
      let pinged : Evolves s0 s' = elim (Bool-cases r.keepalive) [
        | inl due ↦ rw due (Quiet-Evolves (punch_sent-Quiet link.peer punch_ping s) shown)
        | inr early ↦ rw early shown
      ] in
      read-keeps r link s (take_heard h r.heard link s') refl
        (take_heard-Keeps r.heard link s' b (pinged, table))
    where
      read-keeps :
          (r : PunchRound) (link : PunchLink) (s : Ctx) (x : Option (Ctx × PunchLink))
          → take_heard h r.heard link
              (if r.keepalive then record_effect (punch_sent link.peer punch_ping) s else s)
            ≡ x
          → Keeps s0 x
          → KeepsRound s0 (read_round h r link s)
      read-keeps r link s none e k = absurd k
      read-keeps r link s (some (t, link')) e k = rw (e, read_round) k

  pub punch_round-keeps :
      (r : PunchRound) (link : PunchLink) (s : Ctx)
      → IsRound r
      → IsKept s0 s link
      → KeepsRound s0 (punch_round h r link s)
  unfolding punch_round
  punch_round-keeps r link s b k =
      let (s', link', alive) = send_frames h r.send_ok r.outgoing link s in
      let sent = send_frames-IsKept r.send_ok r.outgoing link s k in
      elim (Bool-cases alive) [
        | inl up ↦ rw up (read_round-keeps r link' s' b sent)
        | inr dead ↦ rw dead sent
      ]
