-- ===== src/Transport/Punch/Driver.antt =====
-- transport/punch.rs: the driver of a punched link (`run_punch_conn`) and the thread around it.
-- The outer `none` of a result is a panic.
pub mod Total
pub mod Returns
pub mod OneWay
use my_domain_core.Prelude.{
  if◌then◌else◌, nat_eq, string_eq, take, ℕ, ◌+◌, ◌%◌, String, Bool, true, false, Option, none,
  some, List, [], ◌∷◌,
}
use my_domain_core.Net.{SocketAddr}
use my_domain_core.Text.{show_ipv4}
use my_domain_core.Model.{Candidate, WsFrame, msg}
use my_domain_core.Host.{Host}
use my_domain_core.Ctx.{Ctx, record_effect, punch_sent}
use my_domain_core.Transport.Live.{touch_live}
use my_domain_core.Transport.Incoming.{handle_incoming}
use my_domain_core.Transport.Chunk.{send_chunked}
use my_domain_core.Transport.Reasm.{Pending, reasm_feed}
use my_domain_core.Transport.Links.{punch_register, link_stays, link_exit}
use my_domain_core.Transport.Punch.{
  punch_magic, punch_ping, punch_pong, same_bytes, to_addrs, Heard, ProbeRound, hole_punch,
  ConfirmRound, confirm_round_trip,
}

-- The driver's own variables.
pub record PunchLink : Type 0 where
  pub conn_id : ℕ
  pub node_id : String
  pub peer : SocketAddr
  pub next_msg_id : ℕ
  pub pending : Pending

-- One round: the frames queued meanwhile, which datagrams can be sent, whether three seconds have
-- passed since the last keepalive, and what is heard.
pub record PunchRound : Type 0 where
  pub outgoing : List String
  pub send_ok : List ℕ → Bool
  pub keepalive : Bool
  pub heard : Heard

unfoldable pub send_packets : SocketAddr → List (List ℕ) → Ctx → Ctx
send_packets peer [] s = s
send_packets peer (p ∷ ps) s = send_packets peer ps (record_effect (punch_sent peer p) s)

-- What a round leaves: the state, the link, and whether the loop goes on.
abbrev pub Round : Type 0
Round = Ctx × PunchLink × Bool

module _ (h : Host) where
  -- `while let Ok(frame) = rx.try_recv()`; `false` is `dead`.
  unfoldable pub send_frames : (List ℕ → Bool) → List String → PunchLink → Ctx → Round
  send_frames send_ok [] link s = (s, link, true)
  send_frames send_ok (f ∷ fs) link s =
      let (packets, sent) = send_chunked send_ok link.next_msg_id (h.utf8 f) in
      let s' = send_packets link.peer packets s in
      let link' = record link { next_msg_id = (link.next_msg_id + 1) % 4294967296 } in
      let rest = send_frames send_ok fs link' s' in if sent then rest else (s', link', false)

  -- A message that is complete.
  unfoldable pub take_frame : Option WsFrame → SocketAddr → Ctx → Ctx
  take_frame (some (msg nonce ciphertext)) src s =
      handle_incoming h (record { nonce = nonce; ciphertext = ciphertext }) (show_ipv4 src.ip) "UDP"
        s
  take_frame _ src s = s

  -- A datagram that is no probe.
  unfoldable pub take_chunk : List ℕ → SocketAddr → PunchLink → Ctx → Option (Ctx × PunchLink)
  take_chunk p src link s = elim (reasm_feed link.pending p) [
    | none ↦ none
    | some (pending, none) ↦ some (s, record link { pending = pending })
    | some (pending, some frame) ↦ some (
      take_frame (h.frame_from_slice frame) src (touch_live link.node_id s),
      record link { pending = pending; peer = src },
    )
  ]

  unfoldable pub take_datagram : List ℕ → SocketAddr → PunchLink → Ctx → Option (Ctx × PunchLink)
  take_datagram p src link s =
      if same_bytes p punch_ping
      then some (
        record_effect (punch_sent src punch_pong) (touch_live link.node_id s),
        record link { peer = src },
      )
      else if same_bytes p punch_pong
      then some (touch_live link.node_id s, record link { peer = src })
      else take_chunk p src link s

  -- 65535 bytes of a datagram are read.
  unfoldable pub take_heard : Heard → PunchLink → Ctx → Option (Ctx × PunchLink)
  take_heard none link s = some (s, link)
  take_heard (some (bytes, src)) link s = take_datagram (take 65535 bytes) src link s

  -- The round behind the flush: keepalive, read, and the test whether the link stays.
  unfoldable pub read_round : PunchRound → PunchLink → Ctx → Option Round
  read_round r link s =
      let s' : Ctx = if r.keepalive then record_effect (punch_sent link.peer punch_ping) s else s in
      elim (take_heard r.heard link s') [
        | none ↦ none
        | some (t, link') ↦ some (t, link', link_stays link'.node_id link'.conn_id t)
      ]

  unfoldable pub punch_round : PunchRound → PunchLink → Ctx → Option Round
  punch_round r link s =
      let (s', link', alive) = send_frames r.send_ok r.outgoing link s in
      if alive then read_round r link' s' else some (s', link', false)

  unfoldable pub punch_loop : List PunchRound → PunchLink → Ctx → Option (Ctx × PunchLink)
  punch_loop [] link s = some (s, link)
  punch_loop (r ∷ rs) link s = elim (punch_round r link s) [
    | none ↦ none
    | some (s', link', more) ↦
        let rest = punch_loop rs link' s' in if more then rest else some (s', link')
  ]

  -- The driver behind its proven path: it registers, loops and leaves. A node that has a connection
  -- already keeps it.
  unfoldable pub punch_conn : List PunchRound → SocketAddr → String → Ctx → Option Ctx
  punch_conn rounds addr node_id s = elim (punch_register node_id addr s) [
    | none ↦ some (record s { punch_seq = s.punch_seq + 1 })
    | some (conn_id, t) ↦
        elim (punch_loop rounds
          (record {
            conn_id = conn_id;
            node_id = node_id;
            peer = addr;
            next_msg_id = 0;
            pending = [];
          })
          t) [ none ↦ none | some (u, link) ↦ some (link_exit node_id conn_id u) ]
  ]

  unfoldable pub run_punch_conn :
      List ConfirmRound → List PunchRound → SocketAddr → String → Ctx → Option Ctx
  run_punch_conn confirming rounds peer node_id s =
      let (s', proven) = confirm_round_trip confirming peer s in
      elim proven [ none ↦ some s' | some addr ↦ punch_conn rounds addr node_id s' ]

-- What the socket of a punched link gives to the thread, phase by phase.
pub record PunchRun : Type 0 where
  pub timeout_set : Bool
  pub probing : List ProbeRound
  pub confirming : List ConfirmRound
  pub rounds : List PunchRound

-- The thread of `punch_and_run`.
unfoldable pub punch_and_run : Host → PunchRun → List Candidate → String → Ctx → Option Ctx
punch_and_run h run cands node_id s =
    let (s', found) = hole_punch run.timeout_set run.probing (to_addrs cands) punch_magic s in
    let driven : Option Ctx = elim found [
      | none ↦ some s'
      | some addr ↦ run_punch_conn h run.confirming run.rounds addr node_id s'
    ] in
    elim (to_addrs cands) [ [] ↦ some s | a ∷ as' ↦ driven ]
