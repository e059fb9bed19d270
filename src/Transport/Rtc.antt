-- ===== src/Transport/Rtc.antt =====
-- transport/rtc.rs: WebRTC links. str0m is part of `Host` where it makes and reads descriptions; in a
-- driver it is what each round of the loop gets from it. The number of a negotiation stands for its
-- `Rtc`, its socket and its pending offer.
pub mod Drive
use my_domain_core.Prelude.{
  if◌then◌else◌, nat_eq, string_eq, is_some, ℕ, ◌+◌, String, Bool, true, false, ◌&&◌, Option, none,
  some, List, [], ◌∷◌,
}
use my_domain_core.Net.{SocketAddr}
use my_domain_core.Model.{WsFrame, msg}
use my_domain_core.Host.{Host}
use my_domain_core.Ctx.{Ctx, record_effect, next_turn, spawned, rtc_driver, rtc_sent, rtc_written}
use my_domain_core.Transport.Incoming.{handle_incoming}
use my_domain_core.Transport.Links.{hang_up, link_stays, link_exit, rtc_register}
use my_domain_core.Transport.Punch.{ask_stun}

module _ (h : Host) where
  -- `new_rtc`: the local address of its socket, and the reflexive one if STUN tells it.
  unfoldable pub new_rtc : Ctx → Option (SocketAddr × Option SocketAddr)
  new_rtc s = elim (h.rtc_socket s.turn s.identity.ip) [
    | none ↦ none
    | some local ↦ some (local, ask_stun h s)
  ]

  -- The number of the negotiation and the offer.
  unfoldable pub create_offer : Ctx → Ctx × Option (ℕ × String)
  create_offer s = elim (new_rtc s) [
    | none ↦ (next_turn s, none)
    | some (local, refl') ↦ elim (h.rtc_offer s.turn local refl') [
      | none ↦ (next_turn s, none)
      | some sdp ↦ (next_turn s, some (s.turn, sdp))
    ]
  ]

  unfoldable pub apply_answer_and_run : ℕ → String → String → Ctx → Ctx × Bool
  apply_answer_and_run negotiation answer_sdp node_id s =
      if h.rtc_takes_answer negotiation answer_sdp
      then (record_effect (spawned (rtc_driver node_id)) s, true)
      else (s, false)

  -- Behind an offer that can be read.
  unfoldable pub accept_offer : String → String → Ctx → Ctx × Option String
  accept_offer offer_sdp node_id s = elim (new_rtc s) [
    | none ↦ (next_turn s, none)
    | some (local, refl') ↦ elim (h.rtc_accept s.turn local refl' offer_sdp) [
      | none ↦ (next_turn s, none)
      | some answer ↦ (record_effect (spawned (rtc_driver node_id)) (next_turn s), some answer)
    ]
  ]

  unfoldable pub accept_offer_and_run : String → String → Ctx → Ctx × Option String
  accept_offer_and_run offer_sdp node_id s =
      if h.rtc_reads_offer offer_sdp then accept_offer offer_sdp node_id s else (s, none)

-- The variables of `drive`.
pub record RtcLink : Type 0 where
  pub conn_id : ℕ
  pub node_id : String
  pub cid : Option ℕ
  pub registered : Bool

-- What `poll_output` returns before a timeout or an error.
pub data RtcOutput : Type 0 where
  transmit : SocketAddr → List ℕ → RtcOutput
  channel_open : ℕ → RtcOutput
  channel_data : List ℕ → RtcOutput
  -- `rtc.disconnect()`: a later round finds it not alive
  channel_close other_event : RtcOutput

-- One round: whether str0m is alive, the frames queued meanwhile, whether it still has the channel,
-- its outputs, and whether they end with a timeout rather than an error.
pub record RtcRound : Type 0 where
  pub alive : Bool
  pub outgoing : List String
  pub has_channel : Bool
  pub outputs : List RtcOutput
  pub poll_ok : Bool

-- `while let Ok(frame) = rx.try_recv()`: without the channel the frames are lost.
unfoldable pub write_frames : Bool → ℕ → List String → Ctx → Ctx
write_frames has_channel conn_id [] s = s
write_frames has_channel conn_id (f ∷ fs) s =
    write_frames has_channel conn_id fs
      (if has_channel then record_effect (rtc_written conn_id f) s else s)

module _ (h : Host) where
  unfoldable pub take_data : Option WsFrame → Ctx → Ctx
  take_data (some (msg nonce ciphertext)) s =
      handle_incoming h (record { nonce = nonce; ciphertext = ciphertext }) "" "UDP" s
  take_data _ s = s

  unfoldable pub take_output : RtcOutput → RtcLink → Ctx → Ctx × RtcLink
  take_output (transmit to contents) link s = (record_effect (rtc_sent to contents) s, link)
  take_output (channel_open c) link s = (
    (if link.registered then s else rtc_register link.node_id link.conn_id s),
    record link { cid = some c; registered = true },
  )
  take_output (channel_data bytes) link s = (take_data (h.frame_from_slice bytes) s, link)
  take_output channel_close link s = (s, link)
  take_output other_event link s = (s, link)

  unfoldable pub pump : List RtcOutput → RtcLink → Ctx → Ctx × RtcLink
  pump [] link s = (s, link)
  pump (o ∷ os) link s = let (s', link') = take_output o link s in pump os link' s'

  -- `false`: the loop is left.
  unfoldable pub drive_round : RtcRound → RtcLink → Ctx → Ctx × RtcLink × Bool
  drive_round r link s =
      let s' : Ctx =
        if is_some link.cid then write_frames r.has_channel link.conn_id r.outgoing s else s in
      let (s'', link') = pump r.outputs link s' in
      let stays : Bool =
        if link'.registered then link_stays link'.node_id link'.conn_id s'' else true in
      if r.alive then (s'', link', r.poll_ok && stays) else (s, link, false)

  unfoldable pub drive_loop : List RtcRound → RtcLink → Ctx → Ctx × RtcLink
  drive_loop [] link s = (s, link)
  drive_loop (r ∷ rs) link s =
      let (s', link', more) = drive_round r link s in
      let rest = drive_loop rs link' s' in if more then rest else (s', link')

  -- `cleanup`; the receiver of the channel ends with the thread.
  unfoldable pub rtc_cleanup : RtcLink → Ctx → Ctx
  rtc_cleanup link s =
      if link.registered then link_exit link.node_id link.conn_id s else hang_up link.conn_id s

  unfoldable pub drive : List RtcRound → String → Ctx → Ctx
  drive rounds node_id s =
      let link : RtcLink = record {
        conn_id = s.rtc_seq;
        node_id = node_id;
        cid = none;
        registered = false;
      } in
      let (s', link') = drive_loop rounds link (record s { rtc_seq = s.rtc_seq + 1 }) in
      rtc_cleanup link' s'
