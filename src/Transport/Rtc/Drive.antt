-- ===== src/Transport/Rtc/Drive.antt =====
-- transport/rtc.rs: a WebRTC link from start to end, whatever str0m reports.
use my_domain_core.Prelude.{
  if◌then◌else◌, Bool-cases, nat_eq, string_eq, is_some, ℕ, ◌+◌, String, refl, inl, inr, Bool, true,
  false, Option, none, some, List, [], ◌∷◌,
}
use my_domain_core.Net.{SocketAddr}
use my_domain_core.Model.{WsFrame, hello, msg}
use my_domain_core.Host.{Host}
use my_domain_core.Ctx.{Ctx, record_effect, rtc_sent, rtc_written}
use my_domain_core.Transport.Live.Events.{link_events}
use my_domain_core.Transport.Live.Evolves.{Evolves, same-Evolves}
use my_domain_core.Transport.Send.Quiet.{
  Quiet, Quiet-refl, Quiet-trans, Quiet-Evolves, record_effect-Quiet,
}
use my_domain_core.Transport.Incoming.Indicator.{handle_incoming-Evolves}
use my_domain_core.Transport.Links.{rtc_register}
use my_domain_core.Transport.Links.Indicator.{links-Evolves, hang_up-Evolves}
use my_domain_core.Transport.Rtc.{
  RtcLink, RtcOutput, transmit, channel_open, channel_data, channel_close, other_event, RtcRound,
  write_frames, take_data, take_output, pump, drive_round, drive_loop, rtc_cleanup, drive,
}

rtc_sent-Quiet : (a : SocketAddr) (b : List ℕ) (s : Ctx) → Quiet s (record_effect (rtc_sent a b) s)
unfolding link_events
rtc_sent-Quiet a b s = record_effect-Quiet (rtc_sent a b) s (λ trace. refl)

rtc_written-Quiet : (c : ℕ) (f : String) (s : Ctx) → Quiet s (record_effect (rtc_written c f) s)
unfolding link_events
rtc_written-Quiet c f s = record_effect-Quiet (rtc_written c f) s (λ trace. refl)

write_frames-Quiet :
    (has_channel : Bool) (c : ℕ) (fs : List String) (s : Ctx)
    → Quiet s (write_frames has_channel c fs s)
unfolding write_frames
write_frames-Quiet up c [] s = Quiet-refl s
write_frames-Quiet true c (f ∷ fs) s =
    Quiet-trans (rtc_written-Quiet c f s) (write_frames-Quiet true c fs _)
write_frames-Quiet false c (f ∷ fs) s = write_frames-Quiet false c fs s

module _ (h : Host) where
  take_data-Evolves :
      {s0 : Ctx} (f : Option WsFrame) (s : Ctx) → Evolves s0 s → Evolves s0 (take_data h f s)
  unfolding take_data
  take_data-Evolves none s k = k
  take_data-Evolves (some (hello n name)) s k = k
  take_data-Evolves (some (msg nonce ciphertext)) s k =
      handle_incoming-Evolves h (record { nonce = nonce; ciphertext = ciphertext }) "" "UDP" s k

  registered-Evolves :
      {s0 : Ctx} (b : Bool) (node_id : String) (c : ℕ) (s : Ctx)
      → Evolves s0 s
      → Evolves s0 (if b then s else rtc_register node_id c s)
  registered-Evolves true node_id c s k = k
  registered-Evolves false node_id c s k =
      (links-Evolves node_id c (record { ip = record { o0 = 0; o1 = 0; o2 = 0; o3 = 0 }; port = 0 })
        s k).1

  take_output-Evolves :
      {s0 : Ctx} (o : RtcOutput) (link : RtcLink) (s : Ctx)
      → Evolves s0 s
      → Evolves s0 (take_output h o link s).0
  unfolding take_output
  take_output-Evolves (transmit to contents) link s k =
      Quiet-Evolves (rtc_sent-Quiet to contents s) k
  take_output-Evolves (channel_open c) link s k =
      registered-Evolves link.registered link.node_id link.conn_id s k
  take_output-Evolves (channel_data bytes) link s k =
      take_data-Evolves (h.frame_from_slice bytes) s k
  take_output-Evolves channel_close link s k = k
  take_output-Evolves other_event link s k = k

  pump-Evolves :
      {s0 : Ctx} (os : List RtcOutput) (link : RtcLink) (s : Ctx)
      → Evolves s0 s
      → Evolves s0 (pump h os link s).0
  unfolding pump
  pump-Evolves [] link s k = k
  pump-Evolves (o ∷ os) link s k = pump-Evolves os _ _ (take_output-Evolves o link s k)

  written-Evolves :
      {s0 : Ctx} (b : Bool) (r : RtcRound) (link : RtcLink) (s : Ctx)
      → Evolves s0 s
      → Evolves s0 (if b then write_frames r.has_channel link.conn_id r.outgoing s else s)
  written-Evolves true r link s k =
      Quiet-Evolves (write_frames-Quiet r.has_channel link.conn_id r.outgoing s) k
  written-Evolves false r link s k = k

  pub drive_round-Evolves :
      {s0 : Ctx} (r : RtcRound) (link : RtcLink) (s : Ctx)
      → Evolves s0 s
      → Evolves s0 (drive_round h r link s).0
  unfolding drive_round
  drive_round-Evolves r link s k = elim (Bool-cases r.alive) [
    | inl up ↦ rw up (pump-Evolves r.outputs link _ (written-Evolves (is_some link.cid) r link s k))
    | inr dead ↦ rw dead k
  ]

  drive_loop-Evolves :
      {s0 : Ctx} (rs : List RtcRound) (link : RtcLink) (s : Ctx)
      → Evolves s0 s
      → Evolves s0 (drive_loop h rs link s).0
  unfolding drive_loop
  drive_loop-Evolves [] link s k = k
  drive_loop-Evolves (r ∷ rs) link s k =
      let (s', link', more) = drive_round h r link s in
      elim (Bool-cases more) [
        | inl on ↦ rw on (drive_loop-Evolves rs link' s' (drive_round-Evolves r link s k))
        | inr off ↦ rw off (drive_round-Evolves r link s k)
      ]

  pub rtc_cleanup-Evolves :
      {s0 : Ctx} (link : RtcLink) (s : Ctx) → Evolves s0 s → Evolves s0 (rtc_cleanup h link s)
  unfolding rtc_cleanup
  rtc_cleanup-Evolves link s k = elim (Bool-cases link.registered) [
    | inl reg ↦
        rw reg
          (links-Evolves link.node_id link.conn_id
            (record { ip = record { o0 = 0; o1 = 0; o2 = 0; o3 = 0 }; port = 0 }) s k).0
    | inr un ↦ rw un (hang_up-Evolves link.conn_id s k)
  ]

  pub seq-Evolves :
      {s0 : Ctx} (s : Ctx) → Evolves s0 s → Evolves s0 (record s { rtc_seq = s.rtc_seq + 1 })
  seq-Evolves s k = same-Evolves s (record s { rtc_seq = s.rtc_seq + 1 }) refl refl refl k

  pub drive-Evolves :
      {s0 : Ctx} (rounds : List RtcRound) (node_id : String) (s : Ctx)
      → Evolves s0 s
      → Evolves s0 (drive h rounds node_id s)
  unfolding drive
  drive-Evolves rounds node_id s k =
      rtc_cleanup-Evolves _ _ (drive_loop-Evolves rounds _ _ (seq-Evolves s k))
