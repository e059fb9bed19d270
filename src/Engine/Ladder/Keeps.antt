-- ===== src/Engine/Ladder/Keeps.antt =====
-- engine.rs: what the ladder keeps, if the other threads keep it and sending does.
use my_domain_core.Prelude.{
  if◌then◌else◌, Bool-cases, Option-cases, nat_eq, string_eq, ◌/=◌, All, ℕ, String, inl, inr, Bool,
  true, false, not, ◌&&◌, Option, none, some, List, [], ◌∷◌, arith,
}
use my_domain_core.Prelude.Map.{get}
use my_domain_core.Model.{Peer, Candidate}
use my_domain_core.Host.{Host}
use my_domain_core.Ctx.{Ctx, emit, record_effect, next_turn}
use my_domain_core.Transport.Live.{is_live}
use my_domain_core.Transport.Live.Events.{link_events}
use my_domain_core.Transport.Send.Quiet.{Quiet, Quiet-trans, next_turn-Quiet, send_payload-Quiet}
use my_domain_core.Transport.Punch.{gather_candidates}
use my_domain_core.Transport.Rtc.{new_rtc, create_offer}
use my_domain_core.Engine.Peers.{same_lan}
use my_domain_core.Engine.Signals.Indicator.{ws_connect-Quiet, send_signal_via-Quiet}
use my_domain_core.Engine.Ladder.{
  peer_inbound_blocked, progress, Rung, climb, wait_live, udp_ping_connect, rung_udp, rung_ws,
  rung_signal, offer_punch, rung_punch, offer_rtc, rung_rtc, rungs, run_connect_ladder,
}
use my_domain_core.Engine.Ladder.Wait.{wait_live-keeps}

pub progress-Quiet :
    (node_id stage : String) (detail : Option String) (s : Ctx)
    → Quiet s (progress node_id stage detail s)
unfolding progress emit record_effect link_events
progress-Quiet node_id stage detail s = ground arith

pub create_offer-Quiet : (h : Host) (s : Ctx) → Quiet s (create_offer h s).0
unfolding create_offer new_rtc next_turn
create_offer-Quiet h s = ground arith

module _ (others : Ctx → Ctx) (h : Host) (P : Ctx → Type 0)
    (quiet : (s t : Ctx) → Quiet s t → P s → P t) (run : (t : Ctx) → P t → P (others t))
    (node_id : String) where
  abbrev Keeps : Rung → Type 0
  Keeps r = (s : Ctx) → P s → P (r s).0

  waits : (ms : ℕ) → Keeps (wait_live others node_id ms)
  waits ms s p = wait_live-keeps others node_id P ms s run p

  climb-Keeps : (rs : List Rung) → All Keeps rs → Keeps (climb rs)
  unfolding climb
  climb-Keeps [] ks s p = p
  climb-Keeps (r ∷ rs) (k, ks) s p = elim (Bool-cases (r s).1) [
    | inl up ↦ rw (up, climb) (k s p)
    | inr down ↦ rw (down, climb) (climb-Keeps rs ks (r s).0 (k s p))
  ]

  progressed :
      (stage : String) (detail : Option String) (s : Ctx)
      → P s
      → P (progress node_id stage detail s)
  progressed stage detail s p = quiet s _ (progress-Quiet node_id stage detail s) p

  -- A step that waits if it succeeds.
  waits_if :
      (b : Bool) (ms : ℕ) (s : Ctx)
      → P s
      → P (if b then wait_live others node_id ms s else (s, false)).0
  waits_if true ms s p = waits ms s p
  waits_if false ms s p = p

  udp_ping_connect-Keeps : Keeps (udp_ping_connect others h node_id)
  unfolding udp_ping_connect
  udp_ping_connect-Keeps s p =
      waits_if _ 2000 _ (quiet s _ (send_payload-Quiet h s.identity.name node_id "UDP" _ s) p)

  rung_udp-Keeps : (peer : Peer) → Keeps (rung_udp others h node_id peer)
  unfolding rung_udp
  rung_udp-Keeps peer s p =
      let pinged = udp_ping_connect-Keeps _ (progressed "udp_ping" none s p) in
      elim (Bool-cases (same_lan s peer)) [
        | inr far ↦ rw (far, rung_udp) p
        | inl near ↦
            elim (Bool-cases
              (udp_ping_connect others h node_id (progress node_id "udp_ping" none s)).1) [
                | inl up ↦ rw (near, up, rung_udp) (progressed "connected" (some "udp") _ pinged)
                | inr down ↦ rw (near, down, rung_udp) pinged
              ]
      ]

  rung_ws-Keeps : (peer : Peer) → Keeps (rung_ws others h node_id peer)
  unfolding rung_ws
  rung_ws-Keeps peer s p =
      elim (Bool-cases (peer.ws_port /= 0 && peer.ws_open && not (peer_inbound_blocked peer))) [
        | inr shut ↦ rw (shut, rung_ws) p
        | inl reachable ↦
            rw (reachable, rung_ws)
              (waits_if _ 3000 _ (
                quiet _ _ (ws_connect-Quiet h peer.ip peer.ws_port _)
                  (progressed "direct_ws" none s p)))
      ]

  rung_signal-Keeps : Keeps (rung_signal others h node_id)
  unfolding rung_signal
  rung_signal-Keeps s p = waits_if _ 8000 _ (
      quiet _ _ (Quiet-trans (next_turn-Quiet _) (send_signal_via-Quiet h node_id _ _))
        (progressed "via_signal" none s p))

  rung_punch-Keeps :
      ((mine : List Candidate) → Keeps (offer_punch others h node_id mine))
      → Keeps (rung_punch others h node_id)
  unfolding rung_punch
  rung_punch-Keeps offered s p =
      let turned = quiet _ _ (next_turn-Quiet _) (progressed "punching" none s p) in
      elim (Option-cases (gather_candidates h (progress node_id "punching" none s))) [
        | inl nothing ↦ rw (nothing, rung_punch) turned
        | inr (mine, e) ↦ rw (e, rung_punch) (offered mine _ turned)
      ]

  rung_rtc-Keeps :
      ((negotiation : ℕ) (sdp : String) → Keeps (offer_rtc others h node_id negotiation sdp))
      → Keeps (rung_rtc others h node_id)
  unfolding rung_rtc
  rung_rtc-Keeps offered s p =
      let made = quiet _ _ (create_offer-Quiet h _) (progressed "webrtc" none s p) in
      elim (Option-cases (create_offer h (progress node_id "webrtc" none s)).1) [
        | inl nothing ↦ rw (nothing, rung_rtc) made
        | inr ((negotiation, sdp), e) ↦ rw (e, rung_rtc) (offered negotiation sdp _ made)
      ]

  climbed-Keeps :
      (s : Ctx) (peer : Peer)
      (offered : (mine : List Candidate) → Keeps (offer_punch others h node_id mine))
      (offered' : (negotiation : ℕ) (sdp : String)
        → Keeps (offer_rtc others h node_id negotiation sdp))
      → P s
      → P (climb (rungs others h node_id peer) s).0
  climbed-Keeps s peer offered offered' p =
      climb-Keeps (rungs others h node_id peer)
        (
          rung_udp-Keeps peer,
          (
            rung_ws-Keeps peer,
            (rung_signal-Keeps, (rung_punch-Keeps offered, (rung_rtc-Keeps offered', tt))),
          ),
        )
        s p

  pub run_connect_ladder_keeps :
      (s : Ctx) (offered : (mine : List Candidate) → Keeps (offer_punch others h node_id mine))
      (offered' : (negotiation : ℕ) (sdp : String)
        → Keeps (offer_rtc others h node_id negotiation sdp))
      → P s
      → P (run_connect_ladder others h node_id s)
  unfolding run_connect_ladder
  run_connect_ladder_keeps s offered offered' p = elim (Bool-cases (is_live s node_id)) [
    | inl up ↦ rw (up, run_connect_ladder) (progressed "connected" none s p)
    | inr down ↦ elim (Option-cases (get s.peers node_id)) [
      | inl unknown ↦ rw (down, unknown, run_connect_ladder) (progressed "failed" _ s p)
      | inr (peer, e) ↦
          let climbed = climbed-Keeps s peer offered offered' p in
          elim (Bool-cases (climb (rungs others h node_id peer) s).1) [
            | inl held ↦ rw (down, e, held, run_connect_ladder) climbed
            | inr lost ↦ rw (down, e, lost, run_connect_ladder) (progressed "failed" _ _ climbed)
          ]
    ]
  ]
