-- ===== src/Engine/Ladder/End.antt =====
-- engine.rs: how the ladder ends.
use my_domain_core.Prelude.{
  if◌then◌else◌, Bool-cases, Option-cases, nat_eq, string_eq, ◌/=◌, All, ℕ, String, ◌≡◌, refl, sym,
  ◌∙◌, ◌⊎◌, inl, inr, Bool, true, false, not, ◌&&◌, Option, none, some, List, [], ◌∷◌,
}
use my_domain_core.Prelude.Map.{get}
use my_domain_core.Model.{Peer, Candidate, connect_progress}
use my_domain_core.Host.{Host}
use my_domain_core.Ctx.{Ctx, Effect, emitted, emit, record_effect}
use my_domain_core.Transport.Live.{is_live}
use my_domain_core.Transport.Punch.{gather_candidates}
use my_domain_core.Transport.Rtc.{create_offer}
use my_domain_core.Engine.Peers.{same_lan}
use my_domain_core.Engine.Ladder.{
  peer_inbound_blocked, progress, punch_answer_of, rtc_answer_of, Rung, climb, wait_live,
  udp_ping_connect, rung_udp, rung_ws, rung_signal, punch_to, offer_punch, rung_punch, drive_to,
  offer_rtc, rung_rtc, rungs, run_connect_ladder,
}
use my_domain_core.Engine.Ladder.Wait.{wait_live-live}

-- A rung that holds has the node live in the state that it leaves.
abbrev IsSure : String → Rung → Type 0
IsSure node_id r = (s : Ctx) → (r s).1 ≡ true → is_live (r s).0 node_id ≡ true

-- The state says `failed` as its last effect.
abbrev pub IsFailed : String → Ctx → Type 0
IsFailed node_id s =
    (detail : String) × (trace : List Effect) × (s.trace
      ≡ emitted (connect_progress node_id "failed" (some detail)) ∷ trace)

progress-live :
    (node_id stage : String) (detail : Option String) (s : Ctx)
    → is_live s node_id ≡ true
    → is_live (progress node_id stage detail s) node_id ≡ true
unfolding progress emit record_effect is_live
progress-live node_id stage detail s e = e

progress-IsFailed :
    (node_id detail : String) (s : Ctx)
    → IsFailed node_id (progress node_id "failed" (some detail) s)
unfolding progress emit record_effect
progress-IsFailed node_id detail s = (detail, s.trace, refl)

climb-IsSure :
    (node_id : String) (rs : List Rung) → All (IsSure node_id) rs → IsSure node_id (climb rs)
unfolding climb
climb-IsSure node_id [] ks s = λ e. cc
climb-IsSure node_id (r ∷ rs) (k, ks) s = elim (Bool-cases (r s).1) [
  | inl up ↦ rw (up, climb) (λ e. k s up)
  | inr down ↦ rw (down, climb) (climb-IsSure node_id rs ks (r s).0)
]

module _ (others : Ctx → Ctx) (h : Host) (node_id : String) where
  wait_live-IsSure : (ms : ℕ) → IsSure node_id (wait_live others node_id ms)
  wait_live-IsSure ms s e = sym (wait_live-live others node_id ms s) ∙ e

  -- A step that is taken only if the one before succeeds.
  sure_if :
      (b : Bool) (x : Ctx × Bool) (s : Ctx)
      → (x.1 ≡ true → is_live x.0 node_id ≡ true)
      → (if b then x else (s, false)).1 ≡ true
      → is_live (if b then x else (s, false)).0 node_id ≡ true
  sure_if true x s sure e = sure e
  sure_if false x s sure e = cc

  udp_ping_connect-IsSure : IsSure node_id (udp_ping_connect others h node_id)
  unfolding udp_ping_connect
  udp_ping_connect-IsSure s = sure_if _ _ _ (wait_live-IsSure 2000 _)

  rung_udp-IsSure : (peer : Peer) → IsSure node_id (rung_udp others h node_id peer)
  unfolding rung_udp
  rung_udp-IsSure peer s = elim (Bool-cases (same_lan s peer)) [
    | inr far ↦ rw (far, rung_udp) (λ e. cc)
    | inl near ↦
        elim (Bool-cases
          (udp_ping_connect others h node_id (progress node_id "udp_ping" none s)).1) [
            | inl up ↦
                rw (near, up, rung_udp)
                  (λ e. progress-live node_id _ _ _ (udp_ping_connect-IsSure _ up))
            | inr down ↦ rw (near, down, rung_udp) (λ e. cc)
          ]
  ]

  rung_ws-IsSure : (peer : Peer) → IsSure node_id (rung_ws others h node_id peer)
  unfolding rung_ws
  rung_ws-IsSure peer s =
      elim (Bool-cases (peer.ws_port /= 0 && peer.ws_open && not (peer_inbound_blocked peer))) [
        | inr shut ↦ rw (shut, rung_ws) (λ e. cc)
        | inl reachable ↦ rw (reachable, rung_ws) (sure_if _ _ _ (wait_live-IsSure 3000 _))
      ]

  rung_signal-IsSure : IsSure node_id (rung_signal others h node_id)
  unfolding rung_signal
  rung_signal-IsSure s = sure_if _ _ _ (wait_live-IsSure 8000 _)

  punch_to-IsSure :
      (sid : String) (waiter : ℕ) → IsSure node_id (punch_to others h node_id sid waiter)
  unfolding punch_to
  punch_to-IsSure sid waiter s = elim (Option-cases (punch_answer_of waiter s.trace)) [
    | inl nothing ↦ rw (nothing, punch_to) (λ e. cc)
    | inr (theirs, found) ↦ rw (found, punch_to) (wait_live-IsSure 12000 _)
  ]

  offer_punch-IsSure : (mine : List Candidate) → IsSure node_id (offer_punch others h node_id mine)
  unfolding offer_punch
  offer_punch-IsSure mine s = sure_if _ _ _ (punch_to-IsSure _ _ _)

  rung_punch-IsSure : IsSure node_id (rung_punch others h node_id)
  unfolding rung_punch
  rung_punch-IsSure s =
      elim (Option-cases (gather_candidates h (progress node_id "punching" none s))) [
        | inl nothing ↦ rw (nothing, rung_punch) (λ e. cc)
        | inr (mine, found) ↦ rw (found, rung_punch) (offer_punch-IsSure mine _)
      ]

  drive_to-IsSure :
      (negotiation : ℕ) (sid : String) (waiter : ℕ)
      → IsSure node_id (drive_to others h node_id negotiation sid waiter)
  unfolding drive_to
  drive_to-IsSure negotiation sid waiter s = elim (Option-cases (rtc_answer_of waiter s.trace)) [
    | inl nothing ↦ rw (nothing, drive_to) (λ e. cc)
    | inr (sdp, found) ↦ rw (found, drive_to) (sure_if _ _ _ (wait_live-IsSure 12000 _))
  ]

  offer_rtc-IsSure :
      (negotiation : ℕ) (sdp : String) → IsSure node_id (offer_rtc others h node_id negotiation sdp)
  unfolding offer_rtc
  offer_rtc-IsSure negotiation sdp s = sure_if _ _ _ (drive_to-IsSure negotiation _ _ _)

  rung_rtc-IsSure : IsSure node_id (rung_rtc others h node_id)
  unfolding rung_rtc
  rung_rtc-IsSure s = elim (Option-cases (create_offer h (progress node_id "webrtc" none s)).1) [
    | inl nothing ↦ rw (nothing, rung_rtc) (λ e. cc)
    | inr ((negotiation, sdp), found) ↦ rw (found, rung_rtc) (offer_rtc-IsSure negotiation sdp _)
  ]

  climbed-IsSure : (peer : Peer) → IsSure node_id (climb (rungs others h node_id peer))
  climbed-IsSure peer = climb-IsSure node_id (rungs others h node_id peer) (
    rung_udp-IsSure peer,
    (rung_ws-IsSure peer, (rung_signal-IsSure, (rung_punch-IsSure, (rung_rtc-IsSure, tt)))),
  )

  -- The ladder never ends in silence: whatever the other threads do while it waits, when it ends the
  -- node is live, or the last thing that it has told the user is that it failed.
  pub run_connect_ladder_ends :
      (s : Ctx)
      → (is_live (run_connect_ladder others h node_id s) node_id ≡ true)
        ⊎ IsFailed node_id (run_connect_ladder others h node_id s)
  unfolding run_connect_ladder
  run_connect_ladder_ends s = elim (Bool-cases (is_live s node_id)) [
    | inl up ↦ rw (up, run_connect_ladder) (inl (progress-live node_id _ _ s up))
    | inr down ↦ elim (Option-cases (get s.peers node_id)) [
      | inl unknown ↦ rw (down, unknown, run_connect_ladder) (inr (progress-IsFailed node_id _ s))
      | inr (peer, found) ↦ elim (Bool-cases (climb (rungs others h node_id peer) s).1) [
        | inl held ↦ rw (down, found, held, run_connect_ladder) (inl (climbed-IsSure peer s held))
        | inr lost ↦
            rw (down, found, lost, run_connect_ladder) (inr (progress-IsFailed node_id _ _))
      ]
    ]
  ]
