-- ===== src/Engine/Signals/Indicator.antt =====
-- engine.rs: signals against the machine of the live registry.
use my_domain_core.Prelude.{
  Option-cases, nat_eq, string_eq, ℕ, String, refl, inl, inr, Bool, true, List, arith,
}
use my_domain_core.Prelude.Map.{get}
use my_domain_core.Model.{
  Candidate, Signal, punch_ready, punch_failed, relay_offer, relay_answer, start_ws, ws_ready,
  ws_unavailable, punch_offer, punch_answer, sdp_offer, sdp_answer, bye,
}
use my_domain_core.Host.{Host}
use my_domain_core.Ctx.{Ctx, Thread, record_effect, next_turn, spawned}
use my_domain_core.Transport.Live.{is_live}
use my_domain_core.Transport.Live.Events.{link_events}
use my_domain_core.Transport.Live.Evolves.{Evolves, drop_live-Evolves, IsDim-Evolves}
use my_domain_core.Transport.Send.Quiet.{
  Quiet, Quiet-trans, Quiet-Evolves, next_turn-Quiet, record_effect-Quiet,
}
use my_domain_core.Transport.Dial.{ws_connect}
use my_domain_core.Transport.Punch.{gather_candidates}
use my_domain_core.Transport.Rtc.{accept_offer, accept_offer_and_run}
use my_domain_core.Engine.Signals.{
  tell_state, update_ws_open, relay, send_signal, send_signal_via, answer_punch, answer_rtc,
  hand_candidates, hand_sdp, take_start_ws, take_signal, on_signal,
}

module _ (h : Host) where
  pub update_ws_open-Quiet : (b : Bool) (s : Ctx) → Quiet s (update_ws_open h b s).0
  unfolding update_ws_open tell_state record_effect next_turn link_events
  update_ws_open-Quiet b s = ground arith

  pub send_signal-Quiet :
      (to : String) (sig : Signal) (s : Ctx) → Quiet s (send_signal h to sig s).0
  unfolding send_signal relay record_effect next_turn link_events
  send_signal-Quiet to sig s = ground arith

  pub ws_connect-Quiet : (ip : String) (port : ℕ) (s : Ctx) → Quiet s (ws_connect h ip port s).0
  unfolding ws_connect record_effect next_turn link_events
  ws_connect-Quiet ip port s = ground arith

  hand_candidates-Evolves :
      {s0 : Ctx} (sid : String) (c : List Candidate) (s : Ctx)
      → Evolves s0 s
      → Evolves s0 (hand_candidates h sid c s)
  unfolding hand_candidates record_effect link_events is_live
  hand_candidates-Evolves sid c s k = elim (Option-cases (get s.punch_waiters sid)) [
    | inl nobody ↦ rw (nobody, hand_candidates) k
    | inr (w, e) ↦
        rw (e, hand_candidates)
          (IsDim-Evolves (record { live = refl; told = refl; session = refl }) k)
  ]

  hand_sdp-Evolves :
      {s0 : Ctx} (sid sdp : String) (s : Ctx) → Evolves s0 s → Evolves s0 (hand_sdp h sid sdp s)
  unfolding hand_sdp record_effect link_events is_live
  hand_sdp-Evolves sid sdp s k = elim (Option-cases (get s.rtc_waiters sid)) [
    | inl nobody ↦ rw (nobody, hand_sdp) k
    | inr (w, e) ↦
        rw (e, hand_sdp) (IsDim-Evolves (record { live = refl; told = refl; session = refl }) k)
  ]

  accept_offer_and_run-Quiet :
      (sdp from : String) (s : Ctx) → Quiet s (accept_offer_and_run h sdp from s).0
  unfolding accept_offer_and_run accept_offer record_effect next_turn link_events
  accept_offer_and_run-Quiet sdp from s = ground arith

  pub send_signal_via-Quiet :
      (to : String) (sig : Signal) (s : Ctx) → Quiet s (send_signal_via h to sig s).0
  unfolding send_signal_via relay record_effect next_turn link_events
  send_signal_via-Quiet to sig s = ground arith

  pub spawned-Quiet : (t : Thread) (s : Ctx) → Quiet s (record_effect (spawned t) s)
  unfolding link_events
  spawned-Quiet t s = record_effect-Quiet (spawned t) s (λ trace. refl)

  -- No signal but `bye` touches the live registry or an indicator, and `bye` drops its sender.
  take_signal-Evolves :
      {s0 : Ctx} (from : String) (sig : Signal) (s : Ctx)
      → Evolves s0 s
      → Evolves s0 (take_signal h from sig s)
  unfolding take_signal take_start_ws
  take_signal-Evolves from (start_ws sid) s k =
      Quiet-Evolves (Quiet-trans (update_ws_open-Quiet true s) (send_signal-Quiet from _ _)) k
  take_signal-Evolves from (ws_ready sid ip port) s k = Quiet-Evolves (ws_connect-Quiet ip port s) k
  take_signal-Evolves from (punch_offer sid c t) s k = Quiet-Evolves (spawned-Quiet _ s) k
  take_signal-Evolves from (punch_answer sid c t) s k = hand_candidates-Evolves sid c s k
  take_signal-Evolves from (sdp_offer sid sdp) s k = Quiet-Evolves (spawned-Quiet _ s) k
  take_signal-Evolves from (sdp_answer sid sdp) s k = hand_sdp-Evolves sid sdp s k
  take_signal-Evolves from (bye sid) s k = drop_live-Evolves from s k
  take_signal-Evolves from (ws_unavailable _ _) s k = k
  take_signal-Evolves from (punch_ready _) s k = k
  take_signal-Evolves from (punch_failed _ _) s k = k
  take_signal-Evolves from (relay_offer _ _ _ _) s k = k
  take_signal-Evolves from (relay_answer _) s k = k

  pub on_signal-Evolves :
      {s0 : Ctx} (from payload : String) (s : Ctx)
      → Evolves s0 s
      → Evolves s0 (on_signal h from payload s)
  unfolding on_signal
  on_signal-Evolves from payload s k = elim (Option-cases (h.signal_from_str payload)) [
    | inl unreadable ↦ rw (unreadable, on_signal) k
    | inr (sig, e) ↦ rw (e, on_signal) (take_signal-Evolves from sig s k)
  ]

  pub answer_punch-Quiet :
      (from sid : String) (c : List Candidate) (s : Ctx) → Quiet s (answer_punch h from sid c s)
  unfolding answer_punch
  answer_punch-Quiet from sid c s = elim (Option-cases (gather_candidates h s)) [
    | inl nothing ↦ rw (nothing, answer_punch) (next_turn-Quiet s)
    | inr (mine, e) ↦
        rw (e, answer_punch)
          (Quiet-trans (next_turn-Quiet s)
            (Quiet-trans (send_signal_via-Quiet from _ _) (spawned-Quiet _ _)))
  ]

  pub answer_rtc-Quiet : (from sid sdp : String) (s : Ctx) → Quiet s (answer_rtc h from sid sdp s)
  unfolding answer_rtc
  answer_rtc-Quiet from sid sdp s =
      let (s', answer) = accept_offer_and_run h sdp from s in
      elim (Option-cases answer) [
        | inl nothing ↦ rw (nothing, answer_rtc) (accept_offer_and_run-Quiet sdp from s)
        | inr (a, e) ↦
            rw (e, answer_rtc)
              (Quiet-trans (accept_offer_and_run-Quiet sdp from s) (send_signal_via-Quiet from _ _))
      ]
