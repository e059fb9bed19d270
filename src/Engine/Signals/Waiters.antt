-- ===== src/Engine/Signals/Waiters.antt =====
-- engine.rs: the answers to offers, against the threads that wait for them.
use my_domain_core.Prelude.{Option-cases, nat_eq, string_eq, ℕ, String, ◌≡◌, inl, inr, List, arith}
use text.Mathlib.TextEquality.{eq_iff}
use my_domain_core.Prelude.Map.{get, get-remove}
use my_domain_core.Model.{Candidate, punch_answer, sdp_answer}
use my_domain_core.Host.{Host}
use my_domain_core.Ctx.{Ctx, record_effect}
use my_domain_core.Engine.Signals.{hand_candidates, hand_sdp, take_signal}

module _ (h : Host) where
  hand_candidates_once :
      (sid : String) (c c' : List Candidate) (s : Ctx)
      → hand_candidates h sid c' (hand_candidates h sid c s) ≡ hand_candidates h sid c s
  unfolding hand_candidates record_effect
  hand_candidates_once sid c c' s = elim (Option-cases (get s.punch_waiters sid)) [
    | inl nobody ↦ ground (arith, nobody)
    | inr (w, e) ↦ ground (arith, e, get-remove s.punch_waiters sid sid, eq_iff sid sid)
  ]

  hand_sdp_once :
      (sid sdp sdp' : String) (s : Ctx)
      → hand_sdp h sid sdp' (hand_sdp h sid sdp s) ≡ hand_sdp h sid sdp s
  unfolding hand_sdp record_effect
  hand_sdp_once sid sdp sdp' s = elim (Option-cases (get s.rtc_waiters sid)) [
    | inl nobody ↦ ground (arith, nobody)
    | inr (w, e) ↦ ground (arith, e, get-remove s.rtc_waiters sid sid, eq_iff sid sid)
  ]

  -- Of several answers to the same offer, from whomever they come, only the first has an effect.
  pub take_signal_once :
      (from from' sid : String) (c c' : List Candidate) (t t' : ℕ) (sdp sdp' : String) (s : Ctx)
      → (take_signal h from' (punch_answer sid c' t') (take_signal h from (punch_answer sid c t) s)
          ≡ take_signal h from (punch_answer sid c t) s)
        × (take_signal h from' (sdp_answer sid sdp') (take_signal h from (sdp_answer sid sdp) s)
            ≡ take_signal h from (sdp_answer sid sdp) s)
  unfolding take_signal
  take_signal_once from from' sid c c' t t' sdp sdp' s =
      (hand_candidates_once sid c c' s, hand_sdp_once sid sdp sdp' s)
