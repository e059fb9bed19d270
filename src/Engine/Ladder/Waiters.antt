-- ===== src/Engine/Ladder/Waiters.antt =====
-- engine.rs: the waiters of the ladder.
use my_domain_core.Prelude.{
  Bool-cases, nat_eq, string_eq, ◌==◌, ℕ, String, ◌≡◌, ◌⊎◌, inl, inr, true, none, List, arith,
}
use my_domain_core.Prelude.Map.{get, insert, remove, get-insert, get-remove}
use my_domain_core.Host.{Host}
use my_domain_core.Ctx.{Ctx}
use my_domain_core.Transport.Send.Quiet.{Quiet}
use my_domain_core.Engine.Ladder.{run_connect_ladder, withdraw_punch, withdraw_rtc}
use my_domain_core.Engine.Ladder.Keeps.{run_connect_ladder_keeps}
use my_domain_core.Engine.Ladder.Offers.{offer_punch-keeps, offer_rtc-keeps}

-- No thread waits under the id.
abbrev pub IsPunchFree : String → Ctx → Type 0
IsPunchFree sid s = get s.punch_waiters sid ≡ none

abbrev pub IsRtcFree : String → Ctx → Type 0
IsRtcFree sid s = get s.rtc_waiters sid ≡ none

-- The same, while the ladder waits under the id `mine`.
abbrev OrMine : (mine sid : String) → (Ctx → Type 0) → Ctx → Type 0
OrMine mine sid P s = ((mine == sid) ≡ true) ⊎ P s

or_mine :
    (mine sid : String) (P : Ctx → Type 0) (s t : Ctx)
    → (P s → P t)
    → OrMine mine sid P s
    → OrMine mine sid P t
or_mine mine sid P s t f (inl same) = inl same
or_mine mine sid P s t f (inr p) = inr (f p)

Quiet-IsPunchFree : (sid : String) (s t : Ctx) → Quiet s t → IsPunchFree sid s → IsPunchFree sid t
Quiet-IsPunchFree sid s t q e = rw q.punches e

Quiet-IsRtcFree : (sid : String) (s t : Ctx) → Quiet s t → IsRtcFree sid s → IsRtcFree sid t
Quiet-IsRtcFree sid s t q e = rw q.rtcs e

entered :
    (m : List (String × ℕ)) (mine sid : String) (w : ℕ)
    → get m sid ≡ none
    → ((mine == sid) ≡ true) ⊎ (get (insert m mine w) sid ≡ none)
entered m mine sid w e = elim (Bool-cases (mine == sid)) [
  | inl same ↦ inl same
  | inr other ↦ inr (cc (e, get-insert m mine sid w, other))
]

withdrawn :
    (m : List (String × ℕ)) (mine sid : String)
    → ((mine == sid) ≡ true) ⊎ (get m sid ≡ none)
    → get (remove m mine) sid ≡ none
withdrawn m mine sid (inl same) = cc (get-remove m mine sid, same)
withdrawn m mine sid (inr e) = ground (arith, get-remove m mine sid, e)

-- The ladder leaves no waiter behind: an id under which no thread waits has none when the ladder
-- ends, on every path of it, if the other threads enter none under that id.
pub run_connect_ladder-free :
    (others : Ctx → Ctx) (h : Host) (sid node_id : String) (s : Ctx)
    → ((t : Ctx) → IsPunchFree sid t → IsPunchFree sid (others t))
    → ((t : Ctx) → IsRtcFree sid t → IsRtcFree sid (others t))
    → IsPunchFree sid s
    → IsRtcFree sid s
    → IsPunchFree sid (run_connect_ladder others h node_id s)
      × IsRtcFree sid (run_connect_ladder others h node_id s)
unfolding withdraw_punch withdraw_rtc
run_connect_ladder-free others h sid node_id s run run' p p' = (
  run_connect_ladder_keeps others h (IsPunchFree sid) (Quiet-IsPunchFree sid) run node_id s
      (λ mine t e.
        offer_punch-keeps others h (IsPunchFree sid) (OrMine (h.uuid t.turn) sid (IsPunchFree sid))
          (Quiet-IsPunchFree sid) run
          (λ u v q. or_mine _ sid (IsPunchFree sid) u v (Quiet-IsPunchFree sid u v q))
          (λ u. or_mine _ sid (IsPunchFree sid) u (others u) (run u)) node_id mine t
          (entered t.punch_waiters _ sid t.turn e) (λ u. withdrawn u.punch_waiters _ sid))
      (λ n sdp t e.
        offer_rtc-keeps others h (IsPunchFree sid) (IsPunchFree sid) (Quiet-IsPunchFree sid) run
          (Quiet-IsPunchFree sid) run node_id n sdp t e (λ u q. q))
      p,
  run_connect_ladder_keeps others h (IsRtcFree sid) (Quiet-IsRtcFree sid) run' node_id s
      (λ mine t e.
        offer_punch-keeps others h (IsRtcFree sid) (IsRtcFree sid) (Quiet-IsRtcFree sid) run'
          (Quiet-IsRtcFree sid) run' node_id mine t e (λ u q. q))
      (λ n sdp t e.
        offer_rtc-keeps others h (IsRtcFree sid) (OrMine (h.uuid t.turn) sid (IsRtcFree sid))
          (Quiet-IsRtcFree sid) run'
          (λ u v q. or_mine _ sid (IsRtcFree sid) u v (Quiet-IsRtcFree sid u v q))
          (λ u. or_mine _ sid (IsRtcFree sid) u (others u) (run' u)) node_id n sdp t
          (entered t.rtc_waiters _ sid t.turn e) (λ u. withdrawn u.rtc_waiters _ sid))
      p',
)
