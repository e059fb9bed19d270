-- ===== src/Engine/Ladder/Wait.antt =====
-- engine.rs: `wait_live`, whatever the other threads do meanwhile.
use my_domain_core.Prelude.{
  Bool-cases, nat_eq, string_eq, ℕ, zero, suc, ◌/◌, ◌<◌, String, ◌≡◌, refl, sym, inl, inr, true,
  arith,
}
use my_domain_core.Ctx.{Ctx}
use my_domain_core.Transport.Live.{is_live}
use my_domain_core.Engine.Ladder.{wait_steps, wait_live}

-- The state after `n` runs of the other threads.
unfoldable pub after : (Ctx → Ctx) → ℕ → Ctx → Ctx
after others zero s = s
after others (suc n) s = after others n (others s)

module _ (others : Ctx → Ctx) (node_id : String) where
  wait_steps-live :
      (n : ℕ) (s : Ctx)
      → (wait_steps others n node_id s).1 ≡ is_live (wait_steps others n node_id s).0 node_id
  unfolding wait_steps
  wait_steps-live zero s = refl
  wait_steps-live (suc n) s = elim (Bool-cases (is_live (others s) node_id)) [
    | inl up ↦ rw (up, wait_steps) (sym up)
    | inr down ↦ rw (down, wait_steps) (wait_steps-live n (others s))
  ]

  pub wait_live-live :
      (ms : ℕ) (s : Ctx)
      → (wait_live others node_id ms s).1 ≡ is_live (wait_live others node_id ms s).0 node_id
  unfolding wait_live
  wait_live-live ms s = wait_steps-live (ms / 100) s

  wait_steps_sees :
      (n k : ℕ) (s : Ctx)
      → k < n
      → is_live (after others (suc k) s) node_id ≡ true
      → (wait_steps others n node_id s).1 ≡ true
  unfolding wait_steps after
  wait_steps_sees zero k s lt e = absurd (omega (arith, lt))
  wait_steps_sees (suc n) zero s lt e = rw e
  wait_steps_sees (suc n) (suc k) s lt e = elim (Bool-cases (is_live (others s) node_id)) [
    | inl up ↦ rw (up, wait_steps)
    | inr down ↦ rw (down, wait_steps) (wait_steps_sees n k (others s) (omega (arith, lt)) e)
  ]

  -- `wait_live` returns `true` if the node is live at one of its polls, however it comes to be so and
  -- whatever happens to it later; and its result is whether the node is live in the state that it
  -- leaves. It polls once in each 100 ms.
  pub wait_live_lem :
      (ms : ℕ) (s : Ctx)
      → ((k : ℕ)
          → k < ms / 100
          → is_live (after others (suc k) s) node_id ≡ true
          → (wait_live others node_id ms s).1 ≡ true)
        × ((wait_live others node_id ms s).1 ≡ is_live (wait_live others node_id ms s).0 node_id)
  unfolding wait_live
  wait_live_lem ms s = (λ k lt e. wait_steps_sees (ms / 100) k s lt e, wait_live-live ms s)

  wait_steps-keeps {ℓ} :
      (P : Ctx → Type ℓ) (n : ℕ) (s : Ctx)
      → ((t : Ctx) → P t → P (others t))
      → P s
      → P (wait_steps others n node_id s).0
  unfolding wait_steps
  wait_steps-keeps P zero s run p = p
  wait_steps-keeps P (suc n) s run p = elim (Bool-cases (is_live (others s) node_id)) [
    | inl up ↦ rw (up, wait_steps) (run s p)
    | inr down ↦ rw (down, wait_steps) (wait_steps-keeps P n (others s) run (run s p))
  ]

  pub wait_live-keeps {ℓ} :
      (P : Ctx → Type ℓ) (ms : ℕ) (s : Ctx)
      → ((t : Ctx) → P t → P (others t))
      → P s
      → P (wait_live others node_id ms s).0
  unfolding wait_live
  wait_live-keeps P ms s run p = wait_steps-keeps P (ms / 100) s run p
