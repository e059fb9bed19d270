-- ===== src/Engine/Reach/Reports.antt =====
-- The running engine, its reports and its live registry. transport/mod.rs changes the registry under its
-- lock and emits behind it, so between a change and its report the other threads run on, and the
-- reports of two changes may come in either order. Here a report comes at any time after its change.
use my_domain_core.Prelude.{
  nat_eq, string_eq, ℕ, ◌+◌, String, ◌≡◌, refl, ap, Option, List, [], ◌∷◌, ◌++◌, arith,
}
use my_domain_core.Prelude.Result.{ok}
use my_domain_core.Prelude.Map.{get, contains_key}
use my_domain_core.Model.{CoreEvent}
use my_domain_core.Host.{Host}
use my_domain_core.Ctx.{Ctx}
use my_domain_core.Transport.Live.{is_live}
use my_domain_core.Transport.Live.Events.{link_events}
use my_domain_core.Transport.Live.Balance.{
  connects, disconnects, connects-append, disconnects-append, as_number, IsBalanced,
}
use my_domain_core.Engine.Start.{start}
use my_domain_core.Engine.Start.Fresh.{start-events}
use my_domain_core.Engine.Reach.{Step, Reach}
use my_domain_core.Engine.Reach.Runs.{Runs, Runs-IsBalanced, Runs-Extends}
use my_domain_core.Engine.Reach.Indicator.{Step-Runs, Reach-Runs}

-- A run from `s0`, with the reports of connects and disconnects that are still due and those that have
-- come, the latest first. A step's own reports become due; one that is due comes at any later time.
pub data Reported (h : Host) (s0 : Ctx) : Ctx → List CoreEvent → List CoreEvent → Type 0 where
  starts : Reported h s0 s0 [] (link_events s0.trace)
  steps :
      (s t : Ctx) (due seen fresh : List CoreEvent)
      → Reported h s0 s due seen
      → Step h s t
      → link_events t.trace ≡ fresh ++ link_events s.trace
      → Reported h s0 t (fresh ++ due) seen
  reports :
      (s : Ctx) (before after seen : List CoreEvent) (ev : CoreEvent)
      → Reported h s0 s (before ++ (ev ∷ after)) seen
      → Reported h s0 s (before ++ after) (ev ∷ seen)

module _ (h : Host) where
  Reported-Reach :
      {s0 : Ctx} (t : Ctx) (due seen : List CoreEvent) → Reported h s0 t due seen → Reach h s0 t
  Reported-Reach t due seen (Reported.starts) = Reach.here t
  Reported-Reach {s0} t _ seen (Reported.steps s _ due _ fresh run step e) =
      Reach.then_step s0 s t (Reported-Reach s due seen run) step
  Reported-Reach t _ _ (Reported.reports _ before after seen ev run) =
      Reported-Reach t (before ++ (ev ∷ after)) seen run

  -- Every run of the engine is one of these, whenever its reports come.
  pub Reach-Reported :
      (s0 t : Ctx)
      → Reach h s0 t
      → (due : List CoreEvent) × (seen : List CoreEvent) × Reported h s0 t due seen
  Reach-Reported s0 t (Reach.here _) = ([], link_events s0.trace, Reported.starts)
  Reach-Reported s0 t (Reach.then_step _ s _ run step) =
      let (due, seen, more) = Reach-Reported s0 s run in
      let (fresh, e) = Runs-Extends h t (Step-Runs h s t step Runs.starts) in
      (fresh ++ due, seen, Reported.steps s t due seen fresh more step e)

  -- A report is due or has come, and is neither lost nor made twice.
  connects-Reported :
      {s0 : Ctx} (node : String) (t : Ctx) (due seen : List CoreEvent)
      → Reported h s0 t due seen
      → connects node seen + connects node due ≡ connects node (link_events t.trace)
  unfolding connects
  connects-Reported node t due seen (Reported.starts) = omega arith
  connects-Reported node t _ seen (Reported.steps s _ due _ fresh run step e) = omega (
    arith,
    ap (connects node) e,
    connects-append node fresh due,
    connects-append node fresh (link_events s.trace),
    connects-Reported node s due seen run,
  )
  connects-Reported node t _ _ (Reported.reports _ before after seen ev run) = omega (
    arith,
    connects-append node before after,
    connects-append node before (ev ∷ after),
    connects-Reported node t (before ++ (ev ∷ after)) seen run,
  )

  disconnects-Reported :
      {s0 : Ctx} (node : String) (t : Ctx) (due seen : List CoreEvent)
      → Reported h s0 t due seen
      → disconnects node seen + disconnects node due ≡ disconnects node (link_events t.trace)
  unfolding disconnects
  disconnects-Reported node t due seen (Reported.starts) = omega arith
  disconnects-Reported node t _ seen (Reported.steps s _ due _ fresh run step e) = omega (
    arith,
    ap (disconnects node) e,
    disconnects-append node fresh due,
    disconnects-append node fresh (link_events s.trace),
    disconnects-Reported node s due seen run,
  )
  disconnects-Reported node t _ _ (Reported.reports _ before after seen ev run) = omega (
    arith,
    disconnects-append node before after,
    disconnects-append node before (ev ∷ after),
    disconnects-Reported node t (before ++ (ev ∷ after)) seen run,
  )

  start-IsBalanced : (clock : Option ℕ) (s : Ctx) → start h clock ≡ ok s → IsBalanced s
  unfolding connects disconnects is_live contains_key get
  start-IsBalanced clock s e node =
      let (silent, bare) = start-events h clock s e in rw (silent, bare) refl

  -- In every run of an engine from its start, by rounds of its threads and calls of the engine in any
  -- order, where each report of a connect or a disconnect comes at any time after the round or call
  -- that makes it: at every moment, of the reports that have come and those that are still due, those
  -- that a node is connected are as many as those that it is disconnected, and one more exactly if
  -- the node stands in the live registry.
  pub started-balance :
      (clock : Option ℕ) (s t : Ctx) (due seen : List CoreEvent) (node : String)
      → start h clock ≡ ok s
      → Reported h s t due seen
      → connects node seen + connects node due
        ≡ disconnects node seen + disconnects node due + as_number (is_live t node)
  started-balance clock s t due seen node e run =
      let balanced =
        Runs-IsBalanced h t (Reach-Runs h s t (Reported-Reach t due seen run) Runs.starts)
          (start-IsBalanced clock s e) in
      omega (
        arith,
        balanced node,
        connects-Reported node t due seen run,
        disconnects-Reported node t due seen run,
      )
