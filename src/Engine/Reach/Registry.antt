-- ===== src/Engine/Reach/Registry.antt =====
-- The running engine: its key in every state of every run.
use my_domain_core.Prelude.{nat_eq, string_eq, ℕ, ◌≡◌, inl, false, Option}
use my_domain_core.Prelude.Result.{ok}
use my_domain_core.Text.{is_empty, trim}
use my_domain_core.Host.{Host}
use my_domain_core.Ctx.{Ctx}
use my_domain_core.Engine.Start.{start}
use my_domain_core.Engine.Start.Fresh.{start_lem}
use my_domain_core.Engine.Reach.{Reach}
use my_domain_core.Engine.Reach.Indicator.{Reach-Runs}
use my_domain_core.Engine.Reach.Runs.{Runs, Runs-IsDerived, IsDerived}

-- In every state that a started engine reaches, by rounds of its threads and calls of the engine in any
-- order, whatever other devices and the registry send, there is no key, or the key is what some
-- passphrase gives to some user name.
pub started-IsDerived :
    (h : Host) (clock : Option ℕ) (s t : Ctx)
    → is_empty (trim (h.uuid 0)) ≡ false
    → start h clock ≡ ok s
    → Reach h s t
    → IsDerived h t.key
started-IsDerived h clock s t u e run =
    let (_, _, _, keyless) = start_lem h clock s u e in
    Runs-IsDerived h t (Reach-Runs h s t run Runs.starts) (inl keyless)
