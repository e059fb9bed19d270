-- ===== src/Prelude/Map.antt =====
-- `HashMap` with unique keys as an association list. Iteration order is unspecified in the source;
-- here it is the list's order, and no theorem depends on it.
use Prim.Native.Nat.{◌≤◌, ◌<◌}
use mathlib.Core.Path.{◌≡◌}
use mathlib.Core.Logic.{◌≢◌, inl, inr}
use mathlib.Core.Bool.{Bool, true}
use mathlib.Core.List.{List, [], ◌∷◌}
use mathlib.Core.Option.{Option, none, some}
use native.Mathlib.Omega.{arith}
use my_domain_core.Prelude.Tests.{Bool-cases, Eq, ◌==◌, if◌then◌else◌, is_some}
use my_domain_core.Prelude.Lists.{length}

abbrev pub Map {ℓ κ} : Type ℓ → Type κ → Type (ℓ ⊔ κ)
Map K V = List (K × V)

module _ {ℓ κ} {K : Type ℓ} {V : Type κ} where
  abbrev pub keys : Map K V → List K
  keys [] = []
  keys ((k, v) ∷ m) = k ∷ keys m

  abbrev pub values : Map K V → List V
  values [] = []
  values ((k, v) ∷ m) = v ∷ values m

  -- `retain`
  unfoldable pub retain : (K → V → Bool) → Map K V → Map K V
  retain p [] = []
  retain p ((k, v) ∷ m) = if p k v then (k, v) ∷ retain p m else retain p m

module _ {ℓ κ} {K : Type ℓ} {V : Type κ} ⦃e : Eq K⦄ where
  unfoldable pub get : Map K V → K → Option V
  get [] k = none
  get ((j, v) ∷ m) k = if j == k then some v else get m k

  unfoldable pub remove : Map K V → K → Map K V
  remove [] k = []
  remove ((j, v) ∷ m) k = if j == k then remove m k else (j, v) ∷ remove m k

  unfoldable pub insert : Map K V → K → V → Map K V
  unfolding remove
  insert m k v = (k, v) ∷ remove m k

  unfoldable pub contains_key : Map K V → K → Bool
  unfolding get
  contains_key m k = is_some (get m k)

  pub get-remove : (m : Map K V) (k j : K) → get (remove m k) j ≡ (if k == j then none else get m j)
  unfolding get remove
  get-remove [] k j = ground arith
  get-remove ((i, v) ∷ m) k j =
      ground (arith, get-remove m k j, e.same_iff i k, e.same_iff i j, e.same_iff k j)

  pub get-insert :
      (m : Map K V) (k j : K) (v : V) → get (insert m k v) j ≡ (if k == j then some v else get m j)
  unfolding get insert
  get-insert m k j v = ground (arith, get-remove m k j)

  pub get-remove_self : (m : Map K V) (k : K) → get (remove m k) k ≡ none
  get-remove_self m k = ground (arith, get-remove m k k, e.same_iff k k)

  pub get-insert_self : (m : Map K V) (k : K) (v : V) → get (insert m k v) k ≡ some v
  get-insert_self m k v = ground (arith, get-insert m k k v, e.same_iff k k)

  pub get-remove_ne : (m : Map K V) (k j : K) → k ≢ j → get (remove m k) j ≡ get m j
  get-remove_ne m k j h = ground (arith, get-remove m k j, e.same_iff k j, h)

  pub get-insert_ne : (m : Map K V) (k j : K) (v : V) → k ≢ j → get (insert m k v) j ≡ get m j
  get-insert_ne m k j v h = ground (arith, get-insert m k j v, e.same_iff k j, h)

  pub length-remove : (m : Map K V) (k : K) → length (remove m k) ≤ length m
  unfolding remove
  length-remove [] k = omega arith
  length-remove ((j, v) ∷ m) k = ground (arith, length-remove m k)

  pub length-remove_some :
      (m : Map K V) (k : K) → contains_key m k ≡ true → length (remove m k) < length m
  unfolding remove contains_key
  length-remove_some [] k h = cc
  length-remove_some ((j, v) ∷ m) k h = ground (arith, length-remove m k, length-remove_some m k)

-- Every key stands once, as in a `HashMap`.
abbrev pub IsUnique {ℓ κ} : {K : Type ℓ} {V : Type κ} ⦃e : Eq K⦄ → Map K V → Type κ
IsUnique [] = Unit
IsUnique ((k, v) ∷ m) = (get m k ≡ none) × IsUnique m

pub ruleset map_laws = (get-remove, get-insert)

-- The keys stay distinct.
module _ {ℓ κ} {K : Type ℓ} {V : Type κ} ⦃e : Eq K⦄ where
  absent-remove : (m : Map K V) (k j : K) → get m j ≡ none → get (remove m k) j ≡ none
  absent-remove m k j h = ground (arith, get-remove m k j, h)

  pub remove-IsUnique : (m : Map K V) (k : K) → IsUnique m → IsUnique (remove m k)
  unfolding remove
  remove-IsUnique [] k u = u
  remove-IsUnique ((j, v) ∷ m) k (fresh, u) = elim (Bool-cases (j == k)) [
    | inl hit ↦ rw hit (remove-IsUnique m k u)
    | inr miss ↦ rw miss (absent-remove m k j fresh, remove-IsUnique m k u)
  ]

  pub insert-IsUnique : (m : Map K V) (k : K) (v : V) → IsUnique m → IsUnique (insert m k v)
  unfolding insert
  insert-IsUnique m k v u = (get-remove_self m k, remove-IsUnique m k u)
