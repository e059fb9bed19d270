-- ===== src/Transport/Reasm/Valid.antt =====
-- The reassembly table of transport/punch.rs: when it is valid, and its changes of single entries.
use my_domain_core.Prelude.{
  Bool-cases, nat_eq, string_eq, ◌==◌, length, get_elem?, set, replicate, length-set,
  length-replicate, get_elem?_in_range, IsU16, ℕ, zero, suc, ◌+◌, ◌≤◌, ◌<◌, ◌≡◌, refl, subst, inl,
  inr, Option, none, some, List, [], ◌∷◌, arith,
}
use my_domain_core.Prelude.Map.{
  get, insert, remove, get-insert, get-remove, length-remove, length-remove_some,
}
use my_domain_core.Transport.Reasm.{Reasm, Pending, fresh, shed, store_part, reasm_max}

-- How many parts have arrived.
abbrev pub count_some {ℓ} : {A : Type ℓ} → List (Option A) → ℕ
count_some [] = 0
count_some (none ∷ ps) = count_some ps
count_some (some b ∷ ps) = suc (count_some ps)

-- An entry of the table: as many slots as chunks, an exact count, and something still missing.
pub record IsReasm (r : Reasm) : Type 0 where
  pub slots : length r.parts ≡ r.total
  pub counted : count_some r.parts ≡ r.received
  pub missing : r.received < r.total
  pub fits : IsU16 r.total

pub record IsPending (pending : Pending) : Type 0 where
  pub entries : (id : ℕ) (r : Reasm) → get pending id ≡ some r → IsReasm r
  pub bounded : length pending ≤ reasm_max

pub count_some-replicate {ℓ} : (A : Type ℓ) (n : ℕ) → count_some {A = A} (replicate n none) ≡ 0
count_some-replicate A zero = refl
count_some-replicate A (suc n) = count_some-replicate A n

module _ {ℓ} {A : Type ℓ} where
  pub count_some-le : (ps : List (Option A)) → count_some ps ≤ length ps
  count_some-le [] = omega arith
  count_some-le (none ∷ ps) = omega (arith, count_some-le ps)
  count_some-le (some b ∷ ps) = omega (arith, count_some-le ps)

  pub count_some-set :
      (ps : List (Option A)) (i : ℕ) (b : A)
      → get_elem? ps i ≡ some none
      → count_some (set ps i (some b)) ≡ suc (count_some ps)
  count_some-set [] i b h = cc
  count_some-set (none ∷ ps) zero b h = refl
  count_some-set (some x ∷ ps) zero b h = cc
  count_some-set (none ∷ ps) (suc i) b h = count_some-set ps i b h
  count_some-set (some x ∷ ps) (suc i) b h = omega (arith, count_some-set ps i b h)

pub fresh-IsReasm : (total : ℕ) → 0 < total → IsU16 total → IsReasm (fresh total)
fresh-IsReasm total h k = record {
  slots = length-replicate total none;
  counted = count_some-replicate (List ℕ) total;
  missing = h;
  fits = k;
}

-- What `store_part` returns: an entry that is still exact, over as many chunks.
abbrev pub StoresPart : Reasm → ℕ → List ℕ → Reasm → Type 0
StoresPart r i payload r' =
    (store_part r i payload ≡ some r')
    × (length r'.parts ≡ r'.total)
    × (count_some r'.parts ≡ r'.received)
    × (r'.total ≡ r.total)

pub store_part_at :
    (r : Reasm) (i : ℕ) (payload : List ℕ) (part : Option (List ℕ))
    → IsReasm r
    → get_elem? r.parts i ≡ some part
    → (r' : Reasm) × StoresPart r i payload r'
unfolding store_part
store_part_at r i payload none h e = (
  record r { received = r.received + 1; parts = set r.parts i (some payload) },
  (
    rw e,
    omega (arith, h, length-set r.parts i (some payload)),
    omega (arith, h, count_some-set r.parts i payload e),
    refl,
  ),
)
store_part_at r i payload (some b) h e = (r, (rw e, h.slots, h.counted, refl))

pub store_part_lem :
    (r : Reasm) (i : ℕ) (payload : List ℕ)
    → IsReasm r
    → i < r.total
    → (r' : Reasm) × StoresPart r i payload r'
store_part_lem r i payload h k =
    let (part, e) = get_elem?_in_range r.parts i (omega (arith, h)) in
    store_part_at r i payload part h e

pub get-shed :
    (pending : Pending) (id j : ℕ) {r : Reasm}
    → get (shed pending id) j ≡ some r
    → get pending j ≡ some r
unfolding shed get
get-shed pending id j e = ground arith

pub insert-bounded :
    (pending : Pending) (id : ℕ) (r : Reasm)
    → length pending ≤ reasm_max
    → length (insert (shed pending id) id r) ≤ reasm_max
unfolding insert shed
insert-bounded pending id r h =
    ground (arith, length-remove pending id, length-remove_some pending id)

pub remove-bounded :
    (pending : Pending) (id : ℕ)
    → length pending ≤ reasm_max
    → length (remove (shed pending id) id) ≤ reasm_max
unfolding remove shed
remove-bounded pending id h = ground (arith, length-remove pending id)

pub insert-IsPending :
    (pending : Pending) (id : ℕ) (r : Reasm)
    → IsPending pending
    → IsReasm r
    → IsPending (insert (shed pending id) id r)
insert-IsPending pending id r h k = record {
  entries = λ j s e. elim (Bool-cases (id == j)) [
    | inl same ↦ subst IsReasm (cc (e, get-insert (shed pending id) id j r, same)) k
    | inr other ↦
        h.entries j s (get-shed pending id j (cc (e, get-insert (shed pending id) id j r, other)))
  ];
  bounded = insert-bounded pending id r h.bounded;
}

pub remove-IsPending :
    (pending : Pending) (id : ℕ) → IsPending pending → IsPending (remove (shed pending id) id)
remove-IsPending pending id h = record {
  entries = λ j s e. elim (Bool-cases (id == j)) [
    | inl same ↦ absurd (cc (e, get-remove (shed pending id) id j, same))
    | inr other ↦
        h.entries j s (get-shed pending id j (cc (e, get-remove (shed pending id) id j, other)))
  ];
  bounded = remove-bounded pending id h.bounded;
}
