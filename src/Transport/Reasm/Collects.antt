-- ===== src/Transport/Reasm/Collects.antt =====
-- transport/punch.rs: what a table holds of one message while its chunks arrive.
use my_domain_core.Prelude.{
  ◌≢◌, nat_eq, string_eq, ◌==◌, length, get_elem?, set, replicate, length-set, length-replicate,
  get_elem?-set_ne, All, IsU16, ℕ, zero, suc, ◌+◌, ◌<◌, ◌≡◌, refl, ◌∙◌, ◌≢◌, true, Option, none,
  some, List, [], ◌∷◌, arith,
}
use mathlib.Core.List.{flatten}
use my_domain_core.Prelude.Map.{get, insert, remove, contains_key, get-insert_self}
use my_domain_core.Transport.Reasm.{
  Reasm, Pending, Chunk, fresh, shed, entry_of, store_part, finish_entry, feed_entry, feed_chunk,
}
use my_domain_core.Transport.Reasm.Valid.{count_some, count_some-set, count_some-replicate}
use my_domain_core.Transport.Reasm.Parts.{Agrees, Agrees-replicate, Agrees-set, join-Agrees}

abbrev pub IsDistinct : List ℕ → Type 0
IsDistinct [] = Unit
IsDistinct (i ∷ is) = All (λ j. i ≢ j) is × IsDistinct is

-- What the table holds of the message `cs` while it is collected: `r`, with the parts at `rest` (and
-- as many as that) still missing.
pub record Collects (pending : Pending) (id : ℕ) (cs : List (List ℕ)) (r : Reasm) (rest : List ℕ)
    : Type 0 where
  pub entry : entry_of (shed pending id) id (length cs) ≡ r
  pub total : r.total ≡ length cs
  pub slots : length r.parts ≡ r.total
  pub counted : count_some r.parts ≡ r.received
  pub agrees : Agrees r.parts cs
  pub left : r.received + length rest ≡ length cs
  pub empty : All (λ i. get_elem? r.parts i ≡ some none) rest
  pub distinct : IsDistinct rest
  pub within : All (λ i. i < length cs) rest

-- `r` with the chunk `c` put at `i`.
abbrev pub filled : Reasm → ℕ → List ℕ → Reasm
filled r i c = record r { received = r.received + 1; parts = set r.parts i (some c) }

pub feed_entry_new :
    (pending : Pending) (c : Chunk) (r : Reasm)
    → (r.total == c.total) ≡ true
    → get_elem? r.parts c.index ≡ some none
    → feed_entry pending c r ≡ some (finish_entry pending c.id (filled r c.index c.payload))
unfolding feed_entry store_part
feed_entry_new pending c r same e = rw (same, e)

pub feed_chunk_good :
    (pending : Pending) (c : Chunk)
    → c.index < c.total
    → feed_chunk pending c
      ≡ feed_entry (shed pending c.id) c (entry_of (shed pending c.id) c.id c.total)
unfolding feed_chunk
feed_chunk_good pending c h = ground arith

-- One datagram that is new: `feed_chunk` goes on with the filled entry.
pub feed_new :
    (pending : Pending) (id : ℕ) (cs : List (List ℕ)) (r : Reasm) (i : ℕ) (is : List ℕ) (c : List ℕ)
    → Collects pending id cs r (i ∷ is)
    → feed_chunk pending (record { id = id; total = length cs; index = i; payload = c })
      ≡ some (finish_entry (shed pending id) id (filled r i c))
feed_new pending id cs r i is c h =
    feed_chunk_good pending (record { id = id; total = length cs; index = i; payload = c })
      h.within.0
    ∙ rw h.entry (
        feed_entry_new (shed pending id)
          (record { id = id; total = length cs; index = i; payload = c }) r
          (ground (arith, h.total)) h.empty.0)

abbrev pub no_part : Option (List ℕ)
no_part = none

get_elem?-replicate {ℓ} :
    {A : Type ℓ} (n i : ℕ) (a : A) → i < n → get_elem? (replicate n a) i ≡ some a
get_elem?-replicate zero i a h = elim h [ ]
get_elem?-replicate (suc n) zero a h = refl
get_elem?-replicate (suc n) (suc i) a h = get_elem?-replicate n i a (omega arith)

pub empty-replicate :
    (n : ℕ) (order : List ℕ)
    → All (λ i. i < n) order
    → All (λ i. get_elem? (replicate n no_part) i ≡ some none) order
empty-replicate n [] h = tt
empty-replicate n (i ∷ is) h = (get_elem?-replicate n i none h.0, empty-replicate n is h.1)

pub entry_of-shed :
    (pending : Pending) (id total : ℕ)
    → get pending id ≡ none
    → entry_of (shed pending id) id total ≡ fresh total
unfolding entry_of shed get
entry_of-shed pending id total h = ground arith

pub empty-set :
    (ps : List (Option (List ℕ))) (i : ℕ) (c : List ℕ) (is : List ℕ)
    → All (λ j. i ≢ j) is
    → All (λ j. get_elem? ps j ≡ some none) is
    → All (λ j. get_elem? (set ps i (some c)) j ≡ some none) is
empty-set ps i c [] h k = tt
empty-set ps i c (j ∷ is) h k =
    (get_elem?-set_ne ps {i = i} {j = j} (some c) h.0 ∙ k.0, empty-set ps i c is h.1 k.1)

-- The last part completes the message.
pub finish_last :
    (pending : Pending) (id : ℕ) (cs : List (List ℕ)) (r : Reasm) (i : ℕ) (c : List ℕ)
    → Collects pending id cs r (i ∷ [])
    → get_elem? cs i ≡ some c
    → finish_entry (shed pending id) id (filled r i c)
      ≡ (remove (shed pending id) id, some (flatten cs))
unfolding finish_entry
finish_last pending id cs r i c h e =
    let full : count_some (set r.parts i (some c)) ≡ length (set r.parts i (some c)) =
      omega (arith, h, count_some-set r.parts i c h.empty.0, length-set r.parts i (some c)) in
    rw (join-Agrees (set r.parts i (some c)) cs (Agrees-set r.parts cs i c h.agrees e) full)
      (ground (arith, h.left, h.total))

pub entry_of-insert :
    (pending : Pending) (id total : ℕ) (r : Reasm)
    → entry_of (shed (insert pending id r) id) id total ≡ r
unfolding entry_of shed contains_key
entry_of-insert pending id total r = ground (arith, get-insert_self pending id r)

-- Any other part leaves the message in the table with one part less to come.
pub Collects-filled :
    (pending : Pending) (id : ℕ) (cs : List (List ℕ)) (r : Reasm) (i j : ℕ) (is : List ℕ)
    (c : List ℕ)
    → Collects pending id cs r (i ∷ j ∷ is)
    → get_elem? cs i ≡ some c
    → Collects (insert (shed pending id) id (filled r i c)) id cs (filled r i c) (j ∷ is)
Collects-filled pending id cs r i j is c h e = record {
  entry = entry_of-insert (shed pending id) id (length cs) (filled r i c);
  total = h.total;
  slots = omega (arith, h, length-set r.parts i (some c));
  counted = omega (arith, h, count_some-set r.parts i c h.empty.0);
  agrees = Agrees-set r.parts cs i c h.agrees e;
  left = omega (arith, h);
  empty = empty-set r.parts i c (j ∷ is) h.distinct.0 h.empty.1;
  distinct = h.distinct.1;
  within = h.within.1;
}

pub finish_more :
    (pending : Pending) (id : ℕ) (cs : List (List ℕ)) (r : Reasm) (i j : ℕ) (is : List ℕ)
    (c : List ℕ)
    → Collects pending id cs r (i ∷ j ∷ is)
    → finish_entry (shed pending id) id (filled r i c)
      ≡ (insert (shed pending id) id (filled r i c), none)
unfolding finish_entry
finish_more pending id cs r i j is c h = ground (arith, h.left, h.total)

pub Collects-fresh :
    (pending : Pending) (id : ℕ) (cs : List (List ℕ)) (order : List ℕ)
    → get pending id ≡ none
    → 0 < length cs
    → IsU16 (length cs)
    → length order ≡ length cs
    → IsDistinct order
    → All (λ i. i < length cs) order
    → Collects pending id cs (fresh (length cs)) order
Collects-fresh pending id cs order absent some_left fits n d w = record {
  entry = entry_of-shed pending id (length cs) absent;
  total = refl;
  slots = length-replicate (length cs) none;
  counted = count_some-replicate (List ℕ) (length cs);
  agrees = Agrees-replicate cs;
  left = omega arith;
  empty = empty-replicate (length cs) order w;
  distinct = d;
  within = w;
}
