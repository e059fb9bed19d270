-- ===== src/Wire/Mux/Distinct.antt =====
-- wire/mux.rs: when two channel ids are the same.
use my_domain_core.Prelude.{
  nat_eq, string_eq, get_elem?, IsU16, ℕ, zero, suc, ◌+◌, ◌%◌, ◌<◌, ◌≡◌, refl, ap, ◌∙◌, ◌↔◌, some,
  arith,
}
use my_domain_core.Wire.Mux.{ChannelAllocator, new_allocator, alloc, alloc_many}

-- The id of the allocation at `i`.
alloc_many-id :
    (n i : ℕ) (a : ChannelAllocator)
    → IsU16 a.next
    → i < n
    → get_elem? (alloc_many n a) i ≡ some ((a.next + i) % 65536)
unfolding alloc_many alloc
alloc_many-id zero i a h k = absurd (omega (arith, k))
alloc_many-id (suc n) zero a h k = ap some (omega (arith, h))
alloc_many-id (suc n) (suc i) a h k =
    alloc_many-id n i (record { next = (a.next + 1) % 65536 }) (omega arith) (omega (arith, k))
    ∙ ap some (omega (arith, h))

new-IsU16 : IsU16 new_allocator.next
unfolding new_allocator
new-IsU16 = omega arith

new-next : new_allocator.next ≡ 1
unfolding new_allocator
new-next = refl

-- Of any number of allocations from a new allocator, two have the same id exactly if their positions
-- differ by a multiple of 65536: up to 65536 ids in a row are distinct, the next one is used twice.
pub alloc-distinct :
    (n i j : ℕ)
    → i < n
    → j < n
    → (get_elem? (alloc_many n new_allocator) i ≡ get_elem? (alloc_many n new_allocator) j)
      ↔ (i % 65536 ≡ j % 65536)
alloc-distinct n i j hi hj =
    rw
      (
        alloc_many-id n i new_allocator new-IsU16 hi,
        alloc_many-id n j new_allocator new-IsU16 hj,
        new-next,
      )
      (ids i j)
  where
    value_of : {a b : ℕ} → some a ≡ some b → a ≡ b
    value_of e = cc

    ids : (i j : ℕ) → (some ((1 + i) % 65536) ≡ some ((1 + j) % 65536)) ↔ (i % 65536 ≡ j % 65536)
    ids i j = (λ e. omega (arith, value_of e), λ e. ap some (omega (arith, e)))
