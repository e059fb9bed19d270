-- ===== src/Wire/Mux.antt =====
-- wire/mux.rs: the allocator of channel ids, one atomic counter of 16 bits.
pub mod Distinct
use my_domain_core.Prelude.{nat_eq, string_eq, ℕ, zero, suc, ◌+◌, ◌%◌, List, [], ◌∷◌}

pub record ChannelAllocator : Type 0 where
  pub next : ℕ

-- The parameter of `alloc` that is ignored is left out.
unfoldable pub new_allocator : ChannelAllocator
new_allocator = record { next = 1 }

-- `fetch_add`: the id is the value before, and the counter wraps around.
unfoldable pub alloc : ChannelAllocator → ChannelAllocator × ℕ
alloc a = (record { next = (a.next + 1) % 65536 }, a.next)

-- The ids of `n` allocations in turn.
unfoldable pub alloc_many : ℕ → ChannelAllocator → List ℕ
unfolding alloc
alloc_many zero a = []
alloc_many (suc n) a = (alloc a).1 ∷ alloc_many n (alloc a).0
