-- ===== src/Transport/Reasm.antt =====
-- transport/punch.rs: reassembly of chunked messages (`Reasm`, `reasm_feed`).
pub mod Valid
pub mod Invariant
pub mod Parts
pub mod Collects
pub mod Delivery
pub mod Oversize
use my_domain_core.Prelude.{
  ◌>>=◌, ℕ, ◌+◌, List, [], ◌∷◌, ◌++◌, Option, none, some, ◌&&◌, ◌||◌, not, length, set, replicate,
  get_elem?, u16_of, u32_of, leb, is_none, if◌then◌else◌, ◌==◌, ◌/=◌, nat_eq,
}
use my_domain_core.Prelude.Map.{Map, get, insert, remove, contains_key}

abbrev pub reasm_max : ℕ
reasm_max = 256

-- `parts : Vec<Option<Vec<u8>>>`
pub record Reasm : Type 0 where
  pub total : ℕ
  pub received : ℕ
  pub parts : List (Option (List ℕ))

abbrev pub Pending : Type 0
Pending = Map ℕ Reasm

-- A parsed chunk datagram.
pub record Chunk : Type 0 where
  pub id : ℕ
  pub total : ℕ
  pub index : ℕ
  pub payload : List ℕ

-- Twelve header bytes in front and the magic: `none` is `reasm_feed`'s first early return.
unfoldable pub parse_chunk : List ℕ → Option Chunk
parse_chunk (g0 ∷ g1 ∷ g2 ∷ g3 ∷ i0 ∷ i1 ∷ i2 ∷ i3 ∷ t0 ∷ t1 ∷ x0 ∷ x1 ∷ payload) =
    if g0 == 0x6d && g1 == 0x64 && g2 == 0x63 && g3 == 0x6b
    then some (record {
      id = u32_of i0 i1 i2 i3;
      total = u16_of t0 t1;
      index = u16_of x0 x1;
      payload = payload;
    })
    else none
parse_chunk _ = none

abbrev pub fresh : ℕ → Reasm
fresh total = record { total = total; received = 0; parts = replicate total none }

-- `if pending.len() >= REASM_MAX && !pending.contains_key(&id) { pending.clear() }`
unfoldable pub shed : Pending → ℕ → Pending
shed pending id =
    if leb reasm_max (length pending) && not (contains_key pending id) then [] else pending

-- `pending.entry(id).or_insert_with(...)`
unfoldable pub entry_of : Pending → ℕ → ℕ → Reasm
entry_of pending id total = elim (get pending id) [ none ↦ fresh total | some r ↦ r ]

-- A part that is already there is kept. The outer `none` is an index out of bounds.
unfoldable pub store_part : Reasm → ℕ → List ℕ → Option Reasm
store_part r index payload = do
  part ← get_elem? r.parts index
  some (
      if is_none part
      then record r { received = r.received + 1; parts = set r.parts index (some payload) }
      else r)

-- `for p in done.parts { out.extend_from_slice(&p?) }`
unfoldable pub join : List (Option (List ℕ)) → Option (List ℕ)
join [] = some []
join (none ∷ ps) = none
join (some b ∷ ps) = do rest ← join ps; some (b ++ rest)

-- `if entry.received == entry.total`: the entry leaves the table and its parts are joined.
unfoldable pub finish_entry : Pending → ℕ → Reasm → Pending × Option (List ℕ)
finish_entry pending id r =
    if r.received == r.total then (remove pending id, join r.parts) else (insert pending id r, none)

-- The tail of `reasm_feed`, from the entry on.
unfoldable pub feed_entry : Pending → Chunk → Reasm → Option (Pending × Option (List ℕ))
feed_entry pending c r =
    let stored = do r' ← store_part r c.index c.payload; some (finish_entry pending c.id r')
    in if r.total /= c.total then some (insert pending c.id r, none) else stored

unfoldable pub feed_chunk : Pending → Chunk → Option (Pending × Option (List ℕ))
feed_chunk pending c =
    if c.total == 0 || leb c.total c.index
    then some (pending, none)
    else feed_entry (shed pending c.id) c (entry_of (shed pending c.id) c.id c.total)

-- `some (pending', out)`: the table afterwards and the completed message, if this datagram
-- completes one. `none` is a panic.
unfoldable pub reasm_feed : Pending → List ℕ → Option (Pending × Option (List ℕ))
reasm_feed pending pkt = elim (parse_chunk pkt) [
  | none ↦ some (pending, none)
  | some c ↦ feed_chunk pending c
]
