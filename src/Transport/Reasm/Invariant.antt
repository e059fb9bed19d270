-- ===== src/Transport/Reasm/Invariant.antt =====
-- The reassembly table of transport/punch.rs: fed any datagram it stays valid, and no index is out of
-- bounds.
use my_domain_core.Prelude.{
  leb, Bool-cases, Option-cases, nat_eq, string_eq, ◌==◌, length, All, IsByte, IsU16, ℕ, ◌<◌, ◌≡◌,
  inl, inr, true, false, ◌||◌, Option, none, some, List, [], ◌∷◌, arith,
}
use my_domain_core.Prelude.Map.{get, insert}
use my_domain_core.Transport.Reasm.{
  Reasm, Pending, Chunk, shed, entry_of, finish_entry, feed_entry, feed_chunk, parse_chunk,
  reasm_feed,
}
use my_domain_core.Transport.Reasm.Valid.{
  IsPending, IsReasm, StoresPart, count_some, count_some-le, fresh-IsReasm, get-shed,
  insert-IsPending, remove-IsPending, store_part_lem,
}

entry_of-IsReasm :
    (pending : Pending) (id total : ℕ)
    → IsPending pending
    → 0 < total
    → IsU16 total
    → IsReasm (entry_of (shed pending id) id total)
unfolding entry_of
entry_of-IsReasm pending id total h k u = elim (Option-cases (get (shed pending id) id)) [
  | inl absent ↦ rw (absent, entry_of) (fresh-IsReasm total k u)
  | inr (r, e) ↦ rw (e, entry_of) (h.entries id r (get-shed pending id id e))
]

-- The result of a feed that is no panic and keeps the invariant.
abbrev Feeds : Option (Pending × Option (List ℕ)) → Type 0
Feeds o =
    (pending : Pending) × (out : Option (List ℕ)) × (o ≡ some (pending, out)) × IsPending pending

IsReasm-open :
    (r : Reasm)
    → length r.parts ≡ r.total
    → count_some r.parts ≡ r.received
    → IsU16 r.total
    → (r.received == r.total) ≡ false
    → IsReasm r
IsReasm-open r slots counted fits open' = record {
  slots = slots;
  counted = counted;
  missing = ground (arith, count_some-le r.parts);
  fits = fits;
}

finish_entry-IsPending :
    (pending : Pending) (id : ℕ) (r : Reasm)
    → IsPending pending
    → length r.parts ≡ r.total
    → count_some r.parts ≡ r.received
    → IsU16 r.total
    → IsPending (finish_entry (shed pending id) id r).0
unfolding finish_entry
finish_entry-IsPending pending id r h slots counted fits =
    elim (Bool-cases (r.received == r.total)) [
      | inl full ↦ rw full (remove-IsPending pending id h)
      | inr open' ↦
          rw open' (insert-IsPending pending id r h (IsReasm-open r slots counted fits open'))
    ]

feed_stored_keeps :
    (pending : Pending) (c : Chunk) (r r' : Reasm)
    → IsPending pending
    → IsU16 r.total
    → (r.total == c.total) ≡ true
    → StoresPart r c.index c.payload r'
    → Feeds (feed_entry (shed pending c.id) c r)
unfolding feed_entry
feed_stored_keeps pending c r r' h fits same p = (
  (finish_entry (shed pending c.id) c.id r').0,
  (finish_entry (shed pending c.id) c.id r').1,
  rw (same, p.0),
  finish_entry-IsPending pending c.id r' h p.1 p.2 (omega (arith, p.3)),
)

feed_entry_keeps :
    (pending : Pending) (c : Chunk) (r : Reasm)
    → IsPending pending
    → IsReasm r
    → c.index < c.total
    → Feeds (feed_entry (shed pending c.id) c r)
unfolding feed_entry
feed_entry_keeps pending c r h k lt = elim (Bool-cases (r.total == c.total)) [
  | inr other ↦
      (insert (shed pending c.id) c.id r, none, rw other, insert-IsPending pending c.id r h k)
  | inl same ↦
      let (r', p) = store_part_lem r c.index c.payload k (ground arith) in
      feed_stored_keeps pending c r r' h k.fits same p
]

pub feed_chunk_keeps :
    (pending : Pending) (c : Chunk)
    → IsPending pending
    → IsU16 c.total
    → Feeds (feed_chunk pending c)
unfolding feed_chunk
feed_chunk_keeps pending c h u = elim (Bool-cases (c.total == 0 || leb c.total c.index)) [
  | inl refused ↦ (pending, none, rw refused, h)
  | inr good ↦ rw good (
      feed_entry_keeps pending c (entry_of (shed pending c.id) c.id c.total) h
        (entry_of-IsReasm pending c.id c.total h (ground arith) u) (ground arith))
]

parse_chunk-IsU16 :
    (pkt : List ℕ) (c : Chunk) → All IsByte pkt → parse_chunk pkt ≡ some c → IsU16 c.total
unfolding parse_chunk
parse_chunk-IsU16 [] c hb e = cc
parse_chunk-IsU16 (g0 ∷ []) c hb e = cc
parse_chunk-IsU16 (g0 ∷ g1 ∷ []) c hb e = cc
parse_chunk-IsU16 (g0 ∷ g1 ∷ g2 ∷ []) c hb e = cc
parse_chunk-IsU16 (g0 ∷ g1 ∷ g2 ∷ g3 ∷ []) c hb e = cc
parse_chunk-IsU16 (g0 ∷ g1 ∷ g2 ∷ g3 ∷ i0 ∷ []) c hb e = cc
parse_chunk-IsU16 (g0 ∷ g1 ∷ g2 ∷ g3 ∷ i0 ∷ i1 ∷ []) c hb e = cc
parse_chunk-IsU16 (g0 ∷ g1 ∷ g2 ∷ g3 ∷ i0 ∷ i1 ∷ i2 ∷ []) c hb e = cc
parse_chunk-IsU16 (g0 ∷ g1 ∷ g2 ∷ g3 ∷ i0 ∷ i1 ∷ i2 ∷ i3 ∷ []) c hb e = cc
parse_chunk-IsU16 (g0 ∷ g1 ∷ g2 ∷ g3 ∷ i0 ∷ i1 ∷ i2 ∷ i3 ∷ t0 ∷ []) c hb e = cc
parse_chunk-IsU16 (g0 ∷ g1 ∷ g2 ∷ g3 ∷ i0 ∷ i1 ∷ i2 ∷ i3 ∷ t0 ∷ t1 ∷ []) c hb e = cc
parse_chunk-IsU16 (g0 ∷ g1 ∷ g2 ∷ g3 ∷ i0 ∷ i1 ∷ i2 ∷ i3 ∷ t0 ∷ t1 ∷ x0 ∷ []) c hb e = cc
parse_chunk-IsU16 (g0 ∷ g1 ∷ g2 ∷ g3 ∷ i0 ∷ i1 ∷ i2 ∷ i3 ∷ t0 ∷ t1 ∷ x0 ∷ x1 ∷ payload) c hb e =
    ground arith

-- Fed any datagram, whatever bytes it holds, a valid table stays valid and no index is out of
-- bounds: at most 256 messages are in progress, each with as many slots as its total says, an exact
-- count of the parts that arrived, and a part missing.
pub reasm_feed-IsPending :
    (pending : Pending) (pkt : List ℕ)
    → IsPending pending
    → All IsByte pkt
    → (pending' : Pending) × (out : Option (List ℕ)) × (reasm_feed pending pkt
        ≡ some (pending', out))
      × IsPending pending'
unfolding reasm_feed
reasm_feed-IsPending pending pkt h hb = elim (Option-cases (parse_chunk pkt)) [
  | inl other ↦ (pending, none, rw (other, reasm_feed), h)
  | inr (c, e) ↦ rw (e, reasm_feed) (feed_chunk_keeps pending c h (parse_chunk-IsU16 pkt c hb e))
]
