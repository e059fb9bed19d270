-- ===== src/Transport/Reasm/Delivery.antt =====
-- transport/punch.rs, both ends: what `send_chunked` sends is what `reasm_feed` gives back.
use my_domain_core.Prelude.{
  ◌>>=◌, nat_eq, string_eq, length, get_elem?, get_elem?_in_range, All, IsU16, IsU32, ℕ, ◌<◌, ◌≡◌,
  ap, ◌∙◌, Option, none, some, List, [], ◌∷◌, arith,
}
use mathlib.Core.List.{flatten}
use my_domain_core.Prelude.Map.{get, insert, remove, get-remove_self}
use my_domain_core.Transport.Chunk.{chunks, packet, packets, packets_from}
use my_domain_core.Transport.Chunk.Split.{flatten-chunks, length-chunks_pos}
use my_domain_core.Transport.Reasm.{
  Reasm, Pending, fresh, shed, finish_entry, feed_chunk, reasm_feed,
}
use my_domain_core.Transport.Reasm.Parts.{get_elem?-packets_from, parse_chunk-packet}
use my_domain_core.Transport.Reasm.Collects.{
  IsDistinct, Collects, Collects-filled, Collects-fresh, feed_new, filled, finish_last, finish_more,
}

-- The messages that a sequence of datagrams completes, in the order in which they are completed.
unfoldable pub deliver : Pending → List (List ℕ) → Option (Pending × List (List ℕ))
deliver pending [] = some (pending, [])
deliver pending (p ∷ ps) = do
  (next, out) ← reasm_feed pending p
  (last, outs) ← deliver next ps
  some (last, elim out [ none ↦ outs | some message ↦ message ∷ outs ])

-- The elements at the given positions, in that order.
abbrev pub select {ℓ} : {A : Type ℓ} → List ℕ → List A → List A
select [] xs = []
select (i ∷ is) xs = elim (get_elem? xs i) [ none ↦ select is xs | some x ↦ x ∷ select is xs ]

select-cons {ℓ} :
    {A : Type ℓ} (i : ℕ) (is : List ℕ) (xs : List A) (x : A)
    → get_elem? xs i ≡ some x
    → select (i ∷ is) xs ≡ x ∷ select is xs
select-cons i is xs x e = rw (e, select)

deliver_more :
    (pending next last : Pending) (p : List ℕ) (ps outs : List (List ℕ))
    → reasm_feed pending p ≡ some (next, none)
    → deliver next ps ≡ some (last, outs)
    → deliver pending (p ∷ ps) ≡ some (last, outs)
unfolding deliver
deliver_more pending next last p ps outs e f = rw (e, f)

deliver_done :
    (pending next : Pending) (p message : List ℕ)
    → reasm_feed pending p ≡ some (next, some message)
    → deliver pending (p ∷ []) ≡ some (next, message ∷ [])
unfolding deliver
deliver_done pending next p message e = rw e

reasm_feed-packet :
    (pending : Pending) (id total i : ℕ) (c : List ℕ)
    → IsU32 id
    → IsU16 total
    → IsU16 i
    → reasm_feed pending (packet id total i c)
      ≡ feed_chunk pending (record { id = id; total = total; index = i; payload = c })
unfolding reasm_feed
reasm_feed-packet pending id total i c h k l =
    rw (parse_chunk-packet id total i c h k l, reasm_feed)

module _ (id : ℕ) (cs : List (List ℕ)) (id_fits : IsU32 id) (total_fits : IsU16 (length cs)) where
  -- What the rest of the datagrams delivers.
  abbrev Delivers : Pending → List (List ℕ) → Type 0
  Delivers pending ps =
      (last : Pending) × (deliver pending ps ≡ some (last, flatten cs ∷ [])) × (get last id ≡ none)

  feed_packet :
      (pending : Pending) (r : Reasm) (i : ℕ) (is : List ℕ) (c : List ℕ)
      → Collects pending id cs r (i ∷ is)
      → reasm_feed pending (packet id (length cs) i c)
        ≡ some (finish_entry (shed pending id) id (filled r i c))
  feed_packet pending r i is c h =
      reasm_feed-packet pending id (length cs) i c id_fits total_fits (omega (arith, h.within.0))
      ∙ feed_new pending id cs r i is c h

  first_of_rest :
      (i : ℕ) (is : List ℕ) (c : List ℕ)
      → get_elem? cs i ≡ some c
      → select (i ∷ is) (packets_from id (length cs) 0 cs)
        ≡ packet id (length cs) i c ∷ select is (packets_from id (length cs) 0 cs)
  first_of_rest i is c e =
      select-cons i is (packets_from id (length cs) 0 cs) (packet id (length cs) i c) (
        get_elem?-packets_from id (length cs) 0 cs i c e
        ∙ ap (λ (t : ℕ). some (packet id (length cs) t c)) (omega arith))

  deliver-select :
      (pending : Pending) (r : Reasm) (i : ℕ) (is : List ℕ)
      → Collects pending id cs r (i ∷ is)
      → Delivers pending (select (i ∷ is) (packets_from id (length cs) 0 cs))
  deliver-select pending r i [] h =
      let (c, e) = get_elem?_in_range cs i h.within.0 in
      rw (first_of_rest i [] c e) (
        remove (shed pending id) id,
        deliver_done pending (remove (shed pending id) id) (packet id (length cs) i c) (flatten cs)
            (feed_packet pending r i [] c h ∙ ap some (finish_last pending id cs r i c h e)),
        get-remove_self (shed pending id) id,
      )
  deliver-select pending r i (j ∷ is) h =
      let (c, e) = get_elem?_in_range cs i h.within.0 in
      let next : Pending = insert (shed pending id) id (filled r i c) in
      let (last, d, gone) =
        deliver-select next (filled r i c) j is (Collects-filled pending id cs r i j is c h e) in
      rw (first_of_rest i (j ∷ is) c e) (
        last,
        deliver_more pending next last (packet id (length cs) i c)
            (select (j ∷ is) (packets_from id (length cs) 0 cs)) (flatten cs ∷ [])
            (feed_packet pending r i (j ∷ is) c h
              ∙ ap some (finish_more pending id cs r i j is c h))
            d,
        gone,
      )

-- The datagrams of a message, each once and in any order, fed to a table that has nothing under
-- the message's id, complete that message and no other, exactly once; the id is free again after
-- it. This holds for every message of at most 65535 chunks, the empty one included.
pub deliver-packets :
    (pending : Pending) (id : ℕ) (message : List ℕ) (order : List ℕ)
    → IsU32 id
    → IsU16 (length (chunks message))
    → get pending id ≡ none
    → length order ≡ length (chunks message)
    → IsDistinct order
    → All (λ i. i < length (chunks message)) order
    → (last : Pending) × (deliver pending (select order (packets id message))
        ≡ some (last, message ∷ []))
      × (get last id ≡ none)
unfolding packets
deliver-packets pending id message [] h k absent n d w =
    absurd (omega (arith, length-chunks_pos message))
deliver-packets pending id message (i ∷ is) h k absent n d w = rw (flatten-chunks message) at (
    deliver-select id (chunks message) h k pending (fresh (length (chunks message))) i is (
      Collects-fresh pending id (chunks message) (i ∷ is) absent (length-chunks_pos message) k n d
        w))
