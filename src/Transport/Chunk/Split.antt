-- ===== src/Transport/Chunk/Split.antt =====
-- What `chunks` of transport/punch.rs returns.
use my_domain_core.Prelude.{
  ℕ, zero, suc, ◌+◌, ◌/◌, ◌≤◌, ◌<◌, ◌≡◌, refl, List, [], ◌∷◌, length, drop, length-take,
  length-drop, take-append-drop, arith, All,
}
use mathlib.Core.List.{flatten}
use my_domain_core.Transport.Chunk.{chunks, chunks_loop, chunk_payload}

pub flatten-chunks_loop :
    (fuel : ℕ) (bs : List ℕ) → length bs ≤ fuel → flatten (chunks_loop fuel bs) ≡ bs
unfolding chunks_loop flatten
flatten-chunks_loop fuel [] h = refl
flatten-chunks_loop zero (b ∷ bs) h = absurd (omega arith)
flatten-chunks_loop (suc fuel) (b ∷ bs) h =
    rw (flatten-chunks_loop fuel (drop 1023 bs) (omega (arith, length-drop 1023 bs)))
      (take-append-drop 1024 (b ∷ bs))

pub flatten-chunks : (bs : List ℕ) → flatten (chunks bs) ≡ bs
unfolding chunks flatten
flatten-chunks [] = refl
flatten-chunks (b ∷ bs) = flatten-chunks_loop (length (b ∷ bs)) (b ∷ bs) (omega arith)

pub length-chunks_loop :
    (fuel : ℕ) (bs : List ℕ)
    → length bs ≤ fuel
    → length (chunks_loop fuel bs) ≡ (length bs + 1023) / 1024
unfolding chunks_loop
length-chunks_loop fuel [] h = refl
length-chunks_loop zero (b ∷ bs) h = absurd (omega arith)
length-chunks_loop (suc fuel) (b ∷ bs) h = omega (
  arith,
  length-drop 1023 bs,
  length-chunks_loop fuel (drop 1023 bs) (omega (arith, length-drop 1023 bs)),
)

-- The number of chunks of a message that is not empty.
pub length-chunks : (bs : List ℕ) → 0 < length bs → length (chunks bs) ≡ (length bs + 1023) / 1024
unfolding chunks
length-chunks [] h = absurd (omega arith)
length-chunks (b ∷ bs) h = length-chunks_loop (length (b ∷ bs)) (b ∷ bs) (omega arith)

pub length-chunks_pos : (bs : List ℕ) → 0 < length (chunks bs)
unfolding chunks chunks_loop
length-chunks_pos [] = omega arith
length-chunks_pos (b ∷ bs) = omega arith

chunks_loop_short :
    (fuel : ℕ) (bs : List ℕ) → All (λ c. length c ≤ chunk_payload) (chunks_loop fuel bs)
unfolding chunks_loop
chunks_loop_short fuel [] = tt
chunks_loop_short zero (b ∷ bs) = tt
chunks_loop_short (suc fuel) (b ∷ bs) =
    (omega (arith, length-take 1023 bs), chunks_loop_short fuel (drop 1023 bs))

pub chunks_short : (bs : List ℕ) → All (λ c. length c ≤ chunk_payload) (chunks bs)
unfolding chunks
chunks_short [] = omega arith
chunks_short (b ∷ bs) = chunks_loop_short (length (b ∷ bs)) (b ∷ bs)
