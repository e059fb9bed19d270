-- ===== src/Transport/Reasm/Parts.antt =====
-- transport/punch.rs: the parts of a message in `Reasm` against its chunks.
use my_domain_core.Prelude.{
  nat_eq, string_eq, length, get_elem?, set, replicate, IsU16, IsU32, be16_lem, be32_lem, ℕ, zero,
  suc, ◌+◌, ◌%◌, ◌≡◌, refl, ap, ◌∙◌, Option, none, some, List, [], ◌∷◌, arith,
}
use mathlib.Core.List.{flatten}
use my_domain_core.Transport.Chunk.{packet, packets_from}
use my_domain_core.Transport.Reasm.{parse_chunk, join}
use my_domain_core.Transport.Reasm.Valid.{count_some, count_some-le}

-- Every part that is there is the chunk of its place.
abbrev pub Agrees : List (Option (List ℕ)) → List (List ℕ) → Type 0
Agrees [] [] = Unit
Agrees [] (c ∷ cs) = ⊥
Agrees (p ∷ ps) [] = ⊥
Agrees (none ∷ ps) (c ∷ cs) = Agrees ps cs
Agrees (some b ∷ ps) (c ∷ cs) = (b ≡ c) × Agrees ps cs

pub Agrees-replicate : (cs : List (List ℕ)) → Agrees (replicate (length cs) none) cs
Agrees-replicate [] = tt
Agrees-replicate (c ∷ cs) = Agrees-replicate cs

pub Agrees-set :
    (ps : List (Option (List ℕ))) (cs : List (List ℕ)) (i : ℕ) (c : List ℕ)
    → Agrees ps cs
    → get_elem? cs i ≡ some c
    → Agrees (set ps i (some c)) cs
Agrees-set [] [] i c h e = tt
Agrees-set [] (d ∷ cs) i c h e = absurd h
Agrees-set (p ∷ ps) [] i c h e = absurd h
Agrees-set (none ∷ ps) (d ∷ cs) zero c h e = (cc, h)
Agrees-set (some b ∷ ps) (d ∷ cs) zero c h e = (cc, h.1)
Agrees-set (none ∷ ps) (d ∷ cs) (suc i) c h e = Agrees-set ps cs i c h e
Agrees-set (some b ∷ ps) (d ∷ cs) (suc i) c h e = (h.0, Agrees-set ps cs i c h.1 e)

-- With every part there, `join` gives the chunks one after the other.
pub join-Agrees :
    (ps : List (Option (List ℕ))) (cs : List (List ℕ))
    → Agrees ps cs
    → count_some ps ≡ length ps
    → join ps ≡ some (flatten cs)
unfolding join flatten
join-Agrees [] [] h e = refl
join-Agrees [] (d ∷ cs) h e = absurd h
join-Agrees (p ∷ ps) [] h e = absurd h
join-Agrees (none ∷ ps) (d ∷ cs) h e = absurd (omega (arith, count_some-le ps))
join-Agrees (some b ∷ ps) (d ∷ cs) h e = rw (join-Agrees ps cs h.1 (omega arith), h.0)

pub length-Agrees :
    (ps : List (Option (List ℕ))) (cs : List (List ℕ)) → Agrees ps cs → length ps ≡ length cs
length-Agrees [] [] h = refl
length-Agrees [] (d ∷ cs) h = absurd h
length-Agrees (p ∷ ps) [] h = absurd h
length-Agrees (none ∷ ps) (d ∷ cs) h = ap suc (length-Agrees ps cs h)
length-Agrees (some b ∷ ps) (d ∷ cs) h = ap suc (length-Agrees ps cs h.1)

pub parse_chunk-packet :
    (id total i : ℕ) (c : List ℕ)
    → IsU32 id
    → IsU16 total
    → IsU16 i
    → parse_chunk (packet id total i c)
      ≡ some (record { id = id; total = total; index = i; payload = c })
unfolding parse_chunk packet
parse_chunk-packet id total i c h k l =
    ground (arith, be32_lem id h, be16_lem (total % 65536), be16_lem (i % 65536))

pub get_elem?-packets_from :
    (id total k : ℕ) (cs : List (List ℕ)) (i : ℕ) (c : List ℕ)
    → get_elem? cs i ≡ some c
    → get_elem? (packets_from id total k cs) i ≡ some (packet id total (k + i) c)
unfolding packets_from
get_elem?-packets_from id total k [] i c e = cc
get_elem?-packets_from id total k (d ∷ cs) zero c e = ground arith
get_elem?-packets_from id total k (d ∷ cs) (suc i) c e =
    get_elem?-packets_from id total (suc k) cs i c e
    ∙ ap (λ (t : ℕ). some (packet id total t c)) (omega arith)
