-- ===== src/Nat/Stun/Total.antt =====
-- `parse_mapped` of nat/stun.rs on any input.
use my_domain_core.Prelude.{
  ltb, leb, Bool-cases, nat_eq, string_eq, ◌==◌, length, take, drop, get_elem?_in_range, u16_of, ℕ,
  zero, suc, ◌+◌, ◌-◌, ◌≤◌, ◌<◌, min, ◌≡◌, refl, ◌⊎◌, inl, inr, true, false, ◌&&◌, ◌||◌, Option,
  none, some, List, arith,
}
use my_domain_core.Net.{SocketAddr, slice}
use my_domain_core.Nat.Stun.{address_of, is_mapped, try_attr, next_attr, parse_attrs, parse_mapped}

-- The value of an option that is not `none`.
abbrev IsValue {ℓ} : {A : Type ℓ} → Option A → Type ℓ
IsValue {A = A} o = (a : A) × (o ≡ some a)

-- `val[1]` is read only where it exists, and a mapped address has eight bytes.
is_mapped_cases :
    (atype : ℕ) (val : List ℕ)
    → (is_mapped atype val ≡ some false) ⊎ ((is_mapped atype val ≡ some true) × (8 ≤ length val))
unfolding is_mapped
is_mapped_cases atype val =
    elim (Bool-cases ((atype == 0x0020 || atype == 0x0001) && leb 8 (length val))) [
      | inl yes1 ↦ let (v1, e1) = get_elem?_in_range val 1 (ground arith) in ground (arith, e1)
      | inr no1 ↦ inl (rw no1)
    ]

address_of-IsValue : (atype : ℕ) (val : List ℕ) → 8 ≤ length val → IsValue (address_of atype val)
unfolding address_of
address_of-IsValue atype val h =
    let (v2, e2) = get_elem?_in_range val 2 (omega arith) in
    let (v3, e3) = get_elem?_in_range val 3 (omega arith) in
    let (v4, e4) = get_elem?_in_range val 4 (omega arith) in
    let (v5, e5) = get_elem?_in_range val 5 (omega arith) in
    let (v6, e6) = get_elem?_in_range val 6 (omega arith) in
    let (v7, e7) = get_elem?_in_range val 7 (omega arith) in rw (e2, e3, e4, e5, e6, e7) (_, refl)

slice_in_range :
    (b : List ℕ) (from to : ℕ)
    → from ≤ to
    → to ≤ length b
    → (s : List ℕ) × (slice b from to ≡ some s)
slice_in_range b from to h k = (take (to - from) (drop from b), ground arith)

try_attr-IsValue :
    (msg : List ℕ) (atype alen v : ℕ) (rest : Option (Option SocketAddr))
    → IsValue rest
    → IsValue (try_attr msg atype alen v rest)
unfolding try_attr
try_attr-IsValue msg atype alen v rest h = elim (Bool-cases (ltb (length msg) (v + alen))) [
  | inl past ↦ rw past (none, refl)
  | inr fits ↦
      let (val, e) = slice_in_range msg v (v + alen) (omega arith) (ground arith) in
      elim (is_mapped_cases atype val) [
        | inl other ↦ rw (fits, e, other) h
        | inr (found, long) ↦
            let (a, ea) = address_of-IsValue atype val long in
            rw (fits, e, found, ea) (some a, refl)
      ]
]

parse_attrs-IsValue :
    (fuel : ℕ) (msg : List ℕ) (end i : ℕ)
    → end ≤ length msg
    → end < i + fuel
    → IsValue (parse_attrs fuel msg end i)
unfolding parse_attrs
parse_attrs-IsValue zero msg end i h k = (none, ground arith)
parse_attrs-IsValue (suc fuel) msg end i h k = elim (Bool-cases (leb (i + 4) end)) [
  | inr stop ↦ rw stop (none, refl)
  | inl more ↦
      let (t0, e0) = get_elem?_in_range msg i (ground arith) in
      let (t1, e1) = get_elem?_in_range msg (i + 1) (ground arith) in
      let (l0, e2) = get_elem?_in_range msg (i + 2) (ground arith) in
      let (l1, e3) = get_elem?_in_range msg (i + 3) (ground arith) in
      let next : ℕ = next_attr (i + 4) (u16_of l0 l1) in
      rw (more, e0, e1, e2, e3)
        (try_attr-IsValue msg (u16_of t0 t1) (u16_of l0 l1) (i + 4) (parse_attrs fuel msg end next)
          (parse_attrs-IsValue fuel msg end next h (omega arith)))
]

-- On every byte string `parse_mapped` returns: it reads no byte and no slice out of bounds, and its
-- loop ends.
pub parse_mapped_returns : (msg : List ℕ) → (r : Option SocketAddr) × (parse_mapped msg ≡ some r)
unfolding parse_mapped
parse_mapped_returns msg = elim (Bool-cases (ltb (length msg) 20)) [
  | inl short ↦ rw short (none, refl)
  | inr long ↦
      let (h0, e0) = get_elem?_in_range msg 0 (ground arith) in
      let (h1, e1) = get_elem?_in_range msg 1 (ground arith) in
      let (m0, e2) = get_elem?_in_range msg 2 (ground arith) in
      let (m1, e3) = get_elem?_in_range msg 3 (ground arith) in
      let end : ℕ = min (20 + u16_of m0 m1) (length msg) in
      elim (Bool-cases (u16_of h0 h1 == 0x0101)) [
        | inl success ↦
            rw (long, e0, e1, e2, e3, success)
              (parse_attrs-IsValue (length msg) msg end 20 (omega arith) (ground arith))
        | inr other ↦ rw (long, e0, e1, e2, e3, other) (none, refl)
      ]
]
