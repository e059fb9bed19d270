-- ===== src/Wire/Frame/RoundTrip.antt =====
-- `encode` and `decode` of wire/frame.rs are inverse to one another on what they accept.
use my_domain_core.Prelude.{
  ℕ, ◌≡◌, List, [], ◌∷◌, some, be16, be32, be16_lem, be32_lem, u16_of, u32_of, IsByte, All, arith,
}
use my_domain_core.Wire.Frame.{Frame, encode, decode, InRange}

-- Decoding the encoding of a frame whose fields are in the range of their types returns the frame.
pub decode-encode : (f : Frame) → InRange f → decode (encode f) ≡ some f
unfolding encode decode
decode-encode f h = ground (arith, be16_lem f.channel h.channel, be32_lem f.seq h.seq)

be16-u16_of : (a b : ℕ) → IsByte a → IsByte b → be16 (u16_of a b) ≡ a ∷ b ∷ []
be16-u16_of a b ha hb = ground arith

be32-u32_of :
    (a b c d : ℕ)
    → IsByte a
    → IsByte b
    → IsByte c
    → IsByte d
    → be32 (u32_of a b c d) ≡ a ∷ b ∷ c ∷ d ∷ []
be32-u32_of a b c d ha hb hc hd = ground arith

-- Whatever a byte string decodes to is in range and encodes to that very byte string: no two
-- byte strings decode to one frame, and no byte is ignored.
pub encode-decode :
    (bytes : List ℕ) (f : Frame)
    → All IsByte bytes
    → decode bytes ≡ some f
    → (encode f ≡ bytes) × InRange f
unfolding encode decode
encode-decode [] f hb e = cc
encode-decode (v ∷ []) f hb e = cc
encode-decode (v ∷ s ∷ []) f hb e = cc
encode-decode (v ∷ s ∷ c0 ∷ []) f hb e = cc
encode-decode (v ∷ s ∷ c0 ∷ c1 ∷ []) f hb e = cc
encode-decode (v ∷ s ∷ c0 ∷ c1 ∷ fl ∷ []) f hb e = cc
encode-decode (v ∷ s ∷ c0 ∷ c1 ∷ fl ∷ q0 ∷ []) f hb e = cc
encode-decode (v ∷ s ∷ c0 ∷ c1 ∷ fl ∷ q0 ∷ q1 ∷ []) f hb e = cc
encode-decode (v ∷ s ∷ c0 ∷ c1 ∷ fl ∷ q0 ∷ q1 ∷ q2 ∷ []) f hb e = cc
encode-decode (v ∷ s ∷ c0 ∷ c1 ∷ fl ∷ q0 ∷ q1 ∷ q2 ∷ q3 ∷ payload) f hb e =
    (ground (arith, be16-u16_of c0 c1, be32-u32_of q0 q1 q2 q3), ground arith)
