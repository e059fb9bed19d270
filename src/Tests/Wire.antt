-- ===== src/Tests/Wire.antt =====
-- The tests of wire/frame.rs and nat/stun.rs.
use my_domain_core.Prelude.{
  nat_eq, string_eq, get_elem?, ℕ, ◌%◌, ◌≡◌, refl, ◌↔◌, Option, some, List, [], ◌∷◌, arith,
}
use my_domain_core.Wire.Frame.{Frame, encode, decode, InRange}
use my_domain_core.Wire.Frame.RoundTrip.{decode-encode, encode-decode}
use my_domain_core.Wire.Mux.{alloc_many, new_allocator}
use my_domain_core.Wire.Mux.Distinct.{alloc-distinct}
use my_domain_core.Net.{SocketAddr, ipv4}
use my_domain_core.Nat.Stun.{parse_mapped, parse_attrs, try_attr, is_mapped, address_of}
use my_domain_core.Nat.Stun.Total.{parse_mapped_returns}

abbrev frame_4 : Frame
frame_4 = record { service = 4; channel = 7; flags = 1; seq = 42; payload = 1 ∷ 2 ∷ 3 ∷ [] }

abbrev bytes_4 : List ℕ
bytes_4 = 2 ∷ 4 ∷ 0 ∷ 7 ∷ 1 ∷ 0 ∷ 0 ∷ 0 ∷ 42 ∷ 1 ∷ 2 ∷ 3 ∷ []

encode_4 : encode frame_4 ≡ bytes_4
unfolding encode
encode_4 = refl

decode_4 : decode bytes_4 ≡ some frame_4
unfolding decode
decode_4 = refl

decode-encode_example : decode (encode frame_4) ≡ some frame_4
decode-encode_example = decode-encode frame_4 (omega arith)

encode-decode_example : (encode frame_4 ≡ bytes_4) × InRange frame_4
encode-decode_example = encode-decode bytes_4 frame_4 (omega arith) decode_4

-- A success response with a SOFTWARE attribute (padded) in front of XOR-MAPPED-ADDRESS.
abbrev response : List ℕ
response =
    1 ∷ 1 ∷ 0 ∷ 20 ∷ 0x21 ∷ 0x12 ∷ 0xA4 ∷ 0x42 ∷ 0 ∷ 0 ∷ 0 ∷ 0 ∷ 0 ∷ 0 ∷ 0 ∷ 0 ∷ 0 ∷ 0 ∷ 0 ∷ 0
    ∷ 0x80 ∷ 0x22 ∷ 0 ∷ 2 ∷ 65 ∷ 66 ∷ 0 ∷ 0 ∷ 0 ∷ 0x20 ∷ 0 ∷ 8 ∷ 0 ∷ 1 ∷ 0x11 ∷ 0x2B ∷ 0xE1 ∷ 0xBA
    ∷ 0xA5 ∷ 0x43 ∷ []

parse_response :
    parse_mapped response ≡ some (some (record { ip = ipv4 192 168 1 1; port = 0x3039 }))
unfolding parse_mapped parse_attrs try_attr is_mapped address_of
parse_response = refl

parse_mapped_returns_example : (r : Option SocketAddr) × (parse_mapped response ≡ some r)
parse_mapped_returns_example = parse_mapped_returns response

alloc-distinct_example :
    (get_elem? (alloc_many 5 new_allocator) 1 ≡ get_elem? (alloc_many 5 new_allocator) 3)
    ↔ (1 % 65536 ≡ 3 % 65536)
alloc-distinct_example = alloc-distinct 5 1 3 (omega arith) (omega arith)
