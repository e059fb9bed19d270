-- ===== src/Wire/Frame.antt =====
-- wire/frame.rs. A `Vec<u8>` is a list of numbers below 256; u16 and u32 fields are plain numbers
-- whose range is a hypothesis where it matters. `to_be_bytes` is written out by `/` and `%`.
pub mod RoundTrip
use Prim.Native.Nat.{bit_and}
use my_domain_core.Prelude.{
  ℕ, List, [], ◌∷◌, ◌++◌, Option, none, some, Bool, be16, be32, u16_of, u32_of, if◌then◌else◌, ◌/=◌,
  nat_eq, IsByte, IsU16, IsU32, All,
}

abbrev pub version : ℕ
version = 2

abbrev pub header_len : ℕ
header_len = 9

abbrev pub flag_datagram : ℕ
flag_datagram = 0x01

pub record Frame : Type 0 where
  pub service : ℕ
  pub channel : ℕ
  pub flags : ℕ
  pub seq : ℕ
  pub payload : List ℕ

unfoldable pub encode : Frame → List ℕ
encode f =
    (version ∷ f.service ∷ []) ++ (be16 f.channel ++ ((f.flags ∷ []) ++ (be32 f.seq ++ f.payload)))

-- The pattern has the nine header bytes, so its failure is `bytes.len() < HEADER_LEN`.
unfoldable pub decode : List ℕ → Option Frame
decode (v ∷ s ∷ c0 ∷ c1 ∷ fl ∷ q0 ∷ q1 ∷ q2 ∷ q3 ∷ payload) =
    if v /= version
    then none
    else some (record {
      service = s;
      channel = u16_of c0 c1;
      flags = fl;
      seq = u32_of q0 q1 q2 q3;
      payload = payload;
    })
decode _ = none

unfoldable pub is_datagram : Frame → Bool
is_datagram f = bit_and f.flags flag_datagram /= 0

-- What the field types of the struct promise.
pub record InRange (f : Frame) : Type 0 where
  pub service : IsByte f.service
  pub channel : IsU16 f.channel
  pub flags : IsByte f.flags
  pub seq : IsU32 f.seq
  pub payload : All IsByte f.payload
