-- ===== src/Prelude/Bytes.antt =====
-- Bytes and big-endian words: `to_be_bytes` and `from_be_bytes` of u16 and u32.
use Prim.Native.Nat.{ℕ, ◌+◌, ◌*◌, ◌/◌, ◌%◌, ◌<◌}
use mathlib.Core.Path.{◌≡◌}
use mathlib.Core.List.{List, [], ◌∷◌}
use native.Mathlib.Omega.{arith}
use my_domain_core.Prelude.Lists.{All}

abbrev pub IsByte : ℕ → Type 0
IsByte b = b < 256

abbrev pub IsU16 : ℕ → Type 0
IsU16 n = n < 65536

abbrev pub IsU32 : ℕ → Type 0
IsU32 n = n < 4294967296

abbrev pub be16 : ℕ → List ℕ
be16 n = n / 256 % 256 ∷ n % 256 ∷ []

abbrev pub be32 : ℕ → List ℕ
be32 n = n / 16777216 % 256 ∷ n / 65536 % 256 ∷ n / 256 % 256 ∷ n % 256 ∷ []

abbrev pub u16_of : ℕ → ℕ → ℕ
u16_of a b = a * 256 + b

abbrev pub u32_of : ℕ → ℕ → ℕ → ℕ → ℕ
u32_of a b c d = a * 16777216 + b * 65536 + c * 256 + d

pub be16_lem : (n : ℕ) → IsU16 n → u16_of (n / 256 % 256) (n % 256) ≡ n
be16_lem n h = omega arith

pub be32_lem :
    (n : ℕ) → IsU32 n → u32_of (n / 16777216 % 256) (n / 65536 % 256) (n / 256 % 256) (n % 256) ≡ n
be32_lem n h = omega arith

pub be16-IsByte : (n : ℕ) → All IsByte (be16 n)
be16-IsByte n = omega arith

pub be32-IsByte : (n : ℕ) → All IsByte (be32 n)
be32-IsByte n = omega arith
