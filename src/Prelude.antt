-- ===== src/Prelude.antt =====
-- The names that the other modules share: the libraries' names passed on, tests, lists, maps and bytes.
pub mod Tests
pub mod Lists
pub mod Map
pub mod Bytes
pub mod Result
pub use Tests.{
  ltb, leb, if◌then◌else◌, Bool-cases, Option-cases, Eq, nat_eq, string_eq, ◌==◌, ◌/=◌, is_some,
  is_none, nat_beq, nat_beq_iff, or_default, ◌>>=◌, eq-of-beq, beq_refl, beq-of-ne,
}
pub use Lists.{
  length, get_elem?, set, take, drop, replicate, length-append, length-set, length-replicate,
  length-take, length-drop, get_elem?-set_self, get_elem?_in_range, get_elem?-set_ne, take-append,
  drop-append, take-append-drop, All, contains,
}
pub use Bytes.{
  IsByte, IsU16, IsU32, be16, be32, u16_of, u32_of, be16_lem, be32_lem, be16-IsByte, be32-IsByte,
}
pub use Prim.Native.Nat.{ℕ, zero, suc, ◌+◌, ◌-◌, ◌*◌, ◌/◌, ◌%◌, ◌^◌, ◌≤◌, ◌<◌, min}
pub use Prim.Native.String.{String}
pub use mathlib.Core.Path.{◌≡◌, refl, sym, ap, ◌∙◌, subst}
pub use mathlib.Core.Logic.{◌≢◌, ◌↔◌, ◌⊎◌, inl, inr}
pub use mathlib.Core.Bool.{Bool, true, false, not, ◌&&◌, ◌||◌}
pub use mathlib.Core.Option.{Option, none, some}
pub use mathlib.Core.List.{List, [], ◌∷◌, ◌++◌, map, append_assoc, append-nil}
pub use native.Mathlib.Omega.{arith}
