-- ===== src/Registry/Base.antt =====
-- registry.rs: `base`, which cuts a server URL down to its scheme and host.
use my_domain_core.Prelude.{
  if◌then◌else◌, nat_eq, string_eq, ◌==◌, String, ◌&&◌, Option, none, some,
}
use Prim.Native.Char.{Char, code}
use mathlib.Core.Option.{map as map_option}
use Prim.Native.String.{◌++◌ as append}
use my_domain_core.Text.{trim, trim_end_by}

-- What follows "://", where a text begins with it.
unfoldable pub after_separator : String → Option String
after_separator (String.◌∷◌ a (String.◌∷◌ b (String.◌∷◌ c s))) =
    if code a == b':' && code b == b'/' && code c == b'/' then some s else none
after_separator _ = none

-- The first "://" of a text: what stands in front of it, and what follows it.
unfoldable pub prepend : Char → String × String → String × String
prepend c (front, rest) = (String.◌∷◌ c front, rest)

unfoldable pub find_separator : String → Option (String × String)
unfolding after_separator prepend
find_separator String.[] = none
find_separator (String.◌∷◌ c s) =
    let later = find_separator s in
    elim (after_separator (String.◌∷◌ c s)) [
      | some rest ↦ some ("", rest)
      | none ↦ map_option (prepend c) later
    ]

-- Up to the first '/', or all of it.
unfoldable pub until_slash : String → String
until_slash String.[] = String.[]
until_slash (String.◌∷◌ c s) = if code c == b'/' then String.[] else String.◌∷◌ c (until_slash s)

unfoldable pub base : String → String
unfolding after_separator find_separator until_slash
base url =
    let u = trim_end_by (λ c. c == b'/') (trim url) in
    elim (find_separator u) [
      | none ↦ u
      | some (scheme, rest) ↦ append scheme (append "://" (until_slash rest))
    ]
