-- ===== src/Model/Json.antt =====
-- serde_json's `Value` as the source uses it: a tree with accessors. Parsing and printing are
-- parameters (`Host`). A number keeps its literal, which no code of the repository reads.
use my_domain_core.Prelude.{
  if◌then◌else◌, nat_eq, string_eq, ◌==◌, ◌>>=◌, String, ◌≡◌, refl, ap, Bool, Option, none, some,
  List, [], ◌∷◌,
}

mutual
  pub data Value : Type 0 where
    null : Value
    bool : Bool → Value
    number : String → Value
    string : String → Value
    array : Items → Value
    object : Fields → Value

  pub data Items : Type 0 where
    cons : Value → Items → Items
    nil : Items

  pub data Fields : Type 0 where
    field : String → Value → Fields → Fields
    end : Fields

unfoldable pub lookup : Fields → String → Option Value
lookup end k = none
lookup (field j v fs) k = if j == k then some v else lookup fs k

-- `value.get(key)`
unfoldable pub get_field : Value → String → Option Value
unfolding lookup
get_field (object fs) k = lookup fs k
get_field _ k = none

abbrev pub as_str : Value → Option String
as_str (string s) = some s
as_str _ = none

abbrev pub as_array : Value → Option Items
as_array (array xs) = some xs
as_array _ = none

-- `get(key).and_then(|x| x.as_str())`
unfoldable pub str_field : Value → String → Option String
unfolding get_field
str_field v k = get_field v k >>= as_str

-- `a.iter().filter_map(|v| v.as_str().map(String::from)).collect()`
unfoldable pub strings_of : Items → List String
strings_of nil = []
strings_of (cons v xs) = elim (as_str v) [ none ↦ strings_of xs | some s ↦ s ∷ strings_of xs ]

-- `json!` over a list of texts, and over an optional text.
unfoldable pub of_strings : List String → Items
of_strings [] = nil
of_strings (s ∷ ss) = cons (string s) (of_strings ss)

abbrev pub of_option : Option String → Value
of_option none = null
of_option (some s) = string s

-- The texts of an array built from texts are those texts.
pub strings_of-of_strings : (ss : List String) → strings_of (of_strings ss) ≡ ss
unfolding strings_of of_strings
strings_of-of_strings [] = refl
strings_of-of_strings (s ∷ ss) = ap (λ r. s ∷ r) (strings_of-of_strings ss)
