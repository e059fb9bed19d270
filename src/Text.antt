-- ===== src/Text.antt =====
-- std's text functions that the program uses: `trim`, `is_empty`, `eq_ignore_ascii_case`, and
-- the IPv4 addresses' `parse` and `to_string`.
use Prim.Native.Char.{code}
use Prim.Native.String.{◌++◌ as append}
use my_domain_core.Prelude.{
  ◌>>=◌, ltb, leb, if◌then◌else◌, nat_eq, string_eq, ◌==◌, or_default, get_elem?, ℕ, ◌+◌, ◌-◌, ◌*◌,
  ◌/◌, ◌%◌, String, Bool, true, false, ◌&&◌, ◌||◌, Option, none, some, List, [], ◌∷◌, map,
}
use my_domain_core.Net.{Ipv4Addr, ipv4}

abbrev pub codes : String → List ℕ
codes String.[] = []
codes (String.◌∷◌ c s) = code c ∷ codes s

abbrev pub is_empty : String → Bool
is_empty String.[] = true
is_empty (String.◌∷◌ c s) = false

-- Unicode's White_Space.
unfoldable pub is_whitespace : ℕ → Bool
is_whitespace c =
    (leb 9 c && leb c 13)
    || c == 0x20
    || c == 0x85
    || c == 0xA0
    || c == 0x1680
    || (leb 0x2000 c && leb c 0x200A)
    || c == 0x2028
    || c == 0x2029
    || c == 0x202F
    || c == 0x205F
    || c == 0x3000

unfoldable pub trim_start : String → String
trim_start String.[] = String.[]
trim_start (String.◌∷◌ c s) = if is_whitespace (code c) then trim_start s else String.◌∷◌ c s

-- `trim_end_matches` for a test on characters.
unfoldable pub trim_end_by : (ℕ → Bool) → String → String
trim_end_by p String.[] = String.[]
trim_end_by p (String.◌∷◌ c s) =
    let rest = trim_end_by p s in
    if is_empty rest && p (code c) then String.[] else String.◌∷◌ c rest

unfoldable pub trim : String → String
unfolding trim_start trim_end_by is_whitespace
trim s = trim_end_by is_whitespace (trim_start s)

abbrev to_ascii_lowercase : ℕ → ℕ
to_ascii_lowercase c = if leb 65 c && leb c 90 then c + 32 else c

abbrev list_eq : List ℕ → List ℕ → Bool
list_eq [] [] = true
list_eq (a ∷ as') (b ∷ bs) = a == b && list_eq as' bs
list_eq _ _ = false

unfoldable pub eq_ignore_ascii_case : String → String → Bool
eq_ignore_ascii_case s t =
    list_eq (map to_ascii_lowercase (codes s)) (map to_ascii_lowercase (codes t))

-- A run of decimal digits and what follows it.
unfoldable pub span_digits : List ℕ → List ℕ × List ℕ
span_digits [] = ([], [])
span_digits (c ∷ cs) =
    let (ds, rest) = span_digits cs in
    if leb 48 c && leb c 57 then ((c - 48) ∷ ds, rest) else ([], c ∷ cs)

-- One to three digits, no leading zero, at most 255.
unfoldable pub octet_of : List ℕ → Option ℕ
octet_of (a ∷ []) = some a
octet_of (a ∷ b ∷ []) = if a == 0 then none else some (a * 10 + b)
octet_of (a ∷ b ∷ c ∷ []) =
    if a == 0 || ltb 255 (a * 100 + b * 10 + c) then none else some (a * 100 + b * 10 + c)
octet_of _ = none

unfoldable pub read_octet : List ℕ → Option (ℕ × List ℕ)
unfolding span_digits octet_of
read_octet cs = do n ← octet_of (span_digits cs).0; some (n, (span_digits cs).1)

unfoldable pub read_dot : List ℕ → Option (List ℕ)
read_dot [] = none
read_dot (c ∷ cs) = if c == b'.' then some cs else none

-- `ip.parse::<Ipv4Addr>()`
unfoldable pub parse_ipv4 : String → Option Ipv4Addr
unfolding read_octet read_dot
parse_ipv4 s = do
  (a, r0) ← read_octet (codes s)
  (b, r1) ← read_octet (← read_dot r0)
  (c, r2) ← read_octet (← read_dot r1)
  (d, r3) ← read_octet (← read_dot r2)
  elim r3 [ [] ↦ some (ipv4 a b c d) | _ ↦ none ]

unfoldable pub show_digit : ℕ → String
show_digit d =
    or_default (get_elem? ("0" ∷ "1" ∷ "2" ∷ "3" ∷ "4" ∷ "5" ∷ "6" ∷ "7" ∷ "8" ∷ "9" ∷ []) d) ""

unfoldable pub show_octet : ℕ → String
unfolding show_digit
show_octet n =
    if ltb n 10
    then show_digit n
    else if ltb n 100
    then append (show_digit (n / 10)) (show_digit (n % 10))
    else append (show_digit (n / 100)) (append (show_digit (n / 10 % 10)) (show_digit (n % 10)))

-- `to_string`
unfoldable pub show_ipv4 : Ipv4Addr → String
unfolding show_octet
show_ipv4 a = append (show_octet a.o0) (
    append "." (
      append (show_octet a.o1)
        (append "." (append (show_octet a.o2) (append "." (show_octet a.o3))))))
