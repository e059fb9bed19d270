-- ===== src/Net.antt =====
-- std::net as the program uses it: an IPv4 address by its octets, a socket address, and the
-- fallible indexing of byte slices.
use my_domain_core.Prelude.{
  leb, if◌then◌else◌, nat_eq, string_eq, length, get_elem?, take, drop, IsByte, ℕ, ◌-◌, Option,
  none, some, List,
}

pub record Ipv4Addr : Type 0 where
  pub o0 : ℕ
  pub o1 : ℕ
  pub o2 : ℕ
  pub o3 : ℕ

abbrev pub ipv4 : ℕ → ℕ → ℕ → ℕ → Ipv4Addr
ipv4 a b c d = record { o0 = a; o1 = b; o2 = c; o3 = d }

pub record IsIpv4 (a : Ipv4Addr) : Type 0 where
  pub byte0 : IsByte a.o0
  pub byte1 : IsByte a.o1
  pub byte2 : IsByte a.o2
  pub byte3 : IsByte a.o3

pub record SocketAddr : Type 0 where
  pub ip : Ipv4Addr
  pub port : ℕ

-- `b[i]` and `&b[from..to]`: `none` is the panic of an index out of bounds.
abbrev pub at : List ℕ → ℕ → Option ℕ
at = get_elem?

abbrev pub slice : List ℕ → ℕ → ℕ → Option (List ℕ)
slice b from to =
    if leb from to
    then (if leb to (length b) then some (take (to - from) (drop from b)) else none)
    else none
