-- ===== src/Nat/Stun.antt =====
-- nat/stun.rs. A message is a list of bytes. Every index and slice of the source is fallible here:
-- the outer `none` is a panic (or fuel that ran out), the inner one the `None` of the source.
pub mod Total
use Prim.Native.Nat.{bit_xor}
use my_domain_core.Prelude.{
  ◌>>=◌, ℕ, zero, suc, ◌+◌, ◌-◌, ◌%◌, List, ◌++◌, Option, none, some, Bool, ◌&&◌, ◌||◌, ltb, leb,
  length, be16, be32, u16_of, if◌then◌else◌, ◌==◌, ◌/=◌, nat_eq, min, take, false,
}
use my_domain_core.Net.{ipv4, SocketAddr, at, slice}

abbrev pub magic : ℕ
magic = 0x2112_A442

-- The Binding Request: type, length 0, magic cookie and a transaction id.
pub binding_request : List ℕ → List ℕ
binding_request txid = be16 0x0001 ++ (be16 0 ++ (be32 magic ++ txid))

-- The address in an attribute's value of at least eight bytes; `magic[0..4]` is 21 12 A4 42.
unfoldable pub address_of : ℕ → List ℕ → Option SocketAddr
address_of atype val = do
  v2 ← at val 2
  v3 ← at val 3
  v4 ← at val 4
  v5 ← at val 5
  v6 ← at val 6
  v7 ← at val 7
  some (
      if atype == 0x0020
      then record {
        ip = ipv4 (bit_xor v4 0x21) (bit_xor v5 0x12) (bit_xor v6 0xA4) (bit_xor v7 0x42);
        port = bit_xor (u16_of v2 v3) 0x2112;
      }
      else record { ip = ipv4 v4 v5 v6 v7; port = u16_of v2 v3 })

-- `(atype == 0x0020 || atype == 0x0001) && val.len() >= 8 && val[1] == 0x01`; `&&` reads `val[1]`
-- only behind the test of the length.
unfoldable pub is_mapped : ℕ → List ℕ → Option Bool
is_mapped atype val =
    if (atype == 0x0020 || atype == 0x0001) && leb 8 (length val)
    then (do v1 ← at val 1; some (v1 == 0x01))
    else some false

-- The body of the loop behind its four header bytes; `rest` is the loop from the next attribute on.
unfoldable pub try_attr :
    List ℕ → ℕ → ℕ → ℕ → Option (Option SocketAddr) → Option (Option SocketAddr)
try_attr msg atype alen v rest =
    let here = do
      val ← slice msg v (v + alen)
      found ← is_mapped atype val
      let address = do addr ← address_of atype val; some (some addr)
      if found then address else rest
    in if ltb (length msg) (v + alen) then some none else here

-- Attributes are padded to a boundary of four bytes.
abbrev pub next_attr : ℕ → ℕ → ℕ
next_attr v alen = v + alen + (4 - alen % 4) % 4

-- `while i + 4 <= end`
unfoldable pub parse_attrs : ℕ → List ℕ → ℕ → ℕ → Option (Option SocketAddr)
parse_attrs zero msg end i = if leb (i + 4) end then none else some none
parse_attrs (suc fuel) msg end i =
    let round = do
      t0 ← at msg i
      t1 ← at msg (i + 1)
      l0 ← at msg (i + 2)
      l1 ← at msg (i + 3)
      let alen = u16_of l0 l1
      try_attr msg (u16_of t0 t1) alen (i + 4) (parse_attrs fuel msg end (next_attr (i + 4) alen))
    in if leb (i + 4) end then round else some none

-- Each round moves `i` by four at least, so `length msg` rounds are more than enough.
unfoldable pub parse_mapped : List ℕ → Option (Option SocketAddr)
parse_mapped msg =
    let checked = do
      h0 ← at msg 0
      h1 ← at msg 1
      m0 ← at msg 2
      m1 ← at msg 3
      let end = min (20 + u16_of m0 m1) (length msg)
      if u16_of h0 h1 /= 0x0101 then some none else parse_attrs (length msg) msg end 20
    in if ltb (length msg) 20 then some none else checked

-- What the socket did: the request could not be sent, nothing came back in two seconds, or a
-- datagram came back.
pub data Exchange : Type 0 where
  send_failed : Exchange
  timed_out : Exchange
  received : List ℕ → Exchange

-- `recv_from` keeps at most the 512 bytes of the buffer.
unfoldable pub stun_binding : Exchange → Option (Option SocketAddr)
stun_binding send_failed = some none
stun_binding timed_out = some none
stun_binding (received datagram) = parse_mapped (take 512 datagram)
