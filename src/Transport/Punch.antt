-- ===== src/Transport/Punch.antt =====
-- transport/punch.rs and nat/punch.rs: a punched link, from the candidates to the end of its driver.
-- A loop that runs until a deadline is a function over its rounds: what each of them hears, and which
-- of its timers has run out. The chunks are those of Chunk and Reasm.
pub mod Path
pub mod Driver
use my_domain_core.Prelude.{
  leb, if◌then◌else◌, nat_eq, string_eq, ◌==◌, ◌/=◌, or_default, ◌>>=◌, length, take, ℕ, String,
  Bool, true, false, not, ◌&&◌, Option, none, some, List, [], ◌∷◌, ◌++◌,
}
use my_domain_core.Net.{SocketAddr}
use my_domain_core.Text.{is_empty, parse_ipv4, show_ipv4}
use my_domain_core.Model.{Candidate}
use my_domain_core.Nat.Stun.{Exchange, stun_binding}
use my_domain_core.Host.{Host}
use my_domain_core.Ctx.{Ctx, record_effect, punch_sent}

-- b"mdpunch1" and b"mdpong01".
abbrev pub punch_magic : List ℕ
punch_magic = b'm' ∷ b'd' ∷ b'p' ∷ b'u' ∷ b'n' ∷ b'c' ∷ b'h' ∷ b'1' ∷ []

abbrev pub punch_ping : List ℕ
punch_ping = punch_magic

abbrev pub punch_pong : List ℕ
punch_pong = b'm' ∷ b'd' ∷ b'p' ∷ b'o' ∷ b'n' ∷ b'g' ∷ b'0' ∷ b'1' ∷ []

-- Equality of byte slices.
unfoldable pub same_bytes : List ℕ → List ℕ → Bool
same_bytes [] [] = true
same_bytes (a ∷ as') (b ∷ bs) = a == b && same_bytes as' bs
same_bytes _ _ = false

-- `stun_binding`; the outer `none`, a panic, does not occur.
unfoldable pub reflexive : Exchange → Option SocketAddr
reflexive e = or_default (stun_binding e) none

module _ (h : Host) where
  -- The reflexive address that the STUN server reports, if there is a server and an answer.
  unfoldable pub ask_stun : Ctx → Option SocketAddr
  ask_stun s = do server ← h.stun_server s.turn; reflexive (h.stun_exchange s.turn server)

  abbrev pub host_candidates : String → ℕ → List Candidate
  host_candidates my_ip port =
      if not (is_empty my_ip) && my_ip /= "0.0.0.0"
      then record { ip = my_ip; port = port; kind = "host" } ∷ []
      else []

  abbrev pub reflexive_candidates : Option SocketAddr → List Candidate
  reflexive_candidates none = []
  reflexive_candidates (some a) = record { ip = show_ipv4 a.ip; port = a.port; kind = "srflx" } ∷ []

  -- The host candidate and the reflexive one, in that order; `none` without a socket or a candidate.
  unfoldable pub gather_candidates : Ctx → Option (List Candidate)
  gather_candidates s = elim (h.udp_port s.turn) [
    | none ↦ none
    | some port ↦ elim (host_candidates s.identity.ip port ++ reflexive_candidates (ask_stun s)) [
      | [] ↦ none
      | c ∷ cs ↦ some (c ∷ cs)
    ]
  ]

-- The candidates whose text is an IPv4 address. (An IPv6 address in brackets parses as well in the
-- source; the socket is an IPv4 one, and a send to it fails without notice.)
unfoldable pub to_addrs : List Candidate → List SocketAddr
to_addrs [] = []
to_addrs (c ∷ cs) = elim (parse_ipv4 c.ip) [
  | none ↦ to_addrs cs
  | some ip ↦ record { ip = ip; port = c.port } ∷ to_addrs cs
]

-- What one read of the socket gives: a datagram and its sender, or a timeout.
abbrev pub Heard : Type 0
Heard = Option (List ℕ × SocketAddr)

unfoldable pub send_probes : List ℕ → List SocketAddr → Ctx → Ctx
send_probes magic [] s = s
send_probes magic (c ∷ cs) s = send_probes magic cs (record_effect (punch_sent c magic) s)

-- A round of `hole_punch`: whether 50 ms have passed since the last probes, and what is heard.
pub record ProbeRound : Type 0 where
  pub resend : Bool
  pub heard : Heard

-- The address of a probe that is heard: a datagram (64 bytes of it are read) that begins with `magic`.
unfoldable pub probe_of : List ℕ → Heard → Option SocketAddr
probe_of magic none = none
probe_of magic (some (bytes, src)) =
    if leb (length magic) (length (take 64 bytes))
      && same_bytes (take (length magic) (take 64 bytes)) magic
    then some src
    else none

-- The loop until the deadline: `rounds` are those that begin before it.
unfoldable pub probe_loop :
    List ProbeRound → List SocketAddr → List ℕ → Ctx → Ctx × Option SocketAddr
probe_loop [] candidates magic s = (s, none)
probe_loop (r ∷ rs) candidates magic s =
    let s' : Ctx = if r.resend then send_probes magic candidates s else s in
    let rest = probe_loop rs candidates magic s' in
    elim (probe_of magic r.heard) [
      | some src ↦ (record_effect (punch_sent src magic) s', some src)
      | none ↦ rest
    ]

-- `timeout_set`: the socket took its read timeout.
unfoldable pub hole_punch :
    Bool → List ProbeRound → List SocketAddr → List ℕ → Ctx → Ctx × Option SocketAddr
hole_punch timeout_set rounds candidates magic s =
    if timeout_set then probe_loop rounds candidates magic s else (s, none)

-- A round of `confirm_round_trip`: whether 150 ms have passed since the last ping, and what is heard.
pub record ConfirmRound : Type 0 where
  pub ping : Bool
  pub heard : Heard

-- What a datagram (1500 bytes of it are read) says to the loop: the proven address, or the address to
-- go on with.
unfoldable pub confirm_heard : Heard → SocketAddr → Ctx → Ctx × SocketAddr × Option SocketAddr
confirm_heard none peer s = (s, peer, none)
confirm_heard (some (bytes, src)) peer s =
    if same_bytes (take 1500 bytes) punch_pong
    then (s, peer, some src)
    else if same_bytes (take 1500 bytes) punch_ping
    then (record_effect (punch_sent src punch_pong) s, src, none)
    else (s, peer, none)

unfoldable pub confirm_round_trip : List ConfirmRound → SocketAddr → Ctx → Ctx × Option SocketAddr
confirm_round_trip [] peer s = (s, none)
confirm_round_trip (r ∷ rs) peer s =
    let s' : Ctx = if r.ping then record_effect (punch_sent peer punch_ping) s else s in
    let (s'', peer', proven) = confirm_heard r.heard peer s' in
    let rest = confirm_round_trip rs peer' s'' in
    elim proven [ some src ↦ (s'', some src) | none ↦ rest ]
