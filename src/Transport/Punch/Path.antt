-- ===== src/Transport/Punch/Path.antt =====
-- transport/punch.rs and nat/punch.rs: what a path has shown before it is used.
use my_domain_core.Prelude.{
  if◌then◌else◌, Bool-cases, Option-cases, nat_eq, string_eq, take, ℕ, ◌≡◌, refl, inl, inr, Bool,
  true, false, Option, none, some, List, [], ◌∷◌, arith,
}
use my_domain_core.Net.{SocketAddr}
use my_domain_core.Ctx.{Ctx, record_effect, punch_sent}
use my_domain_core.Transport.Live.Events.{link_events}
use my_domain_core.Transport.Send.Quiet.{Quiet, Quiet-refl, Quiet-trans, record_effect-Quiet}
use my_domain_core.Transport.Punch.{
  punch_ping, punch_pong, same_bytes, Heard, ProbeRound, probe_of, probe_loop, hole_punch,
  send_probes, ConfirmRound, confirm_heard, confirm_round_trip,
}

-- The address that answered with a pong, if that is what is heard.
abbrev pub pong_from : Heard → Option SocketAddr
pong_from none = none
pong_from (some (bytes, src)) = if same_bytes (take 1500 bytes) punch_pong then some src else none

-- The first pong of the rounds.
abbrev pub first_pong : List ConfirmRound → Option SocketAddr
first_pong [] = none
first_pong (r ∷ rs) = elim (pong_from r.heard) [ some a ↦ some a | none ↦ first_pong rs ]

-- The first probe of the rounds.
abbrev pub first_probe : List ℕ → List ProbeRound → Option SocketAddr
first_probe magic [] = none
first_probe magic (r ∷ rs) = elim (probe_of magic r.heard) [
  | some a ↦ some a
  | none ↦ first_probe magic rs
]

pub punch_sent-Quiet :
    (a : SocketAddr) (b : List ℕ) (s : Ctx) → Quiet s (record_effect (punch_sent a b) s)
unfolding link_events
punch_sent-Quiet a b s = record_effect-Quiet (punch_sent a b) s (λ trace. refl)

confirm_heard-proven :
    (x : Heard) (peer : SocketAddr) (s : Ctx) → (confirm_heard x peer s).2 ≡ pong_from x
unfolding confirm_heard
confirm_heard-proven none peer s = refl
confirm_heard-proven (some (bytes, src)) peer s = ground arith

-- A round trip is proven by the first pong, and by nothing else; the path is then its sender's.
pub confirm_round_trip_lem :
    (rounds : List ConfirmRound) (peer : SocketAddr) (s : Ctx)
    → (confirm_round_trip rounds peer s).1 ≡ first_pong rounds
unfolding confirm_round_trip
confirm_round_trip_lem [] peer s = refl
confirm_round_trip_lem (r ∷ rs) peer s =
    let s' : Ctx = if r.ping then record_effect (punch_sent peer punch_ping) s else s in
    elim (Option-cases (pong_from r.heard)) [
      | inl nothing ↦
          rw (confirm_heard-proven r.heard peer s', nothing, confirm_round_trip, first_pong)
            (confirm_round_trip_lem rs (confirm_heard r.heard peer s').1
              (confirm_heard r.heard peer s').0)
      | inr (a, e) ↦ rw (confirm_heard-proven r.heard peer s', e, confirm_round_trip, first_pong)
    ]

probe_loop_lem :
    (rounds : List ProbeRound) (cands : List SocketAddr) (magic : List ℕ) (s : Ctx)
    → (probe_loop rounds cands magic s).1 ≡ first_probe magic rounds
unfolding probe_loop
probe_loop_lem [] cands magic s = refl
probe_loop_lem (r ∷ rs) cands magic s = elim (Option-cases (probe_of magic r.heard)) [
  | inl nothing ↦
      rw (nothing, probe_loop, first_probe)
        (probe_loop_lem rs cands magic (if r.resend then send_probes magic cands s else s))
  | inr (a, e) ↦ rw (e, probe_loop, first_probe)
]

confirm_heard-Quiet : (x : Heard) (peer : SocketAddr) (s : Ctx) → Quiet s (confirm_heard x peer s).0
unfolding confirm_heard
confirm_heard-Quiet none peer s = Quiet-refl s
confirm_heard-Quiet (some (bytes, src)) peer s = grind (arith, punch_sent-Quiet, Quiet-refl)

send_probes-Quiet :
    (magic : List ℕ) (cands : List SocketAddr) (s : Ctx) → Quiet s (send_probes magic cands s)
unfolding send_probes
send_probes-Quiet magic [] s = Quiet-refl s
send_probes-Quiet magic (c ∷ cs) s =
    Quiet-trans (punch_sent-Quiet c magic s)
      (send_probes-Quiet magic cs (record_effect (punch_sent c magic) s))

pub confirm_round_trip-Quiet :
    (rounds : List ConfirmRound) (peer : SocketAddr) (s : Ctx)
    → Quiet s (confirm_round_trip rounds peer s).0
unfolding confirm_round_trip
confirm_round_trip-Quiet [] peer s = Quiet-refl s
confirm_round_trip-Quiet (r ∷ rs) peer s =
    let s' : Ctx = if r.ping then record_effect (punch_sent peer punch_ping) s else s in
    let pinged : Quiet s s' = elim (Bool-cases r.ping) [
      | inl due ↦ rw due (punch_sent-Quiet peer punch_ping s)
      | inr early ↦ rw early (Quiet-refl s)
    ] in
    let (s'', peer', proven) = confirm_heard r.heard peer s' in
    let heard = Quiet-trans pinged (confirm_heard-Quiet r.heard peer s') in
    elim (Option-cases proven) [
      | inl nothing ↦
          rw (nothing, confirm_round_trip)
            (Quiet-trans heard (confirm_round_trip-Quiet rs peer' s''))
      | inr (a, e) ↦ rw (e, confirm_round_trip) heard
    ]

probe_loop-Quiet :
    (rounds : List ProbeRound) (cands : List SocketAddr) (magic : List ℕ) (s : Ctx)
    → Quiet s (probe_loop rounds cands magic s).0
unfolding probe_loop
probe_loop-Quiet [] cands magic s = Quiet-refl s
probe_loop-Quiet (r ∷ rs) cands magic s =
    let s' : Ctx = if r.resend then send_probes magic cands s else s in
    let sent : Quiet s s' = elim (Bool-cases r.resend) [
      | inl due ↦ rw due (send_probes-Quiet magic cands s)
      | inr early ↦ rw early (Quiet-refl s)
    ] in
    elim (Option-cases (probe_of magic r.heard)) [
      | inl nothing ↦
          rw (nothing, probe_loop) (Quiet-trans sent (probe_loop-Quiet rs cands magic s'))
      | inr (a, e) ↦ rw (e, probe_loop) (Quiet-trans sent (punch_sent-Quiet a magic s'))
    ]

pub hole_punch-Quiet :
    (timeout_set : Bool) (rounds : List ProbeRound) (cands : List SocketAddr) (magic : List ℕ)
    (s : Ctx)
    → Quiet s (hole_punch timeout_set rounds cands magic s).0
unfolding hole_punch
hole_punch-Quiet true rounds cands magic s = probe_loop-Quiet rounds cands magic s
hole_punch-Quiet false rounds cands magic s = Quiet-refl s
