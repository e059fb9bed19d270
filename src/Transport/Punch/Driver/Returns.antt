-- ===== src/Transport/Punch/Driver/Returns.antt =====
-- transport/punch.rs: a punched link from start to end, whatever the peer sends.
use my_domain_core.Prelude.{
  Option-cases, nat_eq, string_eq, All, ℕ, ◌+◌, String, ◌≡◌, refl, inl, inr, true, false, Option,
  none, some, List, [], ◌∷◌, arith,
}
use my_domain_core.Prelude.Map.{get}
use my_domain_core.Net.{SocketAddr}
use my_domain_core.Host.{Host}
use my_domain_core.Ctx.{Ctx}
use my_domain_core.Transport.Live.Evolves.{Evolves, same-Evolves}
use my_domain_core.Transport.Send.Quiet.{Quiet-Evolves}
use my_domain_core.Transport.Reasm.Valid.{IsPending}
use my_domain_core.Transport.Links.{punch_register}
use my_domain_core.Transport.Links.Indicator.{links-Evolves}
use my_domain_core.Transport.Punch.{ConfirmRound, confirm_round_trip}
use my_domain_core.Transport.Punch.Path.{confirm_round_trip-Quiet}
use my_domain_core.Transport.Punch.Driver.{
  PunchLink, PunchRound, punch_round, punch_loop, punch_conn, run_punch_conn, Round,
}
use my_domain_core.Transport.Punch.Driver.Total.{
  IsRound, IsKept, Keeps, KeepsRound, punch_round-keeps,
}

bumped-Evolves :
    {s0 : Ctx} (s : Ctx) → Evolves s0 s → Evolves s0 (record s { punch_seq = s.punch_seq + 1 })
bumped-Evolves s k = same-Evolves s (record s { punch_seq = s.punch_seq + 1 }) refl refl refl k

empty-IsPending : IsPending []
unfolding get
empty-IsPending = record { entries = λ id r e. absurd (cc e); bounded = omega arith }

module _ (s0 : Ctx) (h : Host) where
  next-Keeps :
      (r : PunchRound) (rs : List PunchRound) (link : PunchLink) (s : Ctx) (x : Option Round)
      → ((link' : PunchLink) (s' : Ctx) → IsKept s0 s' link' → Keeps s0 (punch_loop h rs link' s'))
      → punch_round h r link s ≡ x
      → KeepsRound s0 x
      → Keeps s0 (punch_loop h (r ∷ rs) link s)
  unfolding punch_loop
  next-Keeps r rs link s none rest e k = absurd k
  next-Keeps r rs link s (some (s', link', true)) rest e k = rw (e, punch_loop) (rest link' s' k)
  next-Keeps r rs link s (some (s', link', false)) rest e k = rw (e, punch_loop) k

  punch_loop-Keeps :
      (rs : List PunchRound) (link : PunchLink) (s : Ctx)
      → All IsRound rs
      → IsKept s0 s link
      → Keeps s0 (punch_loop h rs link s)
  unfolding punch_loop
  punch_loop-Keeps [] link s b k = k
  punch_loop-Keeps (r ∷ rs) link s (b, bs) k =
      next-Keeps r rs link s (punch_round h r link s) (λ l t. punch_loop-Keeps rs l t bs) refl
        (punch_round-keeps s0 h r link s b k)

  -- The driver has returned, and the registry has evolved.
  abbrev pub Returns : Option Ctx → Type 0
  Returns none = ⊥
  Returns (some t) = Evolves s0 t

  left-Returns :
      (rounds : List PunchRound) (addr : SocketAddr) (node_id : String) (s t : Ctx) (conn_id : ℕ)
      (x : Option (Ctx × PunchLink))
      → punch_register node_id addr s ≡ some (conn_id, t)
      → punch_loop h rounds
          (record {
            conn_id = conn_id;
            node_id = node_id;
            peer = addr;
            next_msg_id = 0;
            pending = [];
          })
          t
        ≡ x
      → Keeps s0 x
      → Returns (punch_conn h rounds addr node_id s)
  unfolding punch_conn
  left-Returns rounds addr node_id s t conn_id none reg e k = absurd k
  left-Returns rounds addr node_id s t conn_id (some (u, link)) reg e (shown, table) =
      rw (reg, e, punch_conn) (links-Evolves node_id conn_id addr u shown).0

  punch_conn-Returns :
      (rounds : List PunchRound) (addr : SocketAddr) (node_id : String) (s : Ctx)
      → All IsRound rounds
      → Evolves s0 s
      → Returns (punch_conn h rounds addr node_id s)
  unfolding punch_conn
  punch_conn-Returns rounds addr node_id s b k =
      elim (Option-cases (punch_register node_id addr s)) [
        | inl taken ↦ rw (taken, punch_conn) (bumped-Evolves s k)
        | inr ((conn_id, t), reg) ↦ left-Returns rounds addr node_id s t conn_id _ reg refl (
            punch_loop-Keeps rounds _ t b
              ((links-Evolves node_id 0 addr s k).2 (conn_id, t) reg, empty-IsPending))
      ]

  pub run_punch_conn-Returns :
      (confirming : List ConfirmRound) (rounds : List PunchRound) (peer : SocketAddr)
      (node_id : String) (s : Ctx)
      → All IsRound rounds
      → Evolves s0 s
      → Returns (run_punch_conn h confirming rounds peer node_id s)
  unfolding run_punch_conn
  run_punch_conn-Returns confirming rounds peer node_id s b k =
      let (s', proven) = confirm_round_trip confirming peer s in
      let shown = Quiet-Evolves (confirm_round_trip-Quiet confirming peer s) k in
      elim (Option-cases proven) [
        | inl lost ↦ rw (lost, run_punch_conn) shown
        | inr (addr, e) ↦ rw (e, run_punch_conn) (punch_conn-Returns rounds addr node_id s' b shown)
      ]
