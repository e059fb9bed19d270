-- ===== src/Transport/Punch/Driver/OneWay.antt =====
-- transport/punch.rs: the thread of a punched link (`punch_and_run`), with and without a proven path.
use my_domain_core.Prelude.{
  nat_eq, string_eq, All, String, ◌≡◌, refl, Option, none, some, List, [], ◌∷◌,
}
use my_domain_core.Net.{SocketAddr}
use my_domain_core.Model.{Candidate}
use my_domain_core.Host.{Host}
use my_domain_core.Ctx.{Ctx}
use my_domain_core.Transport.Live.Evolves.{Evolves, Evolves-IsShown}
use my_domain_core.Transport.Live.Events.{IsShown}
use my_domain_core.Transport.Send.Quiet.{Quiet, Quiet-refl, Quiet-trans, Quiet-Evolves}
use my_domain_core.Transport.Punch.{
  punch_magic, to_addrs, hole_punch, ConfirmRound, confirm_round_trip,
}
use my_domain_core.Transport.Punch.Path.{
  first_pong, confirm_round_trip_lem, confirm_round_trip-Quiet, hole_punch-Quiet,
}
use my_domain_core.Transport.Punch.Driver.{PunchRound, run_punch_conn, PunchRun, punch_and_run}
use my_domain_core.Transport.Punch.Driver.Total.{IsRound}
use my_domain_core.Transport.Punch.Driver.Returns.{Returns, run_punch_conn-Returns}

module _ (h : Host) where
  unproven :
      (confirming : List ConfirmRound) (rounds : List PunchRound) (peer : SocketAddr)
      (node_id : String) (s : Ctx)
      → first_pong confirming ≡ none
      → (run_punch_conn h confirming rounds peer node_id s
          ≡ some (confirm_round_trip confirming peer s).0)
  unfolding run_punch_conn
  unproven confirming rounds peer node_id s e =
      rw (confirm_round_trip_lem confirming peer s, e, run_punch_conn)

  -- What holds at the start, behind the probes and at the end of the driver holds at the end.
  ends {ℓ} :
      (P : Ctx → Type ℓ) (run : PunchRun) (cands : List Candidate) (node_id : String) (s : Ctx)
      (addrs : List SocketAddr) (found : Option SocketAddr)
      → to_addrs cands ≡ addrs
      → (hole_punch run.timeout_set run.probing (to_addrs cands) punch_magic s).1 ≡ found
      → P s
      → P (hole_punch run.timeout_set run.probing (to_addrs cands) punch_magic s).0
      → ((addr : SocketAddr)
          → (t : Ctx) × (run_punch_conn h run.confirming run.rounds addr node_id
                (hole_punch run.timeout_set run.probing (to_addrs cands) punch_magic s).0
              ≡ some t)
            × P t)
      → (t : Ctx) × (punch_and_run h run cands node_id s ≡ some t) × P t
  unfolding punch_and_run
  ends P run cands node_id s [] found e f start probed driven = (s, rw (e, punch_and_run), start)
  ends P run cands node_id s (a ∷ as') none e f start probed driven =
      (_, rw (e, f, punch_and_run, e), probed)
  ends P run cands node_id s (a ∷ as') (some addr) e f start probed driven =
      let (t, d, k) = driven addr in (t, rw (e, f, d, punch_and_run), k)

  -- What the thread does of the two phases before the driver is nothing that a table shows: if no pong
  -- is heard in the rounds of the confirmation, `punch_and_run` returns and leaves the connections,
  -- the live registry, the peers and every indicator as they were.
  pub one_way_path :
      (run : PunchRun) (cands : List Candidate) (node_id : String) (s : Ctx)
      → first_pong run.confirming ≡ none
      → (t : Ctx) × (punch_and_run h run cands node_id s ≡ some t) × Quiet s t
  one_way_path run cands node_id s e =
      let probed = hole_punch-Quiet run.timeout_set run.probing (to_addrs cands) punch_magic s in
      ends (Quiet s) run cands node_id s _ _ refl refl (Quiet-refl s) probed (λ addr. (
        _,
        unproven run.confirming run.rounds addr node_id _ e,
        Quiet-trans probed (confirm_round_trip-Quiet run.confirming addr _),
      ))

  punch_and_run-Evolves :
      (s0 : Ctx) (run : PunchRun) (cands : List Candidate) (node_id : String) (s : Ctx)
      → All IsRound run.rounds
      → Evolves s0 s
      → (t : Ctx) × (punch_and_run h run cands node_id s ≡ some t) × Evolves s0 t
  punch_and_run-Evolves s0 run cands node_id s b k =
      let probed =
        Quiet-Evolves (hole_punch-Quiet run.timeout_set run.probing (to_addrs cands) punch_magic s)
          k in
      ends (Evolves s0) run cands node_id s _ _ refl refl k probed (λ addr.
        returned _ _ refl
          (run_punch_conn-Returns s0 h run.confirming run.rounds addr node_id _ b probed))
    where
      returned :
          (x y : Option Ctx) → x ≡ y → Returns s0 h y → (t : Ctx) × (x ≡ some t) × Evolves s0 t
      returned x none e k = absurd k
      returned x (some t) e k = (t, e, k)

  -- `punch_and_run` returns, whatever is heard, if it consists of bytes; and if every indicator agreed
  -- with the live registry before, it does so after (each report counted as made with its change).
  pub punch_and_run_returns :
      (run : PunchRun) (cands : List Candidate) (node_id : String) (s : Ctx)
      → All IsRound run.rounds
      → IsShown s
      → (t : Ctx) × (punch_and_run h run cands node_id s ≡ some t) × IsShown t
  punch_and_run_returns run cands node_id s b k =
      let (t, e, run') = punch_and_run-Evolves s run cands node_id s b Evolves.starts in
      (t, e, Evolves-IsShown t run' k)
