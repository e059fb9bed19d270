-- ===== src/Engine/Start/Fresh.antt =====
-- engine.rs: the engine that `Engine::start` returns.
use my_domain_core.Prelude.{
  nat_eq, string_eq, is_some, ℕ, String, ◌≡◌, refl, Bool, false, Option, none, List, [], ◌∷◌, arith,
}
use my_domain_core.Prelude.Result.{Result, ok, err, ◌>>=◌}
use my_domain_core.Prelude.Map.{get, contains_key}
use my_domain_core.Text.{trim, is_empty}
use my_domain_core.Model.{Identity}
use my_domain_core.Host.{Host}
use my_domain_core.Ctx.{Ctx, Thread, record_effect, spawned}
use my_domain_core.Transport.Live.{is_live}
use my_domain_core.Transport.Live.Events.{IsShown, dot, link_events}
use my_domain_core.Transport.Send.Quiet.{
  Quiet, Quiet-refl, Quiet-trans, Quiet-IsShown, record_effect-Quiet,
}
use my_domain_core.Engine.Start.{
  port_of, disco_threads, threads, spawn_all, new_ctx, node_id_of_device, identity_at, start,
}

thread-Quiet : (t : Thread) (s : Ctx) → Quiet s (record_effect (spawned t) s)
unfolding link_events
thread-Quiet t s = record_effect-Quiet (spawned t) s (λ trace. refl)

spawn_all-Quiet : (ts : List Thread) (s : Ctx) → Quiet s (spawn_all ts s)
unfolding spawn_all
spawn_all-Quiet [] s = Quiet-refl s
spawn_all-Quiet (t ∷ ts) s =
    Quiet-trans (thread-Quiet t s) (spawn_all-Quiet ts (record_effect (spawned t) s))

new_ctx-IsShown : (id : Identity) (b : Bool) (clock : Option ℕ) → IsShown (new_ctx id b clock)
unfolding is_live dot get contains_key
new_ctx-IsShown id b clock node = refl

-- Four steps that all succeed.
all_four :
    (a b c : Result String ℕ) (d : Result String (List Thread)) (f : ℕ → ℕ → ℕ → List Thread → Ctx)
    (s : Ctx)
    → (do x ← a; y ← b; z ← c; ts ← d; ok (f x y z ts)) ≡ ok s
    → (x : ℕ) × (y : ℕ) × (z : ℕ) × (ts : List Thread) × (s ≡ f x y z ts)
all_four (ok x) (ok y) (ok z) (ok ts) f s e = (x, y, z, ts, cc)
all_four (ok x) (ok y) (ok z) (err d) f s e = cc
all_four (ok x) (ok y) (err c) d f s e = cc
all_four (ok x) (err b) c d f s e = cc
all_four (err a) b c d f s e = cc

new_ctx-events :
    (id : Identity) (b : Bool) (clock : Option ℕ) → link_events (new_ctx id b clock).trace ≡ []
unfolding link_events
new_ctx-events id b clock = refl

module _ (h : Host) where
  node_id_lem : is_empty (trim (h.uuid 0)) ≡ false → is_empty (trim (node_id_of_device h)) ≡ false
  unfolding node_id_of_device
  node_id_lem e = ground (arith, e)

  -- An engine that starts has a node id that is not blank (if random ids are not), every indicator
  -- dark, nothing live and no key.
  pub start_lem :
      (clock : Option ℕ) (s : Ctx)
      → is_empty (trim (h.uuid 0)) ≡ false
      → start h clock ≡ ok s
      → (is_empty (trim s.identity.node_id) ≡ false)
        × IsShown s
        × (s.p2p_conns ≡ [])
        × (s.key ≡ none)
  unfolding start
  start_lem clock s u e =
      let built : ℕ → ℕ → ℕ → List Thread → Ctx = λ x y z ts.
        spawn_all (threads ts (is_some h.clipboard))
          (new_ctx (identity_at h x y z) (is_some h.clipboard) clock) in
      let (x, y, z, ts, eq) =
        all_four (port_of (h.tcp_listen 1)) (port_of (h.udp_listen 2)) (port_of (h.tcp_listen 3))
          (disco_threads h) built s e in
      let fresh = new_ctx (identity_at h x y z) (is_some h.clipboard) clock in
      let q = spawn_all-Quiet (threads ts (is_some h.clipboard)) fresh in
      (
        rw (eq, q.identity) (node_id_lem u),
        rw eq (Quiet-IsShown q (new_ctx-IsShown (identity_at h x y z) (is_some h.clipboard) clock)),
        rw (eq, q.live),
        rw (eq, q.key),
      )

  -- It has told of no link, and has none.
  pub start-events :
      (clock : Option ℕ) (s : Ctx)
      → start h clock ≡ ok s
      → (link_events s.trace ≡ []) × (s.p2p_conns ≡ [])
  unfolding start
  start-events clock s e =
      let built : ℕ → ℕ → ℕ → List Thread → Ctx = λ x y z ts.
        spawn_all (threads ts (is_some h.clipboard))
          (new_ctx (identity_at h x y z) (is_some h.clipboard) clock) in
      let (x, y, z, ts, eq) =
        all_four (port_of (h.tcp_listen 1)) (port_of (h.udp_listen 2)) (port_of (h.tcp_listen 3))
          (disco_threads h) built s e in
      let fresh = new_ctx (identity_at h x y z) (is_some h.clipboard) clock in
      let q = spawn_all-Quiet (threads ts (is_some h.clipboard)) fresh in
      (
        rw (eq, q.told) (new_ctx-events (identity_at h x y z) (is_some h.clipboard) clock),
        rw (eq, q.live),
      )
