-- ===== src/Engine/Watch/Heartbeat.antt =====
-- engine.rs: what one round of the heartbeat does to the live registry.
use my_domain_core.Prelude.{
  if◌then◌else◌, Bool-cases, Option-cases, nat_eq, string_eq, ◌==◌, ℕ, String, ◌≡◌, refl, inl, inr,
  Bool, true, false, not, ◌&&◌, ◌||◌, Option, none, some, List, [], ◌∷◌, map, arith,
}
use my_domain_core.Prelude.Map.{Map, get, contains_key, get-remove, IsUnique}
use text.Mathlib.TextEquality.{eq_iff}
use my_domain_core.Model.{TransportKind, P2pConn}
use my_domain_core.Host.{Host}
use my_domain_core.Ctx.{Ctx, now_secs, emit}
use my_domain_core.Transport.Live.{drop_live, live_snapshot, is_live}
use my_domain_core.Transport.Live.Evolves.{Evolves, drop_live-Evolves}
use my_domain_core.Transport.Send.{send_control_to}
use my_domain_core.Transport.Send.Quiet.{Quiet-Evolves, send_control_to-Quiet}
use my_domain_core.Engine.Watch.{is_ws, is_stale, beat, beats, heartbeat}

-- Links over WebSocket stay, and those that gave a sign of life within the timeout.
abbrev pub stays : ℕ → P2pConn → Bool
stays now c = is_ws c.kind || not (is_stale now c.last_seen)

abbrev pub still_live : ℕ → Option P2pConn → Bool
still_live now none = false
still_live now (some c) = stays now c

-- Every entry of `node` in the table stays.
abbrev all_stay : ℕ → String → Map String P2pConn → Bool
all_stay now node [] = true
all_stay now node ((j, c) ∷ m) = (if j == node then stays now c else true) && all_stay now node m

abbrev snapshot : Map String P2pConn → List (String × TransportKind × ℕ)
snapshot m = map (λ p. (p.0, p.1.kind, p.1.last_seen)) m

is_live-drop :
    (node_id node : String) (s : Ctx)
    → is_live (drop_live node_id s) node ≡ (if node_id == node then false else is_live s node)
unfolding is_live drop_live emit contains_key
is_live-drop node_id node s = ground (arith, get-remove s.p2p_conns node_id node)

module _ (h : Host) where
  beat-Evolves :
      {s0 : Ctx} (now : ℕ) (ping node_id : String) (kind : TransportKind) (last_seen : ℕ) (s : Ctx)
      → Evolves s0 s
      → Evolves s0 (beat h now ping node_id kind last_seen s)
  unfolding beat
  beat-Evolves now ping node_id kind last_seen s k = elim (Bool-cases (is_ws kind)) [
    | inl event_driven ↦ rw event_driven k
    | inr polled ↦ elim (Bool-cases (is_stale now last_seen)) [
      | inl stale ↦ rw (polled, stale) (drop_live-Evolves node_id s k)
      | inr fresh ↦ rw (polled, fresh) (Quiet-Evolves (send_control_to-Quiet h node_id ping s) k)
    ]
  ]

  is_live-send :
      (node_id ping node : String) (s : Ctx)
      → is_live (send_control_to h node_id ping s) node ≡ is_live s node
  unfolding is_live
  is_live-send node_id ping node s = rw (send_control_to-Quiet h node_id ping s).live

  is_live-beat :
      (now : ℕ) (ping node_id node : String) (c : P2pConn) (s : Ctx)
      → is_live (beat h now ping node_id c.kind c.last_seen s) node
        ≡ (is_live s node && (if node_id == node then stays now c else true))
  unfolding beat
  is_live-beat now ping node_id node c s =
      ground (arith, is_live-drop node_id node s, is_live-send node_id ping node s)

  beats-Evolves :
      {s0 : Ctx} (now : ℕ) (ping : String) (links : List (String × TransportKind × ℕ)) (s : Ctx)
      → Evolves s0 s
      → Evolves s0 (beats h now ping links s)
  unfolding beats
  beats-Evolves now ping [] s k = k
  beats-Evolves now ping ((n, kind, seen) ∷ links) s k =
      beats-Evolves now ping links (beat h now ping n kind seen s)
        (beat-Evolves now ping n kind seen s k)

  is_live-beats :
      (now : ℕ) (ping node : String) (m : Map String P2pConn) (s : Ctx)
      → is_live (beats h now ping (snapshot m) s) node ≡ (is_live s node && all_stay now node m)
  unfolding beats
  is_live-beats now ping node [] s = ground arith
  is_live-beats now ping node ((j, c) ∷ m) s = ground (
    arith,
    is_live-beats now ping node m (beat h now ping j c.kind c.last_seen s),
    is_live-beat now ping j node c s,
  )

all_stay-absent :
    (now : ℕ) (node : String) (m : Map String P2pConn)
    → get m node ≡ none
    → all_stay now node m ≡ true
unfolding get
all_stay-absent now node [] e = refl
all_stay-absent now node ((j, c) ∷ m) e = ground (arith, all_stay-absent now node m, e)

all_stay-get :
    (now : ℕ) (node : String) (m : Map String P2pConn) (c : P2pConn)
    → IsUnique m
    → get m node ≡ some c
    → all_stay now node m ≡ stays now c
unfolding get
all_stay-get now node [] c u e = cc
all_stay-get now node ((j, d) ∷ m) c u e =
    ground (arith, all_stay-get now node m c u.1, all_stay-absent now node m, e, u.0, eq_iff j node)

module _ (h : Host) where
  heartbeat_round :
      (s : Ctx) (node : String)
      → is_live (heartbeat h s) node ≡ (is_live s node && all_stay (now_secs s) node s.p2p_conns)
  unfolding heartbeat live_snapshot
  heartbeat_round s node = is_live-beats h (now_secs s) _ node s.p2p_conns s

  -- A round of the heartbeat takes out of the live registry exactly the links that are not WebSocket
  -- and gave no sign of life for more than 15 seconds; it adds none. The keys of the registry are
  -- distinct, as in a hash map.
  pub is_live-heartbeat :
      (s : Ctx) (node : String)
      → IsUnique s.p2p_conns
      → is_live (heartbeat h s) node ≡ still_live (now_secs s) (get s.p2p_conns node)
  unfolding is_live contains_key
  is_live-heartbeat s node u = elim (Option-cases (get s.p2p_conns node)) [
    | inl absent ↦ ground (arith, heartbeat_round s node, absent)
    | inr (c, e) ↦
        ground (arith, heartbeat_round s node, e, all_stay-get (now_secs s) node s.p2p_conns c u e)
  ]

  pub heartbeat-Evolves : {s0 : Ctx} (s : Ctx) → Evolves s0 s → Evolves s0 (heartbeat h s)
  unfolding heartbeat
  heartbeat-Evolves s k = beats-Evolves h (now_secs s) _ (live_snapshot s) s k
