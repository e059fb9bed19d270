-- ===== src/Transport/Live/Balance.antt =====
-- transport/mod.rs: how often a node has been reported as connected and as disconnected, against the
-- live-link registry. Unlike an indicator, a count does not depend on the order of the reports.
use my_domain_core.Prelude.{
  if◌then◌else◌, Bool-cases, Option-cases, nat_eq, string_eq, ◌==◌, ℕ, ◌+◌, String, ◌≡◌, refl, ap,
  ◌∙◌, sym, inl, inr, Bool, Option, List, [], ◌∷◌, ◌++◌, append_assoc, arith,
}
use my_domain_core.Prelude.Map.{get, get-insert, get-remove, contains_key}
use text.Mathlib.TextEquality.{eq_iff}
use my_domain_core.Net.{SocketAddr}
use my_domain_core.Model.{P2pConn, TransportKind, CoreEvent, peer_connected, peer_disconnected}
use my_domain_core.Ctx.{Ctx, emit, record_effect, now_secs}
use my_domain_core.Transport.Live.{mark_live, touch_live, drop_live, is_live, refresh}
use my_domain_core.Transport.Live.Events.{link_events}
use my_domain_core.Transport.Live.Evolves.{Evolves, IsUnseen}

-- Whether an event reports that the node is connected, or that it is disconnected.
abbrev pub ups : String → CoreEvent → ℕ
ups node (peer_connected m kind) = if m == node then 1 else 0
ups node _ = 0

abbrev pub downs : String → CoreEvent → ℕ
downs node (peer_disconnected m) = if m == node then 1 else 0
downs node _ = 0

-- How many of the events do so.
unfoldable pub connects : String → List CoreEvent → ℕ
connects node [] = 0
connects node (ev ∷ events) = ups node ev + connects node events

unfoldable pub disconnects : String → List CoreEvent → ℕ
disconnects node [] = 0
disconnects node (ev ∷ events) = downs node ev + disconnects node events

pub connects-append :
    (node : String) (xs ys : List CoreEvent)
    → connects node (xs ++ ys) ≡ connects node xs + connects node ys
unfolding connects
connects-append node [] ys = omega arith
connects-append node (x ∷ xs) ys = omega (arith, connects-append node xs ys)

pub disconnects-append :
    (node : String) (xs ys : List CoreEvent)
    → disconnects node (xs ++ ys) ≡ disconnects node xs + disconnects node ys
unfolding disconnects
disconnects-append node [] ys = omega arith
disconnects-append node (x ∷ xs) ys = omega (arith, disconnects-append node xs ys)

abbrev pub as_number : Bool → ℕ
as_number b = if b then 1 else 0

-- Every node has been reported as connected as often as it has been reported as disconnected, and once
-- more if it is live.
abbrev pub IsBalanced : Ctx → Type 0
IsBalanced s =
    (node : String)
    → connects node (link_events s.trace)
      ≡ disconnects node (link_events s.trace) + as_number (is_live s node)

mark_live-IsBalanced :
    (node_id : String) (kind : TransportKind) (addr : Option SocketAddr) (s : Ctx)
    → IsBalanced s
    → IsBalanced (mark_live node_id kind addr s)
unfolding mark_live is_live link_events emit connects disconnects
mark_live-IsBalanced node_id kind addr s h node = elim (Option-cases (get s.p2p_conns node_id)) [
  | inl absent ↦
      let conn : P2pConn = record { kind = kind; last_seen = now_secs s; addr = addr } in
      ground (arith, h node, absent, get-insert s.p2p_conns node_id node conn, eq_iff node_id node)
  | inr (c, e) ↦ ground (
    arith,
    h node,
    e,
    get-insert s.p2p_conns node_id node (refresh c (now_secs s) addr),
    eq_iff node_id node,
  )
]

touch_live-IsBalanced :
    (node_id : String) (s : Ctx) → IsBalanced s → IsBalanced (touch_live node_id s)
unfolding touch_live is_live
touch_live-IsBalanced node_id s h node = elim (Option-cases (get s.p2p_conns node_id)) [
  | inl absent ↦ ground (arith, h node, absent)
  | inr (c, e) ↦ ground (
    arith,
    h node,
    e,
    get-insert s.p2p_conns node_id node (record c { last_seen = now_secs s }),
    eq_iff node_id node,
  )
]

drop_live-IsBalanced :
    (node_id : String) (s : Ctx) → IsBalanced s → IsBalanced (drop_live node_id s)
unfolding drop_live is_live link_events emit connects disconnects
drop_live-IsBalanced node_id s h node =
    ground (arith, h node, get-remove s.p2p_conns node_id node, eq_iff node_id node)

pub IsUnseen-IsBalanced : (s t : Ctx) → IsUnseen s t → IsBalanced s → IsBalanced t
unfolding is_live
IsUnseen-IsBalanced s t q h node = rw (q.told, q.live) (h node)

-- The machine of the registry keeps the balance.
pub Evolves-IsBalanced : {s0 : Ctx} (s : Ctx) → Evolves s0 s → IsBalanced s0 → IsBalanced s
Evolves-IsBalanced s (Evolves.starts) k = k
Evolves-IsBalanced s (Evolves.rests t _ q run) k =
    IsUnseen-IsBalanced t s (record { live = q.live; told = q.told }) (Evolves-IsBalanced t run k)
Evolves-IsBalanced s (Evolves.marks node_id kind addr t run) k =
    mark_live-IsBalanced node_id kind addr t (Evolves-IsBalanced t run k)
Evolves-IsBalanced s (Evolves.touches node_id t run) k =
    touch_live-IsBalanced node_id t (Evolves-IsBalanced t run k)
Evolves-IsBalanced s (Evolves.drops node_id t run) k =
    drop_live-IsBalanced node_id t (Evolves-IsBalanced t run k)

-- The events of `t` are those of `s` and later ones.
abbrev pub Extends : Ctx → Ctx → Type 0
Extends s t = (fresh : List CoreEvent) × (link_events t.trace ≡ fresh ++ link_events s.trace)

pub Extends-trans : (s t u : Ctx) → Extends s t → Extends t u → Extends s u
Extends-trans s t u (xs, a) (ys, b) =
    (ys ++ xs, b ∙ ap (λ events. ys ++ events) a ∙ sym (append_assoc ys xs (link_events s.trace)))

mark_live-Extends :
    (node_id : String) (kind : TransportKind) (addr : Option SocketAddr) (s : Ctx)
    → Extends s (mark_live node_id kind addr s)
unfolding mark_live link_events emit record_effect
mark_live-Extends node_id kind addr s = elim (Option-cases (get s.p2p_conns node_id)) [
  | inl absent ↦ rw (absent, mark_live) (peer_connected node_id kind ∷ [], refl)
  | inr (c, e) ↦ rw (e, mark_live) ([], refl)
]

touch_live-Extends : (node_id : String) (s : Ctx) → Extends s (touch_live node_id s)
unfolding touch_live
touch_live-Extends node_id s = elim (Option-cases (get s.p2p_conns node_id)) [
  | inl absent ↦ rw (absent, touch_live) ([], refl)
  | inr (c, e) ↦ rw (e, touch_live) ([], refl)
]

drop_live-Extends : (node_id : String) (s : Ctx) → Extends s (drop_live node_id s)
unfolding drop_live link_events emit record_effect
drop_live-Extends node_id s = elim (Bool-cases (contains_key s.p2p_conns node_id)) [
  | inl live ↦ rw live (peer_disconnected node_id ∷ [], refl)
  | inr dead ↦ rw dead ([], refl)
]

pub Evolves-Extends : {s0 : Ctx} (s : Ctx) → Evolves s0 s → Extends s0 s
Evolves-Extends s (Evolves.starts) = ([], refl)
Evolves-Extends {s0} s (Evolves.rests t _ q run) =
    Extends-trans s0 t s (Evolves-Extends t run) ([], q.told)
Evolves-Extends {s0} s (Evolves.marks node_id kind addr t run) =
    Extends-trans s0 t s (Evolves-Extends t run) (mark_live-Extends node_id kind addr t)
Evolves-Extends {s0} s (Evolves.touches node_id t run) =
    Extends-trans s0 t s (Evolves-Extends t run) (touch_live-Extends node_id t)
Evolves-Extends {s0} s (Evolves.drops node_id t run) =
    Extends-trans s0 t s (Evolves-Extends t run) (drop_live-Extends node_id t)
