-- ===== src/Transport/Live/Events.antt =====
-- The events of the live-link registry against the registry itself: what a UI that only follows
-- `PeerConnected` and `PeerDisconnected` shows.
use my_domain_core.Prelude.{
  if◌then◌else◌, Option-cases, nat_eq, string_eq, ◌==◌, String, ◌≡◌, sym, ap, ◌∙◌, refl, inl, inr,
  Bool, true, false, Option, List, [], ◌∷◌, arith,
}
use my_domain_core.Prelude.Map.{get, get-insert, get-remove}
use text.Mathlib.TextEquality.{eq_iff}
use my_domain_core.Net.{SocketAddr}
use my_domain_core.Model.{P2pConn, TransportKind, CoreEvent, peer_connected, peer_disconnected}
use my_domain_core.Ctx.{Ctx, Effect, emitted, emit, now_secs}
use my_domain_core.Transport.Live.{mark_live, touch_live, drop_live, is_live, refresh}

-- What one effect does to the "connected" indicator of `node`.
abbrev pub dot_event : CoreEvent → String → Bool → Bool
dot_event (peer_connected m kind) node before = if m == node then true else before
dot_event (peer_disconnected m) node before = if m == node then false else before
dot_event _ node before = before

-- The indicator after the effects of a trace (the latest first); it starts dark.
unfoldable pub dot : List Effect → String → Bool
dot [] node = false
dot (emitted ev ∷ trace) node = dot_event ev node (dot trace node)
dot (_ ∷ trace) node = dot trace node

-- The same events alone, the latest first.
abbrev with_link : CoreEvent → List CoreEvent → List CoreEvent
with_link (peer_connected m kind) rest = peer_connected m kind ∷ rest
with_link (peer_disconnected m) rest = peer_disconnected m ∷ rest
with_link _ rest = rest

unfoldable pub link_events : List Effect → List CoreEvent
link_events [] = []
link_events (emitted ev ∷ trace) = with_link ev (link_events trace)
link_events (_ ∷ trace) = link_events trace

-- The indicator that they leave.
abbrev shown : List CoreEvent → String → Bool
shown [] node = false
shown (ev ∷ events) node = dot_event ev node (shown events node)

shown-with_link :
    (ev : CoreEvent) (events : List CoreEvent) (node : String)
    → shown (with_link ev events) node ≡ dot_event ev node (shown events node)
shown-with_link ev events node = ground arith

dot-shown : (trace : List Effect) (node : String) → dot trace node ≡ shown (link_events trace) node
unfolding dot link_events
dot-shown [] node = refl
dot-shown (e ∷ trace) node = ground (arith, dot-shown trace node)

-- Only these events count.
pub dot-eq :
    (t u : List Effect) (node : String) → link_events t ≡ link_events u → dot t node ≡ dot u node
dot-eq t u node e = dot-shown t node ∙ ap (λ events. shown events node) e ∙ sym (dot-shown u node)

-- The indicator of every node is its presence in the registry.
abbrev pub IsShown : Ctx → Type 0
IsShown s = (node : String) → dot s.trace node ≡ is_live s node

pub mark_live-IsShown :
    (node_id : String) (kind : TransportKind) (addr : Option SocketAddr) (s : Ctx)
    → IsShown s
    → IsShown (mark_live node_id kind addr s)
unfolding mark_live is_live dot emit
mark_live-IsShown node_id kind addr s h node = elim (Option-cases (get s.p2p_conns node_id)) [
  | inl absent ↦
      let conn : P2pConn = record { kind = kind; last_seen = now_secs s; addr = addr } in
      ground (arith, h node, absent, get-insert s.p2p_conns node_id node conn, eq_iff node_id node)
  | inr (c, e) ↦ ground (
    arith,
    h node,
    e,
    get-insert s.p2p_conns node_id node (refresh c (now_secs s) addr),
    eq_iff node_id node,
  )
]

pub touch_live-IsShown : (node_id : String) (s : Ctx) → IsShown s → IsShown (touch_live node_id s)
unfolding touch_live is_live
touch_live-IsShown node_id s h node = elim (Option-cases (get s.p2p_conns node_id)) [
  | inl absent ↦ ground (arith, h node, absent)
  | inr (c, e) ↦ ground (
    arith,
    h node,
    e,
    get-insert s.p2p_conns node_id node (record c { last_seen = now_secs s }),
    eq_iff node_id node,
  )
]

pub drop_live-IsShown : (node_id : String) (s : Ctx) → IsShown s → IsShown (drop_live node_id s)
unfolding drop_live is_live dot emit
drop_live-IsShown node_id s h node =
    ground (arith, h node, get-remove s.p2p_conns node_id node, eq_iff node_id node)
