-- ===== src/Transport/Live.antt =====
-- transport/mod.rs: the live-link registry (`mark_live`, `touch_live`, `drop_live`, snapshots).
pub mod Events
pub mod Evolves
pub mod Balance
pub mod Links
pub mod Race
use my_domain_core.Prelude.{
  if◌then◌else◌, nat_eq, string_eq, ℕ, String, Bool, Option, none, some, List, map,
}
use my_domain_core.Prelude.Map.{get, insert, remove, contains_key}
use my_domain_core.Net.{SocketAddr}
use my_domain_core.Model.{P2pConn, TransportKind, peer_connected, peer_disconnected}
use my_domain_core.Ctx.{Ctx, emit, now_secs}

-- A refresh bumps `last_seen`, takes a new address if there is one, and keeps the kind.
unfoldable pub refresh : P2pConn → ℕ → Option SocketAddr → P2pConn
refresh c now none = record c { last_seen = now }
refresh c now (some a) = record c { last_seen = now; addr = some a }

unfoldable pub mark_live : String → TransportKind → Option SocketAddr → Ctx → Ctx
unfolding refresh now_secs emit
mark_live node_id kind addr s = elim (get s.p2p_conns node_id) [
  | some c ↦ record s { p2p_conns = insert s.p2p_conns node_id (refresh c (now_secs s) addr) }
  | none ↦ emit (peer_connected node_id kind) (record s {
    p2p_conns =
        insert s.p2p_conns node_id (record { kind = kind; last_seen = now_secs s; addr = addr });
  })
]

unfoldable pub touch_live : String → Ctx → Ctx
unfolding now_secs
touch_live node_id s = elim (get s.p2p_conns node_id) [
  | some c ↦ record s {
    p2p_conns = insert s.p2p_conns node_id (record c { last_seen = now_secs s });
  }
  | none ↦ s
]

unfoldable pub drop_live : String → Ctx → Ctx
unfolding contains_key emit
drop_live node_id s =
    let dropped = record s { p2p_conns = remove s.p2p_conns node_id } in
    if contains_key s.p2p_conns node_id then emit (peer_disconnected node_id) dropped else dropped

unfoldable pub live_peers : Ctx → List (String × TransportKind × Option SocketAddr)
live_peers s = map (λ p. (p.0, p.1.kind, p.1.addr)) s.p2p_conns

unfoldable pub live_snapshot : Ctx → List (String × TransportKind × ℕ)
live_snapshot s = map (λ p. (p.0, p.1.kind, p.1.last_seen)) s.p2p_conns

-- `is_live` of engine.rs
unfoldable pub is_live : Ctx → String → Bool
unfolding contains_key
is_live s node_id = contains_key s.p2p_conns node_id
