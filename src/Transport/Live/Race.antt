-- ===== src/Transport/Live/Race.antt =====
-- transport/mod.rs: `mark_live` and `drop_live` change the table under its lock and emit behind it, so
-- another thread may run between the two. Here each is cut at that point.
use my_domain_core.Prelude.{
  if◌then◌else◌, Option-cases, nat_eq, string_eq, String, ◌≡◌, refl, inl, inr, Bool, true, false,
  Option, none, some, arith,
}
use text.Mathlib.TextEquality.{eq_iff}
use my_domain_core.Prelude.Map.{get, insert, remove, contains_key, get-insert, get-remove}
use my_domain_core.Net.{SocketAddr}
use my_domain_core.Model.{P2pConn, TransportKind, peer_connected, peer_disconnected}
use my_domain_core.Ctx.{Ctx, emit, now_secs}
use my_domain_core.Transport.Live.{refresh, mark_live, drop_live, is_live}
use my_domain_core.Transport.Live.Events.{dot}

-- The part of `mark_live` under the lock, and `newly`.
unfoldable pub mark_entry : String → TransportKind → Option SocketAddr → Ctx → Ctx × Bool
mark_entry node_id kind addr s = elim (get s.p2p_conns node_id) [
  | some c ↦
      (record s { p2p_conns = insert s.p2p_conns node_id (refresh c (now_secs s) addr) }, false)
  | none ↦ (
    record s {
      p2p_conns =
          insert s.p2p_conns node_id (record { kind = kind; last_seen = now_secs s; addr = addr });
    },
    true,
  )
]

unfoldable pub mark_event : String → TransportKind → Bool → Ctx → Ctx
mark_event node_id kind newly s = if newly then emit (peer_connected node_id kind) s else s

-- The part of `drop_live` under the lock, and `removed`.
unfoldable pub drop_entry : String → Ctx → Ctx × Bool
drop_entry node_id s =
    (record s { p2p_conns = remove s.p2p_conns node_id }, contains_key s.p2p_conns node_id)

unfoldable pub drop_event : String → Bool → Ctx → Ctx
drop_event node_id removed s = if removed then emit (peer_disconnected node_id) s else s

-- Cut and run without a break, they are `mark_live` and `drop_live`.
pub halves_lem :
    (node_id : String) (kind : TransportKind) (addr : Option SocketAddr) (s : Ctx)
    → (mark_event node_id kind (mark_entry node_id kind addr s).1 (mark_entry node_id kind addr s).0
        ≡ mark_live node_id kind addr s)
      × (drop_event node_id (drop_entry node_id s).1 (drop_entry node_id s).0 ≡ drop_live node_id s)
unfolding mark_event mark_entry mark_live drop_event drop_entry drop_live
halves_lem node_id kind addr s = (marked, refl)
  where
    marked :
        mark_event node_id kind
          (mark_entry node_id kind addr s).1
          (mark_entry node_id kind addr s).0
        ≡ mark_live node_id kind addr s
    marked = elim (Option-cases (get s.p2p_conns node_id)) [
      | inl absent ↦ ground (arith, absent)
      | inr (c, e) ↦ ground (arith, e)
    ]

-- A link that comes back while the old one is dropped: if a live node is taken out of the table, is
-- marked live again by another thread, and only then reported as disconnected, it is live and the
-- indicator of a UI that follows the events is dark.
pub drop_race :
    (node_id : String) (kind : TransportKind) (addr : Option SocketAddr) (s : Ctx)
    → is_live s node_id ≡ true
    → let (t, removed) = drop_entry node_id s in
      let u = drop_event node_id removed (mark_live node_id kind addr t) in
      (is_live u node_id ≡ true) × (dot u.trace node_id ≡ false)
unfolding drop_entry drop_event mark_live is_live dot emit contains_key
drop_race node_id kind addr s live =
    let conn : P2pConn = record { kind = kind; last_seen = now_secs s; addr = addr } in
    ground (
      arith,
      live,
      get-remove s.p2p_conns node_id node_id,
      get-insert (remove s.p2p_conns node_id) node_id node_id conn,
      eq_iff node_id node_id,
    )
