-- ===== src/Transport/Live/Links.antt =====
-- What the live-link registry's operations leave alone, and what they establish.
use my_domain_core.Prelude.{
  Option-cases, nat_eq, string_eq, String, ◌≡◌, inl, inr, true, false, Option, arith,
}
use my_domain_core.Prelude.Map.{get, remove, contains_key, get-insert_self, get-remove_self}
use my_domain_core.Net.{SocketAddr}
use my_domain_core.Model.{TransportKind}
use my_domain_core.Ctx.{Ctx, now_secs}
use my_domain_core.Transport.Live.{refresh, mark_live, drop_live, is_live}

module _ (node_id : String) (s : Ctx) where
  pub ws_conns-mark_live :
      (kind : TransportKind) (addr : Option SocketAddr)
      → (mark_live node_id kind addr s).ws_conns ≡ s.ws_conns
  unfolding mark_live
  ws_conns-mark_live kind addr = ground arith

  pub is_live-mark_live :
      (kind : TransportKind) (addr : Option SocketAddr)
      → contains_key (mark_live node_id kind addr s).p2p_conns node_id ≡ true
  unfolding mark_live contains_key
  is_live-mark_live kind addr = elim (Option-cases (get s.p2p_conns node_id)) [
    | inl absent ↦ ground (
      arith,
      absent,
      get-insert_self s.p2p_conns node_id
          (record { kind = kind; last_seen = now_secs s; addr = addr }),
    )
    | inr (c, e) ↦
        ground (arith, e, get-insert_self s.p2p_conns node_id (refresh c (now_secs s) addr))
  ]

  pub ws_conns-drop_live : (drop_live node_id s).ws_conns ≡ s.ws_conns
  unfolding drop_live
  ws_conns-drop_live = ground arith

  pub gone-drop_live : (drop_live node_id s).gone ≡ s.gone
  unfolding drop_live
  gone-drop_live = ground arith

  pub p2p_conns-drop_live : (drop_live node_id s).p2p_conns ≡ remove s.p2p_conns node_id
  unfolding drop_live
  p2p_conns-drop_live = ground arith

  pub is_live-drop_live : is_live (drop_live node_id s) node_id ≡ false
  unfolding is_live contains_key
  is_live-drop_live = rw p2p_conns-drop_live (rw get-remove_self)

  pub gone-mark_live :
      (kind : TransportKind) (addr : Option SocketAddr)
      → (mark_live node_id kind addr s).gone ≡ s.gone
  unfolding mark_live
  gone-mark_live kind addr = ground arith
