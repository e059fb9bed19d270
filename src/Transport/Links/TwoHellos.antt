-- ===== src/Transport/Links/TwoHellos.antt =====
-- transport/ws.rs: a connection on which two nodes say hello.
use my_domain_core.Prelude.{
  Bool-cases, nat_eq, string_eq, contains, ℕ, String, ◌≡◌, refl, sym, ◌∙◌, ◌≢◌, inl, inr, true,
  none, some, [], ◌∷◌, arith,
}
use my_domain_core.Prelude.Map.{get, contains_key, get-insert, get-remove, get-insert_self}
use text.Mathlib.TextEquality.{eq_iff}
use my_domain_core.Model.{hello}
use my_domain_core.Host.{Host}
use my_domain_core.Ctx.{Ctx, emit, record_effect}
use my_domain_core.Transport.Live.Links.{ws_conns-mark_live, ws_conns-drop_live}
use my_domain_core.Transport.Links.{
  owns, remove_link, hang_up, WsLink, WsRound, text_read, close, ws_hello, ws_frame, ws_read,
  ws_round, flush, ws_cleanup, ws_loop, handle_ws_conn,
}

-- A round that reads a text, and one that reads a close frame; nothing is queued.
abbrev pub says : String → WsRound
says t = record { read = text_read t; outgoing = []; write_ok = λ out. true }

abbrev pub closes : WsRound
closes = record { read = close; outgoing = []; write_ok = λ out. true }

module _ (h : Host) where
  ws_hello-new :
      (node_id : String) (link : WsLink) (s : Ctx)
      → get s.ws_conns node_id ≡ none
      → (get (ws_hello h node_id link s).0.ws_conns node_id ≡ some link.conn_id)
        × ((ws_hello h node_id link s).1 ≡ record link { peer_id = some node_id })
        × ((ws_hello h node_id link s).2 ≡ true)
  unfolding ws_hello emit contains_key record_effect
  ws_hello-new node_id link s e =
      rw e (rw ws_conns-mark_live (get-insert_self s.ws_conns node_id link.conn_id), refl, refl)

  ws_hello-other :
      (node_id other : String) (link : WsLink) (s : Ctx)
      → node_id ≢ other
      → get (ws_hello h node_id link s).0.ws_conns other ≡ get s.ws_conns other
  unfolding ws_hello emit record_effect
  ws_hello-other node_id other link s ne = elim (Bool-cases (contains_key s.ws_conns node_id)) [
    | inl taken ↦ rw taken
    | inr free ↦
        rw (free, ws_conns-mark_live)
          (ground
            (arith, get-insert s.ws_conns node_id other link.conn_id, eq_iff node_id other, ne))
  ]

  ws_cleanup-other :
      (node_id other : String) (conn_id : ℕ) (s : Ctx)
      → node_id ≢ other
      → get (ws_cleanup h (record { conn_id = conn_id; peer_id = some node_id }) s).ws_conns other
        ≡ get s.ws_conns other
  unfolding ws_cleanup remove_link emit record_effect
  ws_cleanup-other node_id other conn_id s ne = elim (Bool-cases (owns s node_id conn_id)) [
    | inr foreign ↦ rw foreign
    | inl own ↦ rw own (
        rw ws_conns-drop_live
          (ground (arith, get-remove s.ws_conns node_id other, eq_iff node_id other, ne)))
  ]

  -- A round in which a new node says hello.
  hello_round :
      (node_id name t : String) (link : WsLink) (s : Ctx)
      → h.frame_from_str t ≡ some (hello node_id name)
      → get s.ws_conns node_id ≡ none
      → ws_round h (says t) link s
        ≡ ((ws_hello h node_id link s).0, record link { peer_id = some node_id }, true)
  unfolding ws_round ws_read ws_frame flush
  hello_round node_id name t link s f e =
      let (entered, named, goes_on) = ws_hello-new node_id link s e in
      rw (f, ws_frame) (rw (goes_on, named))

  two_rounds :
      (first second n1 n2 t1 t2 : String) (link : WsLink) (s : Ctx)
      → first ≢ second
      → h.frame_from_str t1 ≡ some (hello first n1)
      → h.frame_from_str t2 ≡ some (hello second n2)
      → get s.ws_conns first ≡ none
      → get s.ws_conns second ≡ none
      → ws_loop h (says t1 ∷ says t2 ∷ closes ∷ []) link s ≡ (
        record link { peer_id = some second },
        (ws_hello h second (record link { peer_id = some first }) (ws_hello h first link s).0).0,
      )
  unfolding ws_loop
  two_rounds first second n1 n2 t1 t2 link s ne f1 f2 e1 e2 =
      rw (hello_round first n1 t1 link s f1 e1) (
        rw
          (hello_round second n2 t2 (record link { peer_id = some first })
            (ws_hello h first link s).0 f2 (ws_hello-other first second link s ne ∙ e2))
          (unfold ws_round ws_read flush in refl))

  hung_up :
      (first second : String) (conn_id : ℕ) (s : Ctx)
      → second ≢ first
      → get s.ws_conns first ≡ some conn_id
      → (get
            (hang_up conn_id
              (ws_cleanup h (record { conn_id = conn_id; peer_id = some second }) s)).ws_conns
            first
          ≡ some conn_id)
        × (contains conn_id
              (hang_up conn_id
                (ws_cleanup h (record { conn_id = conn_id; peer_id = some second }) s)).gone
            ≡ true)
  unfolding hang_up
  hung_up first second conn_id s ne e =
      (ws_cleanup-other second first conn_id s ne ∙ e, ground arith)

  ended :
      (first second n1 n2 t1 t2 : String) (conn_id : ℕ) (s : Ctx)
      → first ≢ second
      → h.frame_from_str t1 ≡ some (hello first n1)
      → h.frame_from_str t2 ≡ some (hello second n2)
      → get s.ws_conns first ≡ none
      → get s.ws_conns second ≡ none
      → let left = hang_up conn_id (
          ws_cleanup h
            (ws_loop h
              (says t1 ∷ says t2 ∷ closes ∷ [])
              (record { conn_id = conn_id; peer_id = none })
              s).0
            (ws_loop h
              (says t1 ∷ says t2 ∷ closes ∷ [])
              (record { conn_id = conn_id; peer_id = none })
              s).1) in
        (get left.ws_conns first ≡ some conn_id) × (contains conn_id left.gone ≡ true)
  ended first second n1 n2 t1 t2 conn_id s ne f1 f2 e1 e2 =
      let link : WsLink = record { conn_id = conn_id; peer_id = none } in
      let link1 : WsLink = record { conn_id = conn_id; peer_id = some first } in
      let s1 : Ctx = (ws_hello h first link s).0 in
      rw (two_rounds first second n1 n2 t1 t2 link s ne f1 f2 e1 e2) (
        hung_up first second conn_id (ws_hello h second link1 s1).0 (λ same. ne (sym same))
          (ws_hello-other second first link1 s1 (λ same. ne (sym same))
            ∙ (ws_hello-new first link s e1).0))

  -- A connection on which two different nodes, both without a connection before, say hello one after
  -- the other leaves the first node's entry behind when it ends: the entry names the ended
  -- connection, to which nothing can be sent.
  pub two_hellos_leak :
      (first second n1 n2 t1 t2 : String) (s : Ctx)
      → first ≢ second
      → h.frame_from_str t1 ≡ some (hello first n1)
      → h.frame_from_str t2 ≡ some (hello second n2)
      → get s.ws_conns first ≡ none
      → get s.ws_conns second ≡ none
      → (get (handle_ws_conn h (says t1 ∷ says t2 ∷ closes ∷ []) s).ws_conns first ≡ some s.ws_seq)
        × (contains s.ws_seq (handle_ws_conn h (says t1 ∷ says t2 ∷ closes ∷ []) s).gone ≡ true)
  unfolding handle_ws_conn record_effect
  two_hellos_leak first second n1 n2 t1 t2 s ne f1 f2 e1 e2 =
      ended first second n1 n2 t1 t2 s.ws_seq _ ne f1 f2 e1 e2
