-- ===== src/Transport/Links/WsConn.antt =====
-- transport/ws.rs: what one WebSocket connection does to the tables, over any sequence of reads.
use my_domain_core.Prelude.{
  Bool-cases, Option-cases, nat_eq, string_eq, ◌==◌, eq-of-beq, ℕ, String, ◌≡◌, refl, ap, ◌∙◌, ◌≢◌,
  inl, inr, Bool, true, Option, none, some, List, [], ◌∷◌, arith,
}
use text.Mathlib.TextEquality.{eq_iff}
use my_domain_core.Prelude.Map.{Map, get, remove, contains_key, get-insert, get-remove}
use my_domain_core.Model.{WsFrame, hello, msg}
use my_domain_core.Host.{Host}
use my_domain_core.Ctx.{Ctx, emit, record_effect, written}
use my_domain_core.Transport.Live.Events.{link_events}
use my_domain_core.Transport.Live.Links.{ws_conns-mark_live, ws_conns-drop_live}
use my_domain_core.Transport.Send.Quiet.{Quiet, Quiet-refl, Quiet-trans, record_effect-Quiet}
use my_domain_core.Transport.Incoming.Indicator.{links-handle_incoming}
use my_domain_core.Transport.Links.{
  owns, remove_link, hang_up, flush, WsLink, WsRead, WsRound, text_read, close, nothing, broken,
  ws_hello, ws_frame, ws_read, ws_round, ws_cleanup, ws_loop, handle_ws_conn,
}
use my_domain_core.Transport.Links.Exits.{owns-newer}

-- The entry of `node` belongs to the connection `id`.
abbrev Holds : String → ℕ → Ctx → Type 0
Holds node id s = get s.ws_conns node ≡ some id

module _ (h : Host) (node : String) (id : ℕ) where
  ws_hello-Holds :
      (node_id : String) (link : WsLink) (s : Ctx)
      → Holds node id s
      → Holds node id (ws_hello h node_id link s).0
  unfolding ws_hello emit contains_key
  ws_hello-Holds node_id link s e = elim (Bool-cases (contains_key s.ws_conns node_id)) [
    | inl taken ↦ rw taken e
    | inr free ↦
        rw (free, ws_conns-mark_live)
          (ground
            (arith, get-insert s.ws_conns node_id node link.conn_id, eq_iff node_id node, e, free))
  ]

  ws_frame-Holds :
      (f : Option WsFrame) (link : WsLink) (s : Ctx)
      → Holds node id s
      → Holds node id (ws_frame h f link s).0
  unfolding ws_frame
  ws_frame-Holds none link s e = e
  ws_frame-Holds (some (hello n name)) link s e = ws_hello-Holds n link s e
  ws_frame-Holds (some (msg nonce ciphertext)) link s e = rw links-handle_incoming e

  ws_read-Holds :
      (r : WsRead) (link : WsLink) (s : Ctx)
      → Holds node id s
      → Holds node id (ws_read h r link s).0
  unfolding ws_read
  ws_read-Holds (text_read t) link s e = ws_frame-Holds (h.frame_from_str t) link s e
  ws_read-Holds close link s e = e
  ws_read-Holds nothing link s e = e
  ws_read-Holds broken link s e = e

pub written-Quiet :
    (conn_id : ℕ) (out : String) (s : Ctx) → Quiet s (record_effect (written conn_id out) s)
unfolding link_events
written-Quiet conn_id out s = record_effect-Quiet (written conn_id out) s (λ trace. refl)

pub flush-Quiet :
    (write_ok : String → Bool) (conn_id : ℕ) (outs : List String) (s : Ctx)
    → Quiet s (flush write_ok conn_id outs s).0
unfolding flush
flush-Quiet write_ok conn_id [] s = Quiet-refl s
flush-Quiet write_ok conn_id (out ∷ outs) s = elim (Bool-cases (write_ok out)) [
  | inr fails ↦ rw fails (Quiet-refl s)
  | inl sent ↦ rw sent (
      Quiet-trans (written-Quiet conn_id out s)
        (flush-Quiet write_ok conn_id outs (record_effect (written conn_id out) s)))
]

-- What a read keeps and no write breaks, the loop keeps.
module _ (h : Host) (P : Ctx → Type 0) (quiet : (s t : Ctx) → Quiet s t → P s → P t)
    (read : (r : WsRead) (link : WsLink) (s : Ctx) → P s → P (ws_read h r link s).0) where
  pub ws_round_keeps : (r : WsRound) (link : WsLink) (s : Ctx) → P s → P (ws_round h r link s).0
  unfolding ws_round
  ws_round_keeps r link s p =
      let link' : WsLink = (ws_read h r.read link s).1 in
      let s' : Ctx = (ws_read h r.read link s).0 in
      elim (Bool-cases (ws_read h r.read link s).2) [
        | inl more ↦ rw more (
            quiet s' (flush r.write_ok link'.conn_id r.outgoing s').0
              (flush-Quiet r.write_ok link'.conn_id r.outgoing s') (read r.read link s p))
        | inr ends ↦ rw ends (read r.read link s p)
      ]

  pub ws_loop_keeps :
      (rs : List WsRound) (link : WsLink) (s : Ctx) → P s → P (ws_loop h rs link s).1
  unfolding ws_loop
  ws_loop_keeps [] link s p = p
  ws_loop_keeps (r ∷ rs) link s p = elim (Bool-cases (ws_round h r link s).2) [
    | inl more ↦ rw more (
        ws_loop_keeps rs (ws_round h r link s).1 (ws_round h r link s).0
          (ws_round_keeps r link s p))
    | inr ends ↦ rw ends (ws_round_keeps r link s p)
  ]

-- The number of a connection never changes.
module _ (h : Host) where
  ws_read-conn_id :
      (r : WsRead) (link : WsLink) (s : Ctx) → (ws_read h r link s).1.conn_id ≡ link.conn_id
  unfolding ws_read ws_frame ws_hello
  ws_read-conn_id r link s = ground arith

  ws_round-conn_id :
      (r : WsRound) (link : WsLink) (s : Ctx) → (ws_round h r link s).1.conn_id ≡ link.conn_id
  unfolding ws_round
  ws_round-conn_id r link s = ground (arith, ws_read-conn_id r.read link s)

  ws_loop-conn_id :
      (rs : List WsRound) (link : WsLink) (s : Ctx) → (ws_loop h rs link s).0.conn_id ≡ link.conn_id
  unfolding ws_loop
  ws_loop-conn_id [] link s = refl
  ws_loop-conn_id (r ∷ rs) link s = ground (
    arith,
    ws_round-conn_id r link s,
    ws_loop-conn_id rs (ws_round h r link s).1 (ws_round h r link s).0,
  )

module _ (h : Host) (node : String) (id : ℕ) where
  remove-Holds :
      (n : String) (conn_id : ℕ) (s : Ctx)
      → owns s n conn_id ≡ true
      → id ≢ conn_id
      → Holds node id s
      → get (remove s.ws_conns n) node ≡ some id
  remove-Holds n conn_id s own ne e = elim (Bool-cases (n == node)) [
    | inl same ↦ cc (
      own,
      owns-newer node conn_id id s e ne,
      ap (λ (x : String). owns s x conn_id) (eq-of-beq {a = n} {b = node} same),
    )
    | inr other ↦ get-remove s.ws_conns n node ∙ rw other e
  ]

  ws_cleanup-Holds :
      (link : WsLink) (s : Ctx)
      → id ≢ link.conn_id
      → Holds node id s
      → Holds node id (ws_cleanup h link s)
  unfolding ws_cleanup emit record_effect remove_link
  ws_cleanup-Holds link s ne e = elim (Option-cases link.peer_id) [
    | inl nobody ↦ rw (nobody, ws_cleanup) e
    | inr (n, said) ↦ elim (Bool-cases (owns s n link.conn_id)) [
      | inr other ↦ rw (said, ws_cleanup) (rw other e)
      | inl own ↦
          rw (said, ws_cleanup)
            (rw own (rw ws_conns-drop_live (remove-Holds n link.conn_id s own ne e)))
    ]
  ]

  finish-Holds :
      (rounds : List WsRound) (link : WsLink) (s : Ctx)
      → id ≢ link.conn_id
      → Holds node id s
      → Holds node id (ws_cleanup h (ws_loop h rounds link s).0 (ws_loop h rounds link s).1)
  finish-Holds rounds link s ne e =
      ws_cleanup-Holds (ws_loop h rounds link s).0 (ws_loop h rounds link s).1
        (λ same. ne (same ∙ ws_loop-conn_id h rounds link s))
        (ws_loop_keeps h (Holds node id)
          (λ t u q x. ap (λ (m : Map String ℕ). get m node) q.links ∙ x) (ws_read-Holds h node id)
          rounds link s e)

  -- A WebSocket connection, whatever it reads and however it ends, leaves the entry of every other
  -- connection in place: a node that is connected stays connected over its first connection.
  pub handle_ws_conn-keeps_others :
      (rounds : List WsRound) (s : Ctx)
      → get s.ws_conns node ≡ some id
      → id ≢ s.ws_seq
      → get (handle_ws_conn h rounds s).ws_conns node ≡ some id
  unfolding handle_ws_conn hang_up record_effect
  handle_ws_conn-keeps_others rounds s e ne = finish-Holds rounds _ _ ne e
