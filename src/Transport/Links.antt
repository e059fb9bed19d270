-- ===== src/Transport/Links.antt =====
-- transport/ws.rs, and the drivers of transport/punch.rs and transport/rtc.rs: the threads that carry
-- a live connection. A driver's loop is a function over what it reads in each round; its state is a
-- record, and the tables that it shares with the other drivers are those of `Ctx`.
pub mod Exits
pub mod WsConn
pub mod Indicator
pub mod TwoHellos
use my_domain_core.Prelude.{
  if◌then◌else◌, nat_eq, string_eq, ◌==◌, or_default, ℕ, ◌+◌, String, Bool, true, false, not, ◌&&◌,
  Option, none, some, List, [], ◌∷◌,
}
use my_domain_core.Prelude.Map.{get, insert, remove, contains_key}
use my_domain_core.Net.{SocketAddr}
use my_domain_core.Model.{ws, punch, web_rtc, WsFrame, hello, msg, ws_connected, ws_disconnected}
use my_domain_core.Host.{Host}
use my_domain_core.Ctx.{Ctx, emit, record_effect, written}
use my_domain_core.Transport.Live.{mark_live, drop_live}
use my_domain_core.Transport.Incoming.{handle_incoming}

-- `g.get(&node_id).map(|(id, _)| *id == my_conn_id).unwrap_or(false)`
unfoldable pub owns : Ctx → String → ℕ → Bool
owns s node_id conn_id = elim (get s.ws_conns node_id) [ none ↦ false | some id ↦ id == conn_id ]

unfoldable pub remove_link : String → Ctx → Ctx
remove_link node_id s = record s { ws_conns = remove s.ws_conns node_id }

-- The driver returns and its receiver is dropped.
unfoldable pub hang_up : ℕ → Ctx → Ctx
hang_up conn_id s = record s { gone = conn_id ∷ s.gone }

-- `while let Ok(out) = rx.try_recv()`: the queued frames go out until a write fails; `true` is `dead`.
unfoldable pub flush : (String → Bool) → ℕ → List String → Ctx → Ctx × Bool
flush write_ok conn_id [] s = (s, false)
flush write_ok conn_id (out ∷ outs) s =
    let rest = flush write_ok conn_id outs (record_effect (written conn_id out) s) in
    if write_ok out then rest else (s, true)

-- One WebSocket connection: its number and the node that said hello on it.
pub record WsLink : Type 0 where
  pub conn_id : ℕ
  pub peer_id : Option String

-- What `ws.read()` returned: text, a close frame, another message or a timeout, or an error.
pub data WsRead : Type 0 where
  text_read : String → WsRead
  close nothing broken : WsRead

-- One round: the read, the frames queued meanwhile, and which writes succeed.
pub record WsRound : Type 0 where
  pub read : WsRead
  pub outgoing : List String
  pub write_ok : String → Bool

module _ (h : Host) where
  -- A hello: a node that has a connection already ends this one (`false`).
  unfoldable pub ws_hello : String → WsLink → Ctx → Ctx × WsLink × Bool
  ws_hello node_id link s = if contains_key s.ws_conns node_id then (s, link, false) else (
    mark_live node_id ws none (
        emit (ws_connected node_id)
          (record s { ws_conns = insert s.ws_conns node_id link.conn_id })),
    record link { peer_id = some node_id },
    true,
  )

  unfoldable pub ws_frame : Option WsFrame → WsLink → Ctx → Ctx × WsLink × Bool
  ws_frame none link s = (s, link, true)
  ws_frame (some (hello node_id name)) link s = ws_hello node_id link s
  ws_frame (some (msg nonce ciphertext)) link s =
      (handle_incoming h (record { nonce = nonce; ciphertext = ciphertext }) "" "WS" s, link, true)

  -- `true`: the loop goes on to the flush.
  unfoldable pub ws_read : WsRead → WsLink → Ctx → Ctx × WsLink × Bool
  ws_read (text_read t) link s = ws_frame (h.frame_from_str t) link s
  ws_read close link s = (s, link, false)
  ws_read nothing link s = (s, link, true)
  ws_read broken link s = (s, link, false)

  unfoldable pub ws_round : WsRound → WsLink → Ctx → Ctx × WsLink × Bool
  ws_round r link s =
      let (s', link', more) = ws_read r.read link s in
      let (s'', dead) = flush r.write_ok link'.conn_id r.outgoing s' in
      if more then (s'', link', not dead) else (s', link', false)

  -- Only this connection's own entry is removed.
  unfoldable pub ws_cleanup : WsLink → Ctx → Ctx
  ws_cleanup link s = elim link.peer_id [
    | none ↦ s
    | some node_id ↦
        if owns s node_id link.conn_id
        then drop_live node_id (emit (ws_disconnected node_id) (remove_link node_id s))
        else s
  ]

  -- The loop over the rounds of a connection; it ends with them, or earlier by `break`.
  unfoldable pub ws_loop : List WsRound → WsLink → Ctx → WsLink × Ctx
  ws_loop [] link s = (link, s)
  ws_loop (r ∷ rs) link s =
      let (s', link', more) = ws_round r link s in
      let rest = ws_loop rs link' s' in if more then rest else (link', s')

  -- The hello that the driver sends first, then the loop and the cleanup.
  unfoldable pub handle_ws_conn : List WsRound → Ctx → Ctx
  handle_ws_conn rounds s =
      let conn_id : ℕ = s.ws_seq in
      let greeting = or_default (h.frame_to_string (hello s.identity.node_id s.identity.name)) "" in
      let s1 = record_effect (written conn_id greeting) (record s { ws_seq = conn_id + 1 }) in
      let (link, s2) = ws_loop rounds (record { conn_id = conn_id; peer_id = none }) s1 in
      hang_up conn_id (ws_cleanup link s2)

-- The registration of a punched link; `none` where the node has a connection already.
unfoldable pub punch_register : String → SocketAddr → Ctx → Option (ℕ × Ctx)
punch_register node_id addr s =
    let bumped = record s { punch_seq = s.punch_seq + 1 } in
    let entry : ℕ × Ctx = (
      s.punch_seq,
      mark_live node_id punch (some addr)
          (record bumped { ws_conns = insert s.ws_conns node_id s.punch_seq }),
    ) in
    if contains_key s.ws_conns node_id then none else some entry

-- The test at the end of each round of the punch driver, and of `drive` once it is registered.
unfoldable pub link_stays : String → ℕ → Ctx → Bool
unfolding owns
link_stays node_id conn_id s = owns s node_id conn_id && contains_key s.p2p_conns node_id

-- The end of `run_punch_conn`, and `cleanup` of rtc.rs for a registered link.
unfoldable pub link_exit : String → ℕ → Ctx → Ctx
link_exit node_id conn_id s =
    hang_up conn_id
      (drop_live node_id (if owns s node_id conn_id then remove_link node_id s else s))

-- `Event::ChannelOpen` of an unregistered `drive`: the entry is taken over, whoever has it.
unfoldable pub rtc_register : String → ℕ → Ctx → Ctx
rtc_register node_id conn_id s =
    mark_live node_id web_rtc none (record s { ws_conns = insert s.ws_conns node_id conn_id })
