-- ===== src/Transport/Links/Indicator.antt =====
-- transport/ws.rs, punch.rs and rtc.rs: the life of a connection against the machine of the live registry.
use my_domain_core.Prelude.{
  if◌then◌else◌, Bool-cases, Option-cases, nat_eq, string_eq, ℕ, ◌+◌, String, ◌≡◌, refl, subst, inl,
  inr, Bool, true, false, Option, none, some, List,
}
use my_domain_core.Prelude.Map.{insert, contains_key}
use my_domain_core.Net.{SocketAddr}
use my_domain_core.Model.{WsFrame, hello, msg, ws, punch, web_rtc, ws_connected, ws_disconnected}
use my_domain_core.Host.{Host}
use my_domain_core.Ctx.{Ctx, emit}
use my_domain_core.Transport.Live.{is_live}
use my_domain_core.Transport.Live.Events.{link_events}
use my_domain_core.Transport.Live.Evolves.{
  Evolves, mark_live-Evolves, drop_live-Evolves, same-Evolves, IsDim-Evolves,
}
use my_domain_core.Transport.Send.Quiet.{Quiet-Evolves}
use my_domain_core.Transport.Incoming.Indicator.{handle_incoming-Evolves}
use my_domain_core.Transport.Links.{
  owns, remove_link, hang_up, WsLink, WsRead, WsRound, text_read, close, nothing, broken, ws_hello,
  ws_frame, ws_read, ws_cleanup, handle_ws_conn, punch_register, link_exit, rtc_register,
}
use my_domain_core.Transport.Links.WsConn.{ws_loop_keeps, written-Quiet}

-- The machine rests over a change of the connection table and an event that is not the indicator's.
ws_connected-Evolves :
    {s0 : Ctx} (node_id : String) (conn_id : ℕ) (s : Ctx)
    → Evolves s0 s
    → Evolves s0
        (emit (ws_connected node_id) (record s { ws_conns = insert s.ws_conns node_id conn_id }))
unfolding emit link_events is_live
ws_connected-Evolves node_id conn_id s k =
    IsDim-Evolves (record { live = refl; told = refl; session = refl }) k

ws_disconnected-Evolves :
    {s0 : Ctx} (node_id : String) (s : Ctx)
    → Evolves s0 s
    → Evolves s0 (emit (ws_disconnected node_id) (remove_link node_id s))
unfolding emit link_events is_live remove_link
ws_disconnected-Evolves node_id s k =
    IsDim-Evolves (record { live = refl; told = refl; session = refl }) k

remove_link-Evolves :
    {s0 : Ctx} (b : Bool) (node_id : String) (s : Ctx)
    → Evolves s0 s
    → Evolves s0 (if b then remove_link node_id s else s)
unfolding is_live remove_link
remove_link-Evolves true node_id s k = same-Evolves s (remove_link node_id s) refl refl refl k
remove_link-Evolves false node_id s k = k

pub hang_up-Evolves :
    {s0 : Ctx} (conn_id : ℕ) (s : Ctx) → Evolves s0 s → Evolves s0 (hang_up conn_id s)
unfolding is_live hang_up
hang_up-Evolves conn_id s k = same-Evolves s (hang_up conn_id s) refl refl refl k

module _ (h : Host) where
  ws_hello-Evolves :
      {s0 : Ctx} (node_id : String) (link : WsLink) (s : Ctx)
      → Evolves s0 s
      → Evolves s0 (ws_hello h node_id link s).0
  unfolding ws_hello
  ws_hello-Evolves node_id link s k = elim (Bool-cases (contains_key s.ws_conns node_id)) [
    | inl taken ↦ rw taken k
    | inr free ↦
        rw free
          (mark_live-Evolves node_id ws none _ (ws_connected-Evolves node_id link.conn_id s k))
  ]

  ws_frame-Evolves :
      {s0 : Ctx} (f : Option WsFrame) (link : WsLink) (s : Ctx)
      → Evolves s0 s
      → Evolves s0 (ws_frame h f link s).0
  unfolding ws_frame
  ws_frame-Evolves none link s k = k
  ws_frame-Evolves (some (hello n name)) link s k = ws_hello-Evolves n link s k
  ws_frame-Evolves (some (msg nonce ciphertext)) link s k =
      handle_incoming-Evolves h (record { nonce = nonce; ciphertext = ciphertext }) "" "WS" s k

  pub ws_read-Evolves :
      {s0 : Ctx} (r : WsRead) (link : WsLink) (s : Ctx)
      → Evolves s0 s
      → Evolves s0 (ws_read h r link s).0
  unfolding ws_read
  ws_read-Evolves (text_read t) link s k = ws_frame-Evolves (h.frame_from_str t) link s k
  ws_read-Evolves close link s k = k
  ws_read-Evolves nothing link s k = k
  ws_read-Evolves broken link s k = k

  pub ws_cleanup-Evolves :
      {s0 : Ctx} (link : WsLink) (s : Ctx) → Evolves s0 s → Evolves s0 (ws_cleanup h link s)
  unfolding ws_cleanup
  ws_cleanup-Evolves link s k = elim (Option-cases link.peer_id) [
    | inl nobody ↦ rw (nobody, ws_cleanup) k
    | inr (n, said) ↦ elim (Bool-cases (owns s n link.conn_id)) [
      | inr other ↦ rw (said, ws_cleanup) (rw other k)
      | inl own ↦
          rw (said, ws_cleanup) (rw own (drop_live-Evolves n _ (ws_disconnected-Evolves n s k)))
    ]
  ]

  pub handle_ws_conn-Evolves :
      {s0 : Ctx} (rounds : List WsRound) (s : Ctx)
      → Evolves s0 s
      → Evolves s0 (handle_ws_conn h rounds s)
  unfolding handle_ws_conn
  handle_ws_conn-Evolves {s0} rounds s k = hang_up-Evolves s.ws_seq _ (
      ws_cleanup-Evolves _ _ (
        ws_loop_keeps h (Evolves s0) (λ t u q x. Quiet-Evolves q x) ws_read-Evolves rounds _ _
          (Quiet-Evolves (written-Quiet s.ws_seq _ (record s { ws_seq = s.ws_seq + 1 }))
            (same-Evolves s (record s { ws_seq = s.ws_seq + 1 }) refl refl refl k))))

abbrev Shows : Ctx → Option (ℕ × Ctx) → Type 0
Shows s0 none = Unit
Shows s0 (some t) = Evolves s0 t.1

registered-Evolves :
    {s0 : Ctx} (node_id : String) (addr : SocketAddr) (s : Ctx)
    → Evolves s0 s
    → Shows s0 (punch_register node_id addr s)
unfolding punch_register
registered-Evolves node_id addr s k = elim (Bool-cases (contains_key s.ws_conns node_id)) [
  | inl taken ↦ rw taken tt
  | inr free ↦ rw free (
      mark_live-Evolves node_id punch (some addr) _ (
        same-Evolves s
          (record s {
            punch_seq = s.punch_seq + 1;
            ws_conns = insert s.ws_conns node_id s.punch_seq;
          })
          refl refl refl k))
]

punch_register-Evolves :
    {s0 : Ctx} (node_id : String) (addr : SocketAddr) (s : Ctx) (t : ℕ × Ctx)
    → Evolves s0 s
    → punch_register node_id addr s ≡ some t
    → Evolves s0 t.1
punch_register-Evolves {s0} node_id addr s t k e =
    subst (Shows s0) e (registered-Evolves node_id addr s k)

pub links-Evolves :
    {s0 : Ctx} (node_id : String) (conn_id : ℕ) (addr : SocketAddr) (s : Ctx)
    → Evolves s0 s
    → Evolves s0 (link_exit node_id conn_id s)
      × Evolves s0 (rtc_register node_id conn_id s)
      × ((t : ℕ × Ctx) → punch_register node_id addr s ≡ some t → Evolves s0 t.1)
unfolding link_exit rtc_register
links-Evolves node_id conn_id addr s k = (
  hang_up-Evolves conn_id _
      (drop_live-Evolves node_id _ (remove_link-Evolves (owns s node_id conn_id) node_id s k)),
  mark_live-Evolves node_id web_rtc none _
      (same-Evolves s (record s { ws_conns = insert s.ws_conns node_id conn_id }) refl refl refl k),
  λ t e. punch_register-Evolves node_id addr s t k e,
)
