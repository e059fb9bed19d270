-- ===== src/Features/Dispatch.antt =====
-- features/mod.rs: which messages the registry takes, and what no handler breaks.
use my_domain_core.Prelude.{
  if◌then◌else◌, Bool-cases, Option-cases, nat_eq, string_eq, ◌==◌, contains, String, ◌≡◌, ◌∙◌, inl,
  inr, Bool, true, false, ◌&&◌, ◌||◌, Option, none, some, [], ◌∷◌, arith,
}
use my_domain_core.Text.{is_empty}
use my_domain_core.Prelude.Map.{get, insert, remove}
use my_domain_core.Model.{udp}
use my_domain_core.Host.{Host}
use my_domain_core.Ctx.{Ctx, emit, record_effect}
use my_domain_core.Transport.Live.{mark_live}
use my_domain_core.Transport.Live.Events.{link_events}
use my_domain_core.Transport.Live.Evolves.{Evolves, mark_live-Evolves}
use my_domain_core.Transport.Live.Links.{ws_conns-mark_live}
use my_domain_core.Transport.Send.Quiet.{
  Quiet, Quiet-Evolves, Quiet-refl, send_control_to-next, send_control_to-Quiet,
}
use my_domain_core.Features.{
  ControlMsg, Handler, str_of, kind_of, handle, dispatch, find_handler, with_defaults,
  for_clipboard, for_notification, for_call_notification, for_call_history, for_notif_apps,
  for_p2p_ping, clipboard_handler, clipboard_push, clipboard_request, clipboard_response,
  notification_handler, call_notification_handler, call_history_handler, notif_apps_handler,
  apps_request, subscribe_apps, p2p_ping_handler,
}

-- The kinds that have a handler, with the handler of each; `none` is passed through to the host.
abbrev pub handler_of : Bool → String → Option Handler
handler_of has_clipboard kind =
    if contains kind ("p2p_ping" ∷ "p2p_pong" ∷ [])
    then some for_p2p_ping
    else if contains kind ("apps_request" ∷ "subscribe_apps" ∷ "apps_list" ∷ [])
    then some for_notif_apps
    else if "call_history" == kind
    then some for_call_history
    else if "call_notification" == kind
    then some for_call_notification
    else if "notification" == kind
    then some for_notification
    else if has_clipboard
        && contains kind ("clipboard" ∷ "clipboard_request" ∷ "clipboard_response" ∷ [])
    then some for_clipboard
    else none

module _ (h : Host) where
  clipboard_push-Quiet : (m : ControlMsg) (s : Ctx) → Quiet s (clipboard_push h m s)
  unfolding clipboard_push emit record_effect link_events
  clipboard_push-Quiet m s = ground arith

  clipboard_request-Quiet : (m : ControlMsg) (s : Ctx) → Quiet s (clipboard_request h m s)
  unfolding clipboard_request
  clipboard_request-Quiet m s = grind (arith, send_control_to-next, Quiet-refl)

  clipboard_response-Quiet : (m : ControlMsg) (s : Ctx) → Quiet s (clipboard_response h m s)
  unfolding clipboard_response record_effect link_events
  clipboard_response-Quiet m s = ground arith

  clipboard_handler-Quiet : (m : ControlMsg) (s : Ctx) → Quiet s (clipboard_handler h m s)
  unfolding clipboard_handler
  clipboard_handler-Quiet m s =
      grind
        (arith, clipboard_push-Quiet, clipboard_request-Quiet, clipboard_response-Quiet, Quiet-refl)

  notification_handler-Quiet : (m : ControlMsg) (s : Ctx) → Quiet s (notification_handler h m s)
  unfolding notification_handler emit record_effect link_events
  notification_handler-Quiet m s = ground arith

  call_notification_handler-Quiet :
      (m : ControlMsg) (s : Ctx) → Quiet s (call_notification_handler h m s)
  unfolding call_notification_handler emit link_events
  call_notification_handler-Quiet m s = ground arith

  call_history_handler-Quiet : (m : ControlMsg) (s : Ctx) → Quiet s (call_history_handler h m s)
  unfolding call_history_handler emit link_events
  call_history_handler-Quiet m s = ground arith

  apps_request-Quiet : (m : ControlMsg) (s : Ctx) → Quiet s (apps_request h m s)
  unfolding apps_request
  apps_request-Quiet m s = grind (arith, send_control_to-Quiet, Quiet-refl)

  subscribe_apps-Quiet : (m : ControlMsg) (s : Ctx) → Quiet s (subscribe_apps h m s)
  unfolding subscribe_apps
  subscribe_apps-Quiet m s = ground arith

  notif_apps_handler-Quiet : (m : ControlMsg) (s : Ctx) → Quiet s (notif_apps_handler h m s)
  unfolding notif_apps_handler emit link_events
  notif_apps_handler-Quiet m s = grind (arith, apps_request-Quiet, subscribe_apps-Quiet, Quiet-refl)

  p2p_ping_handler-Evolves :
      {s0 : Ctx} (m : ControlMsg) (s : Ctx) → Evolves s0 s → Evolves s0 (p2p_ping_handler h m s)
  unfolding p2p_ping_handler
  p2p_ping_handler-Evolves {s0} m s k =
      let live : Ctx = mark_live (str_of m "from") udp none s in
      let shown : Evolves s0 live = mark_live-Evolves (str_of m "from") udp none s k in
      elim (Bool-cases (is_empty (str_of m "from"))) [
        | inl empty ↦ rw empty k
        | inr named ↦ elim (Bool-cases (kind_of m == "p2p_ping")) [
          | inr pong ↦ rw (named, pong) shown
          | inl ping ↦
              rw (named, ping)
                (Quiet-Evolves (send_control_to-Quiet h (str_of m "from") _ live) shown)
        ]
      ]

  p2p_ping_handler-links :
      (m : ControlMsg) (s : Ctx) → (p2p_ping_handler h m s).ws_conns ≡ s.ws_conns
  unfolding p2p_ping_handler
  p2p_ping_handler-links m s =
      let live : Ctx = mark_live (str_of m "from") udp none s in
      let same : live.ws_conns ≡ s.ws_conns = ws_conns-mark_live (str_of m "from") s udp none in
      elim (Bool-cases (is_empty (str_of m "from"))) [
        | inl empty ↦ rw empty
        | inr named ↦ elim (Bool-cases (kind_of m == "p2p_ping")) [
          | inr pong ↦ rw (named, pong) same
          | inl ping ↦
              rw (named, ping) ((send_control_to-Quiet h (str_of m "from") _ live).links ∙ same)
        ]
      ]

  pub handle-links :
      (handler : Handler) (m : ControlMsg) (s : Ctx) → (handle h handler m s).ws_conns ≡ s.ws_conns
  unfolding handle
  handle-links for_clipboard m s = (clipboard_handler-Quiet m s).links
  handle-links for_notification m s = (notification_handler-Quiet m s).links
  handle-links for_call_notification m s = (call_notification_handler-Quiet m s).links
  handle-links for_call_history m s = (call_history_handler-Quiet m s).links
  handle-links for_notif_apps m s = (notif_apps_handler-Quiet m s).links
  handle-links for_p2p_ping m s = p2p_ping_handler-links m s

  pub dispatch-links :
      (from ip protocol text : String) (s : Ctx)
      → (dispatch h from ip protocol text s).0.ws_conns ≡ s.ws_conns
  unfolding dispatch
  dispatch-links from ip protocol text s = elim (Option-cases (find_handler h s text)) [
    | inl chat ↦ rw (chat, dispatch)
    | inr ((value, handler), e) ↦
        rw (e, dispatch)
          (handle-links handler
            (record { from = from; ip = ip; protocol = protocol; value = value }) s)
  ]

  -- Whatever a handler is sent, it does to the live registry what the machine does.
  pub handle-Evolves :
      {s0 : Ctx} (handler : Handler) (m : ControlMsg) (s : Ctx)
      → Evolves s0 s
      → Evolves s0 (handle h handler m s)
  unfolding handle
  handle-Evolves for_clipboard m s k = Quiet-Evolves (clipboard_handler-Quiet m s) k
  handle-Evolves for_notification m s k = Quiet-Evolves (notification_handler-Quiet m s) k
  handle-Evolves for_call_notification m s k = Quiet-Evolves (call_notification_handler-Quiet m s) k
  handle-Evolves for_call_history m s k = Quiet-Evolves (call_history_handler-Quiet m s) k
  handle-Evolves for_notif_apps m s k = Quiet-Evolves (notif_apps_handler-Quiet m s) k
  handle-Evolves for_p2p_ping m s k = p2p_ping_handler-Evolves m s k

  pub dispatch-Evolves :
      {s0 : Ctx} (from ip protocol text : String) (s : Ctx)
      → Evolves s0 s
      → Evolves s0 (dispatch h from ip protocol text s).0
  unfolding dispatch
  dispatch-Evolves from ip protocol text s k = elim (Option-cases (find_handler h s text)) [
    | inl chat ↦ rw (chat, dispatch) k
    | inr ((value, handler), e) ↦
        rw (e, dispatch)
          (handle-Evolves handler
            (record { from = from; ip = ip; protocol = protocol; value = value }) s k)
  ]

-- The registry's list of kinds, latest first, against the same tests grouped by handler.
grouped :
    (pong ping list sub req hist call note resp creq clip : Bool)
    → (if pong
        then some for_p2p_ping
        else if ping
        then some for_p2p_ping
        else if list
        then some for_notif_apps
        else if sub
        then some for_notif_apps
        else if req
        then some for_notif_apps
        else if hist
        then some for_call_history
        else if call
        then some for_call_notification
        else if note
        then some for_notification
        else if resp
        then some for_clipboard
        else if creq
        then some for_clipboard
        else if clip
        then some for_clipboard
        else none)
      ≡ (if ping || (pong || false)
          then some for_p2p_ping
          else if req || (sub || (list || false))
          then some for_notif_apps
          else if hist
          then some for_call_history
          else if call
          then some for_call_notification
          else if note
          then some for_notification
          else if clip || (creq || (resp || false))
          then some for_clipboard
          else none)
grouped pong ping list sub req hist call note resp creq clip = ground arith

-- The registry that an engine builds holds exactly the kinds of `handler_of`: every kind goes to the
-- handler of its feature, the three clipboard kinds only where the platform has a clipboard.
pub with_defaults_lem :
    (has_clipboard : Bool) (kind : String)
    → get (with_defaults has_clipboard) kind ≡ handler_of has_clipboard kind
unfolding with_defaults get insert remove
with_defaults_lem true kind =
    grouped ("p2p_pong" == kind) ("p2p_ping" == kind) ("apps_list" == kind)
      ("subscribe_apps" == kind) ("apps_request" == kind) ("call_history" == kind)
      ("call_notification" == kind) ("notification" == kind) ("clipboard_response" == kind)
      ("clipboard_request" == kind) ("clipboard" == kind)
with_defaults_lem false kind =
    grouped ("p2p_pong" == kind) ("p2p_ping" == kind) ("apps_list" == kind)
      ("subscribe_apps" == kind) ("apps_request" == kind) ("call_history" == kind)
      ("call_notification" == kind) ("notification" == kind) false false false
