-- ===== src/Features.antt =====
-- features/: control messages that ride inside the encrypted text as JSON objects. Each handler of
-- the source is a function here, and the registry a map from kinds to handlers.
pub mod Dispatch
use my_domain_core.Prelude.{
  if◌then◌else◌, nat_eq, string_eq, ◌==◌, is_some, or_default, ◌>>=◌, String, Bool, true, false,
  ◌&&◌, Option, none, some, List, [], ◌∷◌,
}
use my_domain_core.Prelude.Map.{Map, get, insert, remove}
use my_domain_core.Text.{is_empty}
use my_domain_core.Model.{udp, clipboard, notification, call_notification, call_history, apps_list}
use my_domain_core.Model.Json.{
  Value, null, string, array, object, nil, field, end, get_field, str_field, as_array, strings_of,
  of_strings,
}
use my_domain_core.Host.{Host}
use my_domain_core.Ctx.{Ctx, emit, record_effect, next_turn, clipboard_set, posted, clip_answered}
use my_domain_core.Transport.Live.{mark_live}
use my_domain_core.Transport.Send.{send_control_to}

-- `ControlMsg`.
pub record ControlMsg : Type 0 where
  pub from : String
  pub ip : String
  pub protocol : String
  pub value : Value

unfoldable pub kind_of : ControlMsg → String
kind_of m = or_default (str_field m.value "type") ""

-- `msg.str(key)`, `msg.opt(key)` and `msg.json(key)`.
unfoldable pub str_of : ControlMsg → String → String
str_of m key = or_default (str_field m.value key) ""

unfoldable pub opt_of : ControlMsg → String → Option String
opt_of m key = str_field m.value key

unfoldable pub json_of : ControlMsg → String → Value
json_of m key = or_default (get_field m.value key) null

module _ (h : Host) where
  -- What `clip.get()` says now; absent on a platform without a clipboard.
  unfoldable pub read_clipboard : Ctx → Option String
  read_clipboard s = h.clipboard >>= λ read. read s.turn

  unfoldable pub clipboard_push : ControlMsg → Ctx → Ctx
  clipboard_push m s =
      if s.clip_active && is_some h.clipboard
      then emit (clipboard m.from m.ip m.protocol "synced") (
          record_effect (clipboard_set (str_of m "content"))
            (record s { clip_last = str_of m "content" }))
      else s

  unfoldable pub clipboard_request : ControlMsg → Ctx → Ctx
  clipboard_request m s =
      let reply = object (
        field "type" (string "clipboard_response") (
          field "content" (string (or_default (read_clipboard s) ""))
            (field "from" (string s.identity.node_id) end))) in
      if is_empty (str_of m "from")
      then s
      else send_control_to h (str_of m "from") (h.json_to_string reply) (next_turn s)

  unfoldable pub clipboard_response : ControlMsg → Ctx → Ctx
  clipboard_response m s = elim (get s.clip_pending (str_of m "from")) [
    | none ↦ s
    | some waiter ↦
        record_effect (clip_answered waiter (str_of m "content"))
          (record s { clip_pending = remove s.clip_pending (str_of m "from") })
  ]

  unfoldable pub clipboard_handler : ControlMsg → Ctx → Ctx
  clipboard_handler m s =
      if kind_of m == "clipboard"
      then clipboard_push m s
      else if kind_of m == "clipboard_request"
      then clipboard_request m s
      else if kind_of m == "clipboard_response"
      then clipboard_response m s
      else s

  unfoldable pub notification_handler : ControlMsg → Ctx → Ctx
  notification_handler m s =
      let shown =
        if h.notifier then record_effect (posted (str_of m "title") (str_of m "body")) s else s in
      emit (notification (str_of m "from") (str_of m "title") (str_of m "body") (opt_of m "app"))
        shown

  unfoldable pub call_notification_handler : ControlMsg → Ctx → Ctx
  call_notification_handler m s =
      emit
        (call_notification (str_of m "from") (str_of m "caller") (opt_of m "number")
          (str_of m "state"))
        s

  unfoldable pub call_history_handler : ControlMsg → Ctx → Ctx
  call_history_handler m s = emit (call_history (str_of m "from") (json_of m "entries")) s

  unfoldable pub apps_request : ControlMsg → Ctx → Ctx
  apps_request m s =
      let reply = object (
        field "type" (string "apps_list") (
          field "from" (string s.identity.node_id) (
            field "apps" (or_default (h.json_from_str s.installed_apps) (array nil)) (
              field "subscribed" (array (of_strings (or_default (get s.subs (str_of m "from")) [])))
                end)))) in
      if is_empty (str_of m "from")
      then s
      else send_control_to h (str_of m "from") (h.json_to_string reply) s

  unfoldable pub subscribe_apps : ControlMsg → Ctx → Ctx
  subscribe_apps m s = if is_empty (str_of m "from") then s else record s {
    subs =
        insert s.subs (str_of m "from") (strings_of (or_default (as_array (json_of m "apps")) nil));
  }

  unfoldable pub notif_apps_handler : ControlMsg → Ctx → Ctx
  notif_apps_handler m s =
      if kind_of m == "apps_request"
      then apps_request m s
      else if kind_of m == "subscribe_apps"
      then subscribe_apps m s
      else if kind_of m == "apps_list"
      then emit (apps_list (str_of m "from") (json_of m "apps") (json_of m "subscribed")) s
      else s

  unfoldable pub p2p_ping_handler : ControlMsg → Ctx → Ctx
  p2p_ping_handler m s =
      let live = mark_live (str_of m "from") udp none s in
      let pong =
        object
          (field "type" (string "p2p_pong") (field "from" (string live.identity.node_id) end)) in
      if is_empty (str_of m "from")
      then s
      else if kind_of m == "p2p_ping"
      then send_control_to h (str_of m "from") (h.json_to_string pong) live
      else live

-- A registered handler, by the feature that it belongs to.
pub data Handler : Type 0 where
  for_clipboard for_notification for_call_notification for_call_history for_notif_apps : Handler
  for_p2p_ping : Handler

-- `kinds` of each handler.
abbrev pub clipboard_kinds : List String
clipboard_kinds = "clipboard" ∷ "clipboard_request" ∷ "clipboard_response" ∷ []

abbrev pub notification_kinds : List String
notification_kinds = "notification" ∷ []

abbrev pub call_notification_kinds : List String
call_notification_kinds = "call_notification" ∷ []

abbrev pub call_history_kinds : List String
call_history_kinds = "call_history" ∷ []

abbrev pub notif_apps_kinds : List String
notif_apps_kinds = "apps_request" ∷ "subscribe_apps" ∷ "apps_list" ∷ []

abbrev pub p2p_ping_kinds : List String
p2p_ping_kinds = "p2p_ping" ∷ "p2p_pong" ∷ []

-- The call of `kinds` on a handler.
unfoldable pub kinds : Handler → List String
kinds for_clipboard = clipboard_kinds
kinds for_notification = notification_kinds
kinds for_call_notification = call_notification_kinds
kinds for_call_history = call_history_kinds
kinds for_notif_apps = notif_apps_kinds
kinds for_p2p_ping = p2p_ping_kinds

unfoldable pub register_kinds : List String → Handler → Map String Handler → Map String Handler
register_kinds [] handler r = r
register_kinds (k ∷ ks) handler r = register_kinds ks handler (insert r k handler)

unfoldable pub register : Handler → Map String Handler → Map String Handler
unfolding kinds register_kinds
register handler r = register_kinds (kinds handler) handler r

-- Clipboard messages have a handler only where the platform has a clipboard.
unfoldable pub with_defaults : Bool → Map String Handler
unfolding register
with_defaults has_clipboard =
    let r = if has_clipboard then register for_clipboard [] else [] in
    register for_p2p_ping (
      register for_notif_apps
        (register for_call_history (register for_call_notification (register for_notification r))))

module _ (h : Host) where
  unfoldable pub handle : Handler → ControlMsg → Ctx → Ctx
  handle for_clipboard = clipboard_handler h
  handle for_notification = notification_handler h
  handle for_call_notification = call_notification_handler h
  handle for_call_history = call_history_handler h
  handle for_notif_apps = notif_apps_handler h
  handle for_p2p_ping = p2p_ping_handler h

  -- The text parsed, its kind, and the handler of that kind: what must all be there.
  unfoldable pub find_handler : Ctx → String → Option (Value × Handler)
  find_handler s text = do
    value ← h.json_from_str text
    kind ← str_field value "type"
    handler ← get (with_defaults s.has_clipboard) kind
    let found : Value × Handler = (value, handler)
    some found

  -- `true`: a recognised control message, which the caller must not show as chat.
  unfoldable pub dispatch : String → String → String → String → Ctx → Ctx × Bool
  dispatch from ip protocol text s = elim (find_handler s text) [
    | none ↦ (s, false)
    | some (value, handler) ↦ (
      handle handler (record { from = from; ip = ip; protocol = protocol; value = value }) s,
      true,
    )
  ]
