-- ===== src/Engine/Share.antt =====
-- engine.rs: what the host asks the engine to send: chat, shared notifications, app subscriptions and
-- clipboard pulls.
pub mod Subscribers
use my_domain_core.Prelude.{
  if◌then◌else◌, nat_eq, string_eq, is_some, or_default, contains, String, true, false, Option,
  none, some, List, [], ◌∷◌,
}
use my_domain_core.Prelude.Result.{Result, ok, err}
use my_domain_core.Prelude.Map.{Map, get, insert, remove}
use my_domain_core.Text.{trim, eq_ignore_ascii_case}
use my_domain_core.Model.{TransportKind, ws, udp, punch, web_rtc}
use my_domain_core.Model.Json.{null, nil, array, object, field, end, string, of_option}
use my_domain_core.Host.{Host}
use my_domain_core.Ctx.{Ctx, record_effect, next_turn, clipboard_set}
use my_domain_core.Transport.Send.{SendError, Sent, best_proto, send_payload, broadcast_control}
use my_domain_core.Features.{read_clipboard}

abbrev pub kind_name : TransportKind → String
kind_name ws = "WS"
kind_name udp = "UDP"
kind_name punch = "punch"
kind_name web_rtc = "webrtc"

-- The kind of the live link if there is one, else the protocol used.
unfoldable pub display_transport : Ctx → String → String → String
display_transport s node_id proto = elim (get s.p2p_conns node_id) [
  | none ↦ proto
  | some c ↦ kind_name c.kind
]

unfoldable pub set_directed_transport : String → Ctx → Ctx
set_directed_transport t s = record s {
  directed_transport = if eq_ignore_ascii_case (trim t) "tcp" then "TCP" else "UDP";
}

unfoldable pub set_installed_apps : String → Ctx → Ctx
set_installed_apps apps_json s = record s { installed_apps = apps_json }

unfoldable pub disable_clipboard_sync : Ctx → Ctx
disable_clipboard_sync s = record s { clip_active = false }

-- The nodes whose subscription has the package.
unfoldable pub subscribers : String → Map String (List String) → List String
subscribers pkg [] = []
subscribers pkg ((node, pkgs) ∷ subs) =
    let rest = subscribers pkg subs in if contains pkg pkgs then node ∷ rest else rest

pub data AskError : Type 0 where
  not_supported : AskError
  request_failed : SendError → AskError

abbrev Asked : Type 0
Asked = Ctx × Result AskError Unit

module _ (h : Host) where
  unfoldable pub send_control : String → String → Ctx → Sent
  send_control node_id json s = send_payload h s.identity.name node_id (best_proto s node_id) json s

  -- A chat message; the answer is the transport to report.
  unfoldable pub send : String → String → Ctx → Ctx × Result SendError String
  send node_id text s =
      let proto = best_proto s node_id in
      let (s', sent) =
        send_payload h (or_default s.username s.identity.name) node_id proto text s in
      elim sent [ err e ↦ (s', err e) | ok done ↦ (s', ok (display_transport s' node_id proto)) ]

  unfoldable pub enable_clipboard_sync : Ctx → Ctx
  enable_clipboard_sync s =
      let seen = or_default (read_clipboard h s) s.clip_last in
      next_turn (record s { clip_last = seen; clip_active = true })

  unfoldable pub share_notification : String → String → Option String → Ctx → Ctx
  share_notification title body app s =
      let message = h.json_to_string (
        object (
          field "type" (string "notification") (
            field "title" (string title) (
              field "body" (string body)
                (field "app" (of_option app) (field "from" (string s.identity.node_id) end)))))) in
      broadcast_control h message s

  unfoldable pub share_call_notification : String → Option String → String → Ctx → Ctx
  share_call_notification caller number state s =
      let message = h.json_to_string (
        object (
          field "type" (string "call_notification") (
            field "caller" (string caller) (
              field "number" (of_option number)
                (field "state" (string state) (field "from" (string s.identity.node_id) end)))))) in
      broadcast_control h message s

  unfoldable pub share_call_history : String → Ctx → Ctx
  share_call_history entries_json s =
      let message = h.json_to_string (
        object (
          field "type" (string "call_history") (
            field "entries" (or_default (h.json_from_str entries_json) null)
              (field "from" (string s.identity.node_id) end)))) in
      broadcast_control h message s

  unfoldable pub request_apps : String → Ctx → Sent
  request_apps node_id s =
      send_control node_id
        (h.json_to_string (
          object
            (field "type" (string "apps_request") (field "from" (string s.identity.node_id) end))))
        s

  unfoldable pub subscribe_apps : String → String → Ctx → Sent
  subscribe_apps node_id apps_json s =
      send_control node_id
        (h.json_to_string (
          object (
            field "type" (string "subscribe_apps") (
              field "from" (string s.identity.node_id)
                (field "apps" (or_default (h.json_from_str apps_json) (array nil)) end)))))
        s

  unfoldable pub notify_each : List String → String → Ctx → Ctx
  notify_each [] message s = s
  notify_each (n ∷ ns) message s = notify_each ns message (send_control n message s).0

  -- A local app's notification goes to the subscribers of its package.
  unfoldable pub share_app_notification : String → String → String → String → Ctx → Ctx
  share_app_notification pkg app title body s =
      let message = h.json_to_string (
        object (
          field "type" (string "notification") (
            field "from" (string s.identity.node_id) (
              field "title" (string title)
                (field "body" (string body) (field "app" (string app) end)))))) in
      notify_each (subscribers pkg s.subs) message s

  -- `get_clipboard` up to its wait: the waiter is registered, and withdrawn if the request fails.
  unfoldable pub ask_clipboard : String → Ctx → Asked
  ask_clipboard node_id s =
      let waiting = next_turn (record s { clip_pending = insert s.clip_pending node_id s.turn }) in
      let request = h.json_to_string (
        object (
          field "type" (string "clipboard_request")
            (field "from" (string s.identity.node_id) end))) in
      let (s', sent) = send_control node_id request waiting in
      let asked : Asked = elim sent [
        | ok done ↦ (s', ok tt)
        | err e ↦
            (record s' { clip_pending = remove s'.clip_pending node_id }, err (request_failed e))
      ] in
      if is_some h.clipboard then asked else (s, err not_supported)

-- The rest of it, with what the waiter was handed within 6 seconds.
unfoldable pub take_clipboard : String → Option String → Ctx → Ctx × Option String
take_clipboard node_id answer s =
    let forgotten = record s { clip_pending = remove s.clip_pending node_id } in
    elim answer [
      | none ↦ (forgotten, none)
      | some content ↦ (
        record_effect (clipboard_set content) (record forgotten { clip_last = content }),
        some content,
      )
    ]
