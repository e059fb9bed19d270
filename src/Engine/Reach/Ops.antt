-- ===== src/Engine/Reach/Ops.antt =====
-- engine.rs: the operations of the engine that are not about links, against the live registry.
use my_domain_core.Prelude.{
  if◌then◌else◌, Bool-cases, nat_eq, string_eq, ◌==◌, is_some, or_default, ℕ, String, refl, inl,
  inr, Bool, true, false, ◌||◌, Option, none, some, List, [], ◌∷◌, arith,
}
use my_domain_core.Prelude.Result.{Result-cases}
use my_domain_core.Text.{is_empty}
use my_domain_core.Prelude.Map.{insert}
use my_domain_core.Model.Json.{object, field, end, string}
use my_domain_core.Host.{Host}
use my_domain_core.Ctx.{Ctx, emit, record_effect, next_turn}
use my_domain_core.Transport.Live.Events.{link_events}
use my_domain_core.Transport.Live.Evolves.{IsUnseen, IsDim, IsDim-refl, IsDim-trans}
use my_domain_core.Transport.Send.{best_proto, send_payload}
use my_domain_core.Transport.Send.Quiet.{
  Quiet, Quiet-refl, Quiet-trans, Quiet-IsDim, send_payload-Quiet, broadcast_control-Quiet,
  next_turn-Quiet,
}
use my_domain_core.Features.{read_clipboard}
use my_domain_core.Engine.Session.{
  open_session, logout, do_auth, store_key, dev_login, set_encryption_key, replace_key,
  update_encryption_key,
}
use my_domain_core.Engine.Peers.{
  emit_peers, apply_registry_peers, add_manual_peer, remove_peer, refresh_with, refresh_from_server,
  network_changed,
}
use my_domain_core.Engine.Share.{
  send_control, send, enable_clipboard_sync, notify_each, share_app_notification, ask_clipboard,
  take_clipboard,
}
use my_domain_core.Engine.Watch.{share_clip, watch_clipboard, watch_network}

pub do_auth-IsUnseen :
    (h : Host) (path url user password : String) (s : Ctx)
    → IsUnseen s (do_auth h path url user password s).0
unfolding do_auth open_session record_effect next_turn link_events
do_auth-IsUnseen h path url user password s = ground arith

pub dev_login-IsUnseen :
    (h : Host) (user passphrase : String) (s : Ctx) → IsUnseen s (dev_login h user passphrase s).0
unfolding dev_login
dev_login-IsUnseen h user passphrase s = ground arith

pub set_encryption_key-IsUnseen :
    (h : Host) (passphrase : String) (s : Ctx) → IsUnseen s (set_encryption_key h passphrase s).0
unfolding set_encryption_key store_key
set_encryption_key-IsUnseen h passphrase s = ground arith

pub update_encryption_key-IsUnseen :
    (h : Host) (passphrase password : String) (s : Ctx)
    → IsUnseen s (update_encryption_key h passphrase password s).0
unfolding update_encryption_key replace_key store_key next_turn
update_encryption_key-IsUnseen h passphrase password s = ground arith

pub logout-IsUnseen : (s : Ctx) → IsUnseen s (logout s)
unfolding logout
logout-IsUnseen s = record { live = refl; told = refl }

pub refresh_from_server-IsDim : (h : Host) (s : Ctx) → IsDim s (refresh_from_server h s).0
unfolding refresh_from_server refresh_with apply_registry_peers emit_peers emit record_effect
    next_turn link_events
refresh_from_server-IsDim h s = ground arith

pub network_changed-IsDim :
    (h : Host) (ip : Option String) (s : Ctx) → IsDim s (network_changed h ip s)
unfolding network_changed next_turn
network_changed-IsDim h ip s = grind (arith, refresh_from_server-IsDim)

pub add_manual_peer-IsDim :
    (name ip : String) (a b c : ℕ) (s : Ctx) → IsDim s (add_manual_peer name ip a b c s).0
unfolding add_manual_peer emit_peers emit record_effect link_events
add_manual_peer-IsDim name ip a b c s = ground arith

pub remove_peer-IsDim : (node_id : String) (s : Ctx) → IsDim s (remove_peer node_id s)
unfolding remove_peer emit_peers emit record_effect link_events
remove_peer-IsDim node_id s = record { live = refl; told = refl; session = refl }

pub send_control-Quiet :
    (h : Host) (node_id json : String) (s : Ctx) → Quiet s (send_control h node_id json s).0
unfolding send_control
send_control-Quiet h node_id json s =
    send_payload-Quiet h s.identity.name node_id (best_proto s node_id) json s

pub send-Quiet : (h : Host) (node_id text : String) (s : Ctx) → Quiet s (send h node_id text s).0
unfolding send
send-Quiet h node_id text s =
    let proto = best_proto s node_id in
    let from : String = or_default s.username s.identity.name in
    let sent = send_payload-Quiet h from node_id proto text s in
    elim (Result-cases (send_payload h from node_id proto text s).1) [
      | inl (why, e) ↦ rw (e, send) sent
      | inr (done, e) ↦ rw (e, send) sent
    ]

pub notify_each-Quiet :
    (h : Host) (ns : List String) (m : String) (s : Ctx) → Quiet s (notify_each h ns m s)
unfolding notify_each
notify_each-Quiet h [] m s = Quiet-refl s
notify_each-Quiet h (n ∷ ns) m s =
    Quiet-trans (send_control-Quiet h n m s) (notify_each-Quiet h ns m _)

pub share_app_notification-Quiet :
    (h : Host) (pkg app title body : String) (s : Ctx)
    → Quiet s (share_app_notification h pkg app title body s)
unfolding share_app_notification
share_app_notification-Quiet h pkg app title body s = notify_each-Quiet h _ _ s

pub enable_clipboard_sync-IsDim : (h : Host) (s : Ctx) → IsDim s (enable_clipboard_sync h s)
unfolding enable_clipboard_sync next_turn
enable_clipboard_sync-IsDim h s = record { live = refl; told = refl; session = refl }

pub ask_clipboard-IsDim :
    (h : Host) (node_id : String) (s : Ctx) → IsDim s (ask_clipboard h node_id s).0
unfolding ask_clipboard next_turn
ask_clipboard-IsDim h node_id s = elim (Bool-cases (is_some h.clipboard)) [
  | inr lacks ↦ rw (lacks, ask_clipboard) (IsDim-refl s)
  | inl has ↦
      let waiting = next_turn (record s { clip_pending = insert s.clip_pending node_id s.turn }) in
      let request = h.json_to_string (
        object (
          field "type" (string "clipboard_request")
            (field "from" (string s.identity.node_id) end))) in
      let sent = Quiet-IsDim (send_control-Quiet h node_id request waiting) in
      elim (Result-cases (send_control h node_id request waiting).1) [
        | inl (why, e) ↦
            rw (has, e, ask_clipboard)
              (record { live = sent.live; told = sent.told; session = sent.session })
        | inr (done, e) ↦
            rw (has, e, ask_clipboard)
              (record { live = sent.live; told = sent.told; session = sent.session })
      ]
]

pub take_clipboard-IsDim :
    (node_id : String) (answer : Option String) (s : Ctx)
    → IsDim s (take_clipboard node_id answer s).0
unfolding take_clipboard record_effect link_events
take_clipboard-IsDim node_id answer s = ground arith

share_clip-IsDim : (h : Host) (cur : String) (s : Ctx) → IsDim s (share_clip h cur s)
unfolding share_clip
share_clip-IsDim h cur s = elim (Bool-cases (is_empty cur || s.clip_last == cur)) [
  | inl known ↦ rw (known, share_clip) (IsDim-refl s)
  | inr news ↦
      rw (news, share_clip)
        (let sent = broadcast_control-Quiet h _ (record s { clip_last = cur }) in
          record { live = sent.live; told = sent.told; session = sent.session })
]

IsDim-if : (b : Bool) (s t u : Ctx) → IsDim s t → IsDim s u → IsDim s (if b then t else u)
IsDim-if true s t u p q = p
IsDim-if false s t u p q = q

-- What the watcher does with what it reads.
read-IsDim :
    (h : Host) (read : Option String) (s : Ctx)
    → IsDim s (elim read [ none ↦ next_turn s | some cur ↦ share_clip h cur (next_turn s) ])
read-IsDim h none s = Quiet-IsDim (next_turn-Quiet s)
read-IsDim h (some cur) s =
    IsDim-trans (Quiet-IsDim (next_turn-Quiet s)) (share_clip-IsDim h cur (next_turn s))

pub watch_clipboard-IsDim : (h : Host) (s : Ctx) → IsDim s (watch_clipboard h s)
unfolding watch_clipboard
watch_clipboard-IsDim h s =
    IsDim-if s.clip_active s _ _ (read-IsDim h (read_clipboard h s) s) (IsDim-refl s)

pub watch_network-IsDim : (h : Host) (s : Ctx) → IsDim s (watch_network h s)
unfolding watch_network next_turn
watch_network-IsDim h s = ground arith
