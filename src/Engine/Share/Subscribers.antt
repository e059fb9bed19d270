-- ===== src/Engine/Share/Subscribers.antt =====
-- engine.rs and features/notif_apps.rs: who gets an app's notifications.
use my_domain_core.Prelude.{
  Bool-cases, nat_eq, string_eq, contains, String, ◌≡◌, refl, inl, inr, Bool, false, Option, none,
  some, List, [], ◌∷◌, arith,
}
use my_domain_core.Prelude.Map.{Map, get, IsUnique}
use text.Mathlib.TextEquality.{eq_iff}
use my_domain_core.Model.Json.{object, field, end, string}
use my_domain_core.Host.{Host}
use my_domain_core.Ctx.{Ctx}
use my_domain_core.Engine.Share.{subscribers, send_control, notify_each, share_app_notification}

abbrev pub is_subscribed : String → Option (List String) → Bool
is_subscribed pkg none = false
is_subscribed pkg (some pkgs) = contains pkg pkgs

subscribers-absent :
    (pkg node : String) (subs : Map String (List String))
    → get subs node ≡ none
    → contains node (subscribers pkg subs) ≡ false
unfolding subscribers get
subscribers-absent pkg node [] e = refl
subscribers-absent pkg node ((j, pkgs) ∷ subs) e =
    ground (arith, subscribers-absent pkg node subs, e)

subscribers-mem :
    (pkg node : String) (subs : Map String (List String))
    → IsUnique subs
    → contains node (subscribers pkg subs) ≡ is_subscribed pkg (get subs node)
unfolding subscribers get
subscribers-mem pkg node [] u = refl
subscribers-mem pkg node ((j, pkgs) ∷ subs) u =
    ground (
      arith,
      subscribers-mem pkg node subs u.1,
      subscribers-absent pkg node subs,
      u.0,
      eq_iff j node,
    )

-- No node twice.
abbrev pub IsNodup : List String → Type 0
IsNodup [] = Unit
IsNodup (x ∷ xs) = (contains x xs ≡ false) × IsNodup xs

subscribers-IsNodup :
    (pkg : String) (subs : Map String (List String))
    → IsUnique subs
    → IsNodup (subscribers pkg subs)
unfolding subscribers
subscribers-IsNodup pkg [] u = tt
subscribers-IsNodup pkg ((j, pkgs) ∷ subs) u = elim (Bool-cases (contains pkg pkgs)) [
  | inl has ↦
      rw (has, subscribers) (subscribers-absent pkg j subs u.0, subscribers-IsNodup pkg subs u.1)
  | inr other ↦ rw (other, subscribers) (subscribers-IsNodup pkg subs u.1)
]

module _ (h : Host) where
  -- One control message sent to each of some nodes, in their order, and nothing else done.
  pub data SendsTo (message : String) : List String → Ctx → Ctx → Type 0 where
    sent_all : (s : Ctx) → SendsTo message [] s s
    sent_to :
        (node : String) (nodes : List String) (s t : Ctx)
        → SendsTo message nodes (send_control h node message s).0 t
        → SendsTo message (node ∷ nodes) s t

  notify_each-SendsTo :
      (nodes : List String) (message : String) (s : Ctx)
      → SendsTo message nodes s (notify_each h nodes message s)
  unfolding notify_each
  notify_each-SendsTo [] message s = SendsTo.sent_all s
  notify_each-SendsTo (n ∷ ns) message s =
      SendsTo.sent_to n ns s (notify_each h (n ∷ ns) message s)
        (notify_each-SendsTo ns message (send_control h n message s).0)

  -- The notification of an app, from the device, as the receivers read it.
  abbrev pub notification_text : String → String → String → Ctx → String
  notification_text app title body s = h.json_to_string (
      object (
        field "type" (string "notification") (
          field "from" (string s.identity.node_id) (
            field "title" (string title)
              (field "body" (string body) (field "app" (string app) end))))))

  -- Sharing an app's notification sends one message, this notification, to some nodes, each of them
  -- once, and does nothing else; and a node is one of them exactly if its subscription, the last one
  -- that it sent, has the app's package. The keys of the subscriptions are distinct, as in a hash map.
  pub share_app_notification_lem :
      (pkg app title body : String) (s : Ctx)
      → IsUnique s.subs
      → (nodes : List String) × SendsTo
          (notification_text app title body s)
          nodes
          s
          (share_app_notification h pkg app title body s)
        × IsNodup nodes
        × ((node : String) → contains node nodes ≡ is_subscribed pkg (get s.subs node))
  unfolding share_app_notification
  share_app_notification_lem pkg app title body s u = (
    subscribers pkg s.subs,
    notify_each-SendsTo (subscribers pkg s.subs) (notification_text app title body s) s,
    subscribers-IsNodup pkg s.subs u,
    λ node. subscribers-mem pkg node s.subs u,
  )
