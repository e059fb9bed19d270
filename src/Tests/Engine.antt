-- ===== src/Tests/Engine.antt =====
-- The tests of engine.rs, registry.rs and discovery.rs.
use my_domain_core.Prelude.{
  if◌then◌else◌, nat_eq, string_eq, replicate, contains, ℕ, String, ◌==◌, ◌≡◌, ◌≢◌, refl, true,
  false, none, some, List, [], ◌∷◌,
}
use my_domain_core.Prelude.Result.{ok, err, is_ok}
use my_domain_core.Prelude.Map.{Map, get, IsUnique}
use my_domain_core.Text.{trim, trim_start, trim_end_by, is_whitespace}
use my_domain_core.Net.{ipv4}
use my_domain_core.Model.{udp, ws, RegistryDevice, all, single}
use my_domain_core.Host.{Host, SocketCall, response}
use my_domain_core.Crypto.{derive_key}
use my_domain_core.Ctx.{Ctx, now_secs}
use my_domain_core.Registry.{auth_call, body_of, verify_password_call, post, verify_outcome}
use my_domain_core.Registry.Base.{base}
use my_domain_core.Discovery.{discovery_recv_loop}
use my_domain_core.Discovery.Own.{discovery-own}
use my_domain_core.Transport.Live.{is_live}
use my_domain_core.Discovery.Bind.{bind_multicast}
use my_domain_core.Discovery.Bind.Joins.{is_join, bind_multicast_joins}
use my_domain_core.Engine.Session.{
  is_ready, do_auth, dev_login, set_encryption_key, update_encryption_key, store_key, replace_key,
}
use my_domain_core.Engine.Session.Stale.{do_auth_stale}
use my_domain_core.Engine.Session.Key.{
  KeepsOnRefusal, refusal_keeps, update_encryption_key_verified,
}
use my_domain_core.Engine.Peers.{apply_registry_peers, peer_of}
use my_domain_core.Engine.Peers.Table.{merged, listed, get-apply_registry_peers}
use my_domain_core.Engine.Watch.{heartbeat, is_stale}
use my_domain_core.Engine.Watch.Heartbeat.{still_live, is_live-heartbeat}
use my_domain_core.Engine.Share.{share_app_notification}
use my_domain_core.Engine.Share.Subscribers.{
  is_subscribed, IsNodup, SendsTo, notification_text, share_app_notification_lem,
}
use my_domain_core.Tests.Devices.{device, world}

-- A pasted endpoint, with blanks around it; and a host without a scheme.
base_endpoint : base " https://a.b:8443/auth/login?x=1/ " ≡ "https://a.b:8443"
unfolding base trim_end_by trim
base_endpoint = refl

base_host : base "a.b:80/" ≡ "a.b:80"
unfolding base trim_end_by trim
base_host = refl

-- A stale UDP link, and a WebSocket link that has been silent for longer.
abbrev beating : Ctx
beating = record device {
  p2p_conns =
      ("a", record { kind = udp; last_seen = 80; addr = none })
      ∷ ("b", record { kind = ws; last_seen = 1; addr = none })
      ∷ [];
}

beating-IsUnique : IsUnique beating.p2p_conns
unfolding get
beating-IsUnique = (refl, (refl, tt))

is_live-heartbeat_example :
    is_live (heartbeat world beating) "a" ≡ still_live 100 (get beating.p2p_conns "a")
unfolding now_secs
is_live-heartbeat_example = is_live-heartbeat world beating "a" beating-IsUnique

evicts_a : still_live 100 (get beating.p2p_conns "a") ≡ false
unfolding get is_stale
evicts_a = refl

keeps_b : still_live 100 (get beating.p2p_conns "b") ≡ true
unfolding get is_stale
keeps_b = refl

abbrev listing : RegistryDevice
listing = record {
  node_id = "a";
  name = "A";
  ip = "10.0.0.5";
  tcp_port = 1;
  udp_port = 2;
  ws_port = 3;
  ws_open = true;
  inbound_blocked = false;
  reflexive_ip = none;
  reflexive_udp_port = none;
}

-- "a" is listed again, "b" was listed before and is not now.
abbrev fetched : Ctx
fetched = record device { peers = ("a", peer_of listing) ∷ ("b", peer_of listing) ∷ [] }

fetched-IsUnique : IsUnique fetched.peers
unfolding get
fetched-IsUnique = (refl, (refl, tt))

get-apply_registry_peers_example :
    get (apply_registry_peers (listing ∷ []) fetched).peers "b"
    ≡ merged (listed (listing ∷ []) "b") (get fetched.peers "b")
get-apply_registry_peers_example =
    get-apply_registry_peers (listing ∷ []) fetched "b" fetched-IsUnique

drops_b : merged (listed (listing ∷ []) "b") (get fetched.peers "b") ≡ none
unfolding get
drops_b = refl

abbrev subs : Map String (List String)
subs = ("a", "mail" ∷ "chat" ∷ []) ∷ ("b", "mail" ∷ []) ∷ []

abbrev subscribed : Ctx
subscribed = record device { subs = subs }

subs-IsUnique : IsUnique subscribed.subs
unfolding get
subs-IsUnique = (refl, (refl, tt))

share_app_notification_lem_example :
    (nodes : List String) × SendsTo world
      (notification_text world "Chat" "ann" "hi" subscribed)
      nodes
      subscribed
      (share_app_notification world "chat" "Chat" "ann" "hi" subscribed)
    × IsNodup nodes
    × ((node : String) → contains node nodes ≡ is_subscribed "chat" (get subs node))
share_app_notification_lem_example =
    share_app_notification_lem world "chat" "Chat" "ann" "hi" subscribed subs-IsUnique

refusal_keeps_example :
    KeepsOnRefusal device (do_auth world "/auth/login" "http://a" "ann" "pw" device)
    × KeepsOnRefusal device (dev_login world "ann" " " device)
    × KeepsOnRefusal device (set_encryption_key world " " device)
    × KeepsOnRefusal device (update_encryption_key world " " "pw" device)
refusal_keeps_example = refusal_keeps world "/auth/login" "http://a" "ann" "pw" " " device

-- The same world with a server that answers.
abbrev online : Host
online = record world { http = λ turn r. response "{}" }

abbrev logged_in : Ctx
logged_in = record device { username = some "ann"; server_url = some "http://a" }

updates : is_ok (update_encryption_key online "secret" "pw" logged_in).1 ≡ true
unfolding update_encryption_key replace_key store_key verify_password_call verify_outcome post trim
    trim_start trim_end_by is_whitespace derive_key base
updates = refl

update_encryption_key_verified_example :
    (username : String) × (url : String) × (key : List ℕ) × (some "ann" ≡ some username)
    × (some "http://a" ≡ some url)
    × (verify_password_call online 0 url username "pw" ≡ ok true)
    × (derive_key online "secret" username ≡ some key)
    × ((update_encryption_key online "secret" "pw" logged_in).0.key ≡ some key)
update_encryption_key_verified_example =
    update_encryption_key_verified online "secret" "pw" logged_in updates

-- Ann sets a key; then Bob logs in.
abbrev granting : Host
granting = record online {
  token_from_body = λ b. some (record { token = "t"; username = "bob" });
  argon2 = λ passphrase salt. some (replicate 32 (if salt == "my-domain-e2ee:ann" then 0 else 1));
}

abbrev anns : Ctx
anns = record device { username = some "ann" }

abbrev keyed : Ctx
keyed = (set_encryption_key granting "secret" anns).0

ann_sets : is_ok (set_encryption_key granting "secret" anns).1 ≡ true
unfolding set_encryption_key store_key derive_key trim trim_start trim_end_by is_whitespace
ann_sets = refl

bob_granted :
    auth_call granting keyed.turn "http://a" "/auth/login" (trim "bob") "pw"
    ≡ ok (record { token = "t"; username = "bob" })
unfolding auth_call body_of post base trim trim_start trim_end_by is_whitespace
bob_granted = refl

bob_logs_in : is_ok (do_auth granting "/auth/login" "http://a" "bob" "pw" keyed).1 ≡ true
unfolding do_auth auth_call body_of post base trim trim_start trim_end_by is_whitespace
bob_logs_in = refl

bobs_differs : derive_key granting "secret" "bob" ≢ derive_key granting "secret" "ann"
unfolding derive_key
bobs_differs e = cc

do_auth_stale_example :
    ((do_auth granting "/auth/login" "http://a" "bob" "pw" keyed).0.username ≡ some "bob")
    × (is_ready (do_auth granting "/auth/login" "http://a" "bob" "pw" keyed).0 ≡ true)
    × ((do_auth granting "/auth/login" "http://a" "bob" "pw" keyed).0.key
        ≡ derive_key granting "secret" "ann")
    × ((do_auth granting "/auth/login" "http://a" "bob" "pw" keyed).0.key
        ≢ derive_key granting "secret" "bob")
do_auth_stale_example =
    do_auth_stale granting "secret" "ann" "/auth/login" "http://a" "bob" "pw"
      (record { token = "t"; username = "bob" }) anns refl ann_sets bob_granted bob_logs_in
      bobs_differs

-- A beacon of the device itself, and a datagram that cannot be read.
abbrev beacons : Host
beacons = record world {
  beacon_from_slice = λ b. some (record {
    node_id = "n1";
    name = "One";
    tcp_port = 1;
    udp_port = 2;
    ws_port = 3;
    reply = false;
  });
}

discovery-own_example :
    get (discovery_recv_loop beacons (some (1 ∷ [], ipv4 10 0 0 1) ∷ none ∷ []) device).peers "n1"
    ≡ get device.peers "n1"
discovery-own_example = discovery-own beacons (some (1 ∷ [], ipv4 10 0 0 1) ∷ none ∷ []) device

-- A system that joins no group.
abbrev isolated : Host
isolated = record world {
  socket_call = λ turn done c. if is_join c then some "no such device" else none;
}

isolated_works :
    (done : List SocketCall) (c : SocketCall)
    → is_join c ≡ false
    → isolated.socket_call 6 done c ≡ none
isolated_works done c e = rw e refl

bind_multicast_joins_example :
    ((done : List SocketCall) × (bind_multicast isolated 6
          (all (ipv4 10 0 0 1 ∷ ipv4 10 0 0 2 ∷ []))
        ≡ ok done))
    × (bind_multicast isolated 6 (single (ipv4 10 0 0 1)) ≡ err "no such device")
bind_multicast_joins_example =
    bind_multicast_joins isolated 6 (ipv4 10 0 0 1 ∷ ipv4 10 0 0 2 ∷ []) (ipv4 10 0 0 1)
      "no such device" isolated_works refl
