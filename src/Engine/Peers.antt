-- ===== src/Engine/Peers.antt =====
-- engine.rs: the table of known devices: what the registry lists, what the user adds and removes.
pub mod Table
use my_domain_core.Prelude.{
  if◌then◌else◌, nat_eq, string_eq, ◌==◌, is_some, ℕ, String, Bool, true, false, not, ◌&&◌, Option,
  none, some, List, [], ◌∷◌,
}
use my_domain_core.Prelude.Result.{ok, err}
use my_domain_core.Prelude.Map.{Map, insert, remove, retain, values}
use Prim.Native.String.{◌++◌ as append}
use my_domain_core.Text.{trim, is_empty, parse_ipv4, show_ipv4}
use my_domain_core.Model.{Peer, Source, registry, lan, manual, RegistryDevice, peers_updated}
use my_domain_core.Host.{Host}
use my_domain_core.Ctx.{Ctx, emit, next_turn}
use my_domain_core.Registry.{registry_register, registry_fetch}
use my_domain_core.Engine.Session.{Done, refused, registry_failed}

unfoldable pub emit_peers : Ctx → Ctx
emit_peers s = emit (peers_updated (values s.peers)) s

abbrev pub is_registry : Source → Bool
is_registry registry = true
is_registry _ = false

abbrev pub peer_of : RegistryDevice → Peer
peer_of d = record {
  node_id = d.node_id;
  name = d.name;
  ip = d.ip;
  tcp_port = d.tcp_port;
  udp_port = d.udp_port;
  ws_port = d.ws_port;
  source = registry;
  ws_open = d.ws_open;
  inbound_blocked = d.inbound_blocked;
  reflexive_ip = d.reflexive_ip;
  reflexive_udp_port = d.reflexive_udp_port;
}

unfoldable pub insert_devices : List RegistryDevice → Map String Peer → Map String Peer
insert_devices [] m = m
insert_devices (d ∷ ds) m = insert_devices ds (insert m d.node_id (peer_of d))

-- The registry's peers of before leave the table, those of now enter it.
unfoldable pub apply_registry_peers : List RegistryDevice → Ctx → Ctx
apply_registry_peers devices s = emit_peers (record s {
  peers = insert_devices devices (retain (λ id p. not (is_registry p.source)) s.peers);
})

unfoldable pub add_manual_peer : String → String → ℕ → ℕ → ℕ → Ctx → Done
add_manual_peer name ip tcp_port udp_port ws_port s = elim (parse_ipv4 (trim ip)) [
  | none ↦ (s, err (refused (append "invalid IPv4: " ip)))
  | some addr ↦ (
    emit_peers (record s {
      peers = insert s.peers (append "manual:" (show_ipv4 addr)) (record {
        node_id = append "manual:" (show_ipv4 addr);
        name = if is_empty (trim name) then show_ipv4 addr else trim name;
        ip = show_ipv4 addr;
        tcp_port = tcp_port;
        udp_port = udp_port;
        ws_port = ws_port;
        source = manual;
        ws_open = false;
        inbound_blocked = false;
        reflexive_ip = none;
        reflexive_udp_port = none;
      });
    }),
    ok tt,
  )
]

unfoldable pub remove_peer : String → Ctx → Ctx
remove_peer node_id s = emit_peers (record s { peers = remove s.peers node_id })

-- `same_lan`: a peer found on the LAN, or an address in the same /24.
unfoldable pub same_lan : Ctx → Peer → Bool
same_lan s peer =
    let same_subnet : Bool = elim (parse_ipv4 s.identity.ip) [
      | none ↦ false
      | some a ↦ elim (parse_ipv4 peer.ip) [
        | none ↦ false
        | some b ↦ a.o0 == b.o0 && a.o1 == b.o1 && a.o2 == b.o2
      ]
    ] in
    elim peer.source [ lan ↦ true | registry ↦ same_subnet | manual ↦ same_subnet ]

module _ (h : Host) where
  -- The registration and the fetch are one request each; the peers change only if both succeed.
  unfoldable pub refresh_with : String → String → Ctx → Done
  refresh_with url token s =
      let s1 = next_turn s in
      let s2 = next_turn s1 in
      elim (registry_register h s.turn url token s.identity (h.fcm_token s.turn) h.platform_kind
        false) [
          | err e ↦ (s1, err (registry_failed e))
          | ok done ↦ elim (registry_fetch h s1.turn url token s.identity.node_id) [
            | err e ↦ (s2, err (registry_failed e))
            | ok devices ↦ (apply_registry_peers devices s2, ok tt)
          ]
        ]

  unfoldable pub refresh_from_server : Ctx → Done
  refresh_from_server s = elim s.server_url [
    | none ↦ (s, err (refused "not logged in"))
    | some url ↦ elim s.token [
      | none ↦ (s, err (refused "not logged in"))
      | some token ↦ refresh_with url token s
    ]
  ]

  -- The new address, if it is one; else the platform's.
  unfoldable pub new_address : Option String → Ctx → String
  new_address none s = h.local_ip s.turn
  new_address (some ip) s = if is_some (parse_ipv4 ip) then ip else h.local_ip s.turn

  unfoldable pub network_changed : Option String → Ctx → Ctx
  network_changed new_ip s =
      let moved =
        next_turn (record s { identity = record s.identity { ip = new_address new_ip s } }) in
      if is_some s.token then (refresh_from_server moved).0 else moved
