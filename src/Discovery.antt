-- ===== src/Discovery.antt =====
-- discovery.rs: whom an announce goes to, the beacons, and the loop that takes them. The sockets
-- are the system's; a beacon's bytes are serde's.
pub mod Bind
pub mod Own
pub mod Meet
use my_domain_core.Prelude.{
  if◌then◌else◌, nat_eq, string_eq, ◌==◌, take, ℕ, zero, suc, ◌+◌, Bool, true, false, ◌&&◌, ◌||◌,
  Option, none, some, List, [], ◌∷◌, ◌++◌,
}
use my_domain_core.Prelude.Map.{insert, values}
use my_domain_core.Net.{Ipv4Addr, ipv4, SocketAddr}
use my_domain_core.Text.{show_ipv4}
use my_domain_core.Model.{Identity, Beacon, Peer, lan, peers_updated, IfaceMode, all, single}
use my_domain_core.Host.{Host}
use my_domain_core.Ctx.{Ctx, emit, record_effect, beacon_sent}

abbrev pub mcast_group : Ipv4Addr
mcast_group = ipv4 239 255 42 98

abbrev pub discovery_port : ℕ
discovery_port = 45678

abbrev pub discovery_at : Ipv4Addr → SocketAddr
discovery_at a = record { ip = a; port = discovery_port }

-- `IfaceMode::All { v4_addrs }` and `IfaceMode::Single(ip)`
abbrev pub addresses_of : IfaceMode → List Ipv4Addr
addresses_of (all addrs) = addrs
addresses_of (single a) = a ∷ []

-- The `n` hosts from `host` on, without `own`.
unfoldable pub hosts_from : ℕ → ℕ → Ipv4Addr → List SocketAddr
hosts_from zero host a = []
hosts_from (suc n) host a =
    let rest = hosts_from n (host + 1) a in
    if host == a.o3 then rest else discovery_at (ipv4 a.o0 a.o1 a.o2 host) ∷ rest

-- The subnet's broadcast address and every other host of its /24.
unfoldable pub subnet_targets : Ipv4Addr → List SocketAddr
unfolding hosts_from
subnet_targets a =
    if a.o0 == 127 || (a.o0 == 0 && a.o1 == 0 && a.o2 == 0 && a.o3 == 0)
    then []
    else discovery_at (ipv4 a.o0 a.o1 a.o2 255) ∷ hosts_from 254 1 a

unfoldable pub sweep : List Ipv4Addr → List SocketAddr
sweep [] = []
sweep (a ∷ as') = subnet_targets a ++ sweep as'

unfoldable pub lan_targets : IfaceMode → List SocketAddr
unfolding sweep
lan_targets mode =
    discovery_at mcast_group ∷ discovery_at (ipv4 255 255 255 255) ∷ sweep (addresses_of mode)

unfoldable pub send_each : List ℕ → List SocketAddr → Ctx → Ctx
send_each payload [] s = s
send_each payload (dst ∷ to) s = send_each payload to (record_effect (beacon_sent dst payload) s)

-- A peer as a beacon describes it; its address is the sender's.
abbrev pub lan_peer : Beacon → Ipv4Addr → Peer
lan_peer b from = record {
  node_id = b.node_id;
  name = b.name;
  ip = show_ipv4 from;
  tcp_port = b.tcp_port;
  udp_port = b.udp_port;
  ws_port = b.ws_port;
  source = lan;
  ws_open = false;
  inbound_blocked = false;
  reflexive_ip = none;
  reflexive_udp_port = none;
}

module _ (h : Host) where
  unfoldable pub send_beacon : Identity → Bool → List SocketAddr → Ctx → Ctx
  send_beacon id reply to s =
      let beacon : Beacon = record {
        node_id = id.node_id;
        name = id.name;
        tcp_port = id.tcp_port;
        udp_port = id.udp_port;
        ws_port = id.ws_port;
        reply = reply;
      } in
      elim (h.beacon_to_vec beacon) [ none ↦ s | some payload ↦ send_each payload to s ]

  -- A beacon of another node: the peer is recorded, and an announce (but no reply) is answered once.
  unfoldable pub take_beacon : Beacon → Ipv4Addr → Ctx → Ctx
  take_beacon b from s =
      let known = record s { peers = insert s.peers b.node_id (lan_peer b from) } in
      let told = emit (peers_updated (values known.peers)) known in
      if b.node_id == s.identity.node_id
      then s
      else if b.reply
      then told
      else send_beacon told.identity true (discovery_at from ∷ []) told

  -- One datagram; the buffer keeps 2048 bytes of it.
  unfoldable pub discovery_recv : List ℕ → Ipv4Addr → Ctx → Ctx
  discovery_recv bytes from s = elim (h.beacon_from_slice (take 2048 bytes)) [
    | none ↦ s
    | some b ↦ take_beacon b from s
  ]

  -- The loop over what arrives; `none` is a read that failed.
  unfoldable pub discovery_recv_loop : List (Option (List ℕ × Ipv4Addr)) → Ctx → Ctx
  discovery_recv_loop [] s = s
  discovery_recv_loop (none ∷ as') s = discovery_recv_loop as' s
  discovery_recv_loop (some (bytes, from) ∷ as') s =
      discovery_recv_loop as' (discovery_recv bytes from s)
