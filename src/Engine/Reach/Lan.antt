-- ===== src/Engine/Reach/Lan.antt =====
-- engine.rs and discovery.rs: beacons against the live registry.
use my_domain_core.Prelude.{
  Bool-cases, Option-cases, nat_eq, string_eq, ◌==◌, take, ℕ, String, refl, inl, inr, Bool, true,
  false, List, [], ◌∷◌, arith,
}
use my_domain_core.Prelude.Map.{Map, insert, values}
use my_domain_core.Net.{Ipv4Addr}
use my_domain_core.Model.{Beacon, Identity, Peer, peers_updated}
use my_domain_core.Net.{SocketAddr}
use my_domain_core.Host.{Host}
use my_domain_core.Ctx.{Ctx, beacon_sent, emit, record_effect}
use my_domain_core.Transport.Live.Events.{link_events}
use my_domain_core.Transport.Live.Evolves.{IsDim, IsDim-refl, IsDim-trans}
use my_domain_core.Transport.Send.Quiet.{
  Quiet, Quiet-refl, Quiet-trans, Quiet-IsDim, next_turn-Quiet, record_effect-Quiet,
}
use my_domain_core.Discovery.{
  lan_targets, lan_peer, send_each, send_beacon, take_beacon, discovery_recv,
}
use my_domain_core.Engine.Start.{scan_lan}

beacon-Quiet : (a : SocketAddr) (b : List ℕ) (s : Ctx) → Quiet s (record_effect (beacon_sent a b) s)
unfolding link_events
beacon-Quiet a b s = record_effect-Quiet (beacon_sent a b) s (λ trace. refl)

send_each-Quiet :
    (payload : List ℕ) (to : List SocketAddr) (s : Ctx) → Quiet s (send_each payload to s)
unfolding send_each
send_each-Quiet payload [] s = Quiet-refl s
send_each-Quiet payload (a ∷ as') s =
    Quiet-trans (beacon-Quiet a payload s) (send_each-Quiet payload as' _)

pub send_beacon-Quiet :
    (h : Host) (id : Identity) (reply : Bool) (to : List SocketAddr) (s : Ctx)
    → Quiet s (send_beacon h id reply to s)
unfolding send_beacon
send_beacon-Quiet h id reply to s = grind (arith, send_each-Quiet, Quiet-refl)

-- The table of peers, and the event that tells of it.
known-IsDim :
    (m : Map String Peer) (s : Ctx)
    → IsDim s (emit (peers_updated (values m)) (record s { peers = m }))
unfolding emit record_effect link_events
known-IsDim m s = record { live = refl; told = refl; session = refl }

take_beacon-IsDim :
    (h : Host) (b : Beacon) (from : Ipv4Addr) (s : Ctx) → IsDim s (take_beacon h b from s)
unfolding take_beacon
take_beacon-IsDim h b from s =
    let told = known-IsDim (insert s.peers b.node_id (lan_peer b from)) s in
    elim (Bool-cases (b.node_id == s.identity.node_id)) [
      | inl own ↦ rw (own, take_beacon) (IsDim-refl s)
      | inr other ↦ elim (Bool-cases b.reply) [
        | inl reply ↦ rw (other, reply, take_beacon) told
        | inr announce ↦
            rw (other, announce, take_beacon)
              (IsDim-trans told (Quiet-IsDim (send_beacon-Quiet h _ true _ _)))
      ]
    ]

pub discovery_recv-IsDim :
    (h : Host) (bytes : List ℕ) (from : Ipv4Addr) (s : Ctx)
    → IsDim s (discovery_recv h bytes from s)
unfolding discovery_recv
discovery_recv-IsDim h bytes from s = elim (Option-cases (h.beacon_from_slice (take 2048 bytes))) [
  | inl noise ↦ rw (noise, discovery_recv) (IsDim-refl s)
  | inr (b, e) ↦ rw (e, discovery_recv) (take_beacon-IsDim h b from s)
]

pub scan_lan-Quiet : (h : Host) (s : Ctx) → Quiet s (scan_lan h s)
unfolding scan_lan
scan_lan-Quiet h s =
    let beacon : (t : Ctx)
        → Quiet t (send_beacon h s.identity false (lan_targets (h.iface_mode s.turn)) t) =
      λ t. send_beacon-Quiet h s.identity false (lan_targets (h.iface_mode s.turn)) t in
    Quiet-trans (next_turn-Quiet s) (Quiet-trans (beacon _) (Quiet-trans (beacon _) (beacon _)))
