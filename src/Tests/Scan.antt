-- ===== src/Tests/Scan.antt =====
-- Two devices that discover each other by one announce.
use my_domain_core.Prelude.{
  if◌then◌else◌, nat_eq, string_eq, zero, suc, ℕ, ◌≡◌, refl, sym, ap, false, true, Option, none,
  some, List, [], ◌∷◌, arith,
}
use my_domain_core.Prelude.Map.{get, insert, values}
use my_domain_core.Net.{Ipv4Addr, ipv4}
use my_domain_core.Model.{Beacon, Identity, peers_updated}
use my_domain_core.Host.{Host}
use my_domain_core.Ctx.{Ctx, Effect, emit, emitted, record_effect, beacon_sent}
use my_domain_core.Discovery.{
  lan_peer, discovery_at, send_each, send_beacon, take_beacon, discovery_recv,
}
use my_domain_core.Discovery.Meet.{beacon_of, ReadsBeacon, scan_meets}
use my_domain_core.Tests.Devices.{device, world}

abbrev other_id : Identity
other_id = record device.identity { node_id = "n2"; name = "B" }

abbrev other_device : Ctx
other_device = record device { identity = other_id }

-- An announce is of the one, a reply of the other.
abbrev read_beacon : List ℕ → Option Beacon
read_beacon [] = none
read_beacon (zero ∷ bytes) = some (beacon_of device.identity false)
read_beacon (suc n ∷ bytes) = some (beacon_of other_id true)

abbrev scanning : Host
scanning = record world {
  beacon_to_vec = λ b. if b.reply then some (1 ∷ []) else some (0 ∷ []);
  beacon_from_slice = read_beacon;
}

reads_announce : ReadsBeacon scanning (beacon_of device.identity false)
reads_announce bytes e = let same : (0 ∷ []) ≡ bytes = cc in ap read_beacon (sym same)

reads_reply : ReadsBeacon scanning (beacon_of other_id true)
reads_reply bytes e = let same : (1 ∷ []) ≡ bytes = cc in ap read_beacon (sym same)

abbrev here : Ipv4Addr
here = ipv4 10 0 0 1

abbrev there : Ipv4Addr
there = ipv4 10 0 0 2

abbrev told : List Effect
told =
    emitted (peers_updated (lan_peer (beacon_of device.identity false) here ∷ []))
    ∷ other_device.trace

announces :
    (send_beacon scanning device.identity false (discovery_at there ∷ []) device).trace
    ≡ beacon_sent (discovery_at there) (0 ∷ []) ∷ device.trace
unfolding send_beacon send_each record_effect
announces = refl

answers :
    (discovery_recv scanning (0 ∷ []) here other_device).trace
    ≡ beacon_sent (discovery_at here) (1 ∷ []) ∷ told
unfolding discovery_recv take_beacon send_beacon send_each record_effect emit insert
answers = refl

scan_meets_example :
    (discovery_at here ≡ discovery_at here)
    × (get (discovery_recv scanning (0 ∷ []) here other_device).peers device.identity.node_id
        ≡ some (lan_peer (beacon_of device.identity false) here))
    × (get (discovery_recv scanning (1 ∷ []) there device).peers "n2"
        ≡ some (lan_peer (beacon_of other_id true) there))
    × ((discovery_recv scanning (1 ∷ []) there device).trace
        ≡ emitted (peers_updated (values (discovery_recv scanning (1 ∷ []) there device).peers))
          ∷ device.trace)
scan_meets_example =
    scan_meets scanning device other_device device here there (discovery_at there)
      (discovery_at here) (0 ∷ []) (1 ∷ []) told refl refl reads_announce reads_reply (omega arith)
      (omega arith) announces answers
