-- ===== src/Discovery/Own.antt =====
-- discovery.rs: what arriving beacons leave alone.
use my_domain_core.Prelude.{
  if◌then◌else◌, Bool-cases, Option-cases, nat_eq, string_eq, ◌==◌, take, ℕ, ◌≡◌, refl, ◌∙◌, subst,
  inl, inr, Bool, true, false, Option, none, some, List, [], ◌∷◌, arith,
}
use my_domain_core.Prelude.Map.{get, insert, get-insert}
use my_domain_core.Net.{Ipv4Addr, SocketAddr}
use my_domain_core.Model.{Beacon, Identity, Peer}
use my_domain_core.Host.{Host}
use my_domain_core.Ctx.{Ctx, emit, record_effect}
use my_domain_core.Discovery.{
  lan_peer, send_each, send_beacon, take_beacon, discovery_recv, discovery_recv_loop,
}

-- `t` has the device's own identity, and the same entry under its id, as `s`.
record KeepsOwn (s t : Ctx) : Type 0 where
  identity : t.identity ≡ s.identity
  entry : get t.peers s.identity.node_id ≡ get s.peers s.identity.node_id

KeepsOwn-trans : {s t u : Ctx} → KeepsOwn s t → KeepsOwn t u → KeepsOwn s u
KeepsOwn-trans {s} {t} {u} a b = record {
  identity = b.identity ∙ a.identity;
  entry =
      subst (λ (i : Identity). get u.peers i.node_id ≡ get t.peers i.node_id) a.identity b.entry
      ∙ a.entry;
}

send_each-state :
    (payload : List ℕ) (to : List SocketAddr) (s : Ctx)
    → ((send_each payload to s).identity ≡ s.identity) × ((send_each payload to s).peers ≡ s.peers)
unfolding send_each record_effect
send_each-state payload [] s = (refl, refl)
send_each-state payload (dst ∷ to) s = send_each-state payload to _

module _ (h : Host) where
  send_beacon-state :
      (id : Identity) (reply : Bool) (to : List SocketAddr) (s : Ctx)
      → ((send_beacon h id reply to s).identity ≡ s.identity)
        × ((send_beacon h id reply to s).peers ≡ s.peers)
  unfolding send_beacon
  send_beacon-state id reply to s = grind (arith, send_each-state)

  -- The answer to a beacon of another node, from the state in which the peer is recorded.
  answer-KeepsOwn :
      (b : Beacon) (to : List SocketAddr) (p : Peer) (s told : Ctx)
      → (b.node_id == s.identity.node_id) ≡ false
      → told.identity ≡ s.identity
      → told.peers ≡ insert s.peers b.node_id p
      → KeepsOwn s (if b.reply then told else send_beacon h told.identity true to told)
  answer-KeepsOwn b to p s told other same recorded =
      let own : get told.peers s.identity.node_id ≡ get s.peers s.identity.node_id =
        rw recorded (get-insert s.peers b.node_id s.identity.node_id p ∙ rw other) in
      let (i, q) = send_beacon-state told.identity true to told in
      elim (Bool-cases b.reply) [
        | inl reply ↦ rw reply (record { identity = same; entry = own })
        | inr announce ↦ rw announce (record { identity = i ∙ same; entry = rw q own })
      ]

  take_beacon-KeepsOwn :
      (b : Beacon) (from : Ipv4Addr) (s : Ctx) → KeepsOwn s (take_beacon h b from s)
  unfolding take_beacon emit record_effect
  take_beacon-KeepsOwn b from s = elim (Bool-cases (b.node_id == s.identity.node_id)) [
    | inl own ↦ rw own (record { identity = refl; entry = refl })
    | inr other ↦ rw other (answer-KeepsOwn b _ (lan_peer b from) s _ other refl refl)
  ]

  recv-KeepsOwn :
      (bytes : List ℕ) (from : Ipv4Addr) (s : Ctx) → KeepsOwn s (discovery_recv h bytes from s)
  unfolding discovery_recv
  recv-KeepsOwn bytes from s = elim (Option-cases (h.beacon_from_slice (take 2048 bytes))) [
    | inl garbage ↦ rw (garbage, discovery_recv) (record { identity = refl; entry = refl })
    | inr (b, e) ↦ rw (e, discovery_recv) (take_beacon-KeepsOwn b from s)
  ]

  loop-KeepsOwn :
      (arrivals : List (Option (List ℕ × Ipv4Addr))) (s : Ctx)
      → KeepsOwn s (discovery_recv_loop h arrivals s)
  unfolding discovery_recv_loop
  loop-KeepsOwn [] s = record { identity = refl; entry = refl }
  loop-KeepsOwn (none ∷ as') s = loop-KeepsOwn as' s
  loop-KeepsOwn (some (bytes, from) ∷ as') s =
      KeepsOwn-trans (recv-KeepsOwn bytes from s)
        (loop-KeepsOwn as' (discovery_recv h bytes from s))

  -- Whatever beacons arrive, the device's own among them, they never enter the device into its own
  -- table of peers, and never change an entry that stands under its id.
  pub discovery-own :
      (arrivals : List (Option (List ℕ × Ipv4Addr))) (s : Ctx)
      → get (discovery_recv_loop h arrivals s).peers s.identity.node_id
        ≡ get s.peers s.identity.node_id
  discovery-own arrivals s = (loop-KeepsOwn arrivals s).entry
