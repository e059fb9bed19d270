-- ===== src/Discovery/Meet.antt =====
-- discovery.rs on two devices: an announce, its answer, and what each side makes of them.
use my_domain_core.Prelude.{
  Option-cases, nat_eq, string_eq, ◌==◌, length, take, ℕ, zero, suc, ◌≤◌, ◌≡◌, ◌≢◌, refl, sym, ap,
  ◌∙◌, inl, inr, Bool, true, false, some, List, [], ◌∷◌, arith,
}
use my_domain_core.Prelude.Map.{get, insert, values, get-insert}
use text.Mathlib.TextEquality.{eq_iff}
use my_domain_core.Net.{Ipv4Addr, SocketAddr}
use my_domain_core.Model.{Beacon, Identity, peers_updated}
use my_domain_core.Host.{Host}
use my_domain_core.Ctx.{Ctx, Effect, emit, emitted, record_effect, beacon_sent}
use my_domain_core.Discovery.{
  lan_peer, discovery_at, send_each, send_beacon, take_beacon, discovery_recv,
}

-- The beacon of a device, an announce or a reply.
abbrev pub beacon_of : Identity → Bool → Beacon
beacon_of id reply = record {
  node_id = id.node_id;
  name = id.name;
  tcp_port = id.tcp_port;
  udp_port = id.udp_port;
  ws_port = id.ws_port;
  reply = reply;
}

-- serde_json reads the beacon from what it wrote for it.
abbrev pub ReadsBeacon : Host → Beacon → Type 0
ReadsBeacon h b =
    (bytes : List ℕ) → h.beacon_to_vec b ≡ some bytes → h.beacon_from_slice bytes ≡ some b

take_whole : (n : ℕ) (xs : List ℕ) → length xs ≤ n → take n xs ≡ xs
take_whole zero [] e = refl
take_whole zero (x ∷ xs) e = absurd (omega (arith, e))
take_whole (suc n) [] e = refl
take_whole (suc n) (x ∷ xs) e = ap (λ ys. x ∷ ys) (take_whole n xs (omega (arith, e)))

module _ (h : Host) where
  -- The datagram that a beacon leaves as: whom it goes to, and what it holds.
  beacon_left :
      (id : Identity) (reply : Bool) (dst dst' : SocketAddr) (bytes : List ℕ) (s : Ctx)
      (rest : List Effect)
      → s.trace ≢ beacon_sent dst' bytes ∷ rest
      → (send_beacon h id reply (dst ∷ []) s).trace ≡ beacon_sent dst' bytes ∷ rest
      → (h.beacon_to_vec (beacon_of id reply) ≡ some bytes) × (dst' ≡ dst)
  unfolding send_beacon send_each record_effect
  beacon_left id reply dst dst' bytes s rest silent e =
      elim (Option-cases (h.beacon_to_vec (beacon_of id reply))) [
        | inl fails ↦ absurd (silent (rw (fails, send_beacon) at e))
        | inr (payload, made) ↦
            let sent : beacon_sent dst payload ∷ s.trace ≡ beacon_sent dst' bytes ∷ rest =
              rw (made, send_beacon) at e in
            (made ∙ cc, cc)
      ]

  -- A device that reads the beacon of another one.
  beacon_heard :
      (b : Beacon) (bytes : List ℕ) (from : Ipv4Addr) (s : Ctx)
      → length bytes ≤ 2048
      → h.beacon_from_slice bytes ≡ some b
      → discovery_recv h bytes from s ≡ take_beacon h b from s
  unfolding discovery_recv
  beacon_heard b bytes from s short reads = rw (take_whole 2048 bytes short, reads, discovery_recv)

  -- With the peer in the table, and the host told.
  abbrev pub met : Beacon → Ipv4Addr → Ctx → Ctx
  met b from s =
      let known = record s { peers = insert s.peers b.node_id (lan_peer b from) } in
      record known { trace = emitted (peers_updated (values known.peers)) ∷ s.trace }

  announce_heard :
      (b : Beacon) (from : Ipv4Addr) (s : Ctx)
      → (b.node_id == s.identity.node_id) ≡ false
      → b.reply ≡ false
      → take_beacon h b from s
        ≡ send_beacon h s.identity true (discovery_at from ∷ []) (met b from s)
  unfolding take_beacon emit record_effect
  announce_heard b from s other announce = rw (other, announce)

  reply_heard :
      (b : Beacon) (from : Ipv4Addr) (s : Ctx)
      → (b.node_id == s.identity.node_id) ≡ false
      → b.reply ≡ true
      → take_beacon h b from s ≡ met b from s
  unfolding take_beacon emit record_effect
  reply_heard b from s other reply = rw (other, reply)

  peers-send_beacon :
      (id : Identity) (reply : Bool) (dst : SocketAddr) (s : Ctx)
      → (send_beacon h id reply (dst ∷ []) s).peers ≡ s.peers
  unfolding send_beacon send_each record_effect
  peers-send_beacon id reply dst s = ground arith

  get-met :
      (b : Beacon) (from : Ipv4Addr) (s : Ctx)
      → get (met b from s).peers b.node_id ≡ some (lan_peer b from)
  get-met b from s =
      ground (
        arith,
        get-insert s.peers b.node_id b.node_id (lan_peer b from),
        eq_iff b.node_id b.node_id,
      )

  -- A scan discovers both directions, and ends. Two devices with different ids: if `a` announces itself
  -- with a datagram, and `b`, on taking it, last sends a datagram, then that one goes to the sender's
  -- address, `b` has `a` in its table under that address, and a device of the identity of `a` that
  -- takes the answer has `b` in its table under the address that it came from, tells its host of the
  -- peers, and sends nothing more. serde reads both beacons from what it writes, and both fit into
  -- the buffer of 2048 bytes.
  pub scan_meets :
      (a b r : Ctx) (ip_a ip_b : Ipv4Addr) (dst dst' : SocketAddr) (announce answer : List ℕ)
      (rest : List Effect)
      → (a.identity.node_id == b.identity.node_id) ≡ false
      → r.identity ≡ a.identity
      → ReadsBeacon h (beacon_of a.identity false)
      → ReadsBeacon h (beacon_of b.identity true)
      → length announce ≤ 2048
      → length answer ≤ 2048
      → (send_beacon h a.identity false (dst ∷ []) a).trace ≡ beacon_sent dst announce ∷ a.trace
      → (discovery_recv h announce ip_a b).trace ≡ beacon_sent dst' answer ∷ rest
      → (dst' ≡ discovery_at ip_a)
        × (get (discovery_recv h announce ip_a b).peers a.identity.node_id
            ≡ some (lan_peer (beacon_of a.identity false) ip_a))
        × (get (discovery_recv h answer ip_b r).peers b.identity.node_id
            ≡ some (lan_peer (beacon_of b.identity true) ip_b))
        × ((discovery_recv h answer ip_b r).trace
            ≡ emitted (peers_updated (values (discovery_recv h answer ip_b r).peers)) ∷ r.trace)
  scan_meets a b r ip_a ip_b dst dst' announce answer rest other same reads reads' short short'
        sends answers =
      let hello = beacon_of a.identity false in
      let reply = beacon_of b.identity true in
      let (made, _) =
        beacon_left a.identity false dst dst announce a a.trace (λ e. omega (arith, ap length e))
          sends in
      let taken =
        beacon_heard hello announce ip_a b short (reads announce made)
        ∙ announce_heard hello ip_a b other refl in
      let (made', to_sender) =
        beacon_left b.identity true (discovery_at ip_a) dst' answer (met hello ip_a b) rest
          (λ e. cc) (sym (ap (λ (t : Ctx). t.trace) taken) ∙ answers) in
      let apart : (b.identity.node_id == r.identity.node_id) ≡ false = ground (
        arith,
        other,
        ap (λ (i : Identity). i.node_id) same,
        eq_iff a.identity.node_id b.identity.node_id,
        eq_iff b.identity.node_id r.identity.node_id,
      ) in
      let taken' =
        beacon_heard reply answer ip_b r short' (reads' answer made')
        ∙ reply_heard reply ip_b r apart refl in
      (
        to_sender,
        ap (λ (t : Ctx). get t.peers a.identity.node_id) taken
            ∙ ap (λ m. get m a.identity.node_id)
                (peers-send_beacon b.identity true (discovery_at ip_a) (met hello ip_a b))
            ∙ get-met hello ip_a b,
        ap (λ (t : Ctx). get t.peers b.identity.node_id) taken' ∙ get-met reply ip_b r,
        ap (λ (t : Ctx). t.trace) taken'
            ∙ ap (λ (t : Ctx). emitted (peers_updated (values t.peers)) ∷ r.trace) (sym taken'),
      )
