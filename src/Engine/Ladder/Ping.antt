-- ===== src/Engine/Ladder/Ping.antt =====
-- engine.rs: the first rung of the ladder, from the ping to the other device and back.
use my_domain_core.Prelude.{
  Bool-cases, nat_eq, string_eq, ℕ, suc, ◌<◌, String, ◌≡◌, refl, sym, ap, ◌∙◌, inl, inr, true,
  false, Option, none, some, List, ◌∷◌, arith,
}
use my_domain_core.Prelude.Map.{get}
use my_domain_core.Text.{is_empty}
use my_domain_core.Net.{SocketAddr}
use my_domain_core.Model.{Peer, udp}
use my_domain_core.Host.{Host}
use my_domain_core.Crypto.{IsCipher}
use my_domain_core.Ctx.{Ctx, emit, record_effect, udp_sent}
use my_domain_core.Transport.Live.{mark_live, is_live}
use my_domain_core.Transport.Send.{send_payload}
use my_domain_core.Transport.Incoming.{receive}
use my_domain_core.Transport.Incoming.EndToEnd.{IsCodec}
use my_domain_core.Transport.Handshake.{note_text, ReadsNote, datagram-IsSealOf, ping_pong}
use my_domain_core.Engine.Peers.{same_lan}
use my_domain_core.Engine.Ladder.{progress, climb, udp_ping_connect, rung_udp, run_connect_ladder}
use my_domain_core.Engine.Ladder.Wait.{after, wait_live_lem}

module _ (others : Ctx → Ctx) (h : Host) (node_id : String) where
  is_live-progress :
      (stage : String) (detail : Option String) (s : Ctx)
      → is_live (progress node_id stage detail s) node_id ≡ is_live s node_id
  unfolding progress emit record_effect is_live
  is_live-progress stage detail s = refl

  -- A ladder whose first rung holds ends with the node live.
  first_rung :
      (peer : Peer) (s : Ctx)
      → get s.peers node_id ≡ some peer
      → same_lan s peer ≡ true
      → (udp_ping_connect others h node_id (progress node_id "udp_ping" none s)).1 ≡ true
      → is_live (udp_ping_connect others h node_id (progress node_id "udp_ping" none s)).0 node_id
        ≡ true
      → is_live (run_connect_ladder others h node_id s) node_id ≡ true
  unfolding run_connect_ladder climb rung_udp
  first_rung peer s known near up live = elim (Bool-cases (is_live s node_id)) [
    | inl already ↦ rw (already, run_connect_ladder) (is_live-progress "connected" none s ∙ already)
    | inr dark ↦
        rw (dark, known, near, up, run_connect_ladder)
          (is_live-progress "connected" (some "udp") _ ∙ live)
  ]

  -- The ping got out, and the node was live at one of the polls.
  pinged_live :
      (k : ℕ) (s : Ctx) (addr : SocketAddr) (ping : List ℕ)
      → k < 20
      → (send_payload h s.identity.name node_id "UDP"
          (note_text h "p2p_ping" s.identity.node_id)
          s).0.trace
        ≡ udp_sent addr ping ∷ s.trace
      → is_live
          (after others
            (suc k)
            (send_payload h s.identity.name node_id "UDP"
              (note_text h "p2p_ping" s.identity.node_id)
              s).0)
          node_id
        ≡ true
      → ((udp_ping_connect others h node_id s).1 ≡ true)
        × (is_live (udp_ping_connect others h node_id s).0 node_id ≡ true)
  unfolding udp_ping_connect
  pinged_live k s addr ping early sent live =
      let text : String = note_text h "p2p_ping" s.identity.node_id in
      let t : Ctx = (send_payload h s.identity.name node_id "UDP" text s).0 in
      let (_, went) = datagram-IsSealOf h s.identity.name node_id "UDP" text s addr ping sent in
      let (sees, agrees) = wait_live_lem others node_id 2000 t in
      let up = sees k (omega (arith, early)) live in
      rw (went, udp_ping_connect) (up, sym agrees ∙ up)

-- Device `a` climbs towards device `b`, its peer on the same LAN, and both have one key. If the ping of
-- the first rung leaves as a datagram, `b` answers it with a datagram, and at one of the polls of the
-- next two seconds the last thing that the other threads did on `a` is to take this answer, then `b`
-- has `a` live, and the ladder of `a` ends with `b` live.
pub ping_connects :
    (others : Ctx → Ctx) (h : Host) (a b r : Ctx) (peer : Peer) (k : ℕ) (ip ip' : String)
    (addr addr' : SocketAddr) (ping pong : List ℕ)
    → IsCipher h
    → IsCodec h
    → ReadsNote h "p2p_ping" a.identity.node_id
    → ReadsNote h "p2p_pong" b.identity.node_id
    → b.key ≡ a.key
    → r.key ≡ a.key
    → is_empty a.identity.node_id ≡ false
    → is_empty b.identity.node_id ≡ false
    → get a.peers b.identity.node_id ≡ some peer
    → same_lan a peer ≡ true
    → let climbing : Ctx = progress b.identity.node_id "udp_ping" none a in
      let sent : Ctx =
        (send_payload h a.identity.name b.identity.node_id "UDP"
          (note_text h "p2p_ping" a.identity.node_id)
          climbing).0 in
      sent.trace ≡ udp_sent addr ping ∷ climbing.trace
      → (receive h "UDP" ping ip b).trace
        ≡ udp_sent addr' pong ∷ (mark_live a.identity.node_id udp none b).trace
      → k < 20
      → after others (suc k) sent ≡ receive h "UDP" pong ip' r
      → (is_live (receive h "UDP" ping ip b) a.identity.node_id ≡ true)
        × (is_live (run_connect_ladder others h b.identity.node_id a) b.identity.node_id ≡ true)
unfolding progress emit record_effect
ping_connects others h a b r peer k ip ip' addr addr' ping pong c d read read' kb kr named named'
      known near pinged ponged early taken =
    let climbing : Ctx = progress b.identity.node_id "udp_ping" none a in
    let (there, here) =
      ping_pong h climbing b r b.identity.node_id ip ip' addr addr' ping pong c d read read' kb kr
        named named' pinged ponged in
    let (up, live) =
      pinged_live others h b.identity.node_id k climbing addr ping early pinged
        (ap (λ t. is_live t b.identity.node_id) taken ∙ here) in
    (there, first_rung others h b.identity.node_id peer a known near up live)
