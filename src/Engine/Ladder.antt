-- ===== src/Engine/Ladder.antt =====
-- engine.rs: the connection ladder (`run_connect_ladder`), the thread that `connect` starts. Wherever it
-- waits, the other threads run: `others` is what they do between two of its polls, and while it waits
-- for an answer. The number of a waiter stands for its channel.
pub mod Wait
pub mod Keeps
pub mod Offers
pub mod End
pub mod Waiters
pub mod Ping
pub mod Indicator
use my_domain_core.Prelude.{
  if◌then◌else◌, nat_eq, string_eq, ◌==◌, ◌/=◌, ℕ, zero, suc, ◌/◌, String, Bool, true, false, not,
  ◌&&◌, Option, none, some, List, [], ◌∷◌,
}
use my_domain_core.Prelude.Result.{is_ok}
use my_domain_core.Prelude.Map.{get, insert, remove}
use my_domain_core.Model.{Peer, Candidate, start_ws, punch_offer, sdp_offer, connect_progress}
use my_domain_core.Model.Json.{object, field, end, string}
use my_domain_core.Host.{Host}
use my_domain_core.Ctx.{
  Ctx, Effect, emit, record_effect, next_turn, spawned, punch_driver, punch_answered, rtc_answered,
}
use my_domain_core.Transport.Live.{is_live}
use my_domain_core.Transport.Send.{send_payload}
use my_domain_core.Transport.Dial.{ws_connect}
use my_domain_core.Transport.Punch.{gather_candidates}
use my_domain_core.Transport.Rtc.{create_offer, apply_answer_and_run}
use my_domain_core.Engine.Peers.{same_lan}
use my_domain_core.Engine.Signals.{send_signal_via}

unfoldable pub peer_inbound_blocked : Peer → Bool
peer_inbound_blocked peer = peer.inbound_blocked

-- The closure `emit`.
unfoldable pub progress : String → String → Option String → Ctx → Ctx
progress node_id stage detail s = emit (connect_progress node_id stage detail) s

-- What the channel of a waiter yields: the first answer that was sent to it.
unfoldable pub punch_answer_of : ℕ → List Effect → Option (List Candidate)
punch_answer_of w [] = none
punch_answer_of w (punch_answered v c ∷ trace) = elim (punch_answer_of w trace) [
  | some first ↦ some first
  | none ↦ if v == w then some c else none
]
punch_answer_of w (_ ∷ trace) = punch_answer_of w trace

unfoldable pub rtc_answer_of : ℕ → List Effect → Option String
rtc_answer_of w [] = none
rtc_answer_of w (rtc_answered v sdp ∷ trace) = elim (rtc_answer_of w trace) [
  | some first ↦ some first
  | none ↦ if v == w then some sdp else none
]
rtc_answer_of w (_ ∷ trace) = rtc_answer_of w trace

unfoldable pub withdraw_punch : String → Ctx → Ctx
withdraw_punch sid s = record s { punch_waiters = remove s.punch_waiters sid }

unfoldable pub withdraw_rtc : String → Ctx → Ctx
withdraw_rtc sid s = record s { rtc_waiters = remove s.rtc_waiters sid }

-- `true`: the ladder is done.
abbrev pub Rung : Type 0
Rung = Ctx → Ctx × Bool

unfoldable pub climb : List Rung → Rung
climb [] s = (s, false)
climb (r ∷ rs) s = let (s', up) = r s in let rest = climb rs s' in if up then (s', true) else rest

module _ (others : Ctx → Ctx) where
  unfoldable pub wait_steps : ℕ → String → Rung
  wait_steps zero node_id s = (s, is_live s node_id)
  wait_steps (suc n) node_id s =
      let rest = wait_steps n node_id (others s) in
      if is_live (others s) node_id then (others s, true) else rest

  unfoldable pub wait_live : String → ℕ → Rung
  wait_live node_id ms s = wait_steps (ms / 100) node_id s

  module _ (h : Host) where
    unfoldable pub udp_ping_connect : String → Rung
    udp_ping_connect node_id s =
        let ping = h.json_to_string (
          object
            (field "type" (string "p2p_ping") (field "from" (string s.identity.node_id) end))) in
        let (s', sent) = send_payload h s.identity.name node_id "UDP" ping s in
        let waited = wait_live node_id 2000 s' in if is_ok sent then waited else (s', false)

    -- Rung 1: a ping on the same LAN.
    unfoldable pub rung_udp : String → Peer → Rung
    rung_udp node_id peer s =
        let (s', up) = udp_ping_connect node_id (progress node_id "udp_ping" none s) in
        if same_lan s peer
        then (if up then (progress node_id "connected" (some "udp") s', true) else (s', false))
        else (s, false)

    -- Rung 2: the peer's WebSocket server.
    unfoldable pub rung_ws : String → Peer → Rung
    rung_ws node_id peer s =
        let (s', connected) =
          ws_connect h peer.ip peer.ws_port (progress node_id "direct_ws" none s) in
        let waited = wait_live node_id 3000 s' in
        if peer.ws_port /= 0 && peer.ws_open && not (peer_inbound_blocked peer)
        then (if is_ok connected then waited else (s', false))
        else (s, false)

    -- Rung 3: a signal that asks for the peer's WebSocket server.
    unfoldable pub rung_signal : String → Rung
    rung_signal node_id s =
        let s1 = progress node_id "via_signal" none s in
        let (s2, sent) = send_signal_via h node_id (start_ws (h.uuid s1.turn)) (next_turn s1) in
        let waited = wait_live node_id 8000 s2 in if is_ok sent then waited else (s2, false)

    -- Behind the wait for the answer to a punch offer.
    unfoldable pub punch_to : String → String → ℕ → Rung
    punch_to node_id sid waiter s = elim (punch_answer_of waiter s.trace) [
      | none ↦ (withdraw_punch sid s, false)
      | some theirs ↦
          wait_live node_id 12000
            (record_effect (spawned (punch_driver theirs node_id)) (withdraw_punch sid s))
    ]

    unfoldable pub offer_punch : String → List Candidate → Rung
    offer_punch node_id mine s =
        let sid : String = h.uuid s.turn in
        let waiting = next_turn (record s { punch_waiters = insert s.punch_waiters sid s.turn }) in
        let (s', sent) = send_signal_via h node_id (punch_offer sid mine 0) waiting in
        let answered = punch_to node_id sid s.turn (others s') in
        if is_ok sent then answered else (withdraw_punch sid s', false)

    -- Rung 4: hole punching.
    unfoldable pub rung_punch : String → Rung
    rung_punch node_id s =
        let s' = progress node_id "punching" none s in
        elim (gather_candidates h s') [
          | none ↦ (next_turn s', false)
          | some mine ↦ offer_punch node_id mine (next_turn s')
        ]

    -- Behind the wait for the answer to an SDP offer.
    unfoldable pub drive_to : String → ℕ → String → ℕ → Rung
    drive_to node_id negotiation sid waiter s = elim (rtc_answer_of waiter s.trace) [
      | none ↦ (withdraw_rtc sid s, false)
      | some sdp ↦
          let (s', driven) = apply_answer_and_run h negotiation sdp node_id (withdraw_rtc sid s) in
          let waited = wait_live node_id 12000 s' in if driven then waited else (s', false)
    ]

    unfoldable pub offer_rtc : String → ℕ → String → Rung
    offer_rtc node_id negotiation sdp s =
        let sid : String = h.uuid s.turn in
        let waiting = next_turn (record s { rtc_waiters = insert s.rtc_waiters sid s.turn }) in
        let (s', sent) = send_signal_via h node_id (sdp_offer sid sdp) waiting in
        let answered = drive_to node_id negotiation sid s.turn (others s') in
        if is_ok sent then answered else (withdraw_rtc sid s', false)

    -- Rung 5: WebRTC.
    unfoldable pub rung_rtc : String → Rung
    rung_rtc node_id s =
        let (s', offer) = create_offer h (progress node_id "webrtc" none s) in
        elim offer [
          | none ↦ (s', false)
          | some (negotiation, sdp) ↦ offer_rtc node_id negotiation sdp s'
        ]

    abbrev pub rungs : String → Peer → List Rung
    rungs node_id peer =
        rung_udp node_id peer
        ∷ rung_ws node_id peer
        ∷ rung_signal node_id
        ∷ rung_punch node_id
        ∷ rung_rtc node_id
        ∷ []

    unfoldable pub run_connect_ladder : String → Ctx → Ctx
    run_connect_ladder node_id s =
        let climbed : Ctx = elim (get s.peers node_id) [
          | none ↦ progress node_id "failed" (some "peer not found") s
          | some peer ↦
              let (s', up) = climb (rungs node_id peer) s in
              if up then s' else progress node_id "failed" (some "no reachable path") s'
        ] in
        if is_live s node_id then progress node_id "connected" none s else climbed
