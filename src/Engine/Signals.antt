-- ===== src/Engine/Signals.antt =====
-- engine.rs: signals to and from other devices, and what the registry is told of this one. The bodies
-- of the threads that a signal starts are `answer_punch` and `answer_rtc`.
pub mod Firewall
pub mod Waiters
pub mod Indicator
use my_domain_core.Prelude.{
  if◌then◌else◌, nat_eq, string_eq, ◌==◌, String, Bool, true, false, not, ◌||◌, Option, none, some,
  List, [], ◌∷◌,
}
use my_domain_core.Prelude.Result.{Result, ok, err, is_ok}
use my_domain_core.Prelude.Map.{get, remove, contains_key}
use my_domain_core.Model.{
  Candidate, Signal, start_ws, ws_ready, punch_offer, punch_answer, sdp_offer, sdp_answer, bye,
}
use my_domain_core.Host.{Host}
use my_domain_core.Ctx.{
  Ctx, record_effect, next_turn, spawned, signalled, state_sent, punch_answered, rtc_answered,
  punch_driver, punch_answerer, rtc_answerer, connect_ladder, firewall_reporter,
}
use my_domain_core.Registry.{Called, update_device_state, probe_inbound, health_ok, send_selfping}
use my_domain_core.Registry
use my_domain_core.Transport.Live.{drop_live}
use my_domain_core.Transport.Dial.{Dialled, ws_connect}
use my_domain_core.Transport.Punch.{gather_candidates}
use my_domain_core.Transport.Rtc.{accept_offer_and_run}
use my_domain_core.Engine.Session.{
  EngineError, refused, registry_failed, not_serialized, not_dialled, Done,
}

abbrev pub Outcome : Type 0
Outcome = Result EngineError Unit

-- An error of the registry's client, as one of the engine.
abbrev pub engine_result : Called → Outcome
engine_result (ok done) = ok tt
engine_result (err e) = err (registry_failed e)

pub record FirewallStatus : Type 0 where
  pub outbound_ok : Bool
  pub inbound_blocked : Bool

abbrev pub Checked : Type 0
Checked = Ctx × Result EngineError FirewallStatus

abbrev pub Pinged : Type 0
Pinged = Ctx × Result EngineError String

module _ (h : Host) where
  -- An operation of a device that is logged in.
  abbrev pub with_login : (String → String → Ctx → Done) → Ctx → Done
  with_login f s = elim s.server_url [
    | none ↦ (s, err (refused "not logged in"))
    | some url ↦ elim s.token [
      | none ↦ (s, err (refused "not logged in"))
      | some token ↦ f url token s
    ]
  ]

  -- The request to `/devices/state`.
  unfoldable pub tell_state : Option Bool → Option Bool → String → String → Ctx → Done
  tell_state ws_open inbound_blocked url token s =
      let answer =
        update_device_state h s.turn url token s.identity.node_id ws_open inbound_blocked none
          none in
      (
        record_effect (state_sent ws_open inbound_blocked (is_ok answer)) (next_turn s),
        engine_result answer,
      )

  unfoldable pub update_ws_open : Bool → Ctx → Done
  update_ws_open is_open s = with_login (tell_state (some is_open) none) s

  unfoldable pub relay : String → Signal → String → String → Ctx → Done
  relay to sig url token s = elim (h.signal_to_value sig) [
    | none ↦ (s, err not_serialized)
    | some payload ↦
        let answer =
          Registry.send_signal h s.turn url token s.identity.node_id to "signal" payload in
        (record_effect (signalled to sig (is_ok answer)) (next_turn s), engine_result answer)
  ]

  unfoldable pub send_signal : String → Signal → Ctx → Done
  send_signal to sig s = with_login (relay to sig) s

  -- Its twin for threads, over the same server and token.
  unfoldable pub send_signal_via : String → Signal → Ctx → Done
  send_signal_via to sig s = with_login (relay to sig) s

  -- The correlation id of the ping.
  unfoldable pub fcm_selftest : Ctx → Pinged
  fcm_selftest s = elim s.server_url [
    | none ↦ (s, err (refused "not logged in"))
    | some url ↦ elim s.token [
      | none ↦ (s, err (refused "not logged in"))
      | some token ↦
          let sent = next_turn s in
          elim (send_selfping h sent.turn url token s.identity.node_id (h.uuid s.turn)) [
            | ok done ↦ (next_turn sent, ok (h.uuid s.turn))
            | err e ↦ (next_turn sent, err (registry_failed e))
          ]
    ]
  ]

  abbrev pub checks : List String
  checks = "tcp" ∷ "ws" ∷ []

  -- The probe, and the request that tells the registry of it, whose result does not change the answer.
  unfoldable pub probe_and_tell : String → String → String → Ctx → Checked
  probe_and_tell url token node_id s = elim (probe_inbound h s.turn url token node_id checks) [
    | err e ↦ (next_turn s, err (registry_failed e))
    | ok probe ↦
        let blocked : Bool = not (probe.tcp_reachable || probe.ws_reachable) in
        let probed = next_turn s in
        let answer =
          update_device_state h probed.turn url token node_id none (some blocked) none none in
        (
          record_effect (state_sent none (some blocked) (is_ok answer)) (next_turn probed),
          ok (record { outbound_ok = true; inbound_blocked = blocked }),
        )
  ]

  unfoldable pub firewall_check : Ctx → Checked
  firewall_check s = elim s.server_url [
    | none ↦ (s, err (refused "not logged in"))
    | some url ↦
        let asked = next_turn s in
        let probed : Checked = elim asked.token [
          | none ↦ (asked, err (refused "not logged in"))
          | some token ↦ probe_and_tell url token asked.identity.node_id asked
        ] in
        if health_ok h s.turn url
        then probed
        else (asked, ok (record { outbound_ok = false; inbound_blocked = true }))
  ]

  unfoldable pub report_firewall : Ctx → Ctx
  report_firewall s = elim s.server_url [
    | none ↦ s
    | some url ↦ elim s.token [
      | none ↦ s
      | some token ↦ record_effect (spawned (firewall_reporter url token s.identity.node_id)) s
    ]
  ]

  -- The thread of `report_firewall`.
  unfoldable pub run_firewall_report : String → String → String → Ctx → Ctx
  run_firewall_report url token node_id s =
      if health_ok h s.turn url
      then (probe_and_tell url token node_id (next_turn s)).0
      else next_turn s

  -- The thread of a punch offer: its own candidates are answered, then it punches.
  unfoldable pub answer_punch : String → String → List Candidate → Ctx → Ctx
  answer_punch from sid candidates s = elim (gather_candidates h s) [
    | none ↦ next_turn s
    | some mine ↦
        record_effect (spawned (punch_driver candidates from))
          (send_signal_via from (punch_answer sid mine 0) (next_turn s)).0
  ]

  -- The thread of an SDP offer.
  unfoldable pub answer_rtc : String → String → String → Ctx → Ctx
  answer_rtc from sid sdp s =
      let (s', answer) = accept_offer_and_run h sdp from s in
      elim answer [ none ↦ s' | some sdp' ↦ (send_signal_via from (sdp_answer sid sdp') s').0 ]

  -- An answer is handed to the thread that waits for it, if one does.
  unfoldable pub hand_candidates : String → List Candidate → Ctx → Ctx
  hand_candidates sid candidates s = elim (get s.punch_waiters sid) [
    | none ↦ s
    | some w ↦
        record_effect (punch_answered w candidates)
          (record s { punch_waiters = remove s.punch_waiters sid })
  ]

  unfoldable pub hand_sdp : String → String → Ctx → Ctx
  hand_sdp sid sdp s = elim (get s.rtc_waiters sid) [
    | none ↦ s
    | some w ↦
        record_effect (rtc_answered w sdp) (record s { rtc_waiters = remove s.rtc_waiters sid })
  ]

  -- A sibling wants this device to be reachable; its server is listening already.
  unfoldable pub take_start_ws : String → String → Ctx → Ctx
  take_start_ws from sid s =
      (send_signal from (ws_ready sid s.identity.ip s.identity.ws_port) (update_ws_open true s).0).0

  unfoldable pub take_signal : String → Signal → Ctx → Ctx
  take_signal from (start_ws sid) s = take_start_ws from sid s
  take_signal from (ws_ready sid ip ws_port) s = (ws_connect h ip ws_port s).0
  take_signal from (punch_offer sid candidates start_in_ms) s =
      record_effect (spawned (punch_answerer from sid candidates)) s
  take_signal from (punch_answer sid candidates start_in_ms) s = hand_candidates sid candidates s
  take_signal from (sdp_offer sid sdp) s = record_effect (spawned (rtc_answerer from sid sdp)) s
  take_signal from (sdp_answer sid sdp) s = hand_sdp sid sdp s
  take_signal from (bye sid) s = drop_live from s
  take_signal from _ s = s

  unfoldable pub on_signal : String → String → Ctx → Ctx
  on_signal from payload s = elim (h.signal_from_str payload) [
    | none ↦ s
    | some sig ↦ take_signal from sig s
  ]

-- The end of a dialling, as a result of the engine.
abbrev pub dial_result : Dialled → Done
dial_result (s, ok done) = (s, ok tt)
dial_result (s, err e) = (s, err (not_dialled e))

-- A connection that is up already is kept.
unfoldable pub connect_ws : Host → String → Ctx → Done
connect_ws h node_id s = elim (get s.peers node_id) [
  | none ↦ (s, err (refused "peer not found"))
  | some peer ↦
      if peer.ws_port == 0
      then (s, err (refused "peer has no WebSocket port"))
      else if contains_key s.ws_conns node_id
      then (s, ok tt)
      else dial_result (ws_connect h peer.ip peer.ws_port s)
]

unfoldable pub connect : String → Ctx → Done
connect node_id s =
    if contains_key s.peers node_id
    then (record_effect (spawned (connect_ladder node_id)) s, ok tt)
    else (s, err (refused "peer not found"))
