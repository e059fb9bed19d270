-- ===== src/Engine/Reach/Requests.antt =====
-- engine.rs, ws.rs: requests to the registry and the starts of threads, against the live registry.
use my_domain_core.Prelude.{nat_eq, string_eq, String, refl, List, [], ◌∷◌, arith}
use my_domain_core.Host.{Host}
use my_domain_core.Ctx.{Ctx, record_effect, next_turn, spawned, ws_driver}
use my_domain_core.Transport.Live.Events.{link_events}
use my_domain_core.Transport.Send.Quiet.{Quiet, Quiet-refl, Quiet-trans, record_effect-Quiet}
use my_domain_core.Transport.Dial.{
  Accepted, no_stream, failed_handshake, accepted, ws_server_loop, ws_connect,
}
use my_domain_core.Engine.Signals.{
  fcm_selftest, probe_and_tell, firewall_check, report_firewall, run_firewall_report, connect_ws,
  connect,
}

pub ws_server_loop-Quiet :
    (arrivals : List Accepted) (s : Ctx) → Quiet s (ws_server_loop arrivals s)
unfolding ws_server_loop link_events
ws_server_loop-Quiet [] s = Quiet-refl s
ws_server_loop-Quiet (no_stream ∷ as') s = ws_server_loop-Quiet as' s
ws_server_loop-Quiet (failed_handshake ∷ as') s = ws_server_loop-Quiet as' s
ws_server_loop-Quiet (accepted ∷ as') s =
    Quiet-trans (record_effect-Quiet (spawned ws_driver) s (λ trace. refl))
      (ws_server_loop-Quiet as' _)

module _ (h : Host) where
  pub fcm_selftest-Quiet : (s : Ctx) → Quiet s (fcm_selftest h s).0
  unfolding fcm_selftest next_turn
  fcm_selftest-Quiet s = ground arith

  probe_and_tell-Quiet :
      (url token node_id : String) (s : Ctx) → Quiet s (probe_and_tell h url token node_id s).0
  unfolding probe_and_tell record_effect next_turn link_events
  probe_and_tell-Quiet url token node_id s = ground arith

  pub firewall_check-Quiet : (s : Ctx) → Quiet s (firewall_check h s).0
  unfolding firewall_check probe_and_tell record_effect next_turn link_events
  firewall_check-Quiet s = ground arith

  pub report_firewall-Quiet : (s : Ctx) → Quiet s (report_firewall h s)
  unfolding report_firewall record_effect link_events
  report_firewall-Quiet s = ground arith

  pub run_firewall_report-Quiet :
      (url token node_id : String) (s : Ctx) → Quiet s (run_firewall_report h url token node_id s)
  unfolding run_firewall_report probe_and_tell record_effect next_turn link_events
  run_firewall_report-Quiet url token node_id s = ground arith

pub connect-Quiet : (node_id : String) (s : Ctx) → Quiet s (connect node_id s).0
unfolding connect record_effect link_events
connect-Quiet node_id s = ground arith

pub connect_ws-Quiet : (h : Host) (node_id : String) (s : Ctx) → Quiet s (connect_ws h node_id s).0
unfolding connect_ws ws_connect record_effect next_turn link_events
connect_ws-Quiet h node_id s = ground arith
