-- ===== src/Engine/Reach/Indicator.antt =====
-- The running engine as runs of the machine of the live registry and calls about the session.
use my_domain_core.Prelude.{nat_eq, string_eq, ◌+◌, ◌≡◌, refl, subst, some}
use my_domain_core.Net.{SocketAddr}
use my_domain_core.Host.{Host}
use my_domain_core.Ctx.{Ctx}
use my_domain_core.Transport.Live.Evolves.{Evolves, same-Evolves, IsDim-Evolves}
use my_domain_core.Transport.Send.Quiet.{Quiet-Evolves, next_turn-Quiet, broadcast_control-Quiet}
use my_domain_core.Transport.Incoming.Indicator.{receive-Evolves}
use my_domain_core.Transport.Reasm.Valid.{IsPending}
use my_domain_core.Transport.Links.WsConn.{written-Quiet, ws_round_keeps}
use my_domain_core.Transport.Links.Indicator.{
  hang_up-Evolves, ws_read-Evolves, ws_cleanup-Evolves, links-Evolves,
}
use my_domain_core.Transport.Punch.Path.{confirm_round_trip-Quiet, hole_punch-Quiet}
use my_domain_core.Transport.Punch.Driver.{PunchLink, PunchRound, punch_round, Round}
use my_domain_core.Transport.Punch.Driver.Total.{IsRound, KeepsRound, punch_round-keeps}
use my_domain_core.Transport.Rtc.Drive.{drive_round-Evolves, rtc_cleanup-Evolves, seq-Evolves}
use my_domain_core.Engine.Watch.Heartbeat.{heartbeat-Evolves}
use my_domain_core.Engine.Signals.Indicator.{
  ws_connect-Quiet, on_signal-Evolves, answer_punch-Quiet, answer_rtc-Quiet, update_ws_open-Quiet,
  send_signal-Quiet,
}
use my_domain_core.Engine.Ladder.Indicator.{run_connect_ladder-extends}
use my_domain_core.Engine.Share.{disable_clipboard_sync, set_directed_transport, set_installed_apps}
use my_domain_core.Engine.Reach.Requests.{
  ws_server_loop-Quiet, fcm_selftest-Quiet, firewall_check-Quiet, report_firewall-Quiet,
  run_firewall_report-Quiet, connect-Quiet, connect_ws-Quiet,
}
use my_domain_core.Engine.Reach.{Step, Reach, ws_greeting}
use my_domain_core.Engine.Reach.Runs.{Runs, SessionCall}
use my_domain_core.Engine.Reach.Lan.{discovery_recv-IsDim, scan_lan-Quiet}
use my_domain_core.Engine.Reach.Ops.{
  refresh_from_server-IsDim, network_changed-IsDim, add_manual_peer-IsDim, remove_peer-IsDim,
  send_control-Quiet, send-Quiet, share_app_notification-Quiet, enable_clipboard_sync-IsDim,
  ask_clipboard-IsDim, take_clipboard-IsDim, watch_clipboard-IsDim, watch_network-IsDim,
}

pub punch_round-Evolves :
    {s0 : Ctx} (h : Host) (r : PunchRound) (link : PunchLink) (s : Ctx) (round : Round)
    → IsRound r
    → IsPending link.pending
    → punch_round h r link s ≡ some round
    → Evolves s0 s
    → Evolves s0 round.0
punch_round-Evolves {s0} h r link s round b table e k =
    (subst (KeepsRound s0) e (punch_round-keeps s0 h r link s b (k, table))).0

ws_greeting-Evolves : {s0 : Ctx} (h : Host) (s : Ctx) → Evolves s0 s → Evolves s0 (ws_greeting h s)
ws_greeting-Evolves h s k =
    Quiet-Evolves (written-Quiet s.ws_seq _ (record s { ws_seq = s.ws_seq + 1 }))
      (same-Evolves s (record s { ws_seq = s.ws_seq + 1 }) refl refl refl k)

nowhere : SocketAddr
nowhere = record { ip = record { o0 = 0; o1 = 0; o2 = 0; o3 = 0 }; port = 0 }

mutual
  unfolding disable_clipboard_sync set_directed_transport set_installed_apps

  pub Step-Runs : {s0 : Ctx} (h : Host) (s t : Ctx) → Step h s t → Runs h s0 s → Runs h s0 t
  Step-Runs h s t (Step.ticks clock _) k =
      Runs.goes s _ (same-Evolves s (record s { clock = clock }) refl refl refl Evolves.starts) k
  Step-Runs h s t (Step.turns _) k =
      Runs.goes s _ (Quiet-Evolves (next_turn-Quiet s) Evolves.starts) k
  Step-Runs h s t (Step.receives protocol ip bytes _) k =
      Runs.goes s _ (receive-Evolves h protocol bytes ip s Evolves.starts) k
  Step-Runs h s t (Step.discovers bytes from _) k =
      Runs.goes s _ (IsDim-Evolves (discovery_recv-IsDim h bytes from s) Evolves.starts) k
  Step-Runs h s t (Step.ws_dials ip port _) k =
      Runs.goes s _ (Quiet-Evolves (ws_connect-Quiet h ip port s) Evolves.starts) k
  Step-Runs h s t (Step.ws_accepts arrivals _) k =
      Runs.goes s _ (Quiet-Evolves (ws_server_loop-Quiet arrivals s) Evolves.starts) k
  Step-Runs h s t (Step.ws_greets _) k = Runs.goes s _ (ws_greeting-Evolves h s Evolves.starts) k
  Step-Runs h s t (Step.ws_goes_on r link _) k =
      Runs.goes s _
        (ws_round_keeps h (Evolves s) (λ u v q x. Quiet-Evolves q x) (ws_read-Evolves h) r link s
          Evolves.starts)
        k
  Step-Runs h s t (Step.ws_ends link _) k =
      Runs.goes s _ (hang_up-Evolves link.conn_id _ (ws_cleanup-Evolves h link s Evolves.starts)) k
  Step-Runs h s t (Step.punch_probes b rounds cands magic _) k =
      Runs.goes s _ (Quiet-Evolves (hole_punch-Quiet b rounds cands magic s) Evolves.starts) k
  Step-Runs h s t (Step.punch_confirms rounds peer _) k =
      Runs.goes s _ (Quiet-Evolves (confirm_round_trip-Quiet rounds peer s) Evolves.starts) k
  Step-Runs h s t (Step.punch_registers node_id addr _ entry e) k =
      Runs.goes s _ ((links-Evolves node_id 0 addr s Evolves.starts).2 entry e) k
  Step-Runs h s t (Step.punch_goes_on r link _ round b table e) k =
      Runs.goes s _ (punch_round-Evolves h r link s round b table e Evolves.starts) k
  Step-Runs h s t (Step.punch_ends node_id conn_id _) k =
      Runs.goes s _ ((links-Evolves node_id conn_id nowhere s Evolves.starts).0) k
  Step-Runs h s t (Step.rtc_starts _) k = Runs.goes s _ (seq-Evolves h s Evolves.starts) k
  Step-Runs h s t (Step.rtc_goes_on r link _) k =
      Runs.goes s _ (drive_round-Evolves h r link s Evolves.starts) k
  Step-Runs h s t (Step.rtc_ends link _) k =
      Runs.goes s _ (rtc_cleanup-Evolves h link s Evolves.starts) k
  Step-Runs h s t (Step.signals from payload _) k =
      Runs.goes s _ (on_signal-Evolves h from payload s Evolves.starts) k
  Step-Runs h s t (Step.answers_punch from sid cands _) k =
      Runs.goes s _ (Quiet-Evolves (answer_punch-Quiet h from sid cands s) Evolves.starts) k
  Step-Runs h s t (Step.answers_rtc from sid sdp _) k =
      Runs.goes s _ (Quiet-Evolves (answer_rtc-Quiet h from sid sdp s) Evolves.starts) k
  Step-Runs h s t (Step.tells_ws_open b _) k =
      Runs.goes s _ (Quiet-Evolves (update_ws_open-Quiet h b s) Evolves.starts) k
  Step-Runs h s t (Step.climbs others node_id _ runs) k =
      run_connect_ladder-extends (Runs h _) (λ u v more run. Runs.goes u v more run) others h
        node_id s (λ u x. Reach-Runs h u (others u) (runs u) x) k
  Step-Runs h s t (Step.beats _) k = Runs.goes s _ (heartbeat-Evolves h s Evolves.starts) k
  Step-Runs h s t (Step.watches_clipboard _) k =
      Runs.goes s _ (IsDim-Evolves (watch_clipboard-IsDim h s) Evolves.starts) k
  Step-Runs h s t (Step.watches_network _) k =
      Runs.goes s _ (IsDim-Evolves (watch_network-IsDim h s) Evolves.starts) k
  Step-Runs h s t (Step.auths path url user password _) k =
      Runs.calls (SessionCall.auths path url user password) s k
  Step-Runs h s t (Step.logs_in user passphrase _) k =
      Runs.calls (SessionCall.logs_in user passphrase) s k
  Step-Runs h s t (Step.sets_key passphrase _) k = Runs.calls (SessionCall.sets_key passphrase) s k
  Step-Runs h s t (Step.updates_key passphrase password _) k =
      Runs.calls (SessionCall.updates_key passphrase password) s k
  Step-Runs h s t (Step.logs_out _) k = Runs.calls SessionCall.logs_out s k
  Step-Runs h s t (Step.refreshes _) k =
      Runs.goes s _ (IsDim-Evolves (refresh_from_server-IsDim h s) Evolves.starts) k
  Step-Runs h s t (Step.moves ip _) k =
      Runs.goes s _ (IsDim-Evolves (network_changed-IsDim h ip s) Evolves.starts) k
  Step-Runs h s t (Step.adds_peer name ip a b c _) k =
      Runs.goes s _ (IsDim-Evolves (add_manual_peer-IsDim name ip a b c s) Evolves.starts) k
  Step-Runs h s t (Step.removes_peer node_id _) k =
      Runs.goes s _ (IsDim-Evolves (remove_peer-IsDim node_id s) Evolves.starts) k
  Step-Runs h s t (Step.sends node_id text _) k =
      Runs.goes s _ (Quiet-Evolves (send-Quiet h node_id text s) Evolves.starts) k
  Step-Runs h s t (Step.controls node_id json _) k =
      Runs.goes s _ (Quiet-Evolves (send_control-Quiet h node_id json s) Evolves.starts) k
  Step-Runs h s t (Step.broadcasts text _) k =
      Runs.goes s _ (Quiet-Evolves (broadcast_control-Quiet h text s) Evolves.starts) k
  Step-Runs h s t (Step.notifies pkg app title body _) k =
      Runs.goes s _
        (Quiet-Evolves (share_app_notification-Quiet h pkg app title body s) Evolves.starts) k
  Step-Runs h s t (Step.syncs_clipboard _) k =
      Runs.goes s _ (IsDim-Evolves (enable_clipboard_sync-IsDim h s) Evolves.starts) k
  Step-Runs h s t (Step.stops_clipboard _) k =
      Runs.goes s _ (same-Evolves s (disable_clipboard_sync s) refl refl refl Evolves.starts) k
  Step-Runs h s t (Step.sets_transport v _) k =
      Runs.goes s _ (same-Evolves s (set_directed_transport v s) refl refl refl Evolves.starts) k
  Step-Runs h s t (Step.sets_apps apps _) k =
      Runs.goes s _ (same-Evolves s (set_installed_apps apps s) refl refl refl Evolves.starts) k
  Step-Runs h s t (Step.scans _) k =
      Runs.goes s _ (Quiet-Evolves (scan_lan-Quiet h s) Evolves.starts) k
  Step-Runs h s t (Step.sends_signal to sig _) k =
      Runs.goes s _ (Quiet-Evolves (send_signal-Quiet h to sig s) Evolves.starts) k
  Step-Runs h s t (Step.tests_push _) k =
      Runs.goes s _ (Quiet-Evolves (fcm_selftest-Quiet h s) Evolves.starts) k
  Step-Runs h s t (Step.checks_firewall _) k =
      Runs.goes s _ (Quiet-Evolves (firewall_check-Quiet h s) Evolves.starts) k
  Step-Runs h s t (Step.starts_report _) k =
      Runs.goes s _ (Quiet-Evolves (report_firewall-Quiet h s) Evolves.starts) k
  Step-Runs h s t (Step.reports url token node_id _) k =
      Runs.goes s _ (Quiet-Evolves (run_firewall_report-Quiet h url token node_id s) Evolves.starts)
        k
  Step-Runs h s t (Step.connects_ws node_id _) k =
      Runs.goes s _ (Quiet-Evolves (connect_ws-Quiet h node_id s) Evolves.starts) k
  Step-Runs h s t (Step.connects node_id _) k =
      Runs.goes s _ (Quiet-Evolves (connect-Quiet node_id s) Evolves.starts) k
  Step-Runs h s t (Step.asks_clipboard node_id _) k =
      Runs.goes s _ (IsDim-Evolves (ask_clipboard-IsDim h node_id s) Evolves.starts) k
  Step-Runs h s t (Step.takes_clipboard node_id answer _) k =
      Runs.goes s _ (IsDim-Evolves (take_clipboard-IsDim node_id answer s) Evolves.starts) k

  pub Reach-Runs : {s0 : Ctx} (h : Host) (s t : Ctx) → Reach h s t → Runs h s0 s → Runs h s0 t
  Reach-Runs h s t (Reach.here _) k = k
  Reach-Runs h s t (Reach.then_step _ u _ run step) k =
      Step-Runs h u t step (Reach-Runs h s u run k)
