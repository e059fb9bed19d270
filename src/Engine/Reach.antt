-- ===== src/Engine/Reach.antt =====
-- The running engine as a transition system: a step is one round of one of its threads, or one call of
-- the engine, and the threads take their steps in any order. What a round reads, and the variables
-- that a driver keeps between its rounds, are arguments of the step: the system has more runs than the
-- program. The calls that share or ask for something are `broadcasts` and `controls`. A step's
-- events come with it; in Engine/Reach/Reports those of links come at any later time.
pub mod Ops
pub mod Lan
pub mod Requests
pub mod Runs
pub mod Indicator
pub mod Reports
pub mod Registry
pub mod Session
use my_domain_core.Prelude.{
  nat_eq, string_eq, or_default, ℕ, ◌+◌, String, ◌≡◌, Bool, Option, some, List,
}
use my_domain_core.Net.{SocketAddr, Ipv4Addr}
use my_domain_core.Model.{Candidate, Signal, hello}
use my_domain_core.Host.{Host}
use my_domain_core.Ctx.{Ctx, record_effect, next_turn, written}
use my_domain_core.Discovery.{discovery_recv}
use my_domain_core.Transport.Incoming.{receive}
use my_domain_core.Transport.Reasm.Valid.{IsPending}
use my_domain_core.Transport.Links.{
  hang_up, WsLink, WsRound, ws_round, ws_cleanup, punch_register, link_exit,
}
use my_domain_core.Transport.Dial.{ws_connect, Accepted, ws_server_loop}
use my_domain_core.Transport.Punch.{ProbeRound, hole_punch, ConfirmRound, confirm_round_trip}
use my_domain_core.Transport.Punch.Driver.{PunchLink, PunchRound, punch_round}
use my_domain_core.Transport.Punch.Driver.Total.{IsRound}
use my_domain_core.Transport.Rtc.{RtcLink, RtcRound, drive_round, rtc_cleanup}
use my_domain_core.Engine.Session.{
  do_auth, dev_login, set_encryption_key, update_encryption_key, logout,
}
use my_domain_core.Engine.Peers.{refresh_from_server, network_changed, add_manual_peer, remove_peer}
use my_domain_core.Engine.Share.{
  disable_clipboard_sync, set_directed_transport, set_installed_apps, send_control, send,
  enable_clipboard_sync, share_app_notification, ask_clipboard, take_clipboard,
}
use my_domain_core.Transport.Send.{broadcast_control}
use my_domain_core.Engine.Watch.{heartbeat, watch_clipboard, watch_network}
use my_domain_core.Engine.Signals.{
  on_signal, answer_punch, answer_rtc, update_ws_open, send_signal, fcm_selftest, firewall_check,
  report_firewall, run_firewall_report, connect_ws, connect,
}
use my_domain_core.Engine.Start.{scan_lan}
use my_domain_core.Engine.Ladder.{run_connect_ladder}

-- The start of a WebSocket connection: its number is taken and its hello is written.
abbrev pub ws_greeting : Host → Ctx → Ctx
ws_greeting h s =
    record_effect
      (written s.ws_seq
        (or_default (h.frame_to_string (hello s.identity.node_id s.identity.name)) ""))
      (record s { ws_seq = s.ws_seq + 1 })

mutual
  pub data Step (h : Host) : Ctx → Ctx → Type 0 where
    -- time passes, and the process makes a call that shows nowhere else
    ticks : (clock : Option ℕ) (s : Ctx) → Step h s (record s { clock = clock })
    turns : (s : Ctx) → Step h s (next_turn s)
    -- the receivers
    receives :
        (protocol ip : String) (bytes : List ℕ) (s : Ctx) → Step h s (receive h protocol bytes ip s)
    discovers :
        (bytes : List ℕ) (from : Ipv4Addr) (s : Ctx) → Step h s (discovery_recv h bytes from s)
    -- a WebSocket connection
    ws_dials : (ip : String) (port : ℕ) (s : Ctx) → Step h s (ws_connect h ip port s).0
    ws_accepts : (arrivals : List Accepted) (s : Ctx) → Step h s (ws_server_loop arrivals s)
    ws_greets : (s : Ctx) → Step h s (ws_greeting h s)
    ws_goes_on : (r : WsRound) (link : WsLink) (s : Ctx) → Step h s (ws_round h r link s).0
    ws_ends : (link : WsLink) (s : Ctx) → Step h s (hang_up link.conn_id (ws_cleanup h link s))
    -- a punched link
    punch_probes :
        (b : Bool) (rounds : List ProbeRound) (cands : List SocketAddr) (magic : List ℕ) (s : Ctx)
        → Step h s (hole_punch b rounds cands magic s).0
    punch_confirms :
        (rounds : List ConfirmRound) (peer : SocketAddr) (s : Ctx)
        → Step h s (confirm_round_trip rounds peer s).0
    punch_registers :
        (node_id : String) (addr : SocketAddr) (s : Ctx) (entry : ℕ × Ctx)
        → punch_register node_id addr s ≡ some entry
        → Step h s entry.1
    punch_goes_on :
        (r : PunchRound) (link : PunchLink) (s : Ctx) (round : Ctx × PunchLink × Bool)
        → IsRound r
        → IsPending link.pending
        → punch_round h r link s ≡ some round
        → Step h s round.0
    punch_ends : (node_id : String) (conn_id : ℕ) (s : Ctx) → Step h s (link_exit node_id conn_id s)
    -- a WebRTC link
    rtc_starts : (s : Ctx) → Step h s (record s { rtc_seq = s.rtc_seq + 1 })
    rtc_goes_on : (r : RtcRound) (link : RtcLink) (s : Ctx) → Step h s (drive_round h r link s).0
    rtc_ends : (link : RtcLink) (s : Ctx) → Step h s (rtc_cleanup h link s)
    -- signals, and the threads that answer them
    signals : (from payload : String) (s : Ctx) → Step h s (on_signal h from payload s)
    answers_punch :
        (from sid : String) (cands : List Candidate) (s : Ctx)
        → Step h s (answer_punch h from sid cands s)
    answers_rtc : (from sid sdp : String) (s : Ctx) → Step h s (answer_rtc h from sid sdp s)
    tells_ws_open : (b : Bool) (s : Ctx) → Step h s (update_ws_open h b s).0
    -- the connection ladder, with what the other threads do while it waits
    climbs :
        (others : Ctx → Ctx) (node_id : String) (s : Ctx)
        → ((t : Ctx) → Reach h t (others t))
        → Step h s (run_connect_ladder others h node_id s)
    -- the watchers
    beats : (s : Ctx) → Step h s (heartbeat h s)
    watches_clipboard : (s : Ctx) → Step h s (watch_clipboard h s)
    watches_network : (s : Ctx) → Step h s (watch_network h s)
    -- the calls of the engine
    auths :
        (path url user password : String) (s : Ctx)
        → Step h s (do_auth h path url user password s).0
    logs_in : (user passphrase : String) (s : Ctx) → Step h s (dev_login h user passphrase s).0
    sets_key : (passphrase : String) (s : Ctx) → Step h s (set_encryption_key h passphrase s).0
    updates_key :
        (passphrase password : String) (s : Ctx)
        → Step h s (update_encryption_key h passphrase password s).0
    logs_out : (s : Ctx) → Step h s (logout s)
    refreshes : (s : Ctx) → Step h s (refresh_from_server h s).0
    moves : (ip : Option String) (s : Ctx) → Step h s (network_changed h ip s)
    adds_peer :
        (name ip : String) (a b c : ℕ) (s : Ctx) → Step h s (add_manual_peer name ip a b c s).0
    removes_peer : (node_id : String) (s : Ctx) → Step h s (remove_peer node_id s)
    sends : (node_id text : String) (s : Ctx) → Step h s (send h node_id text s).0
    controls : (node_id json : String) (s : Ctx) → Step h s (send_control h node_id json s).0
    broadcasts : (text : String) (s : Ctx) → Step h s (broadcast_control h text s)
    notifies :
        (pkg app title body : String) (s : Ctx)
        → Step h s (share_app_notification h pkg app title body s)
    syncs_clipboard : (s : Ctx) → Step h s (enable_clipboard_sync h s)
    stops_clipboard : (s : Ctx) → Step h s (disable_clipboard_sync s)
    sets_transport : (t : String) (s : Ctx) → Step h s (set_directed_transport t s)
    sets_apps : (apps : String) (s : Ctx) → Step h s (set_installed_apps apps s)
    scans : (s : Ctx) → Step h s (scan_lan h s)
    sends_signal : (to : String) (sig : Signal) (s : Ctx) → Step h s (send_signal h to sig s).0
    tests_push : (s : Ctx) → Step h s (fcm_selftest h s).0
    checks_firewall : (s : Ctx) → Step h s (firewall_check h s).0
    starts_report : (s : Ctx) → Step h s (report_firewall h s)
    reports :
        (url token node_id : String) (s : Ctx)
        → Step h s (run_firewall_report h url token node_id s)
    connects_ws : (node_id : String) (s : Ctx) → Step h s (connect_ws h node_id s).0
    connects : (node_id : String) (s : Ctx) → Step h s (connect node_id s).0
    asks_clipboard : (node_id : String) (s : Ctx) → Step h s (ask_clipboard h node_id s).0
    takes_clipboard :
        (node_id : String) (answer : Option String) (s : Ctx)
        → Step h s (take_clipboard node_id answer s).0

  -- A run: its steps, one after the other.
  pub data Reach (h : Host) : Ctx → Ctx → Type 0 where
    here : (s : Ctx) → Reach h s s
    then_step : (s t u : Ctx) → Reach h s t → Step h t u → Reach h s u
