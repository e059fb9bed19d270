-- ===== src/Tests/Punch.antt =====
-- The tests of the punched and WebRTC links (transport/punch.rs, nat/punch.rs, transport/rtc.rs), and
-- of the two halves of `drop_live`.
use my_domain_core.Prelude.{
  nat_eq, string_eq, ◌≡◌, refl, true, false, none, some, List, [], ◌∷◌, arith,
}
use my_domain_core.Net.{SocketAddr, ipv4}
use my_domain_core.Model.{Candidate, udp}
use my_domain_core.Prelude.Map.{get, insert}
use my_domain_core.Ctx.{Ctx, emit, now_secs}
use my_domain_core.Transport.Live.{is_live, mark_live}
use my_domain_core.Transport.Live.Events.{IsShown, dot}
use my_domain_core.Transport.Live.Race.{drop_entry, drop_event, drop_race}
use my_domain_core.Transport.Send.Quiet.{Quiet}
use my_domain_core.Transport.Punch.{
  punch_magic, punch_ping, punch_pong, same_bytes, ProbeRound, ConfirmRound, confirm_round_trip,
}
use my_domain_core.Transport.Punch.Path.{first_pong, confirm_round_trip_lem}
use my_domain_core.Transport.Punch.Driver.{PunchRun, punch_and_run}
use my_domain_core.Transport.Punch.Driver.OneWay.{one_way_path, punch_and_run_returns}
use my_domain_core.Transport.Rtc.{RtcRound, transmit, channel_open, channel_data, channel_close}
use my_domain_core.Ctx.{session_of}
use my_domain_core.Discovery.{discovery_recv}
use my_domain_core.Engine.Signals.{on_signal}
use my_domain_core.Engine.Reach.Session.{arrival_keeps_session}
use my_domain_core.Transport.Incoming.{receive}
use my_domain_core.Transport.Links.{WsRound, ws_round, text_read}
use my_domain_core.Transport.Rtc.{drive_round}
use my_domain_core.Transport.Punch.Driver.{PunchLink, PunchRound, punch_round, Round}
use my_domain_core.Tests.Chunks.{empty-IsPending}
use my_domain_core.Tests.Devices.{device, device-IsShown, world}

abbrev near : SocketAddr
near = record { ip = ipv4 10 0 0 2; port = 7000 }

abbrev far : SocketAddr
far = record { ip = ipv4 10 0 0 3; port = 7001 }

abbrev there : Candidate
there = record { ip = "10.0.0.2"; port = 7000; kind = "host" }

abbrev probed : List ProbeRound
probed =
    record { resend = true; heard = none }
    ∷ record { resend = false; heard = some (punch_magic, near) }
    ∷ []

-- A ping from another address, then a pong from there.
abbrev confirmed : List ConfirmRound
confirmed =
    record { ping = true; heard = some (punch_ping, far) }
    ∷ record { ping = false; heard = some (punch_pong, far) }
    ∷ []

-- Only pings are heard.
abbrev one_way : List ConfirmRound
one_way =
    record { ping = true; heard = some (punch_ping, near) }
    ∷ record { ping = true; heard = none }
    ∷ []

confirm_round_trip_lem_example : (confirm_round_trip confirmed near device).1 ≡ first_pong confirmed
confirm_round_trip_lem_example = confirm_round_trip_lem confirmed near device

far_answers : first_pong confirmed ≡ some far
unfolding same_bytes
far_answers = refl

abbrev lost : PunchRun
lost = record { timeout_set = true; probing = probed; confirming = one_way; rounds = [] }

no_pong : first_pong lost.confirming ≡ none
unfolding same_bytes
no_pong = refl

one_way_path_example :
    (t : Ctx) × (punch_and_run world lost (there ∷ []) "b" device ≡ some t) × Quiet device t
one_way_path_example = one_way_path world lost (there ∷ []) "b" device no_pong

-- A frame goes out, and a chunk of a message comes in.
abbrev driven : PunchRun
driven = record {
  timeout_set = true;
  probing = probed;
  confirming = confirmed;
  rounds =
      record {
        outgoing = "x" ∷ [];
        send_ok = λ p. true;
        keepalive = true;
        heard = some (0x6d ∷ 0x64 ∷ 0x63 ∷ 0x6b ∷ 0 ∷ 0 ∷ 0 ∷ 7 ∷ 0 ∷ 2 ∷ 0 ∷ 1 ∷ 99 ∷ [], far);
      }
      ∷ record {
        outgoing = [];
        send_ok = λ p. false;
        keepalive = false;
        heard = some (punch_ping, near);
      }
      ∷ [];
}

punch_and_run_returns_example :
    (t : Ctx) × (punch_and_run world driven (there ∷ []) "b" device ≡ some t) × IsShown t
punch_and_run_returns_example =
    punch_and_run_returns world driven (there ∷ []) "b" device (omega arith) device-IsShown

abbrev rtc_rounds : List RtcRound
rtc_rounds =
    record {
      alive = true;
      outgoing = [];
      has_channel = false;
      outputs = transmit near (1 ∷ []) ∷ channel_open 1 ∷ [];
      poll_ok = true;
    }
    ∷ record {
      alive = true;
      outgoing = "x" ∷ [];
      has_channel = true;
      outputs = channel_data (2 ∷ []) ∷ channel_close ∷ [];
      poll_ok = true;
    }
    ∷ record { alive = false; outgoing = []; has_channel = false; outputs = []; poll_ok = true }
    ∷ []

-- A round of each kind of link, and a link that has just begun.
abbrev begun : PunchLink
begun = record { conn_id = 1; node_id = "b"; peer = near; next_msg_id = 0; pending = [] }

abbrev heard_chunk : PunchRound
heard_chunk = record {
  outgoing = "x" ∷ [];
  send_ok = λ p. true;
  keepalive = true;
  heard = some (0x6d ∷ 0x64 ∷ 0x63 ∷ 0x6b ∷ 0 ∷ 0 ∷ 0 ∷ 7 ∷ 0 ∷ 2 ∷ 0 ∷ 1 ∷ 99 ∷ [], far);
}

abbrev said_hello : WsRound
said_hello = record { read = text_read "hello a"; outgoing = []; write_ok = λ f. true }

abbrev opened : RtcRound
opened = record {
  alive = true;
  outgoing = [];
  has_channel = false;
  outputs = channel_open 1 ∷ [];
  poll_ok = true;
}

arrival_keeps_session_example :
    (session_of (receive world "UDP" (2 ∷ []) "10.0.0.2" device) ≡ session_of device)
    × (session_of (discovery_recv world (2 ∷ []) near.ip device) ≡ session_of device)
    × (session_of (on_signal world "b" "bye" device) ≡ session_of device)
    × (session_of (ws_round world said_hello (record { conn_id = 1; peer_id = none }) device).0
        ≡ session_of device)
    × (session_of
          (drive_round world opened
            (record { conn_id = 1; node_id = "b"; cid = none; registered = false })
            device).0
        ≡ session_of device)
    × ((round : Round)
        → punch_round world heard_chunk begun device ≡ some round
        → session_of round.0 ≡ session_of device)
arrival_keeps_session_example =
    arrival_keeps_session world device "UDP" "10.0.0.2" "b" "bye" (2 ∷ []) near.ip said_hello
      (record { conn_id = 1; peer_id = none }) opened
      (record { conn_id = 1; node_id = "b"; cid = none; registered = false }) heard_chunk begun
      (omega arith) empty-IsPending

abbrev live_a : Ctx
live_a = mark_live "a" udp none device

live_a_lem : is_live live_a "a" ≡ true
unfolding mark_live is_live emit now_secs get insert
live_a_lem = refl

drop_race_example :
    let (t, removed) = drop_entry "a" live_a in
    let u = drop_event "a" removed (mark_live "a" udp (some near) t) in
    (is_live u "a" ≡ true) × (dot u.trace "a" ≡ false)
drop_race_example = drop_race "a" udp (some near) live_a live_a_lem
