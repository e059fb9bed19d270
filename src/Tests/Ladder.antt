-- ===== src/Tests/Ladder.antt =====
-- The tests of the engine's start, its signals, the connection ladder, and runs of the whole.
use my_domain_core.Prelude.{
  nat_eq, string_eq, none, ℕ, suc, ◌/◌, ◌<◌, ◌≡◌, refl, ◌⊎◌, true, false, some, [], ◌∷◌,
}
use my_domain_core.Prelude.Result.{ok}
use my_domain_core.Prelude.Map.{get}
use my_domain_core.Text.{trim, trim_start, trim_end_by, is_whitespace, is_empty}
use my_domain_core.Model.{lan, punch_answer, sdp_answer}
use my_domain_core.Model.Json.{null}
use my_domain_core.Host.{Host, response}
use my_domain_core.Ctx.{Ctx, next_turn, discovery_receiver}
use my_domain_core.Transport.Live.{is_live}
use my_domain_core.Transport.Live.Events.{IsShown}
use my_domain_core.Transport.Send.{send_payload}
use my_domain_core.Transport.Send.Sealed.{SendsSealed, send_payload-SendsSealed}
use my_domain_core.Engine.Peers.{add_manual_peer}
use my_domain_core.Discovery.Bind.{bind_multicast, join_groups, join_each}
use my_domain_core.Engine.Start.{start, disco_threads, spawn_all, threads, new_ctx, identity_at}
use my_domain_core.Engine.Start.Fresh.{start_lem}
use my_domain_core.Engine.Signals.{take_signal, firewall_check}
use my_domain_core.Engine.Signals.Firewall.{Tells, firewall_check_told}
use my_domain_core.Engine.Signals.Waiters.{take_signal_once}
use my_domain_core.Engine.Ladder.{wait_live, run_connect_ladder}
use my_domain_core.Engine.Ladder.Wait.{after, wait_live_lem}
use my_domain_core.Engine.Ladder.End.{IsFailed, run_connect_ladder_ends}
use my_domain_core.Engine.Ladder.Waiters.{IsPunchFree, IsRtcFree, run_connect_ladder-free}
use my_domain_core.Engine.Reach.{Step, Reach}
use my_domain_core.Engine.Reach.Registry.{started-IsDerived}
use my_domain_core.Engine.Reach.Runs.{IsDerived}
use my_domain_core.Tests.Devices.{device, world}

abbrev pub engine : Ctx
engine =
    spawn_all (threads (discovery_receiver ∷ []) false)
      (new_ctx (identity_at world 4001 4002 4003) false (some 100))

pub starts : start world (some 100) ≡ ok engine
unfolding start disco_threads bind_multicast join_groups join_each
starts = refl

named : is_empty (trim (world.uuid 0)) ≡ false
unfolding trim trim_start trim_end_by is_whitespace
named = refl

start_lem_example :
    (is_empty (trim engine.identity.node_id) ≡ false)
    × IsShown engine
    × (engine.p2p_conns ≡ [])
    × (engine.key ≡ none)
start_lem_example = start_lem world (some 100) engine named starts

-- A peer is added by hand; then the ladder runs towards it, while time passes.
abbrev added : Ctx
added = (add_manual_peer "B" "10.0.0.9" 1 2 3 engine).0

abbrev climbed : Ctx
climbed = run_connect_ladder next_turn world "manual:10.0.0.9" added

runs : Reach world engine climbed
runs =
    Reach.then_step engine added climbed
      (Reach.then_step engine engine added (Reach.here engine)
        (Step.adds_peer "B" "10.0.0.9" 1 2 3 engine))
      (Step.climbs next_turn "manual:10.0.0.9" added
        (λ t. Reach.then_step t t (next_turn t) (Reach.here t) (Step.turns t)))

started-IsDerived_example : IsDerived world climbed.key
started-IsDerived_example = started-IsDerived world (some 100) engine climbed named starts runs

run_connect_ladder_ends_example :
    (is_live climbed "manual:10.0.0.9" ≡ true) ⊎ IsFailed "manual:10.0.0.9" climbed
run_connect_ladder_ends_example = run_connect_ladder_ends next_turn world "manual:10.0.0.9" added

-- A registry that relays every signal, and a device that is logged in, with a peer: the ladder offers
-- to punch under the id "u", and nobody answers.
abbrev relaying : Host
relaying = record world {
  http = λ turn r. response "{}";
  signal_to_value = λ x. some null;
  udp_port = λ turn. some 9;
}

abbrev paired : Ctx
paired = record device {
  peers =
      (
        "b",
        record {
          node_id = "b";
          name = "B";
          ip = "10.0.0.9";
          tcp_port = 1;
          udp_port = 2;
          ws_port = 0;
          source = lan;
          ws_open = false;
          inbound_blocked = false;
          reflexive_ip = none;
          reflexive_udp_port = none;
        },
      )
      ∷ [];
  server_url = some "http://a";
  token = some "t";
}

abbrev unanswered : Ctx
unanswered = run_connect_ladder (λ t. t) relaying "b" paired

none_waits : IsPunchFree "u" paired × IsRtcFree "u" paired
unfolding get
none_waits = (refl, refl)

run_connect_ladder-free_example : IsPunchFree "u" unanswered × IsRtcFree "u" unanswered
run_connect_ladder-free_example =
    run_connect_ladder-free (λ t. t) relaying "u" "b" paired (λ t e. e) (λ t e. e) none_waits.0
      none_waits.1

wait_live_lem_example :
    ((k : ℕ)
      → k < 300 / 100
      → is_live (after next_turn (suc k) device) "b" ≡ true
      → (wait_live next_turn "b" 300 device).1 ≡ true)
    × ((wait_live next_turn "b" 300 device).1 ≡ is_live (wait_live next_turn "b" 300 device).0 "b")
wait_live_lem_example = wait_live_lem next_turn "b" 300 device

-- Two threads wait for an answer under the id "s".
abbrev waiting : Ctx
waiting = record device { punch_waiters = ("s", 4) ∷ []; rtc_waiters = ("s", 5) ∷ [] }

take_signal_once_example :
    (take_signal world "c"
        (punch_answer "s" [] 0)
        (take_signal world "b" (punch_answer "s" [] 0) waiting)
      ≡ take_signal world "b" (punch_answer "s" [] 0) waiting)
    × (take_signal world "c"
          (sdp_answer "s" "y")
          (take_signal world "b" (sdp_answer "s" "x") waiting)
        ≡ take_signal world "b" (sdp_answer "s" "x") waiting)
take_signal_once_example = take_signal_once world "b" "c" "s" [] [] 0 0 "x" "y" waiting

-- A registry that answers, and finds the device's TCP port open; and a device that is logged in.
abbrev registry : Host
registry = record world {
  http = λ turn r. response "{}";
  probe_from_body =
      λ b. some (record { tcp_reachable = true; udp_reachable = false; ws_reachable = false });
}

abbrev logged_in : Ctx
logged_in = record device { server_url = some "http://s"; token = some "t" }

firewall_check_told_example : Tells registry logged_in (firewall_check registry logged_in)
firewall_check_told_example = firewall_check_told registry logged_in

abbrev known : Ctx
known = (add_manual_peer "B" "10.0.0.9" 1 2 3 device).0

send_payload-SendsSealed_example :
    SendsSealed world "ann" "hi" known (send_payload world "ann" "manual:10.0.0.9" "UDP" "hi" known)
send_payload-SendsSealed_example =
    send_payload-SendsSealed world "ann" "manual:10.0.0.9" "UDP" "hi" known
