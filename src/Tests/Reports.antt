-- ===== src/Tests/Reports.antt =====
-- A punched link comes up and ends, and its two reports come in the other order.
use my_domain_core.Prelude.{nat_eq, string_eq, ◌+◌, ◌≡◌, refl, some, [], ◌∷◌, ◌++◌}
use my_domain_core.Prelude.Map.{get, insert, contains_key}
use my_domain_core.Net.{SocketAddr}
use my_domain_core.Model.{punch, peer_connected, peer_disconnected}
use my_domain_core.Ctx.{Ctx, emit, record_effect}
use my_domain_core.Transport.Live.{mark_live, drop_live, is_live}
use my_domain_core.Transport.Live.Events.{link_events}
use my_domain_core.Transport.Live.Balance.{connects, disconnects, as_number}
use my_domain_core.Transport.Links.{punch_register, link_exit, owns, remove_link, hang_up}
use my_domain_core.Engine.Reach.{Step}
use my_domain_core.Engine.Reach.Reports.{Reported, started-balance}
use my_domain_core.Engine.Start.{spawn_all}
use my_domain_core.Tests.Devices.{world}
use my_domain_core.Tests.Ladder.{engine, starts}

abbrev peer_addr : SocketAddr
peer_addr = record { ip = record { o0 = 10; o1 = 0; o2 = 0; o3 = 9 }; port = 9 }

abbrev punched : Ctx
punched = mark_live "b" punch (some peer_addr) (record engine {
  punch_seq = engine.punch_seq + 1;
  ws_conns = insert engine.ws_conns "b" engine.punch_seq;
})

abbrev ended : Ctx
ended = link_exit "b" engine.punch_seq punched

registered : punch_register "b" peer_addr engine ≡ some (engine.punch_seq, punched)
unfolding punch_register contains_key get spawn_all record_effect
registered = refl

came_up : link_events punched.trace ≡ (peer_connected "b" punch ∷ []) ++ link_events engine.trace
unfolding link_events mark_live emit spawn_all get
came_up = refl

went_down : link_events ended.trace ≡ (peer_disconnected "b" ∷ []) ++ link_events punched.trace
unfolding link_exit link_events mark_live drop_live emit spawn_all get insert contains_key owns
    remove_link hang_up
went_down = refl

in_other_order :
    Reported world engine ended []
      (peer_connected "b" punch ∷ peer_disconnected "b" ∷ link_events engine.trace)
in_other_order =
    Reported.reports ended [] [] (peer_disconnected "b" ∷ link_events engine.trace)
      (peer_connected "b" punch)
      (Reported.reports ended [] (peer_connected "b" punch ∷ []) (link_events engine.trace)
        (peer_disconnected "b")
        (Reported.steps punched ended (peer_connected "b" punch ∷ []) (link_events engine.trace)
          (peer_disconnected "b" ∷ [])
          (Reported.steps engine punched [] (link_events engine.trace)
            (peer_connected "b" punch ∷ []) Reported.starts
            (Step.punch_registers "b" peer_addr engine (engine.punch_seq, punched) registered)
            came_up)
          (Step.punch_ends "b" engine.punch_seq punched) went_down))

started-balance_example :
    connects "b" (peer_connected "b" punch ∷ peer_disconnected "b" ∷ link_events engine.trace)
      + connects "b" []
    ≡ disconnects "b" (peer_connected "b" punch ∷ peer_disconnected "b" ∷ link_events engine.trace)
      + disconnects "b" []
      + as_number (is_live ended "b")
started-balance_example =
    started-balance world (some 100) engine ended []
      (peer_connected "b" punch ∷ peer_disconnected "b" ∷ link_events engine.trace) "b" starts
      in_other_order
