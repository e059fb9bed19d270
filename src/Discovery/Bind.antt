-- ===== src/Discovery/Bind.antt =====
-- discovery.rs, `bind_multicast`: the discovery socket, call by call. A call's result is the system's,
-- given the calls on the same socket that succeeded before it; `set_reuse_port` is compiled in (Unix).
pub mod Joins
use my_domain_core.Prelude.{nat_eq, string_eq, ℕ, String, none, some, List, [], ◌∷◌}
use my_domain_core.Prelude.Result.{Result, ok, err, ◌>>=◌}
use my_domain_core.Net.{Ipv4Addr, ipv4}
use my_domain_core.Model.{IfaceMode, all, single}
use my_domain_core.Host.{
  Host, SocketCall, new_socket, reuse_address, reuse_port, bind_port, join_group, multicast_if,
  multicast_loop,
}
use my_domain_core.Discovery.{mcast_group, discovery_port}

module _ (h : Host) (turn : ℕ) where
  -- A call whose error the caller passes on (`?`).
  abbrev pub require : SocketCall → List SocketCall → Result String (List SocketCall)
  require c done = elim (h.socket_call turn done c) [ none ↦ ok (c ∷ done) | some e ↦ err e ]

  -- A call whose error is ignored (`let _ =`).
  abbrev pub attempt : SocketCall → List SocketCall → List SocketCall
  attempt c done = elim (h.socket_call turn done c) [ none ↦ c ∷ done | some e ↦ done ]

  unfoldable pub join_each : List Ipv4Addr → List SocketCall → List SocketCall
  join_each [] done = done
  join_each (a ∷ as') done = join_each as' (attempt (join_group mcast_group a) done)

  unfoldable pub join_groups : IfaceMode → List SocketCall → Result String (List SocketCall)
  join_groups (all addrs) done =
      ok (attempt (join_group mcast_group (ipv4 0 0 0 0)) (join_each addrs done))
  join_groups (single a) done = do
    joined ← require (join_group mcast_group a) done
    require (multicast_if a) joined

  -- The calls that made the socket, the latest first, or the system's message.
  unfoldable pub bind_multicast : IfaceMode → Result String (List SocketCall)
  bind_multicast mode = do
    fresh ← require new_socket []
    shared ← require reuse_address fresh
    shared' ← require reuse_port shared
    bound ← require (bind_port discovery_port) shared'
    joined ← join_groups mode bound
    require multicast_loop joined
