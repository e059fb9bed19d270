-- ===== src/Engine/Start.antt =====
-- engine.rs: `Engine::start`, the read-only accessors, and the beacons of `scan_lan`.
pub mod Fresh
use my_domain_core.Prelude.{
  if◌then◌else◌, nat_eq, string_eq, is_some, or_default, ℕ, String, Bool, true, false, Option, none,
  some, List, [], ◌∷◌, ◌++◌,
}
use my_domain_core.Prelude.Result.{Result, ok, err, ◌>>=◌}
use my_domain_core.Prelude.Map.{keys, values}
use my_domain_core.Text.{trim, is_empty}
use my_domain_core.Model.{Identity, Peer}
use my_domain_core.Host.{Host, Bind, bound, not_bound, try_clone, bind_any}
use my_domain_core.Ctx.{
  Ctx, Thread, record_effect, next_turn, spawned, discovery_receiver, tcp_receiver, udp_receiver,
  ws_server, clipboard_watcher, network_watcher, heartbeater,
}
use my_domain_core.Discovery.{send_beacon, lan_targets}
use my_domain_core.Discovery.Bind.{bind_multicast}

-- The port of a listener or of a socket.
abbrev pub port_of : Bind → Result String ℕ
port_of (bound port) = ok port
port_of (not_bound e) = err e

abbrev pub clip_threads : Bool → List Thread
clip_threads true = clipboard_watcher ∷ []
clip_threads false = []

-- All threads, in the order of their start.
abbrev pub threads : List Thread → Bool → List Thread
threads discovering has_clipboard =
    discovering
    ++ (tcp_receiver ∷ udp_receiver ∷ ws_server ∷ [])
    ++ clip_threads has_clipboard
    ++ (network_watcher ∷ heartbeater ∷ [])

unfoldable pub spawn_all : List Thread → Ctx → Ctx
spawn_all [] s = s
spawn_all (t ∷ ts) s = spawn_all ts (record_effect (spawned t) s)

-- The tables are empty, nobody is logged in, and the sequences start at their constants.
abbrev pub new_ctx : Identity → Bool → Option ℕ → Ctx
new_ctx identity has_clipboard clock = record {
  identity = identity;
  key = none;
  peers = [];
  ws_conns = [];
  gone = [];
  p2p_conns = [];
  punch_waiters = [];
  rtc_waiters = [];
  clip_active = false;
  clip_last = "";
  clip_pending = [];
  installed_apps = "[]";
  subs = [];
  directed_transport = "UDP";
  server_url = none;
  token = none;
  username = none;
  ws_seq = 1;
  punch_seq = 1000000;
  rtc_seq = 2000000;
  has_clipboard = has_clipboard;
  clock = clock;
  turn = 7;
  trace = [];
}

-- `SessionInfo` and `SavedSession`.
pub record SessionInfo : Type 0 where
  pub username : Option String
  pub server_url : Option String
  pub has_key : Bool

pub record SavedSession : Type 0 where
  pub server_url : String
  pub username : String

module _ (h : Host) where
  -- The platform's id, or a random one where it is blank.
  unfoldable pub node_id_of_device : String
  node_id_of_device = if is_empty (trim h.device_id) then h.uuid 0 else h.device_id

  abbrev pub identity_at : ℕ → ℕ → ℕ → Identity
  identity_at tcp_port udp_port ws_port = record {
    node_id = node_id_of_device;
    name = h.device_name;
    ip = h.local_ip 4;
    tcp_port = tcp_port;
    udp_port = udp_port;
    ws_port = ws_port;
  }

  -- The threads of discovery: the plain socket that stands in when the group cannot be joined sends
  -- only, so it has none.
  unfoldable pub disco_threads : Result String (List Thread)
  disco_threads = elim (bind_multicast h 6 (h.iface_mode 5)) [
    | ok done ↦ elim (h.socket_call 6 done try_clone) [
      | none ↦ ok (discovery_receiver ∷ [])
      | some e ↦ err e
    ]
    | err why ↦ elim (h.socket_call 6 [] bind_any) [ none ↦ ok [] | some e ↦ err e ]
  ]

  -- The engine that is started, or the system's message about the first socket that it does not get.
  unfoldable pub start : Option ℕ → Result String Ctx
  start clock = do
    tcp_port ← port_of (h.tcp_listen 1)
    udp_port ← port_of (h.udp_listen 2)
    ws_port ← port_of (h.tcp_listen 3)
    discovering ← disco_threads
    ok (
        spawn_all (threads discovering (is_some h.clipboard))
          (new_ctx (identity_at tcp_port udp_port ws_port) (is_some h.clipboard) clock))

  unfoldable pub saved_session : Ctx → SavedSession
  saved_session s = record {
    server_url = or_default (h.kv_get s.turn "server_url") "";
    username = or_default (h.kv_get s.turn "username") "";
  }

  -- Three beacons to the targets of the moment.
  unfoldable pub scan_lan : Ctx → Ctx
  scan_lan s =
      let targets = lan_targets (h.iface_mode s.turn) in
      let id = s.identity in
      send_beacon h id false targets
        (send_beacon h id false targets (send_beacon h id false targets (next_turn s)))

unfoldable pub session_info : Ctx → SessionInfo
session_info s = record {
  username = s.username;
  server_url = s.server_url;
  has_key = is_some s.key;
}

unfoldable pub get_peers : Ctx → List Peer
get_peers s = values s.peers

unfoldable pub connected_peers : Ctx → List String
connected_peers s = keys s.p2p_conns
