-- ===== src/Model.antt =====
-- model.rs, signal.rs, events.rs and the small types of engine.rs and transport/mod.rs: the data that
-- the components share. Ports are numbers below 65536, times are seconds.
pub mod Json
use my_domain_core.Prelude.{nat_eq, string_eq, ℕ, String, Bool, Option, List}
use my_domain_core.Net.{SocketAddr, Ipv4Addr}
use Json.{Value}

pub record Identity : Type 0 where
  pub node_id : String
  pub name : String
  pub ip : String
  pub tcp_port : ℕ
  pub udp_port : ℕ
  pub ws_port : ℕ

pub record Beacon : Type 0 where
  pub node_id : String
  pub name : String
  pub tcp_port : ℕ
  pub udp_port : ℕ
  pub ws_port : ℕ
  pub reply : Bool

pub data Source : Type 0 where
  registry lan manual : Source

pub record Peer : Type 0 where
  pub node_id : String
  pub name : String
  pub ip : String
  pub tcp_port : ℕ
  pub udp_port : ℕ
  pub ws_port : ℕ
  pub source : Source
  pub ws_open : Bool
  pub inbound_blocked : Bool
  pub reflexive_ip : Option String
  pub reflexive_udp_port : Option ℕ

-- `from` is a field name of the source.
pub record Plaintext : Type 0 where
  pub from : String
  pub text : String

pub record Envelope : Type 0 where
  pub nonce : String
  pub ciphertext : String

pub record IncomingMessage : Type 0 where
  pub from : String
  pub ip : String
  pub protocol : String
  pub text : String
  pub ts : ℕ
  pub ok : Bool

pub data WsFrame : Type 0 where
  hello : String → String → WsFrame
  msg : String → String → WsFrame

-- `#[serde(rename_all = "lowercase")] enum TransportKind`
pub data TransportKind : Type 0 where
  ws udp punch web_rtc : TransportKind

pub record P2pConn : Type 0 where
  pub kind : TransportKind
  pub last_seen : ℕ
  pub addr : Option SocketAddr

pub record Candidate : Type 0 where
  pub ip : String
  pub port : ℕ
  pub kind : String

pub data Signal : Type 0 where
  start_ws : String → Signal
  ws_ready : String → String → ℕ → Signal
  ws_unavailable : String → String → Signal
  punch_offer : String → List Candidate → ℕ → Signal
  punch_answer : String → List Candidate → ℕ → Signal
  punch_ready : String → Signal
  punch_failed : String → String → Signal
  relay_offer : String → String → String → String → Signal
  relay_answer : String → Signal
  sdp_offer : String → String → Signal
  sdp_answer : String → String → Signal
  bye : String → Signal

-- The fields stand in the source's order.
pub data CoreEvent : Type 0 where
  peers_updated : List Peer → CoreEvent
  message_received : IncomingMessage → CoreEvent
  ws_connected : String → CoreEvent
  ws_disconnected : String → CoreEvent
  peer_connected : String → TransportKind → CoreEvent
  peer_disconnected : String → CoreEvent
  connect_progress : String → String → Option String → CoreEvent
  clipboard : String → String → String → String → CoreEvent
  notification : String → String → String → Option String → CoreEvent
  call_notification : String → String → Option String → String → CoreEvent
  call_history : String → Value → CoreEvent
  apps_list : String → Value → Value → CoreEvent

-- The answers of the registry (registry.rs).
pub record TokenResp : Type 0 where
  pub token : String
  pub username : String

pub record RegistryDevice : Type 0 where
  pub node_id : String
  pub name : String
  pub ip : String
  pub tcp_port : ℕ
  pub udp_port : ℕ
  pub ws_port : ℕ
  pub ws_open : Bool
  pub inbound_blocked : Bool
  pub reflexive_ip : Option String
  pub reflexive_udp_port : Option ℕ

pub record ProbeResult : Type 0 where
  pub tcp_reachable : Bool
  pub ws_reachable : Bool
  pub udp_reachable : Bool

-- `IfaceMode` of platform.rs.
pub data IfaceMode : Type 0 where
  all : List Ipv4Addr → IfaceMode
  single : Ipv4Addr → IfaceMode
