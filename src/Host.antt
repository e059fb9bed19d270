-- ===== src/Host.antt =====
-- What the core calls and does not implement: third-party crates (serde_json, XChaCha20-Poly1305,
-- base64, Argon2), the operating system's sockets, and the host's `Platform`. They are the parameter
-- of every component that uses them; `turn` tells one external call from the next.
use my_domain_core.Prelude.{nat_eq, string_eq, ℕ, String, Bool, Option, List}
use my_domain_core.Net.{SocketAddr, Ipv4Addr}
use my_domain_core.Nat.Stun.{Exchange}
use my_domain_core.Model.{
  Plaintext, Envelope, WsFrame, Signal, Beacon, TokenResp, RegistryDevice, ProbeResult, IfaceMode,
}
use my_domain_core.Model.Json.{Value}

-- How a TCP send of one message ends; each error carries the system's message, and a failed
-- `write_all` how many bytes it had written.
pub data TcpResult : Type 0 where
  tcp_done : TcpResult
  connect_failed shutdown_failed : String → TcpResult
  write_failed : ℕ → String → TcpResult

pub data UdpResult : Type 0 where
  udp_done : UdpResult
  bind_failed send_failed : String → UdpResult

-- A request to the registry: its method, URL, bearer token and JSON body.
pub record Request : Type 0 where
  pub method : String
  pub url : String
  pub bearer : Option String
  pub body : Option Value

-- What `ureq` returned: a response with its body, an error status with its body, or a transport error.
pub data HttpOutcome : Type 0 where
  response : String → HttpOutcome
  status : ℕ → String → HttpOutcome
  transport : String → HttpOutcome

-- How dialling a WebSocket ends; each error carries the system's message.
pub data Dial : Type 0 where
  dialled : Dial
  not_connected no_timeout no_handshake : String → Dial

-- A listener or a socket that the engine opens: its port, or the system's message.
pub data Bind : Type 0 where
  bound : ℕ → Bind
  not_bound : String → Bind

-- The calls on the discovery socket: the port it binds, the group and interface it joins, the
-- interface it sends on, the second handle; `bind_any` opens the plain socket in its place.
pub data SocketCall : Type 0 where
  new_socket reuse_address reuse_port multicast_loop try_clone bind_any : SocketCall
  bind_port : ℕ → SocketCall
  join_group : Ipv4Addr → Ipv4Addr → SocketCall
  multicast_if : Ipv4Addr → SocketCall

pub record Host : Type 0 where
  pub json_from_str : String → Option Value
  pub json_to_string : Value → String
  pub json_number : ℕ → Value
  pub plaintext_to_vec : Plaintext → Option (List ℕ)
  pub plaintext_from_slice : List ℕ → Option Plaintext
  pub envelope_to_vec : Envelope → Option (List ℕ)
  pub envelope_from_slice : List ℕ → Option Envelope
  pub frame_to_string : WsFrame → Option String
  pub frame_from_str : String → Option WsFrame
  pub signal_from_str : String → Option Signal
  pub beacon_from_slice : List ℕ → Option Beacon
  pub base64_encode : List ℕ → String
  pub base64_decode : String → Option (List ℕ)
  pub aead_encrypt : List ℕ → List ℕ → List ℕ → Option (List ℕ)
  pub aead_decrypt : List ℕ → List ℕ → List ℕ → Option (List ℕ)
  pub argon2 : String → String → Option (List ℕ)
  pub random : ℕ → ℕ → List ℕ
  pub tcp_send : ℕ → SocketAddr → List ℕ → TcpResult
  pub udp_send : ℕ → SocketAddr → List ℕ → UdpResult
  pub clipboard : Option (ℕ → Option String)
  pub notifier : Bool
  -- the HTTP client, and serde's readers of the bodies
  pub http : ℕ → Request → HttpOutcome
  pub token_from_body : String → Option TokenResp
  pub devices_from_body : String → Option (List RegistryDevice)
  pub probe_from_body : String → Option ProbeResult
  pub signal_to_value : Signal → Option Value
  pub beacon_to_vec : Beacon → Option (List ℕ)
  -- the platform
  pub fcm_token : ℕ → Option String
  pub platform_kind : String
  pub local_ip : ℕ → String
  pub iface_mode : ℕ → IfaceMode
  pub uuid : ℕ → String
  -- `as_bytes`, and serde's reader of a frame's bytes
  pub utf8 : String → List ℕ
  pub frame_from_slice : List ℕ → Option WsFrame
  -- the sockets of a connection's set-up: a dialled WebSocket, the port of a fresh UDP socket, the
  -- address of the STUN server, and what an exchange with it brings
  pub ws_dial : ℕ → SocketAddr → Dial
  pub udp_port : ℕ → Option ℕ
  pub stun_server : ℕ → Option SocketAddr
  pub stun_exchange : ℕ → SocketAddr → Exchange
  -- str0m: the local address of a fresh socket on the device's address; the offer and the answer that
  -- it makes of that address and the reflexive one; whether it reads an offer, and takes an answer
  pub rtc_socket : ℕ → String → Option SocketAddr
  pub rtc_offer : ℕ → SocketAddr → Option SocketAddr → Option String
  pub rtc_reads_offer : String → Bool
  pub rtc_accept : ℕ → SocketAddr → Option SocketAddr → String → Option String
  pub rtc_takes_answer : ℕ → String → Bool
  -- what `Engine::start` asks the platform and the system for, and the platform's store
  pub device_id : String
  pub device_name : String
  pub tcp_listen : ℕ → Bind
  pub udp_listen : ℕ → Bind
  -- by the calls on the same socket that succeeded, the latest first; `none` is success
  pub socket_call : ℕ → List SocketCall → SocketCall → Option String
  pub kv_get : ℕ → String → Option String
