-- ===== src/Tests/Handshake.antt =====
-- Two devices on one LAN: a world in which a ping and its pong are the only messages, and the ladder of
-- the one device up to the link with the other.
use my_domain_core.Prelude.{
  if◌then◌else◌, nat_eq, string_eq, ◌==◌, or_default, ℕ, String, ◌≡◌, refl, true, false, ◌&&◌,
  Option, none, some, List, [], ◌∷◌, arith,
}
use text.Mathlib.TextEquality.{eq_iff}
use my_domain_core.Prelude.Map.{get, insert, contains_key}
use my_domain_core.Text.{
  is_empty, eq_ignore_ascii_case, parse_ipv4, trim, trim_start, trim_end_by, is_whitespace,
}
use my_domain_core.Net.{SocketAddr, ipv4}
use my_domain_core.Model.{Plaintext, Envelope, Peer, lan, udp}
use my_domain_core.Model.Json.{str_field}
use my_domain_core.Host.{Host}
use my_domain_core.Crypto.{IsCipher, encrypt, decrypt}
use my_domain_core.Ctx.{Ctx, emit, next_turn, udp_sent}
use my_domain_core.Transport.Live.{mark_live, is_live}
use my_domain_core.Transport.Send.{
  send_payload, seal, send_control_to, best_proto, send_direct, send_udp,
}
use my_domain_core.Transport.Incoming.{receive, handle_incoming, open_envelope, show_or_dispatch}
use my_domain_core.Features.{
  dispatch, find_handler, with_defaults, handle, p2p_ping_handler, str_of, kind_of,
}
use my_domain_core.Transport.Incoming.EndToEnd.{IsCodec}
use my_domain_core.Transport.Handshake.{note, note_text, ReadsNote}
use my_domain_core.Engine.Peers.{same_lan}
use my_domain_core.Engine.Ladder.{progress, run_connect_ladder}
use my_domain_core.Engine.Ladder.Wait.{after}
use my_domain_core.Engine.Ladder.Ping.{ping_connects}
use my_domain_core.Tests.Devices.{
  device, world, unary, of_unary, sealed_nonce, world-IsCipher, frame_lem,
}

abbrev ping_plain : Plaintext
ping_plain = record { from = "One"; text = "ping" }

abbrev pong_plain : Plaintext
pong_plain = record { from = "Two"; text = "pong" }

abbrev ping_sealed : Envelope
ping_sealed = record { nonce = sealed_nonce; ciphertext = unary (1 ∷ []) }

abbrev pong_sealed : Envelope
pong_sealed = record { nonce = sealed_nonce; ciphertext = unary (3 ∷ []) }

abbrev note_to_vec : Plaintext → Option (List ℕ)
note_to_vec p =
    if p.from == "One" && p.text == "ping"
    then some (1 ∷ [])
    else if p.from == "Two" && p.text == "pong"
    then some (3 ∷ [])
    else none

abbrev note_from_slice : List ℕ → Option Plaintext
note_from_slice [] = none
note_from_slice (x ∷ xs) = if x == 1 then some ping_plain else some pong_plain

abbrev sealed_to_vec : Envelope → Option (List ℕ)
sealed_to_vec e =
    if e.nonce == sealed_nonce && e.ciphertext == unary (1 ∷ [])
    then some (2 ∷ [])
    else if e.nonce == sealed_nonce && e.ciphertext == unary (3 ∷ [])
    then some (4 ∷ [])
    else none

abbrev sealed_from_slice : List ℕ → Option Envelope
sealed_from_slice [] = none
sealed_from_slice (x ∷ xs) = if x == 2 then some ping_sealed else some pong_sealed

abbrev quiet_lan : Host
quiet_lan = record world {
  json_to_string = λ v. if or_default (str_field v "type") "" == "p2p_ping" then "ping" else "pong";
  json_from_str =
      λ t. if t == "ping" then some (note "p2p_ping" "n1") else some (note "p2p_pong" "n2");
  plaintext_to_vec = note_to_vec;
  plaintext_from_slice = note_from_slice;
  envelope_to_vec = sealed_to_vec;
  envelope_from_slice = sealed_from_slice;
}

note_plain : (p : Plaintext) (b : List ℕ) → note_to_vec p ≡ some b → note_from_slice b ≡ some p
note_plain p b e =
    ground
      (arith, eq_iff p.from "One", eq_iff p.text "ping", eq_iff p.from "Two", eq_iff p.text "pong")

sealed_note : (e : Envelope) (b : List ℕ) → sealed_to_vec e ≡ some b → sealed_from_slice b ≡ some e
sealed_note e b k = ground (
  arith,
  eq_iff e.nonce sealed_nonce,
  eq_iff e.ciphertext (unary (1 ∷ [])),
  eq_iff e.ciphertext (unary (3 ∷ [])),
)

lan-IsCipher : IsCipher quiet_lan
lan-IsCipher = record {
  base64 = world-IsCipher.base64;
  fills = world-IsCipher.fills;
  opens = world-IsCipher.opens;
}

lan-IsCodec : IsCodec quiet_lan
lan-IsCodec = record { plaintext = note_plain; envelope = sealed_note; frame = frame_lem }

abbrev peer_at : String → String → ℕ → Peer
peer_at node_id ip udp_port = record {
  node_id = node_id;
  name = "";
  ip = ip;
  tcp_port = 0;
  udp_port = udp_port;
  ws_port = 0;
  source = lan;
  ws_open = false;
  inbound_blocked = false;
  reflexive_ip = none;
  reflexive_udp_port = none;
}

abbrev one : Ctx
one = record device { peers = ("n2", peer_at "n2" "10.0.0.2" 22) ∷ [] }

abbrev two : Ctx
two = record device {
  identity = record {
    node_id = "n2";
    name = "Two";
    ip = "10.0.0.2";
    tcp_port = 1;
    udp_port = 22;
    ws_port = 3;
  };
  peers = ("n1", peer_at "n1" "10.0.0.1" 2) ∷ [];
}

abbrev climbing : Ctx
climbing = progress "n2" "udp_ping" none one

abbrev pinged : Ctx
pinged = (send_payload quiet_lan "One" "n2" "UDP" (note_text quiet_lan "p2p_ping" "n1") climbing).0

-- On the first device the pong arrives while the ladder waits.
abbrev pong_arrives : Ctx → Ctx
pong_arrives t = receive quiet_lan "UDP" (4 ∷ []) "10.0.0.2" t

abbrev two_addr : SocketAddr
two_addr = record { ip = ipv4 10 0 0 2; port = 22 }

abbrev one_addr : SocketAddr
one_addr = record { ip = ipv4 10 0 0 1; port = 2 }

ping_leaves : pinged.trace ≡ udp_sent two_addr (2 ∷ []) ∷ climbing.trace
unfolding send_payload seal progress emit str_field encrypt unary eq_ignore_ascii_case send_direct
    get next_turn parse_ipv4 send_udp
ping_leaves = refl

pong_leaves :
    (receive quiet_lan "UDP" (2 ∷ []) "10.0.0.1" two).trace
    ≡ udp_sent one_addr (4 ∷ []) ∷ (mark_live "n1" udp none two).trace
unfolding send_payload receive handle_incoming open_envelope decrypt of_unary unary show_or_dispatch
    dispatch find_handler str_field get with_defaults insert handle p2p_ping_handler str_of kind_of
    mark_live send_control_to best_proto contains_key trim trim_start trim_end_by is_whitespace seal
    encrypt eq_ignore_ascii_case send_direct next_turn parse_ipv4 send_udp emit
pong_leaves = refl

near : same_lan one (peer_at "n2" "10.0.0.2" 22) ≡ true
unfolding same_lan parse_ipv4
near = refl

named_one : is_empty "n1" ≡ false
named_one = refl

named_two : is_empty "n2" ≡ false
named_two = refl

known_two : get one.peers "n2" ≡ some (peer_at "n2" "10.0.0.2" 22)
unfolding get
known_two = refl

same_key : pinged.key ≡ one.key
unfolding send_payload seal progress emit str_field encrypt unary eq_ignore_ascii_case send_direct
    get next_turn parse_ipv4 send_udp
same_key = refl

pong_taken : after pong_arrives 1 pinged ≡ receive quiet_lan "UDP" (4 ∷ []) "10.0.0.2" pinged
unfolding after
pong_taken = refl

reads_ping : ReadsNote quiet_lan "p2p_ping" "n1"
unfolding str_field
reads_ping = refl

reads_pong : ReadsNote quiet_lan "p2p_pong" "n2"
unfolding str_field
reads_pong = refl

ping_connects_example :
    (is_live (receive quiet_lan "UDP" (2 ∷ []) "10.0.0.1" two) "n1" ≡ true)
    × (is_live (run_connect_ladder pong_arrives quiet_lan "n2" one) "n2" ≡ true)
ping_connects_example =
    ping_connects pong_arrives quiet_lan one two pinged (peer_at "n2" "10.0.0.2" 22) 0 "10.0.0.1"
      "10.0.0.2" two_addr one_addr (2 ∷ []) (4 ∷ []) lan-IsCipher lan-IsCodec reads_ping reads_pong
      refl same_key named_one named_two known_two near ping_leaves pong_leaves (omega arith)
      pong_taken
