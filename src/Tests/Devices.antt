-- ===== src/Tests/Devices.antt =====
-- A small world for the tests: ciphers, codecs and sockets as concrete functions, and two devices.
use my_domain_core.Prelude.{
  if◌then◌else◌, nat_eq, string_eq, ◌==◌, replicate, length-replicate, ℕ, zero, suc, ◌+◌, String,
  ◌≡◌, refl, sym, ap, ◌∙◌, false, ◌&&◌, Option, none, some, List, [], ◌∷◌, arith,
}
use text.Mathlib.TextEquality.{eq_iff}
use Prim.Native.Char.{code}
use my_domain_core.Model.Json.{null}
use my_domain_core.Model.{all, Plaintext, Envelope, WsFrame, hello, msg}
use my_domain_core.Host.{Host, tcp_done, udp_done, transport, dialled, bound}
use my_domain_core.Text.{codes}
use my_domain_core.Nat.Stun.{timed_out}
use my_domain_core.Crypto.{IsCipher}
use my_domain_core.Ctx.{Ctx}
use my_domain_core.Transport.Live.{is_live}
use my_domain_core.Transport.Live.Events.{dot, IsShown}
use my_domain_core.Transport.Incoming.EndToEnd.{IsCodec}

-- A number in unary, closed by "b": a text encoding of byte lists.
unfoldable pub unary : List ℕ → String
unary [] = String.[]
unary (zero ∷ ns) = String.◌∷◌ "b" (unary ns)
unary (suc n ∷ ns) = String.◌∷◌ "a" (unary (n ∷ ns))

unfoldable pub of_unary : ℕ → String → List ℕ
of_unary k String.[] = []
of_unary k (String.◌∷◌ c s) =
    let next = of_unary 0 s in
    let same = of_unary (suc k) s in if code c == b'b' then k ∷ next else same

of_unary-unary : (k n : ℕ) (ns : List ℕ) → of_unary k (unary (n ∷ ns)) ≡ (k + n) ∷ ns
unfolding of_unary unary
of_unary-unary k zero [] = ground arith
of_unary-unary k zero (m ∷ ns) = rw (of_unary-unary 0 m ns) (ground arith)
of_unary-unary k (suc n) ns = rw (of_unary-unary (suc k) n ns) (ground arith)

abbrev pub sealed_nonce : String
sealed_nonce = unary (replicate 24 0)

abbrev pub sealed_text : String
sealed_text = unary (1 ∷ [])

abbrev pub hi : Plaintext
hi = record { from = "ann"; text = "hi" }

abbrev pub sealed : Envelope
sealed = record { nonce = sealed_nonce; ciphertext = sealed_text }

abbrev pub plaintext_to_vec : Plaintext → Option (List ℕ)
plaintext_to_vec p = if p.from == "ann" && p.text == "hi" then some (1 ∷ []) else none

abbrev pub envelope_to_vec : Envelope → Option (List ℕ)
envelope_to_vec e =
    if e.nonce == sealed_nonce && e.ciphertext == sealed_text then some (2 ∷ []) else none

abbrev pub frame_to_string : WsFrame → Option String
frame_to_string (hello n name) = if n == "a" && name == "A" then some "hello a" else none
frame_to_string (msg n c) = none

abbrev pub world : Host
world = record {
  json_from_str = λ t. none;
  json_to_string = λ v. "{}";
  json_number = λ n. null;
  plaintext_to_vec = plaintext_to_vec;
  plaintext_from_slice = λ b. some hi;
  envelope_to_vec = envelope_to_vec;
  envelope_from_slice = λ b. some sealed;
  frame_to_string = frame_to_string;
  frame_from_str = λ t. some (hello "a" "A");
  signal_from_str = λ t. none;
  beacon_from_slice = λ b. none;
  base64_encode = unary;
  base64_decode = λ t. some (of_unary 0 t);
  aead_encrypt = λ key nonce pt. some pt;
  aead_decrypt = λ key nonce ct. some ct;
  argon2 = λ passphrase salt. some (replicate 32 0);
  random = λ turn n. replicate n 0;
  tcp_send = λ turn addr body. tcp_done;
  udp_send = λ turn addr body. udp_done;
  clipboard = none;
  notifier = false;
  http = λ turn r. transport "offline";
  token_from_body = λ b. none;
  devices_from_body = λ b. none;
  probe_from_body = λ b. none;
  signal_to_value = λ x. none;
  beacon_to_vec = λ b. none;
  fcm_token = λ turn. none;
  platform_kind = "unknown";
  local_ip = λ turn. "10.0.0.1";
  iface_mode = λ turn. all [];
  device_id = "";
  device_name = "A";
  tcp_listen = λ turn. bound (4000 + turn);
  udp_listen = λ turn. bound (4000 + turn);
  socket_call = λ turn done c. none;
  kv_get = λ turn key. none;
  uuid = λ turn. "u";
  utf8 = codes;
  frame_from_slice = λ b. none;
  ws_dial = λ turn addr. dialled;
  udp_port = λ turn. none;
  stun_server = λ turn. none;
  stun_exchange = λ turn addr. timed_out;
  rtc_socket = λ turn ip. none;
  rtc_offer = λ turn local reflexive. none;
  rtc_reads_offer = λ t. false;
  rtc_accept = λ turn local reflexive t. none;
  rtc_takes_answer = λ turn t. false;
}

base64_lem : (b : List ℕ) → some (of_unary 0 (unary b)) ≡ some b
base64_lem [] = unfold of_unary unary in refl
base64_lem (n ∷ ns) = ap some (of_unary-unary 0 n ns ∙ ap (λ (k : ℕ). k ∷ ns) (omega arith))

pub world-IsCipher : IsCipher world
world-IsCipher = record {
  base64 = base64_lem;
  fills = λ turn n. length-replicate n 0;
  opens = λ key nonce pt ct e. sym e;
}

plaintext_lem : (p : Plaintext) (b : List ℕ) → plaintext_to_vec p ≡ some b → some hi ≡ some p
plaintext_lem p b e = ground (arith, eq_iff p.from "ann", eq_iff p.text "hi")

envelope_lem : (e : Envelope) (b : List ℕ) → envelope_to_vec e ≡ some b → some sealed ≡ some e
envelope_lem e b h = ground (arith, eq_iff e.nonce sealed_nonce, eq_iff e.ciphertext sealed_text)

pub frame_lem :
    (f : WsFrame) (t : String) → frame_to_string f ≡ some t → some (hello "a" "A") ≡ some f
frame_lem (hello n name) t e = ground (arith, eq_iff n "a", eq_iff name "A")
frame_lem (msg n c) t e = cc

pub world-IsCodec : IsCodec world
world-IsCodec = record { plaintext = plaintext_lem; envelope = envelope_lem; frame = frame_lem }

abbrev pub device : Ctx
device = record {
  identity = record {
    node_id = "n1";
    name = "One";
    ip = "10.0.0.1";
    tcp_port = 1;
    udp_port = 2;
    ws_port = 3;
  };
  key = some (replicate 32 7);
  peers = [];
  ws_conns = [];
  gone = [];
  p2p_conns = [];
  punch_waiters = [];
  rtc_waiters = [];
  clip_active = false;
  clip_last = "";
  clip_pending = [];
  installed_apps = "[]";
  subs = [];
  directed_transport = "UDP";
  server_url = none;
  token = none;
  username = none;
  ws_seq = 1;
  punch_seq = 1_000_000;
  rtc_seq = 2_000_000;
  has_clipboard = false;
  clock = some 100;
  turn = 0;
  trace = [];
}

pub device-IsShown : IsShown device
unfolding dot is_live
device-IsShown node = refl
