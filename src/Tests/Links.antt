-- ===== src/Tests/Links.antt =====
-- The tests of the messages and links of transport/mod.rs, ws.rs, punch.rs and rtc.rs.
use my_domain_core.Prelude.{
  nat_eq, string_eq, replicate, contains, String, ◌≡◌, refl, ◌≢◌, true, false, none, some, List, [],
  ◌∷◌, arith,
}
use my_domain_core.Prelude.Result.{ok}
use my_domain_core.Prelude.Map.{get, insert}
use my_domain_core.Net.{SocketAddr, ipv4}
use my_domain_core.Model.{hello, message_received}
use my_domain_core.Crypto.{encrypt, decrypt, decrypt-encrypt}
use my_domain_core.Ctx.{Ctx, emit, now_secs}
use my_domain_core.Features.{find_handler, with_defaults}
use my_domain_core.Features.Dispatch.{handler_of, with_defaults_lem}
use my_domain_core.Transport.Send.{seal}
use my_domain_core.Transport.Live.{is_live}
use my_domain_core.Transport.Incoming.{receive, Arrival, failed, arrived}
use my_domain_core.Transport.Incoming.EndToEnd.{receive-seal}
use my_domain_core.Transport.Links.{
  WsRound, text_read, close, handle_ws_conn, link_exit, link_stays, rtc_register,
}
use my_domain_core.Transport.Links.WsConn.{handle_ws_conn-keeps_others}
use text.Mathlib.TextEquality.{eq_iff}
use my_domain_core.Host.{Host}
use my_domain_core.Transport.Links.TwoHellos.{says, closes, two_hellos_leak}
use my_domain_core.Transport.Links.Exits.{rtc_takeover_lost}
use my_domain_core.Tests.Devices.{device, world, world-IsCipher, world-IsCodec, sealed, unary}

seal_hi : seal world device "ann" "hi" ≡ ok (sealed, 2 ∷ [])
unfolding seal encrypt unary
seal_hi = refl

chat_hi : find_handler world device "hi" ≡ none
unfolding find_handler
chat_hi = refl

receive-seal_example :
    receive world "TCP" (2 ∷ []) "10.0.0.2" device
    ≡ emit
        (message_received (record {
          from = "ann";
          ip = "10.0.0.2";
          protocol = "TCP";
          text = "hi";
          ts = 100;
          ok = true;
        }))
        device
unfolding now_secs
receive-seal_example =
    receive-seal world device device "ann" "hi" "10.0.0.2" "TCP" sealed (2 ∷ []) world-IsCipher
      world-IsCodec refl seal_hi chat_hi

encrypt_1 : encrypt world 0 (replicate 32 7) (1 ∷ []) ≡ some sealed
unfolding encrypt unary
encrypt_1 = refl

decrypt-encrypt_example : decrypt world (replicate 32 7) sealed ≡ some (1 ∷ [])
decrypt-encrypt_example =
    decrypt-encrypt world 0 (replicate 32 7) (1 ∷ []) sealed world-IsCipher encrypt_1

-- A connection that says hello for node "a" twice, sends what is no message, and closes.
abbrev rounds : List WsRound
rounds =
    record { read = text_read "hello a"; outgoing = []; write_ok = λ _. true }
    ∷ record { read = text_read "hello a"; outgoing = "x" ∷ []; write_ok = λ _. false }
    ∷ record { read = close; outgoing = []; write_ok = λ _. true }
    ∷ []

-- The device with a punched connection of node "b".
abbrev linked : Ctx
linked = record device { ws_conns = insert [] "b" 1_000_000; punch_seq = 1_000_001 }

linked_b : get linked.ws_conns "b" ≡ some 1_000_000
unfolding get insert
linked_b = refl

handle_ws_conn-keeps_others_example :
    get (handle_ws_conn world rounds linked).ws_conns "b" ≡ some 1_000_000
handle_ws_conn-keeps_others_example =
    handle_ws_conn-keeps_others world "b" 1_000_000 rounds linked linked_b
      (λ e. absurd (omega (arith, e)))

abbrev arrivals : List Arrival
arrivals = arrived (2 ∷ []) "10.0.0.2" ∷ failed ∷ arrived (2 ∷ []) "10.0.0.3" ∷ []

abbrev home : SocketAddr
home = record { ip = ipv4 10 0 0 2; port = 7000 }

with_defaults_lem_example : get (with_defaults false) "clipboard" ≡ handler_of false "clipboard"
with_defaults_lem_example = with_defaults_lem false "clipboard"

rtc_takeover_lost_example :
    (link_stays "b" 2_000_000 (rtc_register "b" 2_000_000 linked) ≡ true)
    × (link_stays "b" 1_000_000 (rtc_register "b" 2_000_000 linked) ≡ false)
    × (link_stays "b" 2_000_000 (link_exit "b" 1_000_000 (rtc_register "b" 2_000_000 linked))
        ≡ false)
    × (is_live (link_exit "b" 1_000_000 (rtc_register "b" 2_000_000 linked)) "b" ≡ false)
rtc_takeover_lost_example =
    rtc_takeover_lost "b" 1_000_000 2_000_000 linked (λ e. absurd (omega (arith, e)))

-- Every text is a hello of the node that it names.
abbrev greeters : Host
greeters = record world { frame_from_str = λ t. some (hello t t) }

different : ◌≢◌ {A = String} "a" "b"
different e = absurd (ground (arith, e, eq_iff "a" "b"))

two_hellos_leak_example :
    (get (handle_ws_conn greeters (says "a" ∷ says "b" ∷ closes ∷ []) device).ws_conns "a" ≡ some 1)
    × (contains 1 (handle_ws_conn greeters (says "a" ∷ says "b" ∷ closes ∷ []) device).gone ≡ true)
unfolding get
two_hellos_leak_example =
    two_hellos_leak greeters "a" "b" "a" "b" "a" "b" device different refl refl refl refl
