-- ===== src/Lib.antt =====
-- The my-domain shared core (src/): an engine with which the devices of one user exchange chat messages
-- and control messages, end-to-end encrypted, over TCP, UDP, WebSocket, punched UDP and WebRTC.
--
-- The parts and their files:
-- - Prelude: lists, association lists, bytes and machine-width fields, results. A `HashMap` is an
--   association list, and no theorem depends on its order.
-- - Net, Text: addresses, indexing that may fail, and the text functions of std that the code calls.
-- - Model, Model/Json: the data of src/model.rs, src/signal.rs, src/events.rs, and serde_json's Value.
-- - Host: what the core calls and does not implement, as one record of functions.
-- - Ctx: NetCtx of src/engine.rs as one state, with the trace of what the outside sees.
-- - Crypto: src/crypto.rs.
-- - Wire: src/wire/frame.rs (Wire/Frame), with the round trips of its codec, and src/wire/mux.rs (Wire/Mux).
-- - Nat: src/nat/stun.rs (Nat/Stun).
-- - Transport: src/transport/mod.rs (Live, Send, Incoming), src/transport/ws.rs (Dial, Links),
--   src/transport/punch.rs (Chunk, Reasm, Punch) with src/nat/punch.rs, and src/transport/rtc.rs (Rtc).
--   Links holds the WebSocket driver and what the three drivers share: their entry and their exit.
-- - Features: src/features/: the registry of control handlers and the handlers.
-- - Registry: src/registry.rs, with the cutting of server URLs in Registry/Base.
-- - Discovery: src/discovery.rs, with the calls on its socket in Discovery/Bind.
-- - Engine: src/engine.rs: the start (Start), the session (Session), the table of peers (Peers), the
--   rounds of the engine's own threads (Watch), what the host asks it to send (Share), signals and
--   the reachability check (Signals), and the connection ladder (Ladder).
-- - Transport/Handshake, Engine/Ladder/Ping, Discovery/Meet: a rung of the ladder and a scan on two
--   devices, what the one sends being what the other receives.
-- - Engine/Reach: all of this as one transition system, whose steps are the rounds of the threads and
--   the calls of the engine in any order. In Engine/Reach/Reports the reports of links come at any time
--   after the changes of the live registry (Transport/Live/Balance).
-- - Tests: concrete runs, and each theorem applied at one.
--
-- How they interact: a received envelope (Transport/Incoming) is decrypted (Crypto), its text goes to
-- the handler of its kind (Features), and only what no handler takes is shown. A handler may mark a
-- node live (Transport/Live) or answer (Transport/Send). The drivers (Transport/Links) enter their
-- connection in `ws_conns` and the node in `p2p_conns`, and take both out at their end.
--
-- `Engine::connect` starts the ladder, which tries one kind of link after the other; it writes to the
-- tables only through the threads that it starts, and learns of a link by polling `p2p_conns`. The
-- other side of a rung is `on_signal`: it dials, starts the answering threads (Signals) and hands
-- answers to the ladder's waiters.
--
-- State is passed explicitly: an operation takes a `Ctx` and returns the next one. A thread's
-- loop is a function over what it reads, round by round: a deadline or a timer is a field of
-- the round, or the end of the list. A list of rounds that ends before the loop would leaves as
-- the loop does. A round of a thread and a call of the engine run without a break, so a race
-- inside one shows only where it is cut: Transport/Live/Race, and Engine/Reach/Reports for the
-- reports of links. While the ladder waits, the other threads are an arbitrary function of the
-- state. A thread that an operation starts is an effect of its trace, and a definition of its
-- own. An operation that can panic (an index, a slice) returns an Option whose `none` is the
-- panic. Integers are natural numbers with the wrap-around written out where the code narrows
-- (`as u16`) or wraps (`wrapping_add`). The only fuel is that of the STUN attribute loop and of
-- `data.chunks`: the length of the input, no fewer than the rounds that either of them makes.
--
-- Not modelled: the socket and thread calls themselves, str0m's ICE, DTLS and SCTP behind
-- src/transport/rtc.rs, an IPv6 candidate in brackets (its sends fail on the IPv4 socket), the text
-- of the errors of the registry's client, and the services that have no body (src/services/).
pub mod Prelude
pub mod Net
pub mod Text
pub mod Wire
pub mod Model
pub mod Host
pub mod Crypto
pub mod Ctx
pub mod Nat
pub mod Transport
pub mod Features
pub mod Registry
pub mod Discovery
pub mod Engine
pub mod Tests
