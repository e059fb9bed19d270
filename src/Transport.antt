-- ===== src/Transport.antt =====
-- transport/: the direct transports, the live-link registry and the link drivers.
pub mod Live
pub mod Send
pub mod Handshake
pub mod Incoming
pub mod Links
pub mod Chunk
pub mod Reasm
pub mod Dial
pub mod Punch
pub mod Rtc
