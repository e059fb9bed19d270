-- ===== src/Tests.antt =====
-- Concrete runs of the definitions, and the theorems at concrete inputs.
pub mod Devices
mod Wire
mod Chunks
mod Links
mod Engine
mod Punch
mod Ladder
mod Handshake
mod Reports
mod Scan
