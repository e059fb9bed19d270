-- ===== src/Engine.antt =====
-- engine.rs: the operations of the engine. Each takes the state and returns the next one, with the
-- result or the reason of its refusal. The operations are in the child modules.
pub mod Start
pub mod Session
pub mod Peers
pub mod Watch
pub mod Share
pub mod Signals
pub mod Ladder
pub mod Reach
