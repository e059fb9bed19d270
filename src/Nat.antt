-- ===== src/Nat.antt =====
-- nat/: STUN address discovery and the hole-punch primitive.
pub mod Stun
