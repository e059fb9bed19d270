-- ===== src/Wire.antt =====
-- wire/: protocol v2, the binary frames and the channel allocator.
pub mod Frame
pub mod Mux
