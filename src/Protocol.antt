-- ===== src/Protocol.antt =====
-- crates/protocol/src/lib.rs: what the receive coordinator uses of the protocol crate.
pub mod Pcm
