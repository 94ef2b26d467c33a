-- ===== src/Storage.antt =====
-- crates/storage/src/receive.rs: what the receive coordinator hands to the store.
pub mod Record
