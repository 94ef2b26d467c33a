-- ===== src/Domain.antt =====
-- The values that the crates share: crates/domain.
pub mod Ids
pub mod Radio
