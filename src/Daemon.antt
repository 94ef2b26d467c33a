-- ===== src/Daemon.antt =====
-- apps/daemon/src/receive.rs: the live receive coordinator.
pub mod Types
pub mod Lifecycle
pub mod Identity
pub mod Window
pub mod Poll
pub mod Live
pub mod Going
pub mod Polling
pub mod Serial
pub mod Steps
pub mod Order
pub mod Histories
pub mod Evidence
pub mod Persistence
mod Examples
