-- ===== src/Audio/Capture.antt =====
-- crates/audio/src/capture.rs: `SharedCapture`, the part of a capture stream that the device
-- callback and the worker share. Each call is one step; the atomics are plain fields.
pub mod Queues
pub mod Worker
pub mod Callback
pub mod Process
pub mod Fill
pub mod Conservation
pub mod Copying
pub mod Accounting
pub mod Ledger
pub mod Delivery
pub mod Chunks
pub mod Taking
pub mod Faults
pub mod History
pub mod Normalize
pub mod Unsigned
pub mod Continuity
mod Examples
