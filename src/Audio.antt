-- ===== src/Audio.antt =====
-- crates/audio: checked capture values, the receive timeline and the capture queue.
pub mod Config
pub mod Batch
pub mod Sequence
pub mod Slot
pub mod Resampler
pub mod Timeline
pub mod Capture
pub mod Spectrum
mod Examples
