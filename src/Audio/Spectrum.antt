-- ===== src/Audio/Spectrum.antt =====
-- crates/audio/src/spectrum.rs: the bounded spectrum and waterfall model. The FFT and the magnitude
-- of a bin in floating point are a parameter.
pub mod Config
pub mod Limits
pub mod Chunk
pub mod Model
pub mod Push
pub mod Rows
pub mod Bounds
pub mod Invariant
pub mod Pushing
mod Examples
