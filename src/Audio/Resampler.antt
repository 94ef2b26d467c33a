-- ===== src/Audio/Resampler.antt =====
-- crates/audio/src/timeline.rs: `RationalResampler`, which turns source samples into canonical
-- 12 kHz output ticks and collects them into slot windows.
pub mod Accumulator
pub mod Interpolate
pub mod State
pub mod Output
pub mod Emit
pub mod Push
pub mod Loop
pub mod Termination
pub mod Windows
pub mod Opening
pub mod Slots
pub mod Publication
pub mod Completion
pub mod Samples
pub mod Values
pub mod Progress
pub mod Step
pub mod Stream
