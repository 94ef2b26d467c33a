-- ===== src/Audio/Spectrum/Chunk.antt =====
-- crates/audio/src/spectrum.rs: canonical sample chunks, and the arithmetic of bins and rows.
use slotpilot.Prelude.{
  ℕ, ◌/◌, Option, none, some, List, length, take, drop, if◌then◌else◌, ltb, leb, ◌==◌,
}
use slotpilot.Prelude.Int.{ℤ, pos, ◌+ℤ◌, ◌*ℤ◌}
use slotpilot.Prelude.Words.{
  checked_add, checked_mul, i128_max, try_i64, try_signed, u32_max, u64_max,
}
use slotpilot.Prelude.Results.{Result, ok, err, ok_or, and_then, ◌>>=◌}
use slotpilot.Audio.Batch.{Ft8ReceiveWindow, ft8_receive_sample_rate_hz, ft8_receive_window_samples}
use slotpilot.Audio.Spectrum.Config.{
  SpectrumModelError, arithmetic_overflow, chunk_outside_slot, chunk_too_large, empty_chunk,
  max_spectrum_chunk_samples,
}

pub data SpectrumDiscontinuity : Type 0 where
  process_generation_changed stream_generation_changed : SpectrumDiscontinuity
  timeline_discontinuity clock_health_lost : SpectrumDiscontinuity

-- A slot is its checked start.
pub record CanonicalSpectrumChunk : Type 0 where
  pub process_generation : ℕ
  pub stream_generation : ℕ
  pub slot : ℤ
  pub start_sample_offset : ℕ
  pub discontinuity : Option SpectrumDiscontinuity
  pub samples : List ℤ

-- The argument is the chunk as the caller describes it.
unfoldable pub new_chunk : CanonicalSpectrumChunk → Result SpectrumModelError CanonicalSpectrumChunk
new_chunk c =
    if length c.samples == 0
    then err empty_chunk
    else if ltb max_spectrum_chunk_samples (length c.samples)
    then err chunk_too_large
    else (ok_or (checked_add u64_max c.start_sample_offset (length c.samples)) arithmetic_overflow
        >>= λ end. if ltb ft8_receive_window_samples end then err chunk_outside_slot else ok c)

-- `samples.get(start..end)`.
abbrev pub get_range : List ℤ → ℕ → ℕ → ℕ → Option (List ℤ)
get_range xs start count end =
    if leb end (length xs) then some (take count (drop start xs)) else none

unfoldable pub from_window :
    Ft8ReceiveWindow
    → ℕ
    → ℕ
    → Option SpectrumDiscontinuity
    → Result SpectrumModelError CanonicalSpectrumChunk
from_window w start count discontinuity = do
  end ← ok_or (checked_add u64_max start count) arithmetic_overflow
  samples ← ok_or (get_range w.samples start count end) chunk_outside_slot
  new_chunk (record {
    process_generation = w.process_generation;
    stream_generation = w.stream_generation;
    slot = w.slot_start_utc_millis;
    start_sample_offset = start;
    discontinuity = discontinuity;
    samples = samples;
  })

-- A number of millihertz in a `u32`.
unfoldable pub bin_frequency_millihertz : ℕ → ℕ → Result SpectrumModelError ℕ
bin_frequency_millihertz index fft_size =
    ok_or
      (and_then (checked_mul u64_max index ft8_receive_sample_rate_hz)
        (λ a. and_then (checked_mul u64_max a 1000) (λ b. checked_add u64_max b (fft_size / 2))))
      arithmetic_overflow
    >>= λ n.
        ok_or (if leb (n / fft_size) u32_max then some (n / fft_size) else none) arithmetic_overflow

-- The start of the slot in microseconds and the time of the sample within it.
unfoldable pub row_start_utc_micros : ℤ → ℕ → Result SpectrumModelError ℤ
row_start_utc_micros slot offset =
    ok_or (try_signed i128_max (slot *ℤ pos 1000)) arithmetic_overflow >>= λ slot_micros.
    ok_or (checked_mul i128_max offset 1000000) arithmetic_overflow >>= λ n.
    ok_or (try_i64 (slot_micros +ℤ pos (n / ft8_receive_sample_rate_hz))) arithmetic_overflow
