-- ===== src/Audio/Resampler/State.antt =====
-- crates/audio/src/timeline.rs: the state of `RationalResampler` and `mapping_for_tick`.
use slotpilot.Prelude.{ℕ, Option, none, some, if◌then◌else◌}
use slotpilot.Prelude.Int.{ℤ, pos, abs, ◌-ℤ◌, ◌*ℤ◌, ◌/ℤ◌, is_negative}
use slotpilot.Prelude.Words.{checked_add, checked_sub, try_i64, u64_max}
use slotpilot.Prelude.Results.{Result, ok, ok_or, map_err, ◌>>=◌}
use slotpilot.Audio.Batch.{CaptureTimeEvidence, new_evidence, ft8_receive_sample_rate_hz}
use slotpilot.Audio.Slot.{ReceiveTimelineError, arithmetic_overflow}
use slotpilot.Audio.Resampler.Accumulator.{ticks_per_millisecond, wide, WindowAccumulator}

pub record RationalResampler : Type 0 where
  pub anchor : CaptureTimeEvidence
  pub source_rate_hz : ℕ
  pub process_generation : ℕ
  pub stream_generation : ℕ
  pub next_output_tick : ℤ
  pub previous : Option (ℕ × ℤ)
  pub active : Option WindowAccumulator

unfoldable pub new_resampler :
    CaptureTimeEvidence → ℕ → ℕ → ℕ → Result ReceiveTimelineError RationalResampler
new_resampler anchor rate process stream = do
  tick ← wide (anchor.utc_unix_millis *ℤ pos ticks_per_millisecond)
  ok (record {
    anchor = anchor;
    source_rate_hz = rate;
    process_generation = process;
    stream_generation = stream;
    next_output_tick = tick;
    previous = none;
    active = none;
  })

-- The source position of a slot start: the anchor's, moved by the signed distance in frames.
abbrev move : ℕ → ℤ → Option ℕ
move position delta =
    if is_negative delta
    then checked_sub position (abs delta)
    else checked_add u64_max position (abs delta)

unfoldable pub mapping_for_tick :
    RationalResampler → ℤ → Result ReceiveTimelineError CaptureTimeEvidence
mapping_for_tick r slot_tick = do
  anchor_tick ← wide (r.anchor.utc_unix_millis *ℤ pos ticks_per_millisecond)
  tick_delta ← wide (slot_tick -ℤ anchor_tick)
  scaled ← wide (tick_delta *ℤ pos r.source_rate_hz)
  source_delta ← ok_or (try_i64 (scaled /ℤ ft8_receive_sample_rate_hz)) arithmetic_overflow
  elim (move r.anchor.position source_delta) [
    | none ↦ ok r.anchor
    | some source_position ↦ do
      slot_millis ← ok_or (try_i64 (slot_tick /ℤ ticks_per_millisecond)) arithmetic_overflow
      let monotonic_delta = slot_millis -ℤ r.anchor.utc_unix_millis
      monotonic ← ok_or (move r.anchor.monotonic_millis monotonic_delta) arithmetic_overflow
      map_err (λ _. arithmetic_overflow) (new_evidence source_position slot_millis monotonic)
  ]
