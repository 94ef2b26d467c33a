-- ===== src/Audio/Resampler/Accumulator.antt =====
-- crates/audio/src/timeline.rs: `WindowAccumulator`. An `i128` keeps its range written out.
use slotpilot.Prelude.{
  ℕ, ◌/◌, Bool, true, false, Option, none, some, List, [], ◌∷◌, length, if◌then◌else◌,
}
use slotpilot.Prelude.Int.{ℤ, pos, ◌/ℤ◌, eqb_ℤ}
use slotpilot.Prelude.Words.{try_signed, try_i64, try_unsigned, u32_max, i128_max}
use slotpilot.Prelude.Results.{Result, ok, ok_or, ◌>>=◌}
use slotpilot.Audio.Batch.{
  CaptureTimeEvidence, ft8_receive_sample_rate_hz, ft8_receive_window_samples,
}
use slotpilot.Audio.Slot.{
  ReceiveTimelineError, arithmetic_overflow, new_slot, capture_started_late, timeline_invalidated,
  ReceiveTimelineEvent,
}

abbrev pub ticks_per_millisecond : ℕ
ticks_per_millisecond = ft8_receive_sample_rate_hz / 1000

abbrev pub ticks_per_slot : ℕ
ticks_per_slot = ft8_receive_window_samples

-- A checked `i128` operation, from its exact result.
abbrev pub wide : ℤ → Result ReceiveTimelineError ℤ
wide z = ok_or (try_signed i128_max z) arithmetic_overflow

pub record WindowAccumulator : Type 0 where
  pub slot_tick : ℤ
  pub slot : ℤ
  pub first_tick : ℤ
  pub mapping : CaptureTimeEvidence
  pub samples : List ℤ

unfoldable pub new_accumulator :
    ℤ → ℤ → CaptureTimeEvidence → Result ReceiveTimelineError WindowAccumulator
unfolding ◌/ℤ◌ new_slot
new_accumulator slot_tick first_tick mapping = do
  slot_millis ← ok_or (try_i64 (slot_tick /ℤ ticks_per_millisecond)) arithmetic_overflow
  slot ← new_slot slot_millis
  ok (record {
    slot_tick = slot_tick;
    slot = slot;
    first_tick = first_tick;
    mapping = mapping;
    samples = [];
  })

abbrev pub is_empty {ℓ} : {A : Type ℓ} → List A → Bool
is_empty [] = true
is_empty (x ∷ xs) = false

unfoldable pub incomplete_event :
    WindowAccumulator → Result ReceiveTimelineError (Option ReceiveTimelineEvent)
incomplete_event a = if is_empty a.samples then ok none else do
  count ← ok_or (try_unsigned u32_max (pos (length a.samples))) arithmetic_overflow
  ok (
      some (
        ReceiveTimelineEvent.incomplete (record {
          slot = a.slot;
          reason =
              if eqb_ℤ a.first_tick a.slot_tick then timeline_invalidated else capture_started_late;
          accumulated_samples = count;
        })))
