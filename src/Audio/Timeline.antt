-- ===== src/Audio/Timeline.antt =====
-- crates/audio/src/timeline.rs: `Ft8ReceiveTimeline`. `push` leaves the timeline changed on an
-- error too, so each method returns the timeline beside its result.
pub mod Mapping
pub mod Push
pub mod Admission
pub mod Refusal
pub mod Failure
use slotpilot.Prelude.{
  ℕ, ◌+◌, ◌-◌, ◌*◌, ◌/◌, Bool, true, false, Option, none, some, List, [], ◌∷◌, if◌then◌else◌, ltb,
  leb, ◌==◌, not, ◌&&◌, max,
}
use slotpilot.Prelude.Int.{ℤ, pos, abs, ◌-ℤ◌, ◌*ℤ◌, ◌/ℤ◌}
use slotpilot.Prelude.Words.{
  checked_sub, checked_mul, try_signed, try_i64, saturating_add, u32_max, u64_max, i32_max,
}
use slotpilot.Prelude.Results.{Result, ok, err, ok_or, guard, Exec, also, ◌>>=◌, ◌>>◌}
use slotpilot.Audio.Config.{InputConfiguration, InputConfiguration-discrete}
use slotpilot.Audio.Batch.{
  CaptureBatch, CaptureDiscontinuity, CaptureDiscontinuityKind, end_position, stream_restart,
}
use slotpilot.Audio.Slot.{
  ReceiveTimelineError, ReceiveTimelineEvent, arithmetic_overflow, process_generation_changed,
  stream_generation_changed, configuration_changed, out_of_order, monotonic_regression,
}
use slotpilot.Audio.Resampler.Accumulator.{wide}
use slotpilot.Audio.Resampler.State.{RationalResampler, new_resampler}
use slotpilot.Audio.Resampler.Push.{push_batch, discard_active}

abbrev pub max_receive_batch_lateness_millis : ℕ
max_receive_batch_lateness_millis = 2000

abbrev pub max_receive_jitter_millis : ℕ
max_receive_jitter_millis = 50

abbrev pub max_receive_clock_remap_millis : ℕ
max_receive_clock_remap_millis = 20

abbrev pub max_receive_drift_parts_per_million : ℕ
max_receive_drift_parts_per_million = 5000

pub record ReceiveTimelineHealth : Type 0 where
  pub max_jitter_millis : ℕ
  pub drift_parts_per_million : ℤ
  pub incomplete_slot_count : ℕ
  pub late_batch_count : ℕ

pub record TimelineAnchor : Type 0 where
  pub position : ℕ
  pub utc_unix_millis : ℤ
  pub monotonic_millis : ℕ

abbrev pub from_batch : CaptureBatch → TimelineAnchor
from_batch b = record {
  position = b.first_frame.position;
  utc_unix_millis = b.first_frame.utc_unix_millis;
  monotonic_millis = b.first_frame.monotonic_millis;
}

pub record Ft8ReceiveTimeline : Type 0 where
  pub process_generation : ℕ
  pub stream_generation : ℕ
  pub configuration : InputConfiguration
  pub expected_position : Option ℕ
  pub last_batch_position : Option ℕ
  pub last_monotonic_millis : Option ℕ
  pub anchor : Option TimelineAnchor
  pub resampler : Option RationalResampler
  pub health : ReceiveTimelineHealth

abbrev pub new_timeline : ℕ → ℕ → InputConfiguration → Ft8ReceiveTimeline
new_timeline process stream configuration = record {
  process_generation = process;
  stream_generation = stream;
  configuration = configuration;
  expected_position = none;
  last_batch_position = none;
  last_monotonic_millis = none;
  anchor = none;
  resampler = none;
  health = record {
    max_jitter_millis = 0;
    drift_parts_per_million = pos 0;
    incomplete_slot_count = 0;
    late_batch_count = 0;
  };
}

-- A method of the timeline.
abbrev pub Method : Type 0 → Type 0
Method A = Exec Ft8ReceiveTimeline ReceiveTimelineError A

abbrev pub same_configuration : InputConfiguration → InputConfiguration → Bool
same_configuration c d = elim (InputConfiguration-discrete c d) [ yes _ ↦ true | no _ ↦ false ]

unfoldable pub validate_identity :
    Ft8ReceiveTimeline → CaptureBatch → Result ReceiveTimelineError (Unit {0})
validate_identity t b =
    guard (b.process_generation == t.process_generation) process_generation_changed
    >> guard (b.stream_generation == t.stream_generation) stream_generation_changed
    >> guard (same_configuration b.configuration t.configuration) configuration_changed

-- `self.field.is_some_and(|previous| value < previous)`.
abbrev pub is_before : ℕ → Option ℕ → Bool
is_before value none = false
is_before value (some previous) = ltb value previous

unfoldable pub validate_position :
    Ft8ReceiveTimeline → CaptureBatch → Result ReceiveTimelineError (Unit {0})
validate_position t b =
    let actual = b.first_frame.position in
    elim t.expected_position [
      | none ↦ ok tt
      | some expected ↦
          if actual == expected
          then ok tt
          else if ltb actual expected
          then if is_before actual t.last_batch_position
            then err out_of_order
            else err (ReceiveTimelineError.overlap (expected - actual))
          else err (ReceiveTimelineError.gap (actual - expected))
    ]

unfoldable pub advance_expected : CaptureBatch → Method (Unit {0})
advance_expected b t =
    let seen : Ft8ReceiveTimeline = record t {
      last_batch_position = some b.first_frame.position;
      last_monotonic_millis = some b.first_frame.monotonic_millis;
    } in
    elim (end_position b) [
      | err _ ↦ (err arithmetic_overflow, seen)
      | ok position ↦ (ok tt, record seen { expected_position = some position })
    ]

-- The number of slots that `discard_active` reports.
abbrev pub discarded : Option RationalResampler → ℕ
discarded none = 0
discarded (some r) = elim (discard_active r).0 [ none ↦ 0 | some _ ↦ 1 ]

abbrev pub count_incomplete : ℕ → ReceiveTimelineHealth → ReceiveTimelineHealth
count_incomplete n h = record h {
  incomplete_slot_count = saturating_add u64_max h.incomplete_slot_count n;
}

unfoldable pub invalidate_active : Ft8ReceiveTimeline → Ft8ReceiveTimeline
invalidate_active t = record t {
  health = count_incomplete (discarded t.resampler) t.health;
  anchor = none;
  resampler = none;
}

-- The batch is refused: the active slot is discarded, the batch's frames count as passed.
unfoldable pub skip {ℓ} :
    {A : Type ℓ}
    → ReceiveTimelineError
    → CaptureBatch
    → Ft8ReceiveTimeline
    → Result ReceiveTimelineError A × Ft8ReceiveTimeline
skip e b t = also (advance_expected b (invalidate_active t)) (λ t'. (err e, t'))
