-- ===== src/Audio/Timeline/Mapping.antt =====
-- crates/audio/src/timeline.rs: `Ft8ReceiveTimeline::validate_mapping`, which compares a batch
-- with the anchor of the active mapping and records jitter and drift.
use slotpilot.Prelude.{ℕ, ◌-◌, ◌/◌, if◌then◌else◌, ltb, leb, max}
use slotpilot.Prelude.Int.{ℤ, pos, abs, ◌-ℤ◌, ◌*ℤ◌, ◌/ℤ◌}
use slotpilot.Prelude.Words.{
  checked_sub, checked_mul, try_signed, try_i64, u32_max, u64_max, i32_max,
}
use slotpilot.Prelude.Results.{Result, ok, err, ok_or, also, ◌>>=◌}
use slotpilot.Audio.Batch.{CaptureBatch}
use slotpilot.Audio.Slot.{
  ReceiveTimelineError, arithmetic_overflow, out_of_order, monotonic_regression,
}
use slotpilot.Audio.Resampler.Accumulator.{wide}
use slotpilot.Audio.Timeline.{
  Ft8ReceiveTimeline, TimelineAnchor, Method, is_before, max_receive_jitter_millis,
  max_receive_clock_remap_millis, max_receive_drift_parts_per_million,
}

-- Observed and expected time since the anchor, in milliseconds.
unfoldable pub elapsed :
    Ft8ReceiveTimeline → TimelineAnchor → CaptureBatch → Result ReceiveTimelineError (ℕ × ℕ)
elapsed t anchor b =
    let monotonic = b.first_frame.monotonic_millis in
    if is_before monotonic t.last_monotonic_millis
    then err monotonic_regression
    else if ltb monotonic anchor.monotonic_millis
    then err monotonic_regression
    else do
      frames ← ok_or (checked_sub b.first_frame.position anchor.position) out_of_order
      scaled ← ok_or (checked_mul u64_max frames 1000) arithmetic_overflow
      ok (monotonic - anchor.monotonic_millis, scaled / t.configuration.sample_rate_hz)

-- `u32::try_from(value).unwrap_or(u32::MAX)`.
abbrev pub clamp_u32 : ℕ → ℕ
clamp_u32 n = if leb n u32_max then n else u32_max

unfoldable pub check_jitter : ℤ → Method (Unit {0})
check_jitter jitter t =
    let t' : Ft8ReceiveTimeline = record t {
      health = record t.health {
        max_jitter_millis = max t.health.max_jitter_millis (clamp_u32 (abs jitter));
      };
    } in
    (
      if ltb max_receive_jitter_millis (abs jitter)
          then err (ReceiveTimelineError.excessive_jitter jitter)
          else ok tt,
      t',
    )

-- The change of the offset between UTC and monotonic time since the anchor.
unfoldable pub check_remap : TimelineAnchor → CaptureBatch → Result ReceiveTimelineError (Unit {0})
check_remap anchor b = do
  let anchor_offset = anchor.utc_unix_millis -ℤ pos anchor.monotonic_millis
  let current_offset = b.first_frame.utc_unix_millis -ℤ pos b.first_frame.monotonic_millis
  remap ← ok_or (try_i64 (current_offset -ℤ anchor_offset)) arithmetic_overflow
  if ltb max_receive_clock_remap_millis (abs remap)
      then err (ReceiveTimelineError.clock_remapped remap)
      else ok tt

-- The rate error in parts per million, which exists once a second has passed.
unfoldable pub drift_of : ℕ → ℕ → Result ReceiveTimelineError ℤ
drift_of observed expected = do
  scaled ← wide ((pos observed -ℤ pos expected) *ℤ pos 1000000)
  ok_or (try_signed i32_max (scaled /ℤ expected)) arithmetic_overflow

unfoldable pub check_drift : ℕ → ℕ → Method (Unit {0})
check_drift observed expected t =
    if leb 1000 expected
    then elim (drift_of observed expected) [
      | err e ↦ (err e, t)
      | ok ppm ↦ (
        if ltb max_receive_drift_parts_per_million (abs ppm)
            then err (ReceiveTimelineError.excessive_drift ppm)
            else ok tt,
        record t { health = record t.health { drift_parts_per_million = ppm } },
      )
    ]
    else (ok tt, t)

-- The checks that follow once both times are known.
unfoldable pub check_elapsed : TimelineAnchor → CaptureBatch → ℕ → ℕ → Method (Unit {0})
check_elapsed anchor b observed expected t =
    elim (ok_or (try_i64 (pos observed -ℤ pos expected)) arithmetic_overflow) [
      | err e ↦ (err e, t)
      | ok jitter ↦
          also (check_jitter jitter t)
            (λ t'. also (check_remap anchor b, t') (check_drift observed expected))
    ]

unfoldable pub validate_mapping : TimelineAnchor → CaptureBatch → Method (Unit {0})
validate_mapping anchor b t = elim (elapsed t anchor b) [
  | err e ↦ (err e, t)
  | ok times ↦ check_elapsed anchor b times.0 times.1 t
]
