-- ===== src/Audio/Batch.antt =====
-- crates/audio/src/lib.rs: capture batches, canonical windows, health and faults. Positions,
-- generations and monotonic times are `u64`, UTC is an `i64`, a sample is an `i16`.
use slotpilot.Prelude.{ℕ, Option, none, some, List, length, if◌then◌else◌, leb, ltb, ◌==◌}
use slotpilot.Prelude.Int.{ℤ, pos, is_negative, abs, eqb_ℤ, ◌%ℤ◌}
use slotpilot.Prelude.Words.{checked_add, u64_max}
use slotpilot.Prelude.Results.{Result, ok, err, ok_or}
use slotpilot.Audio.Config.{
  ReceiveAudioError, InputConfiguration, invalid_generation, invalid_utc_timestamp,
  invalid_callback_delay, invalid_latency, invalid_drift, invalid_batch_shape, batch_too_large,
  invalid_clipped_sample_count, discontinuity_position_mismatch, position_overflow,
  misaligned_ft8_window, invalid_ft8_window_size,
}

abbrev pub ft8_receive_sample_rate_hz : ℕ
ft8_receive_sample_rate_hz = 12000

abbrev pub ft8_receive_window_samples : ℕ
ft8_receive_window_samples = 180000

abbrev pub ft8_receive_slot_millis : ℕ
ft8_receive_slot_millis = 15000

abbrev pub max_capture_batch_frames : ℕ
max_capture_batch_frames = 8192

-- `ProcessGeneration::new` and `StreamGeneration::new`.
unfoldable pub new_generation : ℕ → Result ReceiveAudioError ℕ
new_generation value = if value == 0 then err invalid_generation else ok value

-- `CapturePosition::checked_advance`.
unfoldable pub checked_advance : ℕ → ℕ → Result ReceiveAudioError ℕ
checked_advance position frames = ok_or (checked_add u64_max position frames) position_overflow

pub record CaptureTimeEvidence : Type 0 where
  pub position : ℕ
  pub utc_unix_millis : ℤ
  pub monotonic_millis : ℕ

unfoldable pub new_evidence : ℕ → ℤ → ℕ → Result ReceiveAudioError CaptureTimeEvidence
new_evidence position utc monotonic =
    if is_negative utc
    then err invalid_utc_timestamp
    else ok (record { position = position; utc_unix_millis = utc; monotonic_millis = monotonic })

pub data CaptureDiscontinuityKind : Type 0 where
  overflow backend_gap stream_restart clock_remapped : CaptureDiscontinuityKind

pub record CaptureDiscontinuity : Type 0 where
  pub at : ℕ
  pub kind : CaptureDiscontinuityKind
  pub dropped_frames : ℕ

pub record CaptureDiagnostics : Type 0 where
  pub clipped_samples : ℕ
  pub callback_delay_millis : ℕ

unfoldable pub new_diagnostics : ℕ → ℕ → Result ReceiveAudioError CaptureDiagnostics
new_diagnostics clipped delay =
    if ltb 60000 delay
    then err invalid_callback_delay
    else ok (record { clipped_samples = clipped; callback_delay_millis = delay })

pub record CaptureBatch : Type 0 where
  pub process_generation : ℕ
  pub stream_generation : ℕ
  pub configuration : InputConfiguration
  pub first_frame : CaptureTimeEvidence
  pub discontinuity : Option CaptureDiscontinuity
  pub diagnostics : CaptureDiagnostics
  pub samples : List ℤ

-- `discontinuity.map_or(position, |value| value.at)`.
abbrev pub discontinuity_position : Option CaptureDiscontinuity → ℕ → ℕ
discontinuity_position none position = position
discontinuity_position (some d) position = d.at

-- The argument is the batch as the caller describes it.
unfoldable pub new_batch : CaptureBatch → Result ReceiveAudioError CaptureBatch
new_batch b =
    let count = length b.samples in
    let position = b.first_frame.position in
    if count == 0
    then err invalid_batch_shape
    else if ltb max_capture_batch_frames count
    then err batch_too_large
    else if position == discontinuity_position b.discontinuity position
    then if ltb count b.diagnostics.clipped_samples then err invalid_clipped_sample_count else ok b
    else err discontinuity_position_mismatch

-- The conversion to `u32` keeps the count, which is at most `max_capture_batch_frames`.
abbrev pub frame_count : CaptureBatch → ℕ
frame_count b =
    if leb (length b.samples) 4294967295 then length b.samples else max_capture_batch_frames

unfoldable pub end_position : CaptureBatch → Result ReceiveAudioError ℕ
unfolding checked_advance
end_position b = checked_advance b.first_frame.position (frame_count b)

pub record Ft8ReceiveWindow : Type 0 where
  pub process_generation : ℕ
  pub stream_generation : ℕ
  pub slot_start_utc_millis : ℤ
  pub mapping : CaptureTimeEvidence
  pub samples : List ℤ

unfoldable pub new_window : Ft8ReceiveWindow → Result ReceiveAudioError Ft8ReceiveWindow
unfolding ◌%ℤ◌
new_window w =
    if is_negative w.slot_start_utc_millis
    then err misaligned_ft8_window
    else if eqb_ℤ (w.slot_start_utc_millis %ℤ ft8_receive_slot_millis) (pos 0)
    then if length w.samples == ft8_receive_window_samples
      then ok w
      else err invalid_ft8_window_size
    else err misaligned_ft8_window

pub record InputHealth : Type 0 where
  pub latency_millis : ℕ
  pub drift_parts_per_million : ℤ
  pub overflow_count : ℕ
  pub clipped_sample_count : ℕ
  pub max_callback_delay_millis : ℕ

unfoldable pub new_health : InputHealth → Result ReceiveAudioError InputHealth
new_health h =
    if ltb 60000 h.latency_millis
    then err invalid_latency
    else if ltb 100000 (abs h.drift_parts_per_million)
    then err invalid_drift
    else if ltb 60000 h.max_callback_delay_millis
    then err invalid_callback_delay
    else ok h

pub data InputFaultKind : Type 0 where
  permission_denied device_lost backend_failure : InputFaultKind
  overflowed : ℕ → InputFaultKind
  discontinuous : CaptureDiscontinuityKind → InputFaultKind
  clipping : ℕ → InputFaultKind
  drift : ℤ → InputFaultKind
  callback_delay : ℕ → InputFaultKind

pub record InputFault : Type 0 where
  pub process_generation : ℕ
  pub stream_generation : Option ℕ
  pub monotonic_millis : ℕ
  pub kind : InputFaultKind
