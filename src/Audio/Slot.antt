-- ===== src/Audio/Slot.antt =====
-- crates/audio/src/timeline.rs: the identity of a receive slot, and the outcomes of the timeline.
use slotpilot.Prelude.{ℕ, if◌then◌else◌}
use slotpilot.Prelude.Int.{ℤ, pos, is_negative, eqb_ℤ, ◌%ℤ◌}
use slotpilot.Prelude.Results.{Result, ok, err}
use slotpilot.Audio.Batch.{Ft8ReceiveWindow, CaptureDiscontinuityKind, ft8_receive_slot_millis}

pub data ReceiveTimelineError : Type 0 where
  invalid_slot process_generation_changed stream_generation_changed : ReceiveTimelineError
  configuration_changed out_of_order monotonic_regression : ReceiveTimelineError
  arithmetic_overflow : ReceiveTimelineError
  overlap gap late_data : ℕ → ReceiveTimelineError
  discontinuity : CaptureDiscontinuityKind → ReceiveTimelineError
  excessive_jitter clock_remapped excessive_drift : ℤ → ReceiveTimelineError

-- `Ft8ReceiveSlot` is its checked start.
unfoldable pub new_slot : ℤ → Result ReceiveTimelineError ℤ
unfolding ◌%ℤ◌
new_slot start =
    if is_negative start
    then err invalid_slot
    else if eqb_ℤ (start %ℤ ft8_receive_slot_millis) (pos 0)
    then ok start
    else err invalid_slot

pub data IncompleteSlotReason : Type 0 where
  capture_started_late timeline_invalidated : IncompleteSlotReason

pub record IncompleteFt8Slot : Type 0 where
  pub slot : ℤ
  pub reason : IncompleteSlotReason
  pub accumulated_samples : ℕ

pub data ReceiveTimelineEvent : Type 0 where
  window : Ft8ReceiveWindow → ReceiveTimelineEvent
  incomplete : IncompleteFt8Slot → ReceiveTimelineEvent
