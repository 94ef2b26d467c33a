-- ===== src/Audio/Capture/Callback.antt =====
-- crates/audio/src/capture.rs: `CallbackState`, what the device callback does with the samples.
use slotpilot.Prelude.{
  ℕ, ◌+◌, ◌-◌, ◌/◌, ◌%◌, ◌^◌, min, Bool, true, false, Option, none, some, List, if◌then◌else◌, ltb,
  leb, ◌==◌,
}
use slotpilot.Prelude.Int.{ℤ, pos, ◌+ℤ◌, ◌-ℤ◌}
use slotpilot.Prelude.Words.{saturate, saturating_add, saturating_mul, u32_max, u64_max, i64_max}
use slotpilot.Prelude.Results.{Result, ok, err}
use slotpilot.Audio.Config.{ReceiveAudioError}
use slotpilot.Audio.Batch.{
  CaptureDiscontinuity, CaptureTimeEvidence, CaptureDiagnostics, overflow, stream_restart,
  backend_failure, clipping, overflowed, checked_advance, new_evidence,
}
use slotpilot.Audio.Capture.Queues.{ArrayQueue}
use slotpilot.Audio.Capture.Worker.{
  SharedCapture, RawBatch, emit_fault, give_back, stop_with_terminal_fault,
}

abbrev pub callback_delay_fault_millis : ℕ
callback_delay_fault_millis = 250

pub record ClockReading : Type 0 where
  pub utc_unix_millis : ℤ
  pub monotonic_millis : ℕ

pub record CallbackTiming : Type 0 where
  pub utc_unix_millis : ℤ
  pub monotonic_millis : ℕ
  pub callback_delay_millis : ℕ

-- The timing that `process_native` hands on, from the delay that the device reports, in
-- milliseconds, and the reading of the clock.
unfoldable pub native_timing : ℕ → ClockReading → CallbackTiming
native_timing delay reading =
    let millis = min (if leb delay u32_max then delay else u32_max) 60000 in
    record {
      utc_unix_millis = saturate i64_max (reading.utc_unix_millis -ℤ pos millis);
      monotonic_millis = reading.monotonic_millis - millis;
      callback_delay_millis = millis;
    }

pub record CallbackState (Q : ArrayQueue) : Type 0 where
  pub shared : SharedCapture Q
  pub position : ℕ
  pub pending_dropped_frames : ℕ
  pub first_batch : Bool

-- How the body of the loop ends: with the next round, with a `return`, or with a panic.
pub data Flow : Type 0 where
  next_round returned out_of_range : Flow

-- Milliseconds from the first frame of the callback to this frame.
unfoldable pub offset_millis : ℕ → ℕ → ℕ
offset_millis rate offset = if rate == 0 then u64_max else saturating_mul u64_max offset 1000 / rate

-- The offset saturates when it is converted to an `i64`.
unfoldable pub chunk_evidence :
    CallbackTiming → ℕ → ℕ → Result ReceiveAudioError CaptureTimeEvidence
unfolding new_evidence
chunk_evidence timing offset position =
    new_evidence position
      (saturate i64_max
        (timing.utc_unix_millis +ℤ pos (if leb offset i64_max then offset else i64_max)))
      (saturating_add u64_max timing.monotonic_millis offset)

module _ {Q : ArrayQueue} where
  unfoldable pub new_callback : SharedCapture Q → CallbackState Q
  new_callback shared = record {
    shared = shared;
    position = 0;
    pending_dropped_frames = 0;
    first_batch = true;
  }

  unfoldable pub stop_with_fault : ℕ → CallbackState Q → CallbackState Q
  unfolding stop_with_terminal_fault
  stop_with_fault millis s = record s {
    shared = stop_with_terminal_fault millis backend_failure s.shared;
  }

  -- The position behind the frames; beyond the range of `u64` the stream stops.
  unfoldable pub advance_position : Flow → ℕ → ℕ → CallbackState Q → Flow × CallbackState Q
  unfolding checked_advance
  advance_position overrun millis frames s = elim (checked_advance s.position frames) [
    | ok position ↦ (next_round, record s { position = position })
    | err _ ↦ (overrun, stop_with_fault millis s)
  ]

  unfoldable pub drop_frames : ℕ → ℕ → CallbackState Q → Flow × CallbackState Q
  drop_frames frames millis s = advance_position next_round millis frames (record s {
    pending_dropped_frames = saturating_add u64_max s.pending_dropped_frames frames;
    shared =
        emit_fault millis (overflowed frames)
          (record s.shared { overflow_count = (s.shared.overflow_count + 1) % 2 ^ 64 });
  })

  -- What a queued batch adds to the counters and the fault queue.
  unfoldable pub count_clipped : ℕ → ℕ → SharedCapture Q → SharedCapture Q
  count_clipped clipped millis s =
      if ltb 0 clipped
      then emit_fault millis (clipping clipped)
          (record s { clipped_sample_count = (s.clipped_sample_count + clipped) % 2 ^ 64 })
      else s

  -- The discontinuity of the next batch.
  unfoldable pub next_discontinuity : CallbackState Q → Option CaptureDiscontinuity
  next_discontinuity s =
      if ltb 0 s.pending_dropped_frames
      then some
          (record { at = s.position; kind = overflow; dropped_frames = s.pending_dropped_frames })
      else if s.first_batch
      then some (record { at = s.position; kind = stream_restart; dropped_frames = 0 })
      else none

  -- `self.pending_dropped_frames = 0` of the first branch, and `self.first_batch = false`.
  unfoldable pub mark_published : CallbackState Q → CallbackState Q
  mark_published s = record s {
    pending_dropped_frames =
        (if ltb 0 s.pending_dropped_frames then 0 else s.pending_dropped_frames);
    first_batch = false;
  }

  -- A `return` that gives the buffer back and stops the stream.
  unfoldable pub abandon : List ℤ → ℕ → CallbackState Q → Flow × CallbackState Q
  abandon buffer millis s =
      (returned, stop_with_fault millis (record s { shared = give_back buffer s.shared }))

  -- The batch goes to the ready queue; when that is full, its frames are dropped.
  unfoldable pub enqueue :
      Result RawBatch (Q.Queue RawBatch) → ℕ → ℕ → ℕ → CallbackState Q → Flow × CallbackState Q
  enqueue (err raw) frames clipped millis s =
      drop_frames frames millis (record s { shared = give_back raw.samples s.shared })
  enqueue (ok ready') frames clipped millis s =
      advance_position returned millis frames
        (record s { shared = count_clipped clipped millis (record s.shared { ready = ready' }) })

  unfoldable pub publish :
      Result ReceiveAudioError CaptureTimeEvidence
      → Result ReceiveAudioError CaptureDiagnostics
      → List ℤ
      → ℕ
      → ℕ
      → ℕ
      → CallbackState Q
      → Flow × CallbackState Q
  publish (err _) diagnostics buffer frames clipped millis s = abandon buffer millis s
  publish (ok first) (err _) buffer frames clipped millis s =
      abandon buffer millis (mark_published s)
  publish (ok first) (ok diagnostics) buffer frames clipped millis s =
      let raw : RawBatch = record {
        samples = buffer;
        frame_count = frames;
        first_frame = first;
        discontinuity = next_discontinuity s;
        diagnostics = diagnostics;
      } in
      enqueue (Q.push s.shared.ready raw) frames clipped millis (mark_published s)
