-- ===== src/Audio/Capture/Process.antt =====
-- crates/audio/src/capture.rs: `CallbackState::process`, the loop over the chunks of one callback.
use slotpilot.Prelude.{
  ℕ, zero, suc, ◌+◌, ◌-◌, ◌/◌, ◌%◌, min, max, Bool, Option, none, some, List, length, if◌then◌else◌,
  ltb, ◌==◌, not, ◌||◌,
}
use slotpilot.Prelude.Int.{ℤ}
use slotpilot.Audio.Batch.{callback_delay, new_diagnostics, max_capture_batch_frames}
use slotpilot.Audio.Capture.Queues.{ArrayQueue}
use slotpilot.Audio.Capture.Worker.{SharedCapture, emit_fault}
use slotpilot.Audio.Capture.Fill.{NormalizeSample, Filled, filled, refused, panicked, fill}
use slotpilot.Audio.Capture.Callback.{
  CallbackTiming, CallbackState, ClockReading, Flow, next_round, returned, out_of_range,
  native_timing, stop_with_fault, drop_frames, abandon, offset_millis, chunk_evidence, publish,
  callback_delay_fault_millis,
}

-- The delay of the callback goes to the health counters, and is a fault when it is long.
unfoldable pub note_delay : {Q : ArrayQueue} → CallbackTiming → CallbackState Q → CallbackState Q
note_delay timing s =
    let noted : SharedCapture _ = record s.shared {
      max_callback_delay_millis =
          max s.shared.max_callback_delay_millis timing.callback_delay_millis;
    } in
    record s {
      shared =
          (if ltb callback_delay_fault_millis timing.callback_delay_millis
            then emit_fault timing.monotonic_millis (callback_delay timing.callback_delay_millis)
                noted
            else noted);
    }

-- `data.is_empty() || !data.len().is_multiple_of(channels)`.
abbrev pub is_misshapen : ℕ → ℕ → Bool
is_misshapen count channels =
    count == 0 || not (if channels == 0 then count == 0 else count % channels == 0)

module _ {T : Type 0} (normalize : NormalizeSample T) (data_in : List T)
    (timing : CallbackTiming) where
  -- What follows the inner loop.
  unfoldable pub after_fill :
      {Q : ArrayQueue} → Filled → ℕ → ℕ → CallbackState Q → Flow × CallbackState Q
  after_fill panicked offset frames s = (out_of_range, s)
  after_fill (refused buffer) offset frames s = abandon buffer timing.monotonic_millis s
  after_fill (filled buffer clipped) offset frames s =
      publish
        (chunk_evidence timing (offset_millis s.shared.configuration.sample_rate_hz offset)
          s.position)
        (new_diagnostics clipped timing.callback_delay_millis) buffer frames clipped
        timing.monotonic_millis s

  -- The body of the loop, at the buffer that the free queue gave.
  unfoldable pub process_chunk :
      {Q : ArrayQueue}
      → Option (List ℤ × Q.Queue (List ℤ))
      → ℕ
      → ℕ
      → CallbackState Q
      → Flow × CallbackState Q
  process_chunk none offset frames s = drop_frames frames timing.monotonic_millis s
  process_chunk (some (buffer, free')) offset frames s =
      after_fill
        (fill normalize data_in s.shared.configuration.channels
          s.shared.configuration.selected_channel frames offset buffer 0)
        offset frames (record s { shared = record s.shared { free = free' } })

  -- The loop; each round takes at least one of the frames that are left.
  unfoldable pub process_chunks :
      {Q : ArrayQueue} → ℕ → ℕ → ℕ → CallbackState Q → Flow × CallbackState Q
  process_chunks zero total offset s = (next_round, s)
  process_chunks {Q = Q} (suc fuel) total offset s =
      let frames = min (total - offset) max_capture_batch_frames in
      let (flow, s') = process_chunk (Q.pop s.shared.free) offset frames s in
      if ltb offset total
      then elim flow [
        | next_round ↦ process_chunks fuel total (offset + frames) s'
        | returned ↦ (returned, s')
        | out_of_range ↦ (out_of_range, s')
      ]
      else (next_round, s)

  unfoldable pub process : {Q : ArrayQueue} → CallbackState Q → Flow × CallbackState Q
  process s =
      if s.shared.stopped
      then (returned, s)
      else if is_misshapen (length data_in) s.shared.configuration.channels
      then (returned, stop_with_fault timing.monotonic_millis s)
      else let total = length data_in / s.shared.configuration.channels in
        process_chunks total total 0 (note_delay timing s)

unfoldable pub process_native :
    {T : Type 0} {Q : ArrayQueue}
    → NormalizeSample T
    → List T
    → ℕ
    → ClockReading
    → CallbackState Q
    → Flow × CallbackState Q
unfolding process
process_native normalize data_in delay reading s =
    process normalize data_in (native_timing delay reading) s
