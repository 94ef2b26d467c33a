-- ===== src/Audio/Capture/Chunks.antt =====
-- crates/audio/src/capture.rs: `CallbackState::process` keeps the ledger and never reads out of range.
use slotpilot.Prelude.{
  ℕ, ◌+◌, ◌*◌, ◌≤◌, ◌<◌, ◌≡◌, ◌≢◌, inl, inr, refl, sym, ap, subst, arith, List, length, Bool,
}
use slotpilot.Prelude.Int.{ℤ}
use slotpilot.Prelude.Results.{Result, ok, err}
use slotpilot.Audio.Config.{ReceiveAudioError}
use slotpilot.Audio.Batch.{
  CaptureDiagnostics, CaptureTimeEvidence, max_capture_batch_frames, new_diagnostics, new_evidence,
  discontinuity_position,
}
use slotpilot.Audio.Capture.Queues.{ArrayQueue}
use slotpilot.Audio.Capture.Worker.{RawBatch}
use slotpilot.Audio.Capture.Fill.{NormalizeSample, Filled, filled, refused, panicked}
use slotpilot.Audio.Capture.Callback.{
  CallbackState, CallbackTiming, Flow, out_of_range, abandon, advance_position, chunk_evidence,
  drop_frames, enqueue, mark_published, next_discontinuity, publish,
}
use slotpilot.Audio.Capture.Process.{after_fill, process_chunk}
use slotpilot.Audio.Capture.Conservation.{IsBuffer, take_free}
use slotpilot.Audio.Capture.Copying.{Keeps, fill-Keeps}
use slotpilot.Audio.Capture.Accounting.{Piece, mark_of}
use slotpilot.Audio.Capture.Ledger.{
  Setup, Ledger, abandon-Ledger, drop_frames-Ledger, enqueue-Ledger,
}

mark_of_at :
    (position pending at : ℕ) (o : Bool)
    → at ≡ position
    → discontinuity_position (mark_of position pending o) at ≡ at
mark_of_at position pending at o h = ground arith

Keeps-at :
    (size most : ℕ) (r : Filled)
    → size ≡ max_capture_batch_frames
    → Keeps size (0 + most) r
    → Keeps max_capture_batch_frames most r
Keeps-at size most r h k =
    subst (λ n. Keeps n most r) h (subst (λ n. Keeps size n r) (zero_add most) k)
  where
    zero_add : (n : ℕ) → 0 + n ≡ n
    zero_add n = omega arith

publish_in_range :
    {Q : ArrayQueue} (first : Result ReceiveAudioError CaptureTimeEvidence)
    (diagnostics : Result ReceiveAudioError CaptureDiagnostics) (buffer : List ℤ)
    (frames clipped millis : ℕ) (s : CallbackState Q)
    → (publish first diagnostics buffer frames clipped millis s).0 ≢ out_of_range
unfolding publish enqueue abandon drop_frames advance_position
publish_in_range first diagnostics buffer frames clipped millis s = ground arith

drop_frames_in_range :
    {Q : ArrayQueue} (frames millis : ℕ) (s : CallbackState Q)
    → (drop_frames frames millis s).0 ≢ out_of_range
unfolding drop_frames advance_position
drop_frames_in_range frames millis s = ground arith

module _ (Q : ArrayQueue) (u : Setup) (taken : List Piece) where
  -- The call ended without a panic, and the ledger holds in the state that it left.
  abbrev pub Ends : Flow × CallbackState Q → Type 0
  Ends p = (p.0 ≢ out_of_range) × Ledger Q u 0 taken p.1

  publish-Ledger :
      (first : Result ReceiveAudioError CaptureTimeEvidence)
      (diagnostics : Result ReceiveAudioError CaptureDiagnostics) (buffer : List ℤ)
      (frames clipped millis : ℕ) (s : CallbackState Q)
      → ((e : CaptureTimeEvidence) → first ≡ ok e → e.position ≡ s.position)
      → ((d : CaptureDiagnostics) → diagnostics ≡ ok d → d.clipped_samples ≡ clipped)
      → IsBuffer buffer
      → 0 < frames
      → frames ≤ max_capture_batch_frames
      → clipped ≤ frames
      → Ledger Q u 1 taken s
      → Ledger Q u 0 taken (publish first diagnostics buffer frames clipped millis s).1
  unfolding publish mark_published next_discontinuity
  publish-Ledger (err e) diagnostics buffer frames clipped millis s p d b z w c v =
      abandon-Ledger Q u taken buffer millis s b v.opened
  publish-Ledger (ok first) (err e) buffer frames clipped millis s p d b z w c v =
      abandon-Ledger Q u taken buffer millis (mark_published s) b v.opened
  publish-Ledger (ok first) (ok diagnostics) buffer frames clipped millis s p d b z w c v =
      let at = p first refl in
      let raw : RawBatch = record {
        samples = buffer;
        frame_count = frames;
        first_frame = first;
        discontinuity = next_discontinuity s;
        diagnostics = diagnostics;
      } in
      enqueue-Ledger Q u taken raw clipped millis s
        (record {
          buffer = b;
          some_frames = z;
          fit = w;
          clipped = omega (arith, d diagnostics refl, c);
          marked = mark_of_at s.position s.pending_dropped_frames first.position s.first_batch at;
        })
        (ap (λ x. record { position = x; frames = frames; mark = next_discontinuity s }) at) v

  module _ {T : Type 0} (normalize : NormalizeSample T) (items : List T)
      (timing : CallbackTiming) where
    after_fill_in_range :
        (r : Filled) (size most offset frames : ℕ) (s : CallbackState Q)
        → Keeps size most r
        → (after_fill normalize items timing r offset frames s).0 ≢ out_of_range
    unfolding after_fill abandon
    after_fill_in_range panicked size most offset frames s k = absurd k
    after_fill_in_range (refused buffer) size most offset frames s k = λ h. cc
    after_fill_in_range (filled buffer clipped) size most offset frames s k =
        publish_in_range _ _ buffer frames clipped timing.monotonic_millis s

    after_fill-Ledger :
        (r : Filled) (offset frames : ℕ) (s : CallbackState Q)
        → Keeps max_capture_batch_frames frames r
        → 0 < frames
        → frames ≤ max_capture_batch_frames
        → Ledger Q u 1 taken s
        → Ledger Q u 0 taken (after_fill normalize items timing r offset frames s).1
    unfolding after_fill chunk_evidence new_evidence new_diagnostics
    after_fill-Ledger panicked offset frames s k z w v = absurd k
    after_fill-Ledger (refused buffer) offset frames s k z w v =
        abandon-Ledger Q u taken buffer timing.monotonic_millis s k v.opened
    after_fill-Ledger (filled buffer clipped) offset frames s k z w v =
        publish-Ledger _ _ buffer frames clipped timing.monotonic_millis s (λ e h. ground arith)
          (λ d h. ground arith) k.0 z w k.1 v

    pub process_chunk-Ends :
        (offset frames : ℕ) (s : CallbackState Q)
        → 0 < frames
        → frames ≤ max_capture_batch_frames
        → u.configuration.selected_channel < u.configuration.channels
        → (offset + frames) * u.configuration.channels ≤ length items
        → Ledger Q u 0 taken s
        → Ends (process_chunk normalize items timing (Q.pop s.shared.free) offset frames s)
    unfolding process_chunk
    process_chunk-Ends offset frames s z w c r v = elim (Q.pop_cases s.shared.free) [
      | inl (_, f) ↦
          subst (λ o. Ends (process_chunk normalize items timing o offset frames s)) (sym f)
            (
              drop_frames_in_range frames timing.monotonic_millis s,
              drop_frames-Ledger Q u taken 0 frames timing.monotonic_millis s v,
            )
      | inr (b, q, f, k, same) ↦
          let (size, h) =
            take_free Q u.queue_batches 0 s.shared.free q s.shared.ready b v.opened.holds k same in
          let conf = v.opened.configured in
          let keeps =
            fill-Keeps normalize items s.shared.configuration.channels
              s.shared.configuration.selected_channel frames offset b 0
              (subst (λ g. g.selected_channel < g.channels) (sym conf) c)
              (subst (λ g. (offset + frames) * g.channels ≤ length items) (sym conf) r)
              (omega (arith, w, size)) in
          subst (λ o. Ends (process_chunk normalize items timing o offset frames s)) (sym f)
            (
              after_fill_in_range _ _ _ offset frames _ keeps,
              after_fill-Ledger _ offset frames _ (Keeps-at (length b) frames _ size keeps) z w
                  (record {
                    opened = record {
                      configured = conf;
                      process_kept = v.opened.process_kept;
                      stream_kept = v.opened.stream_kept;
                      holds = h;
                      delivered = v.opened.delivered;
                    };
                    balanced = v.balanced;
                  }),
            )
    ]
