-- ===== src/Audio/Capture/Delivery.antt =====
-- crates/audio/src/capture.rs: the loop of `process`, and what the worker takes from the queue.
use native.Mathlib.Nat.{div-mul-le_self, mul-le-mul_right}
use slotpilot.Prelude.{
  ℕ, zero, suc, ◌+◌, ◌-◌, ◌*◌, ◌/◌, ◌≤◌, ◌<◌, ◌≡◌, ◌⊎◌, inl, inr, refl, sym, subst, arith, List,
  length, min, max, Bool-cases, if-eq_true, if-eq_false, ltb, ltb→lt, if◌then◌else◌,
}
use slotpilot.Audio.Batch.{max_capture_batch_frames, callback_delay}
use slotpilot.Audio.Capture.Queues.{ArrayQueue}
use slotpilot.Audio.Capture.Fill.{NormalizeSample}
use slotpilot.Audio.Capture.Callback.{
  CallbackState, CallbackTiming, Flow, next_round, returned, out_of_range, stop_with_fault,
  callback_delay_fault_millis,
}
use slotpilot.Audio.Capture.Process.{
  is_misshapen, note_delay, process, process_chunk, process_chunks,
}
use slotpilot.Audio.Capture.Accounting.{Piece}
use slotpilot.Audio.Capture.Ledger.{Setup, Ledger, emit_fault-Ledger, stop-Ledger}
use slotpilot.Audio.Capture.Chunks.{Ends, process_chunk-Ends}

Flow-cases : (f : Flow) → (f ≡ next_round) ⊎ ((f ≡ returned) ⊎ (f ≡ out_of_range))
Flow-cases next_round = inl refl
Flow-cases returned = inr (inl refl)
Flow-cases out_of_range = inr (inr refl)

chunk_size :
    (total offset : ℕ)
    → offset < total
    → (0 < min (total - offset) max_capture_batch_frames)
      × (min (total - offset) max_capture_batch_frames ≤ max_capture_batch_frames)
      × (offset + min (total - offset) max_capture_batch_frames ≤ total)
chunk_size total offset h = (omega arith, omega arith, omega arith)

module _ (Q : ArrayQueue) (u : Setup) (taken : List Piece)
    (room : u.configuration.selected_channel < u.configuration.channels) where
  note_delay-Ledger :
      (timing : CallbackTiming) (s : CallbackState Q)
      → Ledger Q u 0 taken s
      → Ledger Q u 0 taken (note_delay timing s)
  unfolding note_delay
  note_delay-Ledger timing s v =
      elim (Bool-cases (ltb callback_delay_fault_millis timing.callback_delay_millis)) [
        | inl h ↦
            rw (note_delay, h)
              (emit_fault-Ledger Q u 0 taken timing.monotonic_millis
                (callback_delay timing.callback_delay_millis)
                (record s {
                  shared = record s.shared {
                    max_callback_delay_millis =
                        max s.shared.max_callback_delay_millis timing.callback_delay_millis;
                  };
                })
                (record { opened = v.opened; balanced = v.balanced }))
        | inr h ↦ rw (note_delay, h) (record { opened = v.opened; balanced = v.balanced })
      ]

  module _ {T : Type 0} (normalize : NormalizeSample T) (items : List T)
      (timing : CallbackTiming) where
    process_chunks-Ends :
        (fuel total offset : ℕ) (s : CallbackState Q)
        → total * u.configuration.channels ≤ length items
        → Ledger Q u 0 taken s
        → Ends Q u taken (process_chunks normalize items timing fuel total offset s)
    unfolding process_chunks
    process_chunks-Ends zero total offset s r v = ((λ h. cc), v)
    process_chunks-Ends (suc fuel) total offset s r v = elim (Bool-cases (ltb offset total)) [
      | inr h ↦ rw (process_chunks, h) ((λ h. cc), v)
      | inl h ↦
          let frames = min (total - offset) max_capture_batch_frames in
          let (some_frames, fit, within_total) = chunk_size total offset (ltb→lt offset total h) in
          let p = process_chunk normalize items timing (Q.pop s.shared.free) offset frames s in
          let e : Ends Q u taken p =
            process_chunk-Ends Q u taken normalize items timing offset frames s some_frames fit room
              (omega (arith, mul-le-mul_right u.configuration.channels within_total, r)) v in
          elim (Flow-cases p.0) [
            | inl f ↦
                rw (process_chunks, h, f)
                  (process_chunks-Ends fuel total (offset + frames) p.1 r e.1)
            | inr (inl f) ↦ rw (process_chunks, h, f) ((λ h. cc), e.1)
            | inr (inr f) ↦ absurd (e.0 f)
          ]
    ]

    -- A callback of any shape ends without reading out of range, and keeps the ledger.
    pub process-Ends :
        (s : CallbackState Q)
        → Ledger Q u 0 taken s
        → Ends Q u taken (process normalize items timing s)
    unfolding process
    process-Ends s v =
        let total = length items / s.shared.configuration.channels in
        let misshapen = is_misshapen (length items) s.shared.configuration.channels in
        let stop : Flow × CallbackState Q = (returned, stop_with_fault timing.monotonic_millis s) in
        let rest = process_chunks normalize items timing total total 0 (note_delay timing s) in
        let shaped = if misshapen then stop else rest in
        elim (Bool-cases s.shared.stopped) [
          | inl h ↦
              subst (Ends Q u taken) (sym (if-eq_true s.shared.stopped (returned, s) shaped h))
                ((λ f. cc), v)
          | inr h ↦
              subst (Ends Q u taken) (sym (if-eq_false s.shared.stopped (returned, s) shaped h))
                (elim (Bool-cases misshapen) [
                  | inl m ↦
                      subst (Ends Q u taken) (sym (if-eq_true misshapen stop rest m))
                        ((λ f. cc), stop-Ledger Q u taken 0 timing.monotonic_millis s v.opened)
                  | inr m ↦ subst (Ends Q u taken) (sym (if-eq_false misshapen stop rest m)) (
                      process_chunks-Ends total total 0 (note_delay timing s)
                        (subst (λ g. total * g.channels ≤ length items) v.opened.configured
                          (div-mul-le_self (length items) s.shared.configuration.channels))
                        (note_delay-Ledger timing s v))
                ])
        ]
