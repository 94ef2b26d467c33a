-- ===== src/Audio/Capture/Ledger.antt =====
-- crates/audio/src/capture.rs: the invariant of the callback and the queues, and how one chunk of
-- `process` keeps it.
use slotpilot.Prelude.{
  ℕ, ◌+◌, ◌≤◌, ◌≡◌, inl, inr, refl, sym, ap, ◌∙◌, subst, true, false, List, [], ◌∷◌, ◌++◌, map,
  append_assoc, map-append, Bool-cases, leb→le, leb, ltb, ◌%◌, ◌^◌, if◌then◌else◌,
}
use slotpilot.Prelude.Int.{ℤ}
use slotpilot.Prelude.Words.{saturating_add, u64_max}
use slotpilot.Audio.Config.{InputConfiguration}
use slotpilot.Audio.Batch.{InputFault, InputFaultKind, checked_advance, overflowed, clipping}
use slotpilot.Audio.Capture.Queues.{ArrayQueue}
use slotpilot.Audio.Capture.Worker.{
  SharedCapture, RawBatch, emit_fault, give_back, stop_with_terminal_fault,
}
use slotpilot.Audio.Capture.Callback.{
  CallbackState, Flow, next_round, returned, abandon, advance_position, count_clipped, drop_frames,
  enqueue, mark_published, stop_with_fault,
}
use slotpilot.Audio.Capture.Conservation.{
  Holds, IsBuffer, IsPrepared, emit_fault_only, give_back_fits, put_ready,
}
use slotpilot.Audio.Capture.Accounting.{
  Piece, Balanced, Follows, piece_of_raw, mark_of, drop-Balanced, queue-Balanced,
}

-- What a stream was opened with.
pub record Setup : Type 0 where
  pub queue_batches : ℕ
  pub configuration : InputConfiguration
  pub process_generation : ℕ
  pub stream_generation : ℕ

pieces-append :
    (taken : List Piece) (ready ready' : List RawBatch) (raw : RawBatch)
    → ready' ≡ ready ++ raw ∷ []
    → taken ++ map piece_of_raw ready' ≡ (taken ++ map piece_of_raw ready) ++ piece_of_raw raw ∷ []
pieces-append taken ready ready' raw c =
    ap (λ r. taken ++ map piece_of_raw r) c
    ∙ ap (λ r. taken ++ r) (map-append piece_of_raw ready (raw ∷ []))
    ∙ sym (append_assoc taken (map piece_of_raw ready) (piece_of_raw raw ∷ []))

module _ (Q : ArrayQueue) where
  -- The pieces that were delivered, and behind them those in the ready queue.
  abbrev pub ledger_pieces : List Piece → SharedCapture Q → List Piece
  ledger_pieces taken s = taken ++ map piece_of_raw (Q.contents s.ready)

  -- The stream is as it was opened, k buffers are in neither queue, and the delivered pieces
  -- account for their frames.
  pub record IsOpened (u : Setup) (k : ℕ) (taken : List Piece) (configuration : InputConfiguration)
      (process stream : ℕ) (free : Q.Queue (List ℤ)) (ready : Q.Queue RawBatch) : Type 0 where
    pub configured : configuration ≡ u.configuration
    pub process_kept : process ≡ u.process_generation
    pub stream_kept : stream ≡ u.stream_generation
    pub holds : Holds Q u.queue_batches k free ready
    pub delivered : Follows 0 true taken

  abbrev pub Opened : Setup → ℕ → List Piece → SharedCapture Q → Type 0
  Opened u k taken s =
      IsOpened u k taken s.configuration s.process_generation s.stream_generation s.free s.ready

  abbrev pub AllBalanced : List Piece → CallbackState Q → Type 0
  AllBalanced taken s =
      s.shared.stopped ≡ false
      → Balanced (ledger_pieces taken s.shared) s.position s.pending_dropped_frames s.first_batch

  -- Unless the stream was stopped, its pieces account for each frame up to the callback.
  pub record Ledger (u : Setup) (k : ℕ) (taken : List Piece) (s : CallbackState Q) : Type 0 where
    pub opened : Opened u k taken s.shared
    pub balanced : AllBalanced taken s

  emit_fault-Opened :
      (u : Setup) (k : ℕ) (taken : List Piece) (millis : ℕ) (kind : InputFaultKind)
      (s : SharedCapture Q)
      → Opened u k taken s
      → Opened u k taken (emit_fault millis kind s)
  emit_fault-Opened u k taken millis kind s v =
      let (f, e) = emit_fault_only Q millis kind s in subst (Opened u k taken) (sym e) (v)

  pub emit_fault-Ledger :
      (u : Setup) (k : ℕ) (taken : List Piece) (millis : ℕ) (kind : InputFaultKind)
      (s : CallbackState Q)
      → Ledger u k taken s
      → Ledger u k taken (record s { shared = emit_fault millis kind s.shared })
  emit_fault-Ledger u k taken millis kind s v =
      let (f, e) = emit_fault_only Q millis kind s.shared in
      subst (λ sh. Ledger u k taken (record s { shared = sh })) (sym e)
        (record { opened = v.opened; balanced = v.balanced })

  count_clipped_only :
      (clipped millis : ℕ) (s : SharedCapture Q)
      → (f : Q.Queue InputFault) × (n : ℕ) × (count_clipped clipped millis s
          ≡ record s { faults = f; clipped_sample_count = n })
  unfolding count_clipped
  count_clipped_only clipped millis s = elim (Bool-cases (ltb 0 clipped)) [
    | inl h ↦
        let (f, e) =
          emit_fault_only Q millis (clipping clipped)
            (record s { clipped_sample_count = (s.clipped_sample_count + clipped) % 2 ^ 64 }) in
        (f, (s.clipped_sample_count + clipped) % 2 ^ 64, rw (count_clipped, h) e)
    | inr h ↦ (s.faults, s.clipped_sample_count, rw (count_clipped, h) refl)
  ]

  -- The piece that `process` makes of the next frames.
  abbrev pub next_piece : CallbackState Q → ℕ → Piece
  next_piece s frames = record {
    position = s.position;
    frames = frames;
    mark = mark_of s.position s.pending_dropped_frames s.first_batch;
  }

  module _ (u : Setup) (taken : List Piece) where
    pub stop-Ledger :
        (k millis : ℕ) (s : CallbackState Q)
        → Opened u k taken s.shared
        → Ledger u k taken (stop_with_fault millis s)
    unfolding stop_with_fault stop_with_terminal_fault
    stop-Ledger k millis s v = record { opened = v; balanced = λ h. cc }

    -- Moving the position keeps the ledger when the new position agrees with the pieces.
    advance-Ledger :
        (overrun : Flow) (k millis frames : ℕ) (s : CallbackState Q)
        → Opened u k taken s.shared
        → (s.position + frames ≤ u64_max
            → AllBalanced taken (record s { position = s.position + frames }))
        → Ledger u k taken (advance_position overrun millis frames s).1
    unfolding checked_advance advance_position
    advance-Ledger overrun k millis frames s v w =
        elim (Bool-cases (leb (s.position + frames) u64_max)) [
          | inl h ↦
              let e : advance_position overrun millis frames s
                  ≡ (next_round, record s { position = s.position + frames }) =
                rw (advance_position, checked_advance, h) refl in
              subst (λ p. Ledger u k taken p.1) (sym e)
                (record { opened = v; balanced = w (leb→le _ _ h) })
          | inr h ↦
              let e : advance_position overrun millis frames s
                  ≡ (overrun, stop_with_fault millis s) =
                rw (advance_position, checked_advance, h) refl in
              subst (λ p. Ledger u k taken p.1) (sym e) (stop-Ledger k millis s v)
        ]

    pub drop_frames-Ledger :
        (k frames millis : ℕ) (s : CallbackState Q)
        → Ledger u k taken s
        → Ledger u k taken (drop_frames frames millis s).1
    unfolding drop_frames
    drop_frames-Ledger k frames millis s v =
        let counted : SharedCapture Q = record s.shared {
          overflow_count = (s.shared.overflow_count + 1) % 2 ^ 64;
        } in
        let (f, e) = emit_fault_only Q millis (overflowed frames) counted in
        let pending = saturating_add u64_max s.pending_dropped_frames frames in
        subst
          (λ sh.
            Ledger u k taken
              (advance_position next_round millis frames
                (record s { shared = sh; pending_dropped_frames = pending })).1)
          (sym e)
          (advance-Ledger next_round k millis frames _ v.opened (λ fit live.
            drop-Balanced (ledger_pieces taken s.shared) s.position s.pending_dropped_frames frames
              s.first_batch fit (v.balanced live)))

    pub abandon-Ledger :
        (buffer : List ℤ) (millis : ℕ) (s : CallbackState Q)
        → IsBuffer buffer
        → Opened u 1 taken s.shared
        → Ledger u 0 taken (abandon buffer millis s).1
    unfolding abandon
    abandon-Ledger buffer millis s b v =
        let (q, _, e, h) = give_back_fits Q u.queue_batches 0 s.shared buffer v.holds b in
        stop-Ledger 0 millis (record s { shared = give_back buffer s.shared })
          (subst (Opened u 0 taken) (sym e) (record {
            configured = v.configured;
            process_kept = v.process_kept;
            stream_kept = v.stream_kept;
            holds = h;
            delivered = v.delivered;
          }))

    -- Publishing a prepared batch: with a buffer in hand the ready queue has room.
    pub enqueue-Ledger :
        (raw : RawBatch) (clipped millis : ℕ) (s : CallbackState Q)
        → IsPrepared raw
        → piece_of_raw raw ≡ next_piece s raw.frame_count
        → Ledger u 1 taken s
        → Ledger u 0 taken
            (enqueue
              (Q.push s.shared.ready raw)
              raw.frame_count
              clipped
              millis
              (mark_published s)).1
    unfolding enqueue mark_published
    enqueue-Ledger raw clipped millis s p same v =
        let (q, e, c, h) =
          put_ready Q u.queue_batches 0 s.shared.free s.shared.ready raw v.opened.holds p in
        let (f, n, k) = count_clipped_only clipped millis (record s.shared { ready = q }) in
        let opened : IsOpened u 0 taken s.shared.configuration s.shared.process_generation
            s.shared.stream_generation s.shared.free q =
          record {
            configured = v.opened.configured;
            process_kept = v.opened.process_kept;
            stream_kept = v.opened.stream_kept;
            holds = h;
            delivered = v.opened.delivered;
          } in
        subst
          (λ r. Ledger u 0 taken (enqueue r raw.frame_count clipped millis (mark_published s)).1)
          (sym e)
          (subst
            (λ sh.
              Ledger u 0 taken
                (advance_position returned millis raw.frame_count
                  (record (mark_published s) { shared = sh })).1)
            (sym k)
            (advance-Ledger returned 0 millis raw.frame_count _ opened (λ fit live.
              subst
                (λ ps.
                  Balanced ps (s.position + raw.frame_count)
                    (if ltb 0 s.pending_dropped_frames then 0 else s.pending_dropped_frames) false)
                (sym (
                  pieces-append taken (Q.contents s.shared.ready) (Q.contents q) raw c
                  ∙ ap (λ x. ledger_pieces taken s.shared ++ x ∷ []) same))
                (queue-Balanced (ledger_pieces taken s.shared) s.position s.pending_dropped_frames
                  raw.frame_count s.first_batch (v.balanced live)))))
