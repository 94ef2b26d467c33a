-- ===== src/Audio/Capture/Taking.antt =====
-- crates/audio/src/capture.rs: what the worker takes from the shared queue, and what stopping leaves.
use slotpilot.Prelude.{
  ℕ, zero, suc, ◌≤◌, ◌<◌, ◌≡◌, inl, inr, refl, sym, ap, ◌∙◌, subst, arith, true, false, none, some,
  List, length, All, Bool-cases, if-eq_true, if-eq_false, true-ne-false, Option, [], ◌∷◌, ◌++◌, map,
  leb, length-take, take, append_assoc, append-nil,
}
use slotpilot.Prelude.Int.{ℤ}
use slotpilot.Prelude.Results.{Result, Result-cases, ok}
use slotpilot.Audio.Batch.{max_capture_batch_frames, CaptureBatch, new_batch}
use slotpilot.Audio.Capture.Queues.{ArrayQueue}
use slotpilot.Audio.Capture.Worker.{
  SharedCapture, RawBatch, InputCaptureError, Failure, close, stop, describe, discard,
  discard_ready, hand_over, next_batch, take_next,
}
use slotpilot.Audio.Capture.Callback.{CallbackState}
use slotpilot.Audio.Capture.Conservation.{Holds, IsPrepared, give_back_fits, take_ready}
use slotpilot.Audio.Capture.Accounting.{Piece, Balanced, Follows-prefix, piece_of_raw}
use slotpilot.Audio.Capture.Ledger.{Setup, Ledger, Opened, ledger_pieces}

abbrev pub piece_of : CaptureBatch → Piece
piece_of b = record {
  position = b.first_frame.position;
  frames = length b.samples;
  mark = b.discontinuity;
}

-- What a batch may contain by the contract of `CaptureBatch::new`, for a stream that was opened so.
pub record IsOf (u : Setup) (b : CaptureBatch) : Type 0 where
  pub process : b.process_generation ≡ u.process_generation
  pub stream : b.stream_generation ≡ u.stream_generation
  pub configured : b.configuration ≡ u.configuration
  pub some_frames : 0 < length b.samples
  pub fit : length b.samples ≤ max_capture_batch_frames

abbrev pub taken_of : Option CaptureBatch → List CaptureBatch
taken_of none = []
taken_of (some b) = b ∷ []

-- A call of `next_batch` succeeded, its batch is one of the stream, and with it the ledger holds.
pub record IsDelivery (Q : ArrayQueue) (u : Setup) (taken : List Piece) (s : CallbackState Q)
    (p : Result Failure (Option CaptureBatch) × SharedCapture Q) : Type 0 where
  pub batch : Option CaptureBatch
  pub succeeded : p.0 ≡ ok batch
  pub of_stream : All (IsOf u) (taken_of batch)
  pub ledger : Ledger Q u 0 (taken ++ map piece_of (taken_of batch)) (record s { shared = p.1 })

module _ (Q : ArrayQueue) (u : Setup) where
  discard-Opened :
      (fuel : ℕ) (taken : List Piece) (s : SharedCapture Q)
      → Opened Q u 0 taken s
      → Opened Q u 0 taken (discard fuel s) × ((discard fuel s).stopped ≡ s.stopped)
  unfolding discard
  discard-Opened zero taken s v = (v, refl)
  discard-Opened (suc fuel) taken s v = elim (Q.pop_cases s.ready) [
    | inl (_, f) ↦ rw (discard, f) (v, refl)
    | inr (raw, q, f, c, same) ↦
        let (p, h) = take_ready Q u.queue_batches 0 s.free s.ready q raw v.holds c same in
        let (free', _, e, k) =
          give_back_fits Q u.queue_batches 0 (record s { ready = q }) raw.samples h p.buffer in
        rw (discard, f, e)
          (discard-Opened fuel taken (record s { ready = q; free = free' })
            (record {
              configured = v.configured;
              process_kept = v.process_kept;
              stream_kept = v.stream_kept;
              holds = k;
              delivered = v.delivered;
            }))
  ]

  describe_fits :
      (s : SharedCapture Q) (raw : RawBatch)
      → IsPrepared raw
      → new_batch (describe s raw) ≡ ok (describe s raw)
  unfolding new_batch describe
  describe_fits s raw p = ground (
    arith,
    length-take raw.frame_count raw.samples,
    p.buffer,
    p.some_frames,
    p.fit,
    p.clipped,
    p.marked,
  )

  piece_of-describe :
      (s : SharedCapture Q) (raw : RawBatch)
      → IsPrepared raw
      → piece_of (describe s raw) ≡ piece_of_raw raw
  unfolding describe
  piece_of-describe s raw p =
      ap (λ n. record { position = raw.first_frame.position; frames = n; mark = raw.discontinuity })
        (omega (arith, length-take raw.frame_count raw.samples, p.buffer, p.fit))

  describe-IsOf :
      {taken : List Piece} (s : SharedCapture Q) (raw : RawBatch)
      → IsPrepared raw
      → Opened Q u 0 taken s
      → IsOf u (describe s raw)
  unfolding describe
  describe-IsOf s raw p v =
      let n : length (take raw.frame_count raw.samples) ≡ raw.frame_count =
        omega (arith, length-take raw.frame_count raw.samples, p.buffer, p.fit) in
      record {
        process = v.process_kept;
        stream = v.stream_kept;
        configured = v.configured;
        some_frames = omega (arith, n, p.some_frames);
        fit = omega (arith, n, p.fit);
      }

  -- The first of the ready batches becomes the last of the delivered ones.
  taken-Ledger :
      (taken : List Piece) (s : CallbackState Q) (raw : RawBatch) (q : Q.Queue RawBatch)
      (free' : Q.Queue (List ℤ))
      → IsPrepared raw
      → Q.contents s.shared.ready ≡ raw ∷ Q.contents q
      → Holds Q u.queue_batches 0 free' q
      → s.shared.stopped ≡ false
      → Ledger Q u 0 taken s
      → Ledger Q u 0
          (taken ++ piece_of (describe s.shared raw) ∷ [])
          (record s { shared = record s.shared { ready = q; free = free' } })
  taken-Ledger taken s raw q free' p c k live v =
      let moved : ledger_pieces Q taken s.shared
          ≡ (taken ++ piece_of (describe s.shared raw) ∷ []) ++ map piece_of_raw (Q.contents q) =
        ap (λ r. taken ++ map piece_of_raw r) c
        ∙ ap (λ x. taken ++ x ∷ map piece_of_raw (Q.contents q))
            (sym (piece_of-describe s.shared raw p))
        ∙ sym (
            append_assoc taken (piece_of (describe s.shared raw) ∷ [])
              (map piece_of_raw (Q.contents q))) in
      let balanced =
        subst (λ ps. Balanced ps s.position s.pending_dropped_frames s.first_batch) moved
          (v.balanced live) in
      record {
        opened = record {
          configured = v.opened.configured;
          process_kept = v.opened.process_kept;
          stream_kept = v.opened.stream_kept;
          holds = k;
          delivered =
              Follows-prefix 0 true (taken ++ piece_of (describe s.shared raw) ∷ [])
                (map piece_of_raw (Q.contents q)) balanced.follows;
        };
        balanced = λ _. balanced;
      }

  -- The worker's call on a live queue, at the result of the pop.
  take_next-Ledger :
      (taken : List Piece) (s : CallbackState Q)
      → s.shared.stopped ≡ false
      → Ledger Q u 0 taken s
      → IsDelivery Q u taken s (take_next (Q.pop s.shared.ready) s.shared)
  unfolding take_next hand_over
  take_next-Ledger taken s live v = elim (Q.pop_cases s.shared.ready) [
    | inl (_, f) ↦
        subst (λ o. IsDelivery Q u taken s (take_next o s.shared)) (sym f)
          (record {
            batch = none;
            succeeded = refl;
            of_stream = tt;
            ledger = subst (λ ps. Ledger Q u 0 ps s) (sym (append-nil taken)) v;
          })
    | inr (raw, q, f, c, same) ↦
        let s1 : SharedCapture Q = record s.shared { ready = q } in
        let (p, h) =
          take_ready Q u.queue_batches 0 s.shared.free s.shared.ready q raw v.opened.holds c same in
        let (free', g, _, k) = give_back_fits Q u.queue_batches 0 s1 raw.samples h p.buffer in
        let b = describe s.shared raw in
        let inside : leb raw.frame_count (length raw.samples) ≡ true =
          ground (arith, p.buffer, p.fit) in
        let made : take_next (some (raw, q)) s.shared ≡ (ok (some b), record s1 { free = free' }) =
          rw (take_next, inside, hand_over, g, describe_fits s.shared raw p) refl in
        subst (λ o. IsDelivery Q u taken s (take_next o s.shared)) (sym f)
          (subst (IsDelivery Q u taken s) (sym made) (record {
            batch = some b;
            succeeded = refl;
            of_stream = (describe-IsOf s.shared raw p v.opened, tt);
            ledger = taken-Ledger taken s raw q free' p c k live v;
          }))
  ]

  -- Stopping leaves the ledger of what was delivered.
  discarded-Ledger :
      (taken : List Piece) (s : CallbackState Q)
      → s.shared.stopped ≡ true
      → Opened Q u 0 taken s.shared
      → Ledger Q u 0 taken (record s { shared = discard_ready s.shared })
  unfolding discard_ready
  discarded-Ledger taken s h v =
      let (d, e) = discard-Opened (length (Q.contents s.shared.ready)) taken s.shared v in
      record { opened = d; balanced = λ live. absurd (true-ne-false (sym h ∙ sym e ∙ live)) }

  pub close-Ledger :
      (taken : List Piece) (s : CallbackState Q)
      → Opened Q u 0 taken s.shared
      → Ledger Q u 0 taken (record s { shared = close s.shared })
  unfolding close
  close-Ledger taken s v =
      discarded-Ledger taken (record s { shared = record s.shared { stopped = true } }) refl v

  pub stop-Ledger :
      (paused : Result InputCaptureError (Unit {0})) (taken : List Piece) (s : CallbackState Q)
      → Ledger Q u 0 taken s
      → Ledger Q u 0 taken (record s { shared = (stop paused s.shared).1 })
  unfolding stop
  stop-Ledger paused taken s v = elim (Bool-cases s.shared.stopped) [
    | inl h ↦
        subst
          (λ (p : Result InputCaptureError (Unit {0}) × SharedCapture Q).
            Ledger Q u 0 taken (record s { shared = p.1 }))
          (sym (if-eq_true s.shared.stopped _ _ h)) v
    | inr h ↦
        subst
          (λ (p : Result InputCaptureError (Unit {0}) × SharedCapture Q).
            Ledger Q u 0 taken (record s { shared = p.1 }))
          (sym (if-eq_false s.shared.stopped _ _ h))
          (elim (Result-cases paused) [
            | inl (x, e) ↦ rw e (
                discarded-Ledger taken (record s { shared = record s.shared { stopped = true } })
                  refl v.opened)
            | inr (x, e) ↦ rw e (record { opened = v.opened; balanced = λ live. cc })
          ])
  ]

  -- A call of the worker never fails, also on a stopped queue, where it delivers nothing.
  pub next_batch-IsDelivery :
      (taken : List Piece) (s : CallbackState Q)
      → Ledger Q u 0 taken s
      → IsDelivery Q u taken s (next_batch s.shared)
  unfolding next_batch discard_ready
  next_batch-IsDelivery taken s v =
      let dropped = discard_ready s.shared in
      let rest = take_next (Q.pop s.shared.ready) s.shared in
      let halt : Result Failure (Option CaptureBatch) × SharedCapture Q = (ok none, dropped) in
      elim (Bool-cases s.shared.stopped) [
        | inl h ↦
            subst (IsDelivery Q u taken s) (sym (if-eq_true s.shared.stopped halt rest h)) (record {
              batch = none;
              succeeded = refl;
              of_stream = tt;
              ledger =
                  subst (λ ps. Ledger Q u 0 ps (record s { shared = dropped }))
                    (sym (append-nil taken)) (discarded-Ledger taken s h v.opened);
            })
        | inr h ↦
            subst (IsDelivery Q u taken s) (sym (if-eq_false s.shared.stopped halt rest h))
              (take_next-Ledger taken s h v)
      ]
