-- ===== src/Audio/Capture/History.antt =====
-- crates/audio/src/capture.rs: a capture stream from its opening on, under any calls of the device
-- callback, of the backend and of the worker.
use slotpilot.Prelude.{
  ℕ, ◌<◌, ◌≡◌, inl, inr, refl, sym, subst, ap, ◌∙◌, Bool, true, List, [], ◌∷◌, ◌++◌, map, All,
  All-append, if_holds, map-append, append_assoc, append-nil, Option, within,
}
use slotpilot.Prelude.Int.{ℤ}
use slotpilot.Prelude.Results.{Result, ok, err, ok-injective}
use slotpilot.Audio.Batch.{CaptureBatch, InputFault}
use slotpilot.Audio.Capture.Queues.{ArrayQueue}
use slotpilot.Audio.Capture.Worker.{
  SharedCapture, Failure, InputCaptureError, ErrorKind, close, panic, stop, initial,
  max_capture_queue_batches, new_shared, next_batch, next_fault, stop_for_backend_error,
  stop_with_terminal_fault,
}
use slotpilot.Audio.Capture.Fill.{NormalizeSample}
use slotpilot.Audio.Capture.Callback.{
  CallbackState, CallbackTiming, Flow, next_round, returned, out_of_range, new_callback,
}
use slotpilot.Audio.Capture.Process.{process}
use slotpilot.Audio.Capture.Conservation.{Holds, new_shared_fits}
use slotpilot.Audio.Capture.Accounting.{Piece, piece_of_raw, Balanced, Follows}
use slotpilot.Audio.Capture.Ledger.{Setup, Ledger}
use slotpilot.Audio.Capture.Chunks.{Ends}
use slotpilot.Audio.Capture.Delivery.{process-Ends}
use slotpilot.Audio.Capture.Taking.{
  IsDelivery, IsOf, close-Ledger, stop-Ledger, next_batch-IsDelivery, piece_of, taken_of,
}

-- A call on the stream: the device delivers samples, the backend fails, the worker takes a batch,
-- asks for a fault or for the health, stops the stream, where pausing the device returns the given
-- result, or drops it.
pub data Call (T : Type 0) : Type 0 where
  arrives : List T → CallbackTiming → Call T
  fails : ErrorKind → ℕ → Call T
  takes asks checks closes : Call T
  stops : Result InputCaptureError (Unit {0}) → Call T

module _ {Q : ArrayQueue} where
  abbrev flow_result : Flow × CallbackState Q → Result Failure (List CaptureBatch × CallbackState Q)
  flow_result (out_of_range, s) = err panic
  flow_result (next_round, s) = ok ([], s)
  flow_result (returned, s) = ok ([], s)

  abbrev batch_result :
      CallbackState Q
      → Result Failure (Option CaptureBatch) × SharedCapture Q
      → Result Failure (List CaptureBatch × CallbackState Q)
  batch_result s (err e, shared) = err e
  batch_result s (ok o, shared) = ok (taken_of o, record s { shared = shared })

  -- The batches that the call delivers, and the state behind it. A panic or a failure to take a
  -- batch ends the history; what `stop` and `health` return does not, and `health` only reads.
  unfoldable pub step :
      {T : Type 0}
      → NormalizeSample T
      → CallbackState Q
      → Call T
      → Result Failure (List CaptureBatch × CallbackState Q)
  step normalize s (arrives items timing) = flow_result (process normalize items timing s)
  step normalize s (fails kind millis) =
      ok ([], record s { shared = stop_for_backend_error kind millis s.shared })
  step normalize s takes = batch_result s (next_batch s.shared)
  step normalize s asks = ok ([], record s { shared = (next_fault s.shared).1 })
  step normalize s checks = ok ([], s)
  step normalize s closes = ok ([], record s { shared = close s.shared })
  step normalize s (stops paused) = ok ([], record s { shared = (stop paused s.shared).1 })

  unfoldable pub run :
      {T : Type 0}
      → NormalizeSample T
      → CallbackState Q
      → List (Call T)
      → Result Failure (List CaptureBatch × CallbackState Q)
  run normalize s [] = ok ([], s)
  run normalize s (c ∷ cs) = elim (step normalize s c) [
    | err e ↦ err e
    | ok (bs, s') ↦ elim (run normalize s' cs) [
      | err e ↦ err e
      | ok (rest, s'') ↦ ok (bs ++ rest, s'')
    ]
  ]

-- The history ended without a panic or a failure to take a batch; its batches are valid batches of
-- the stream, and with them the ledger holds.
pub record IsSound (Q : ArrayQueue) (u : Setup) (taken : List Piece)
    (r : Result Failure (List CaptureBatch × CallbackState Q)) : Type 0 where
  pub batches : List CaptureBatch
  pub state : CallbackState Q
  pub succeeded : r ≡ ok (batches, state)
  pub of_stream : All (IsOf u) batches
  pub ledger : Ledger Q u 0 (taken ++ map piece_of batches) state

module _ (Q : ArrayQueue) (u : Setup) {T : Type 0} (normalize : NormalizeSample T) where
  silent :
      (taken : List Piece) (s' : CallbackState Q)
      → Ledger Q u 0 taken s'
      → IsSound Q u taken (ok ([], s'))
  silent taken s' v = record {
    batches = [];
    state = s';
    succeeded = refl;
    of_stream = tt;
    ledger = subst (λ ps. Ledger Q u 0 ps s') (sym (append-nil taken)) v;
  }

  flow-IsSound :
      (taken : List Piece) (p : Flow × CallbackState Q)
      → Ends Q u taken p
      → IsSound Q u taken (flow_result p)
  flow-IsSound taken (next_round, s) e = silent taken s e.1
  flow-IsSound taken (returned, s) e = silent taken s e.1
  flow-IsSound taken (out_of_range, s) e = absurd (e.0 refl)

  batch-IsSound :
      (taken : List Piece) (s : CallbackState Q)
      (p : Result Failure (Option CaptureBatch) × SharedCapture Q)
      → IsDelivery Q u taken s p
      → IsSound Q u taken (batch_result s p)
  batch-IsSound taken s (err e, shared) d = cc
  batch-IsSound taken s (ok o, shared) d =
      subst (λ x. IsSound Q u taken (ok (taken_of x, record s { shared = shared })))
        (sym (ok-injective (ok o) refl d.succeeded))
        (record {
          batches = taken_of d.batch;
          state = record s { shared = shared };
          succeeded = refl;
          of_stream = d.of_stream;
          ledger = d.ledger;
        })

  -- Asking for a fault changes neither the queues of samples nor the position.
  asks-Ledger :
      (taken : List Piece) (s : CallbackState Q)
      → Ledger Q u 0 taken s
      → Ledger Q u 0 taken (record s { shared = (next_fault s.shared).1 })
  unfolding next_fault
  asks-Ledger taken s v =
      let v' : (b : Bool) (f : Q.Queue InputFault)
          → Ledger Q u 0 taken
              (record s { shared = record s.shared { terminal_fault_reported = b; faults = f } }) =
        λ b f. record { opened = v.opened; balanced = v.balanced } in
      elim (Q.pop_cases s.shared.faults) [
        | inl (_, f) ↦
            rw (next_fault, f)
              (if_holds
                (λ (p : Option InputFault × SharedCapture Q).
                  Ledger Q u 0 taken (record s { shared = p.1 }))
                _ _ _ (v' true s.shared.faults)
                (v' s.shared.terminal_fault_reported s.shared.faults))
        | inr (a, q, f, _, _) ↦
            rw (next_fault, f)
              (if_holds
                (λ (p : Option InputFault × SharedCapture Q).
                  Ledger Q u 0 taken (record s { shared = p.1 }))
                _ _ _ (v' true s.shared.faults) (v' s.shared.terminal_fault_reported q))
      ]

  -- When the selected channel exists, each call keeps the ledger, ends without a panic, and delivers
  -- valid batches of the stream.
  pub step-IsSound :
      (taken : List Piece) (s : CallbackState Q) (c : Call T)
      → u.configuration.selected_channel < u.configuration.channels
      → Ledger Q u 0 taken s
      → IsSound Q u taken (step normalize s c)
  unfolding step stop_for_backend_error stop_with_terminal_fault
  step-IsSound taken s (arrives items timing) room v =
      flow-IsSound taken _ (process-Ends Q u taken room normalize items timing s v)
  step-IsSound taken s (fails kind millis) room v =
      silent taken _ (record { opened = v.opened; balanced = λ h. cc })
  step-IsSound taken s takes room v = batch-IsSound taken s _ (next_batch-IsDelivery Q u taken s v)
  step-IsSound taken s asks room v = silent taken _ (asks-Ledger taken s v)
  step-IsSound taken s checks room v = silent taken s v
  step-IsSound taken s closes room v = silent taken _ (close-Ledger Q u taken s v.opened)
  step-IsSound taken s (stops paused) room v = silent taken _ (stop-Ledger Q u paused taken s v)

  run-IsSound :
      (taken : List Piece) (s : CallbackState Q) (cs : List (Call T))
      → u.configuration.selected_channel < u.configuration.channels
      → Ledger Q u 0 taken s
      → IsSound Q u taken (run normalize s cs)
  unfolding run
  run-IsSound taken s [] room v = silent taken s v
  run-IsSound taken s (c ∷ cs) room v =
      let first = step-IsSound taken s c room v in
      let rest =
        run-IsSound (taken ++ map piece_of first.batches) first.state cs room first.ledger in
      record {
        batches = first.batches ++ rest.batches;
        state = rest.state;
        succeeded = rw (run, first.succeeded, rest.succeeded) refl;
        of_stream = All-append (IsOf u) first.batches rest.batches first.of_stream rest.of_stream;
        ledger =
            subst (λ ps. Ledger Q u 0 ps rest.state)
              (append_assoc taken (map piece_of first.batches) (map piece_of rest.batches)
                ∙ ap (λ ps. taken ++ ps) (sym (map-append piece_of first.batches rest.batches)))
              rest.ledger;
      }

  -- The ledger of a stream that was just opened.
  pub opened-Ledger :
      (free : Q.Queue (List ℤ))
      → Holds Q u.queue_batches 0 free (Q.new u.queue_batches)
      → Ledger Q u 0 [] (
          new_callback (
            initial Q u.configuration u.process_generation u.stream_generation u.queue_batches
              free))
  unfolding new_callback
  opened-Ledger free h =
      let none_ready : map piece_of_raw (Q.contents (Q.new u.queue_batches)) ≡ [] =
        ap (map piece_of_raw) (Q.contents-new u.queue_batches) in
      record {
        opened = record {
          configured = refl;
          process_kept = refl;
          stream_kept = refl;
          holds = h;
          delivered = tt;
        };
        balanced = λ _.
            subst (λ ps. Balanced ps 0 0 true) (sym none_ready)
              (record { follows = tt; reached = refl; opens = refl });
      }

  -- A stream opens when the number of buffers is in range, and when the selected channel exists then
  -- no history of calls panics, and taking a batch never fails in it: the batches that it delivers
  -- are valid batches of the stream, and each starts behind the one before it, or behind the exact
  -- number of lost frames that its mark states.
  pub opened_stream_sound :
      (cs : List (Call T))
      → within 2 max_capture_queue_batches u.queue_batches ≡ true
      → u.configuration.selected_channel < u.configuration.channels
      → (shared : SharedCapture Q) × (new_shared Q u.configuration u.process_generation
            u.stream_generation u.queue_batches
          ≡ ok shared)
        × (bs : List CaptureBatch) × (s : CallbackState Q) × (run normalize (new_callback shared) cs
            ≡ ok (bs, s))
        × All (IsOf u) bs
        × Follows 0 true (map piece_of bs)
  opened_stream_sound cs n room =
      let (free, e, h) =
        new_shared_fits Q u.configuration u.process_generation u.stream_generation u.queue_batches
          n in
      let r = run-IsSound [] _ cs room (opened-Ledger free h) in
      (_, e, r.batches, r.state, r.succeeded, r.of_stream, r.ledger.opened.delivered)
