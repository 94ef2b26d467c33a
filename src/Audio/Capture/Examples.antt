-- ===== src/Audio/Capture/Examples.antt =====
-- crates/audio/src/capture.rs: the theorems at a concrete queue and a short history.
use slotpilot.Prelude.{
  ℕ, ◌<◌, ◌≤◌, ◌≡◌, ◌↔◌, ◌⊎◌, inl, inr, refl, arith, Bool, true, Option, none, some, List, [], ◌∷◌,
  ◌++◌, map, All, length, if◌then◌else◌, ltb, lt-cases,
}
use slotpilot.Prelude.Int.{ℤ, pos, negsuc}
use slotpilot.Prelude.Results.{Result, ok, err}
use slotpilot.Audio.Config.{InputSampleFormat}
use slotpilot.Audio.Batch.{CaptureBatch, device_lost}
use slotpilot.Audio.Capture.Queues.{ArrayQueue}
use slotpilot.Audio.Batch.{
  stream_restart, checked_advance, new_batch, new_diagnostics, new_evidence,
}
use slotpilot.Audio.Capture.Worker.{
  SharedCapture, allocate, device_changed, initial, empty_buffer, new_shared, next_batch, take_next,
  hand_over, describe, stop_for_backend_error, stop_with_terminal_fault, next_fault, emit_fault,
  discard_ready, discard, fault_of, stop, close, Failure,
}
use slotpilot.Audio.Capture.Fill.{fill}
use slotpilot.Audio.Capture.Callback.{
  CallbackState, CallbackTiming, new_callback, advance_position, publish, enqueue, count_clipped,
  mark_published, next_discontinuity, chunk_evidence, offset_millis,
}
use slotpilot.Audio.Capture.Process.{process, process_chunks, process_chunk, after_fill, note_delay}
use slotpilot.Audio.Capture.Accounting.{Follows}
use slotpilot.Audio.Capture.Conservation.{Holds}
use slotpilot.Audio.Capture.Ledger.{Setup}
use slotpilot.Audio.Capture.Taking.{IsOf, piece_of}
use slotpilot.Audio.Capture.History.{
  Call, arrives, fails, takes, asks, checks, stops, closes, run, step, step-IsSound, opened-Ledger,
  IsSound, opened_stream_sound,
}
use slotpilot.Audio.Capture.Faults.{
  backend_error_reported, expected, failed, for_batch, for_fault, replies, Request,
}
use slotpilot.Audio.Capture.Normalize.{
  normalize_signed, normalize_unsigned, normalize_signed-IsScaled, IsScaled,
}
use slotpilot.Audio.Capture.Unsigned.{unsigned_as_signed}
use slotpilot.Audio.Capture.Continuity.{delivered_stream_accepted}
use slotpilot.Audio.Sequence.{CaptureSequence, observe_all, start}
use slotpilot.Prelude.Int.{◌+ℤ◌}

abbrev push_bounded : {A : Type 0} → ℕ × List A → A → Result A (ℕ × List A)
push_bounded (n, xs) a = if ltb (length xs) n then ok (n, xs ++ a ∷ []) else err a

abbrev pop_bounded : {A : Type 0} → ℕ × List A → Option (A × (ℕ × List A))
pop_bounded (n, []) = none
pop_bounded (n, a ∷ xs) = some (a, (n, xs))

push_bounded_cases :
    {A : Type 0} (q : ℕ × List A) (a : A)
    → ((q.0 ≤ length q.1) × (push_bounded q a ≡ err a))
      ⊎ ((q' : ℕ × List A) × (length q.1 < q.0)
          × (push_bounded q a ≡ ok q')
          × (q'.1 ≡ q.1 ++ a ∷ [])
          × (q'.0 ≡ q.0))
push_bounded_cases (n, xs) a = elim (lt-cases (length xs) n) [
  | inl h ↦ inr ((n, xs ++ a ∷ []), h, ground arith, refl, refl)
  | inr h ↦ inl (h, ground arith)
]

pop_bounded_cases :
    {A : Type 0} (q : ℕ × List A)
    → ((q.1 ≡ []) × (pop_bounded q ≡ none))
      ⊎ ((a : A) × (q' : ℕ × List A) × (pop_bounded q ≡ some (a, q'))
          × (q.1 ≡ a ∷ q'.1)
          × (q'.0 ≡ q.0))
pop_bounded_cases (n, []) = inl (refl, refl)
pop_bounded_cases (n, a ∷ xs) = inr (a, (n, xs), refl, refl, refl)

-- A list with its capacity is a bounded queue.
abbrev bounded_list : ArrayQueue
bounded_list = record {
  Queue = λ A. ℕ × List A;
  new = λ n. (n, []);
  push = push_bounded;
  pop = pop_bounded;
  contents = λ q. q.1;
  capacity = λ q. q.0;
  contents-new = λ n. refl;
  capacity-new = λ n. refl;
  push_cases = push_bounded_cases;
  pop_cases = pop_bounded_cases;
}

abbrev opening : Setup
opening = record {
  queue_batches = 2;
  configuration = record {
    sample_rate_hz = 48000;
    channels = 2;
    sample_format = InputSampleFormat.signed16;
    selected_channel = 1;
  };
  process_generation = 1;
  stream_generation = 3;
}

abbrev timing : CallbackTiming
timing = record { utc_unix_millis = pos 1000; monotonic_millis = 500; callback_delay_millis = 10 }

abbrev frames : List ℤ
frames = pos 5 ∷ pos 32767 ∷ pos 6 ∷ negsuc 99 ∷ []

abbrev calls : List (Call ℤ)
calls =
    arrives frames timing
    ∷ takes
    ∷ fails device_changed 600
    ∷ asks
    ∷ takes
    ∷ checks
    ∷ stops (ok tt)
    ∷ closes
    ∷ []

opened_stream_sound_example :
    (shared : SharedCapture bounded_list) × (new_shared bounded_list opening.configuration 1 3 2
      ≡ ok shared)
    × (bs : List CaptureBatch) × (s : CallbackState bounded_list) × (run
          (normalize_signed 32767)
          (new_callback shared)
          calls
        ≡ ok (bs, s))
    × All (IsOf opening) bs
    × Follows 0 true (map piece_of bs)
opened_stream_sound_example =
    opened_stream_sound bounded_list opening (normalize_signed 32767) calls refl (omega arith)

abbrev opened_queues : SharedCapture bounded_list
opened_queues =
    initial bounded_list opening.configuration 1 3 2 (2, empty_buffer ∷ empty_buffer ∷ [])

opens : new_shared bounded_list opening.configuration 1 3 2 ≡ ok opened_queues
unfolding new_shared allocate
opens = refl

abbrev delivered : CaptureBatch
delivered = record {
  process_generation = 1;
  stream_generation = 3;
  configuration = opening.configuration;
  first_frame = record { position = 0; utc_unix_millis = pos 1000; monotonic_millis = 500 };
  discontinuity = some (record { at = 0; kind = stream_restart; dropped_frames = 0 });
  diagnostics = record { clipped_samples = 1; callback_delay_millis = 10 };
  samples = pos 32767 ∷ negsuc 99 ∷ [];
}

abbrev outcome : Result Failure (List CaptureBatch × CallbackState bounded_list)
outcome = run (normalize_signed 32767) (new_callback opened_queues) calls

delivers : (s : CallbackState bounded_list) × (outcome ≡ ok (delivered ∷ [], s))
unfolding run step process process_chunks process_chunk after_fill publish enqueue advance_position
    checked_advance new_callback note_delay fill next_batch take_next hand_over describe new_batch
    stop_for_backend_error stop_with_terminal_fault next_fault emit_fault count_clipped
    mark_published next_discontinuity chunk_evidence offset_millis new_evidence new_diagnostics
    normalize_signed discard_ready discard stop close ◌+ℤ◌
delivers = (_, refl)

delivered_stream_accepted_example :
    (q : CaptureSequence) × (q' : CaptureSequence) × (start delivered ≡ ok q)
    × (observe_all q [] ≡ ok q')
delivered_stream_accepted_example =
    delivered_stream_accepted bounded_list opening (normalize_signed 32767) calls opened_queues
      delivered [] delivers.0 refl (omega arith) opens delivers.1 tt (omega arith, tt)

opened_queues-Holds : Holds bounded_list 2 0 opened_queues.free opened_queues.ready
opened_queues-Holds = record {
  free_capacity = refl;
  ready_capacity = refl;
  conserved = refl;
  buffers = (refl, (refl, tt));
  batches = tt;
}

step-IsSound_example :
    IsSound bounded_list opening []
      (step (normalize_signed 32767) (new_callback opened_queues) (arrives frames timing))
step-IsSound_example =
    step-IsSound bounded_list opening (normalize_signed 32767) [] (new_callback opened_queues)
      (arrives frames timing) (omega arith)
      (opened-Ledger bounded_list opening (normalize_signed 32767) opened_queues.free
        opened_queues-Holds)

abbrev requests : List Request
requests = for_batch ∷ for_fault ∷ for_batch ∷ for_fault ∷ []

backend_error_reported_example :
    replies requests (failed opened_queues device_changed 600)
    ≡ expected requests (fault_of opened_queues 600 device_lost ∷ [])
backend_error_reported_example =
    backend_error_reported opened_queues device_changed 600 requests refl

normalize_signed-IsScaled_example :
    (x : ℤ) × (c : Bool) × (normalize_signed 8388607 (negsuc 8388607) ≡ some (x, c))
    × IsScaled 8388607 (negsuc 8388607) x
    × ((c ≡ true) ↔ ((negsuc 8388607 ≡ negsuc 8388607) ⊎ (negsuc 8388607 ≡ pos 8388607)))
normalize_signed-IsScaled_example =
    normalize_signed-IsScaled 8388607 (negsuc 8388607) (omega arith) (omega arith) (omega arith)

unsigned_as_signed_example : normalize_unsigned 255 128 100 ≡ normalize_signed 127 (negsuc 27)
unsigned_as_signed_example = unsigned_as_signed 127 100 (omega arith) (omega arith) (omega arith)
