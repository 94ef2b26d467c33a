-- ===== src/Audio/Capture/Worker.antt =====
-- crates/audio/src/capture.rs: the shared state and what the worker calls on it.
use slotpilot.Prelude.{
  ℕ, suc, zero, Bool, true, false, Option, none, some, List, length, take, replicate, if◌then◌else◌,
  within, leb, ◌==◌, not, ◌&&◌,
}
use slotpilot.Prelude.Int.{ℤ, pos}
use slotpilot.Prelude.Results.{Result, ok, err, ◌>>=◌, Exec, map_err}
use slotpilot.Audio.Config.{InputConfiguration}
use slotpilot.Audio.Batch.{
  CaptureBatch, CaptureDiagnostics, CaptureDiscontinuity, CaptureTimeEvidence, InputFault,
  InputFaultKind, InputHealth, permission_denied, device_lost, backend_failure, new_batch,
  new_health, max_capture_batch_frames,
}
use slotpilot.Audio.Capture.Queues.{ArrayQueue}

abbrev pub max_capture_queue_batches : ℕ
max_capture_queue_batches = 128

pub data InputCaptureError : Type 0 where
  invalid_queue_capacity unsupported_configuration permission_refused : InputCaptureError
  device_disappeared stopped backend_failed : InputCaptureError

-- How a call of the worker may end without a result.
pub data Failure : Type 0 where
  panic : Failure
  refused_call : InputCaptureError → Failure

pub record RawBatch : Type 0 where
  pub samples : List ℤ
  pub frame_count : ℕ
  pub first_frame : CaptureTimeEvidence
  pub discontinuity : Option CaptureDiscontinuity
  pub diagnostics : CaptureDiagnostics

pub record SharedCapture (Q : ArrayQueue) : Type 0 where
  pub configuration : InputConfiguration
  pub process_generation : ℕ
  pub stream_generation : ℕ
  pub free : Q.Queue (List ℤ)
  pub ready : Q.Queue RawBatch
  pub faults : Q.Queue InputFault
  pub stopped : Bool
  pub overflow_count : ℕ
  pub clipped_sample_count : ℕ
  pub max_callback_delay_millis : ℕ
  pub terminal_fault : ℕ
  pub terminal_fault_time : ℕ
  pub terminal_fault_reported : Bool

abbrev pub empty_buffer : List ℤ
empty_buffer = replicate max_capture_batch_frames (pos 0)

-- The loop of `SharedCapture::new` that allocates the buffers.
unfoldable pub allocate :
    (Q : ArrayQueue) → ℕ → Q.Queue (List ℤ) → Result InputCaptureError (Q.Queue (List ℤ))
allocate Q zero free = ok free
allocate Q (suc n) free = elim (Q.push free empty_buffer) [
  | err _ ↦ err backend_failed
  | ok free' ↦ allocate Q n free'
]

-- The fields that `SharedCapture::new` sets, around the allocated buffers.
abbrev pub initial :
    (Q : ArrayQueue) → InputConfiguration → ℕ → ℕ → ℕ → Q.Queue (List ℤ) → SharedCapture Q
initial Q configuration process stream queue_batches free = record {
  configuration = configuration;
  process_generation = process;
  stream_generation = stream;
  free = free;
  ready = Q.new queue_batches;
  faults = Q.new queue_batches;
  stopped = false;
  overflow_count = 0;
  clipped_sample_count = 0;
  max_callback_delay_millis = 0;
  terminal_fault = 0;
  terminal_fault_time = 0;
  terminal_fault_reported = false;
}

-- `SharedCapture::new`.
unfoldable pub new_shared :
    (Q : ArrayQueue) → InputConfiguration → ℕ → ℕ → ℕ → Result InputCaptureError (SharedCapture Q)
new_shared Q configuration process stream queue_batches =
    if within 2 max_capture_queue_batches queue_batches
    then (do
      free ← allocate Q queue_batches (Q.new queue_batches)
      ok (initial Q configuration process stream queue_batches free))
    else err invalid_queue_capacity

abbrev pub kind_of_code : ℕ → InputFaultKind
kind_of_code code =
    if code == 1 then permission_denied else if code == 2 then device_lost else backend_failure

abbrev pub code_of_kind : InputFaultKind → ℕ
code_of_kind permission_denied = 1
code_of_kind device_lost = 2
code_of_kind _ = 3

module _ {Q : ArrayQueue} where
  -- `let _ = self.free.push(samples)`.
  unfoldable pub give_back : List ℤ → SharedCapture Q → SharedCapture Q
  give_back samples s = elim (Q.push s.free samples) [
    | err _ ↦ s
    | ok free' ↦ record s { free = free' }
  ]

  -- The loop of `discard_ready`, one round for each raw batch.
  unfoldable pub discard : ℕ → SharedCapture Q → SharedCapture Q
  discard zero s = s
  discard (suc fuel) s = elim (Q.pop s.ready) [
    | none ↦ s
    | some (raw, ready') ↦ discard fuel (give_back raw.samples (record s { ready = ready' }))
  ]

  unfoldable pub discard_ready : SharedCapture Q → SharedCapture Q
  discard_ready s = discard (length (Q.contents s.ready)) s

  -- The batch that `next_batch` describes to `CaptureBatch::new`.
  unfoldable pub describe : SharedCapture Q → RawBatch → CaptureBatch
  describe s raw = record {
    process_generation = s.process_generation;
    stream_generation = s.stream_generation;
    configuration = s.configuration;
    first_frame = raw.first_frame;
    discontinuity = raw.discontinuity;
    diagnostics = raw.diagnostics;
    samples = take raw.frame_count raw.samples;
  }

  -- The buffer goes back to the free queue before an invalid batch is reported.
  unfoldable pub hand_over :
      Result InputCaptureError CaptureBatch
      → RawBatch
      → Exec (SharedCapture Q) Failure (Option CaptureBatch)
  hand_over batch raw s = elim (Q.push s.free raw.samples) [
    | err _ ↦ (err (refused_call backend_failed), s)
    | ok free' ↦ elim batch [
      | err e ↦ (err (refused_call e), record s { free = free' })
      | ok b ↦ (ok (some b), record s { free = free' })
    ]
  ]

  -- The slice `raw.samples[..raw.frame_count]` panics beyond the buffer.
  unfoldable pub take_next :
      Option (RawBatch × Q.Queue RawBatch) → Exec (SharedCapture Q) Failure (Option CaptureBatch)
  take_next none s = (ok none, s)
  take_next (some (raw, ready')) s =
      if leb raw.frame_count (length raw.samples)
      then hand_over (map_err (λ _. backend_failed) (new_batch (describe s raw))) raw
          (record s { ready = ready' })
      else (err panic, record s { ready = ready' })

  unfoldable pub next_batch : Exec (SharedCapture Q) Failure (Option CaptureBatch)
  next_batch s = if s.stopped then (ok none, discard_ready s) else take_next (Q.pop s.ready) s

  -- The diagnostic of this stream.
  abbrev pub fault_of : SharedCapture Q → ℕ → InputFaultKind → InputFault
  fault_of s millis kind = record {
    process_generation = s.process_generation;
    stream_generation = some s.stream_generation;
    monotonic_millis = millis;
    kind = kind;
  }

  unfoldable pub emit_fault : ℕ → InputFaultKind → SharedCapture Q → SharedCapture Q
  emit_fault millis kind s = elim (Q.push s.faults (fault_of s millis kind)) [
    | err _ ↦ s
    | ok faults' ↦ record s { faults = faults' }
  ]

  unfoldable pub next_fault : SharedCapture Q → Option InputFault × SharedCapture Q
  next_fault s =
      if not (s.terminal_fault == 0) && not s.terminal_fault_reported
      then (
        some (fault_of s s.terminal_fault_time (kind_of_code s.terminal_fault)),
        record s { terminal_fault_reported = true },
      )
      else elim (Q.pop s.faults) [
        | none ↦ (none, s)
        | some (fault, faults') ↦ (some fault, record s { faults = faults' })
      ]

  unfoldable pub stop_with_terminal_fault : ℕ → InputFaultKind → SharedCapture Q → SharedCapture Q
  stop_with_terminal_fault millis kind s = record s {
    terminal_fault_time = millis;
    terminal_fault = code_of_kind kind;
    stopped = true;
  }

  -- `SystemInputCapture::health`.
  unfoldable pub health : SharedCapture Q → Result InputCaptureError InputHealth
  health s =
      map_err (λ _. backend_failed)
        (new_health (record {
          latency_millis = s.max_callback_delay_millis;
          drift_parts_per_million = pos 0;
          overflow_count = s.overflow_count;
          clipped_sample_count = s.clipped_sample_count;
          max_callback_delay_millis = s.max_callback_delay_millis;
        }))

  -- `SystemInputCapture::stop`; the argument is what pausing the native stream returned, with its
  -- error mapped.
  unfoldable pub stop :
      Result InputCaptureError (Unit {0}) → Exec (SharedCapture Q) InputCaptureError (Unit {0})
  stop paused s = if s.stopped then (err stopped, s) else elim paused [
    | err e ↦ (err e, record s { stopped = true })
    | ok _ ↦ (ok tt, discard_ready (record s { stopped = true }))
  ]

  -- `drop` of `SystemInputCapture`.
  unfoldable pub close : SharedCapture Q → SharedCapture Q
  close s = discard_ready (record s { stopped = true })

-- The kinds of `cpal::ErrorKind` that the code tells apart.
pub data ErrorKind : Type 0 where
  permission_denied_kind device_not_available device_changed : ErrorKind
  stream_invalidated unsupported_config unsupported_operation : ErrorKind
  invalid_input other_kind : ErrorKind

-- The match of `SharedCapture::stop_for_backend_error`.
abbrev pub backend_fault : ErrorKind → InputFaultKind
backend_fault permission_denied_kind = permission_denied
backend_fault device_not_available = device_lost
backend_fault device_changed = device_lost
backend_fault stream_invalidated = device_lost
backend_fault _ = backend_failure

abbrev pub map_open_error : ErrorKind → InputCaptureError
map_open_error permission_denied_kind = permission_refused
map_open_error device_not_available = device_disappeared
map_open_error device_changed = device_disappeared
map_open_error stream_invalidated = device_disappeared
map_open_error unsupported_config = unsupported_configuration
map_open_error unsupported_operation = unsupported_configuration
map_open_error invalid_input = unsupported_configuration
map_open_error other_kind = backend_failed

unfoldable pub stop_for_backend_error :
    {Q : ArrayQueue} → ErrorKind → ℕ → SharedCapture Q → SharedCapture Q
unfolding stop_with_terminal_fault
stop_for_backend_error kind millis s = stop_with_terminal_fault millis (backend_fault kind) s
