-- ===== src/Daemon/Lifecycle.antt =====
-- apps/daemon/src/receive.rs: `new`, `enable_spectrum`, `start`, `observe_clock`, `stop`, and the
-- transitions they share.
use slotpilot.Prelude.{ℕ, Bool, true, false, Option, none, some, List, [], ◌∷◌, if◌then◌else◌, ◌==◌}
use slotpilot.Prelude.Words.{checked_add, u64_max}
use slotpilot.Prelude.Results.{Result, ok, err}
use slotpilot.Audio.Batch.{
  InputFaultKind, backend_failure, device_lost, new_generation, permission_denied,
}
use slotpilot.Audio.Timeline.{new_timeline}
use slotpilot.Audio.Capture.Worker.{InputCaptureError, device_disappeared, permission_refused}
use slotpilot.Audio.Spectrum.Chunk.{
  SpectrumDiscontinuity, stream_generation_changed, timeline_discontinuity,
}
use slotpilot.Audio.Spectrum.Config.{SpectrumConfig}
use slotpilot.Audio.Spectrum.Model.{SpectrumModel, new_model, reset}
use slotpilot.ReceiveClock.{
  GenerationClockSample, ReceiveClockFault, ReceiveClockSnapshot, ReceiveClockState,
  ReceiveClockTransition, became_unhealthy, healthy, recovered, recovering, stayed_healthy,
  stayed_unhealthy, unhealthy,
}
use slotpilot.ReceiveClock.Monitor.{new_monitor, observe}
use slotpilot.Daemon.Types.{
  CoordinatorConfig, LiveReceiveCoordinator, Method, Ports, ReceiveCoordinatorError,
  ReceiveInhibition, ReceiveLifecycleEvent, ReceiveLifecycleState, ReceiveStopReason, inhibited,
  invalid_lifecycle, invalid_stream_generation, receiving, starting, stopped, stopping,
  stream_generation_overflow,
}

abbrev pub capture_error_kind : InputCaptureError → InputFaultKind
capture_error_kind permission_refused = permission_denied
capture_error_kind device_disappeared = device_lost
capture_error_kind _ = backend_failure

abbrev pub reset_spectrum : SpectrumDiscontinuity → Option SpectrumModel → Option SpectrumModel
reset_spectrum reason none = none
reset_spectrum reason (some m) = some (reset reason m)

abbrev pub is_stopped : ReceiveLifecycleState → Bool
is_stopped (stopped p last) = true
is_stopped _ = false

-- The stream generation of a state that is not stopped.
abbrev pub generation_of : ReceiveLifecycleState → Option ℕ
generation_of (stopped p last) = none
generation_of (starting g) = some g
generation_of (receiving g) = some g
generation_of (inhibited g reason) = some g
generation_of (stopping g reason) = some g

abbrev pub require_receiving : ReceiveLifecycleState → Result ReceiveCoordinatorError ℕ
require_receiving (receiving g) = ok g
require_receiving s = err (invalid_lifecycle s)

-- The generation that `stop` may stop.
abbrev pub stoppable : ReceiveLifecycleState → Option ℕ
stoppable (receiving g) = some g
stoppable (inhibited g reason) = some g
stoppable _ = none

abbrev pub snapshot_of : ReceiveClockTransition → ReceiveClockSnapshot
snapshot_of (stayed_healthy s) = s
snapshot_of (became_unhealthy s) = s
snapshot_of (recovering s) = s
snapshot_of (recovered s) = s
snapshot_of (stayed_unhealthy s) = s

module _ {P : Ports} where
  unfoldable pub new_coordinator :
      P.Input → P.Store → CoordinatorConfig P → LiveReceiveCoordinator P
  new_coordinator input store config = record {
    input = input;
    store = store;
    service_instance_id = config.service_instance_id;
    process_generation = config.process_generation;
    selection = config.selection;
    decode_config = config.decode;
    clock_config = config.clock;
    state = stopped config.process_generation 0;
    last_stream_generation = 0;
    timeline = none;
    clock = none;
    worker_batches = [];
    spectrum = none;
  }

  -- The second argument is the scratch length that the FFT asks for.
  unfoldable pub enable_spectrum : SpectrumConfig → ℕ → Method P (Unit {0})
  enable_spectrum config scratch c = elim (new_model config scratch) [
    | err e ↦ (err (ReceiveCoordinatorError.spectrum e), c)
    | ok m ↦ (ok tt, record c { spectrum = some m })
  ]

  unfoldable pub transition :
      ReceiveLifecycleState
      → LiveReceiveCoordinator P
      → ReceiveLifecycleEvent × LiveReceiveCoordinator P
  transition current c =
      (record { previous = c.state; current = current }, record c { state = current })

  -- The input is stopped, and what was captured goes.
  unfoldable pub release :
      SpectrumDiscontinuity → LiveReceiveCoordinator P → LiveReceiveCoordinator P
  release reason c = record c {
    input = (P.stop_input c.input).1;
    worker_batches = [];
    timeline = none;
    clock = none;
    spectrum = reset_spectrum reason c.spectrum;
  }

  unfoldable pub inhibit :
      ReceiveInhibition
      → LiveReceiveCoordinator P
      → ReceiveLifecycleEvent × LiveReceiveCoordinator P
  inhibit reason c = elim (generation_of c.state) [
    | none ↦ transition c.state c
    | some g ↦ transition (inhibited g reason) (release timeline_discontinuity c)
  ]

  -- The second of two transitions that a method makes.
  abbrev pub then_transition :
      ReceiveLifecycleEvent → ReceiveLifecycleState → Method P (List ReceiveLifecycleEvent)
  then_transition first current c =
      let (second, c') = transition current c in (ok (first ∷ second ∷ []), c')

  -- The end of `start`, with the input open.
  unfoldable pub begin_receiving :
      GenerationClockSample → ReceiveLifecycleEvent → ℕ → Method P (List ReceiveLifecycleEvent)
  begin_receiving initial first g c = elim (new_monitor initial c.clock_config) [
    | err e ↦ (err (ReceiveCoordinatorError.clock e), c)
    | ok monitor ↦ then_transition first (receiving g) (record c {
      timeline = some (new_timeline c.process_generation g c.selection.configuration);
      clock = some monitor;
      worker_batches = [];
      spectrum = reset_spectrum stream_generation_changed c.spectrum;
    })
  ]

  unfoldable pub open_input :
      GenerationClockSample → ReceiveLifecycleEvent → ℕ → Method P (List ReceiveLifecycleEvent)
  open_input initial first g c =
      let (result, input') = P.start_input c.selection c.process_generation g c.input in
      let c' : LiveReceiveCoordinator P = record c { input = input' } in
      elim result [
        | err e ↦
            then_transition first (inhibited g (ReceiveInhibition.input (capture_error_kind e))) c'
        | ok _ ↦ begin_receiving initial first g c'
      ]

  -- `start` with the stream generation reserved.
  unfoldable pub start_generation :
      GenerationClockSample → ℕ → Method P (List ReceiveLifecycleEvent)
  start_generation initial g c =
      let (first, c') = transition (starting g) c in
      if initial.generation == c'.process_generation
      then open_input initial first g c'
      else then_transition first
          (inhibited g (ReceiveInhibition.clock ReceiveClockFault.process_generation_changed)) c'

  unfoldable pub start : GenerationClockSample → Method P (List ReceiveLifecycleEvent)
  start initial c =
      if is_stopped c.state
      then elim (checked_add u64_max c.last_stream_generation 1) [
        | none ↦ (err stream_generation_overflow, c)
        | some next ↦ elim (new_generation next) [
          | err _ ↦ (err invalid_stream_generation, c)
          | ok g ↦ start_generation initial g (record c { last_stream_generation = next })
        ]
      ]
      else (err (invalid_lifecycle c.state), c)

  -- What `observe_clock` does in the state that the snapshot shows.
  unfoldable pub after_clock : ReceiveClockState → Method P (Option ReceiveLifecycleEvent)
  after_clock healthy c = (ok none, c)
  after_clock (unhealthy fault p r) c =
      let (event, c') = inhibit (ReceiveInhibition.clock fault) c in (ok (some event), c')

  unfoldable pub observe_clock : GenerationClockSample → ℕ → Method P (Option ReceiveLifecycleEvent)
  observe_clock observation at c = elim (require_receiving c.state) [
    | err e ↦ (err e, c)
    | ok _ ↦ elim c.clock [
      | none ↦ (err (invalid_lifecycle c.state), c)
      | some m ↦
          let (change, m') = observe m observation at in
          after_clock (snapshot_of change).state (record c { clock = some m' })
    ]
  ]

  unfoldable pub stop : ReceiveStopReason → Method P (List ReceiveLifecycleEvent)
  stop reason c = elim (stoppable c.state) [
    | none ↦ (err (invalid_lifecycle c.state), c)
    | some g ↦
        let (first, c') = transition (stopping g reason) c in
        then_transition first (stopped c'.process_generation c'.last_stream_generation)
          (release stream_generation_changed c')
  ]
