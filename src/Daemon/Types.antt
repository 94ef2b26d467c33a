-- ===== src/Daemon/Types.antt =====
-- apps/daemon/src/receive.rs: the values of the receive coordinator, and what it is composed with.
use slotpilot.Prelude.{ℕ, Option, List}
use slotpilot.Prelude.Int.{ℤ}
use slotpilot.Prelude.Results.{Result, Exec}
use slotpilot.Domain.Ids.{IdError}
use slotpilot.Audio.Config.{InputConfiguration}
use slotpilot.Audio.Batch.{CaptureBatch, InputFault, InputFaultKind, InputHealth}
use slotpilot.Audio.Slot.{ReceiveTimelineError}
use slotpilot.Audio.Timeline.{Ft8ReceiveTimeline}
use slotpilot.Audio.Capture.Worker.{InputCaptureError}
use slotpilot.Audio.Spectrum.Config.{SpectrumModelError}
use slotpilot.Audio.Spectrum.Model.{Magnitude, SpectrumModel, WaterfallSnapshot}
use slotpilot.ReceiveClock.{ReceiveClockConfig, ReceiveClockError, ReceiveClockFault}
use slotpilot.ReceiveClock.Monitor.{ReceiveClockMonitor}
use slotpilot.Protocol.Pcm.{Ft8Decode, PcmBuffer, PcmError}
use slotpilot.Storage.Record.{InputDeviceIdentity, ReceiveInsertOutcome, ReceiveRecord}

abbrev pub worker_batch_capacity : ℕ
worker_batch_capacity = 4

pub record ReceiveSelection : Type 0 where
  pub device_identity : InputDeviceIdentity
  pub configuration : InputConfiguration

pub data ReceiveInhibition : Type 0 where
  input : InputFaultKind → ReceiveInhibition
  timeline : ReceiveTimelineError → ReceiveInhibition
  clock : ReceiveClockFault → ReceiveInhibition
  worker_backpressure decoder_failure storage_failure : ReceiveInhibition

pub data ReceiveStopReason : Type 0 where
  requested cancelled : ReceiveStopReason

-- `stopped process last`; the others start with their stream generation.
pub data ReceiveLifecycleState : Type 0 where
  stopped : ℕ → ℕ → ReceiveLifecycleState
  starting receiving : ℕ → ReceiveLifecycleState
  inhibited : ℕ → ReceiveInhibition → ReceiveLifecycleState
  stopping : ℕ → ReceiveStopReason → ReceiveLifecycleState

pub record ReceiveLifecycleEvent : Type 0 where
  pub previous : ReceiveLifecycleState
  pub current : ReceiveLifecycleState

-- `persisted id outcome decode_count`; `incomplete slot_start accumulated`.
pub data ReceivePollEvent : Type 0 where
  incomplete : ℤ → ℕ → ReceivePollEvent
  persisted : List ℕ → ReceiveInsertOutcome → ℕ → ReceivePollEvent
  waterfall : WaterfallSnapshot → ReceivePollEvent
  lifecycle : ReceiveLifecycleEvent → ReceivePollEvent

pub data ReceiveCoordinatorError : Type 0 where
  invalid_lifecycle : ReceiveLifecycleState → ReceiveCoordinatorError
  stream_generation_overflow invalid_stream_generation : ReceiveCoordinatorError
  clock : ReceiveClockError → ReceiveCoordinatorError
  pcm : PcmError → ReceiveCoordinatorError
  identity : IdError → ReceiveCoordinatorError
  spectrum : SpectrumModelError → ReceiveCoordinatorError

-- What the coordinator is composed with: its input, decoder and store, the order on decodes, the
-- magnitudes of the FFT, and the hexadecimal text of a SHA-256 digest.
pub record Ports : Type 1 where
  pub Input : Type 0
  pub Store : Type 0
  pub Message : Type 0
  pub DecodeConfig : Type 0
  pub DecodeError : Type 0
  pub StoreError : Type 0
  pub start_input : ReceiveSelection → ℕ → ℕ → Exec Input InputCaptureError (Unit {0})
  pub next_batch : Exec Input InputCaptureError (Option CaptureBatch)
  pub next_fault : Input → Option InputFault × Input
  pub health : Exec Input InputCaptureError InputHealth
  pub stop_input : Exec Input InputCaptureError (Unit {0})
  pub decode : PcmBuffer → DecodeConfig → Result DecodeError (List (Ft8Decode Message))
  pub record_receive : ReceiveRecord Message → Exec Store StoreError ReceiveInsertOutcome
  pub sort_decodes : List (Ft8Decode Message) → List (Ft8Decode Message)
  pub magnitude : Magnitude
  pub sha256_hex : List ℕ → List ℕ

pub record LiveReceiveCoordinator (P : Ports) : Type 0 where
  pub input : P.Input
  pub store : P.Store
  pub service_instance_id : List ℕ
  pub process_generation : ℕ
  pub selection : ReceiveSelection
  pub decode_config : P.DecodeConfig
  pub clock_config : ReceiveClockConfig
  pub state : ReceiveLifecycleState
  pub last_stream_generation : ℕ
  pub timeline : Option Ft8ReceiveTimeline
  pub clock : Option ReceiveClockMonitor
  pub worker_batches : List CaptureBatch
  pub spectrum : Option SpectrumModel

-- `LiveReceiveCoordinatorConfig`.
pub record CoordinatorConfig (P : Ports) : Type 0 where
  pub service_instance_id : List ℕ
  pub process_generation : ℕ
  pub selection : ReceiveSelection
  pub decode : P.DecodeConfig
  pub clock : ReceiveClockConfig

-- A method of the coordinator.
abbrev pub Method : Ports → Type 0 → Type 0
Method P A = Exec (LiveReceiveCoordinator P) ReceiveCoordinatorError A
