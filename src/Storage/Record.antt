-- ===== src/Storage/Record.antt =====
-- crates/storage/src/receive.rs: the durable record of a receive window and its validation.
use slotpilot.Prelude.{
  ℕ, Bool, true, false, List, [], ◌∷◌, length, within, ltb, leb, not, ◌&&◌, ◌||◌,
}
use slotpilot.Prelude.Int.{ℤ, abs, eqb_ℤ, is_negative}
use slotpilot.Prelude.Results.{Result, ok, guard, ◌>>◌}
use slotpilot.Audio.Config.{InputConfiguration}
use slotpilot.Audio.Batch.{CaptureTimeEvidence, InputHealth}
use slotpilot.Audio.Timeline.{ReceiveTimelineHealth}
use slotpilot.Protocol.Pcm.{Ft8Decode, Ft8DecodeMetadata}

abbrev pub max_stored_decodes_per_window : ℕ
max_stored_decodes_per_window = 128

abbrev pub max_clock_mapping_age_millis : ℕ
max_clock_mapping_age_millis = 86400000

pub data StoredClockFault : Type 0 where
  process_generation_changed timeline_regressed arithmetic_overflow : StoredClockFault
  utc_jump window_misaligned : ℤ → StoredClockFault
  stale_mapping sampling_delayed sample_gap : ℕ → StoredClockFault

-- `unhealthy fault progress required age`.
pub data ReceiveClockHealth : Type 0 where
  healthy : ℕ → ReceiveClockHealth
  unhealthy : StoredClockFault → ℕ → ℕ → ℕ → ReceiveClockHealth

-- The variant of `StorageError` that validation returns.
pub data RecordError : Type 0 where
  invalid_receive_record : RecordError

unfoldable pub validate_clock : ReceiveClockHealth → Result RecordError (Unit {0})
validate_clock (healthy age) = guard (leb age max_clock_mapping_age_millis) invalid_receive_record
validate_clock (unhealthy f progress required age) =
    guard (within 2 10 required && (ltb progress required && leb age max_clock_mapping_age_millis))
      invalid_receive_record

abbrev pub is_healthy : ReceiveClockHealth → Bool
is_healthy (healthy age) = true
is_healthy (unhealthy f p r age) = false

pub data InputPlatform : Type 0 where
  mac_os_core_audio windows_wasapi linux_alsa linux_jack : InputPlatform

-- `InputDeviceIdentity` of crates/audio/src/lib.rs, with the bytes of its text.
pub record InputDeviceIdentity : Type 0 where
  pub platform : InputPlatform
  pub opaque_id : List ℕ

pub record ReceiveDiagnosticSummary : Type 0 where
  pub audio : InputHealth
  pub timeline : ReceiveTimelineHealth
  pub clock : ReceiveClockHealth

pub record ReceiveWindowContext : Type 0 where
  pub receive_window_id : List ℕ
  pub service_instance_id : List ℕ
  pub process_generation : ℕ
  pub stream_generation : ℕ
  pub slot : ℤ
  pub device_identity : InputDeviceIdentity
  pub configuration : InputConfiguration
  pub capture_mapping : CaptureTimeEvidence

pub record ReceiveRecord (Message : Type 0) : Type 0 where
  pub context : ReceiveWindowContext
  pub diagnostics : ReceiveDiagnosticSummary
  pub decodes : List (Ft8Decode Message)
  pub recorded_utc_millis : ℤ

unfoldable pub validate_decode_metadata : Ft8DecodeMetadata → Result RecordError (Unit {0})
validate_decode_metadata d =
    guard
      (leb (abs d.start_offset_millis) 60000
        && (leb d.audio_frequency_hz 6000 && leb (abs d.signal_to_noise_db) 100))
      invalid_receive_record

-- The loop of `ReceiveRecord::new`.
unfoldable pub validate_decodes :
    {Message : Type 0} → List (Ft8Decode Message) → Result RecordError (Unit {0})
validate_decodes [] = ok tt
validate_decodes (d ∷ ds) = validate_decode_metadata d.metadata >> validate_decodes ds

abbrev is_empty : {A : Type 0} → List A → Bool
is_empty [] = true
is_empty (x ∷ xs) = false

-- `ReceiveRecord::new`, at the sorting by the order on decodes.
unfoldable pub new_record :
    {Message : Type 0}
    → (List (Ft8Decode Message) → List (Ft8Decode Message))
    → ReceiveWindowContext
    → ReceiveDiagnosticSummary
    → List (Ft8Decode Message)
    → ℤ
    → Result RecordError (ReceiveRecord Message)
new_record sort context diagnostics decodes recorded =
    guard (eqb_ℤ context.capture_mapping.utc_unix_millis context.slot) invalid_receive_record
    >> guard (not (is_negative recorded)) invalid_receive_record
    >> guard (leb (length decodes) max_stored_decodes_per_window) invalid_receive_record
    >> guard (leb (abs diagnostics.timeline.drift_parts_per_million) 100000) invalid_receive_record
    >> validate_clock diagnostics.clock
    >> validate_decodes decodes
    >> guard (is_healthy diagnostics.clock || is_empty decodes) invalid_receive_record
    >> ok (record {
      context = context;
      diagnostics = diagnostics;
      decodes = sort decodes;
      recorded_utc_millis = recorded;
    })

-- Both carry the sequence number of the record.
pub data ReceiveInsertOutcome : Type 0 where
  inserted existing : ℕ → ReceiveInsertOutcome
