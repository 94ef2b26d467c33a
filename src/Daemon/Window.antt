-- ===== src/Daemon/Window.antt =====
-- apps/daemon/src/receive.rs: the arm of `process_batch` for a window that is ready.
use slotpilot.Prelude.{
  ℕ, zero, suc, ◌+◌, ◌-◌, min, true, false, Option, none, some, List, [], ◌∷◌, length,
  if◌then◌else◌, leb, ltb,
}
use slotpilot.Prelude.Int.{ℤ}
use slotpilot.Prelude.Words.{u32_max}
use slotpilot.Prelude.Results.{Result, ok, err, Exec, ◌>>=◌}
use slotpilot.Audio.Batch.{Ft8ReceiveWindow, InputHealth, ft8_receive_sample_rate_hz}
use slotpilot.Audio.Timeline.{Ft8ReceiveTimeline}
use slotpilot.Audio.Spectrum.Chunk.{CanonicalSpectrumChunk, from_window}
use slotpilot.Audio.Spectrum.Config.{
  SpectrumModelError, arithmetic_overflow, max_spectrum_chunk_samples,
}
use slotpilot.Audio.Spectrum.Model.{Magnitude, SpectrumModel, WaterfallSnapshot, take_snapshot}
use slotpilot.Audio.Spectrum.Push.{push}
use slotpilot.ReceiveClock.{ReceiveWindowAlignment}
use slotpilot.Protocol.Pcm.{
  Ft8Decode, PcmBuffer, PcmError, new_buffer, new_format, signed16_little_endian,
}
use slotpilot.Storage.Record.{
  ReceiveDiagnosticSummary, ReceiveInsertOutcome, ReceiveRecord, ReceiveWindowContext, healthy,
  new_record,
}
use slotpilot.Daemon.Types.{
  LiveReceiveCoordinator, Method, Ports, ReceiveCoordinatorError, ReceiveInhibition,
  ReceivePollEvent, decoder_failure, invalid_lifecycle, lifecycle, persisted, storage_failure,
  waterfall,
}
use slotpilot.Daemon.Lifecycle.{inhibit}
use slotpilot.Daemon.Identity.{receive_window_id}

abbrev pub to_u32 : ℕ → Result SpectrumModelError ℕ
to_u32 n = if leb n u32_max then ok n else err arithmetic_overflow

-- The chunk of the window at this offset.
unfoldable pub chunk_at : Ft8ReceiveWindow → ℕ → Result SpectrumModelError CanonicalSpectrumChunk
chunk_at w offset =
    let count = min (length w.samples - offset) max_spectrum_chunk_samples in
    to_u32 offset >>= λ start. to_u32 count >>= λ size. from_window w start size none

-- The loop that hands the window to the spectrum, one round for each chunk.
unfoldable pub push_chunks :
    Magnitude → Ft8ReceiveWindow → ℕ → ℕ → Exec SpectrumModel SpectrumModelError (Unit {0})
push_chunks magnitude w zero offset m = (ok tt, m)
push_chunks magnitude w (suc fuel) offset m = elim (ltb offset (length w.samples)) [
  | false ↦ (ok tt, m)
  | true ↦ elim (chunk_at w offset) [
    | err e ↦ (err e, m)
    | ok chunk ↦
        let (result, m') = push magnitude chunk m in
        elim result [
          | err e ↦ (err e, m')
          | ok _ ↦
              push_chunks magnitude w fuel
                (offset + min (length w.samples - offset) max_spectrum_chunk_samples) m'
        ]
  ]
]

-- What a round of the loop over the events leaves: the events it published, and whether the loop
-- goes on.
pub data Flow : Type 0 where
  next last : List ReceivePollEvent → Flow

-- The PCM buffer of a window.
unfoldable pub pcm_of : Ft8ReceiveWindow → Result PcmError PcmBuffer
pcm_of w = new_format ft8_receive_sample_rate_hz 1 signed16_little_endian >>= λ format.
    new_buffer format w.samples

abbrev pub published :
    List ℕ → ReceiveInsertOutcome → ℕ → Option WaterfallSnapshot → List ReceivePollEvent
published id outcome count none = persisted id outcome count ∷ []
published id outcome count (some snapshot) = persisted id outcome count ∷ waterfall snapshot ∷ []

abbrev pub diagnostics_of :
    InputHealth → Ft8ReceiveTimeline → ReceiveWindowAlignment → ReceiveDiagnosticSummary
diagnostics_of audio t a = record {
  audio = audio;
  timeline = t.health;
  clock = healthy a.mapping_age_millis;
}

module _ {P : Ports} where
  -- The coordinator is inhibited and the loop over the events left.
  unfoldable pub break_inhibited : ReceiveInhibition → Method P Flow
  break_inhibited reason c =
      let (event, c') = inhibit reason c in (ok (last (lifecycle event ∷ [])), c')

  unfoldable pub take_waterfall : Ft8ReceiveWindow → Method P (Option WaterfallSnapshot)
  take_waterfall w c = elim c.spectrum [
    | none ↦ (ok none, c)
    | some m ↦
        let (result, m') = push_chunks P.magnitude w (length w.samples) 0 m in
        elim result [
          | err e ↦ (err (ReceiveCoordinatorError.spectrum e), record c { spectrum = some m' })
          | ok _ ↦
              let (snapshot, m'') = take_snapshot m' in
              (ok snapshot, record c { spectrum = some m'' })
        ]
  ]

  unfoldable pub context_of :
      LiveReceiveCoordinator P → List ℕ → Ft8ReceiveWindow → ReceiveWindowContext
  context_of c id w = record {
    receive_window_id = id;
    service_instance_id = c.service_instance_id;
    process_generation = w.process_generation;
    stream_generation = w.stream_generation;
    slot = w.slot_start_utc_millis;
    device_identity = c.selection.device_identity;
    configuration = c.selection.configuration;
    capture_mapping = w.mapping;
  }

  -- The record goes to the store.
  unfoldable pub persist :
      List ℕ → ReceiveRecord P.Message → Option WaterfallSnapshot → Method P Flow
  persist id entry snapshot c =
      let (result, store') = P.record_receive entry c.store in
      let c' : LiveReceiveCoordinator P = record c { store = store' } in
      elim result [
        | err _ ↦ break_inhibited storage_failure c'
        | ok outcome ↦ (ok (next (published id outcome (length entry.decodes) snapshot)), c')
      ]

  -- From the decodes of the window to its record.
  unfoldable pub record_window :
      Ft8ReceiveWindow
      → ReceiveWindowAlignment
      → InputHealth
      → ℤ
      → Option WaterfallSnapshot
      → List (Ft8Decode P.Message)
      → Method P Flow
  record_window w a audio recorded snapshot decodes c =
      elim (receive_window_id P.sha256_hex c.service_instance_id c.selection w.process_generation
        w.stream_generation w.slot_start_utc_millis) [
          | err e ↦ (err (ReceiveCoordinatorError.identity e), c)
          | ok id ↦ elim c.timeline [
            | none ↦ (err (invalid_lifecycle c.state), c)
            | some t ↦
                elim (new_record P.sort_decodes (context_of c id w) (diagnostics_of audio t a)
                  decodes recorded) [
                    | err _ ↦ break_inhibited storage_failure c
                    | ok entry ↦ persist id entry snapshot c
                  ]
          ]
        ]

  unfoldable pub decode_window :
      Ft8ReceiveWindow
      → ReceiveWindowAlignment
      → InputHealth
      → ℤ
      → Option WaterfallSnapshot
      → Method P Flow
  decode_window w a audio recorded snapshot c = elim (pcm_of w) [
    | err e ↦ (err (ReceiveCoordinatorError.pcm e), c)
    | ok pcm ↦ elim (P.decode pcm c.decode_config) [
      | err _ ↦ break_inhibited decoder_failure c
      | ok decodes ↦ record_window w a audio recorded snapshot decodes c
    ]
  ]

  unfoldable pub handle_window :
      Ft8ReceiveWindow → ReceiveWindowAlignment → InputHealth → ℤ → Method P Flow
  handle_window w a audio recorded c =
      let (result, c') = take_waterfall w c in
      elim result [
        | err e ↦ (err e, c')
        | ok snapshot ↦ decode_window w a audio recorded snapshot c'
      ]
