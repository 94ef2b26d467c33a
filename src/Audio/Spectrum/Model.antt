-- ===== src/Audio/Spectrum/Model.antt =====
-- crates/audio/src/spectrum.rs: `SpectrumModel`.
use slotpilot.Prelude.{
  ℕ, zero, suc, ◌*◌, Bool, true, false, Option, none, some, List, [], ◌∷◌, ◌++◌, length, drop,
  if◌then◌else◌, ltb, ◌==◌, ◌&&◌,
}
use slotpilot.Prelude.Int.{ℤ, pos, ◌-ℤ◌, eqb_ℤ, leb_ℤ}
use slotpilot.Prelude.Words.{
  checked_add, checked_add_i64, i64_max, saturate, saturating_add, u32_max, u64_max,
}
use slotpilot.Prelude.Results.{Result, ok, err, Exec}
use slotpilot.Audio.Batch.{ft8_receive_slot_millis, ft8_receive_window_samples}
use slotpilot.Audio.Spectrum.Config.{
  SpectrumConfig, SpectrumModelError, arithmetic_overflow, dependency_scratch_exceeded, hop_samples,
  max_spectrum_fft_size,
}
use slotpilot.Audio.Spectrum.Chunk.{
  CanonicalSpectrumChunk, SpectrumDiscontinuity, bin_frequency_millihertz,
  process_generation_changed, stream_generation_changed, timeline_discontinuity,
}

pub record SpectrumBin : Type 0 where
  pub index : ℕ
  pub frequency : ℕ
  pub magnitude : ℤ

pub record SpectrumRow : Type 0 where
  pub sequence : ℕ
  pub process_generation : ℕ
  pub stream_generation : ℕ
  pub slot : ℤ
  pub start_sample_offset : ℕ
  pub start_utc_unix_micros : ℤ
  pub discontinuity : Option SpectrumDiscontinuity
  pub bins : List SpectrumBin

pub record SpectrumPushResult : Type 0 where
  pub produced_rows : ℕ
  pub retained_rows : ℕ
  pub publication_pending : Bool
  pub coalesced_publications : ℕ
  pub evicted_rows : ℕ

pub record WaterfallSnapshot : Type 0 where
  pub config : SpectrumConfig
  pub rows : List SpectrumRow
  pub coalesced_publications : ℕ
  pub evicted_rows : ℕ

pub record ChunkCursor : Type 0 where
  pub process_generation : ℕ
  pub stream_generation : ℕ
  pub slot : ℤ
  pub next_sample_offset : ℕ

-- The buffers of the FFT are left out.
pub record SpectrumModel : Type 0 where
  pub config : SpectrumConfig
  pub pending_samples : List ℤ
  pub pending_start_offset : ℕ
  pub cursor : Option ChunkCursor
  pub rows : List SpectrumRow
  pub pending_discontinuity : Option SpectrumDiscontinuity
  pub next_sequence : ℕ
  pub last_publication_utc_micros : Option ℤ
  pub publication_pending : Bool
  pub coalesced_publications : ℕ
  pub evicted_rows : ℕ

-- The magnitude of a bin in millidecibels for these samples: the Hann window, the FFT and the
-- scaling to decibels, all in floating point.
abbrev pub Magnitude : Type 0
Magnitude = List ℤ → ℕ → ℤ

abbrev pub fresh_model : SpectrumConfig → SpectrumModel
fresh_model config = record {
  config = config;
  pending_samples = [];
  pending_start_offset = 0;
  cursor = none;
  rows = [];
  pending_discontinuity = none;
  next_sequence = 0;
  last_publication_utc_micros = none;
  publication_pending = false;
  coalesced_publications = 0;
  evicted_rows = 0;
}

-- `SpectrumModel::new`, at the scratch length that the FFT asks for.
unfoldable pub new_model : SpectrumConfig → ℕ → Result SpectrumModelError SpectrumModel
new_model config scratch =
    if ltb (max_spectrum_fft_size * 4) scratch
    then err dependency_scratch_exceeded
    else ok (fresh_model config)

unfoldable pub reset : SpectrumDiscontinuity → SpectrumModel → SpectrumModel
reset reason m = record m {
  pending_samples = [];
  cursor = none;
  rows = [];
  pending_discontinuity = some reason;
  last_publication_utc_micros = none;
  publication_pending = false;
}

unfoldable pub take_snapshot : SpectrumModel → Option WaterfallSnapshot × SpectrumModel
take_snapshot m =
    if m.publication_pending
    then (
      some (record {
        config = m.config;
        rows = m.rows;
        coalesced_publications = m.coalesced_publications;
        evicted_rows = m.evicted_rows;
      }),
      record m { publication_pending = false },
    )
    else (none, m)

-- The end of `prepare_chunk`: the chunk does not continue the cursor in its slot.
unfoldable pub next_in_time :
    ChunkCursor → CanonicalSpectrumChunk → Exec SpectrumModel SpectrumModelError (Unit {0})
next_in_time cursor c m = elim (checked_add_i64 cursor.slot (pos ft8_receive_slot_millis)) [
  | none ↦ (err arithmetic_overflow, m)
  | some next_slot ↦
      if cursor.next_sample_offset == ft8_receive_window_samples
        && (c.start_sample_offset == 0 && eqb_ℤ c.slot next_slot)
      then (ok tt, record m { pending_samples = []; pending_start_offset = 0 })
      else (ok tt, reset timeline_discontinuity m)
]

unfoldable pub follow_cursor :
    Option ChunkCursor → CanonicalSpectrumChunk → Exec SpectrumModel SpectrumModelError (Unit {0})
follow_cursor none c m = (ok tt, m)
follow_cursor (some cursor) c m =
    if cursor.process_generation == c.process_generation
    then if cursor.stream_generation == c.stream_generation
      then if eqb_ℤ cursor.slot c.slot && cursor.next_sample_offset == c.start_sample_offset
        then (ok tt, m)
        else next_in_time cursor c m
      else (ok tt, reset stream_generation_changed m)
    else (ok tt, reset process_generation_changed m)

unfoldable pub announce : Option SpectrumDiscontinuity → SpectrumModel → SpectrumModel
announce none m = m
announce (some reason) m = reset reason m

unfoldable pub prepare_chunk :
    CanonicalSpectrumChunk → Exec SpectrumModel SpectrumModelError (Unit {0})
prepare_chunk c m = let m' = announce c.discontinuity m in follow_cursor m'.cursor c m'

-- Whether a row is due for publication.
abbrev pub row_is_due : Option ℤ → ℤ → ℕ → Bool
row_is_due none now millis = true
row_is_due (some previous) now millis =
    leb_ℤ (pos (millis * 1000)) (saturate i64_max (now -ℤ previous))

unfoldable pub mark_publication : ℤ → SpectrumModel → SpectrumModel
mark_publication now m =
    if row_is_due m.last_publication_utc_micros now m.config.publication_millis
    then record m {
      coalesced_publications =
          (if m.publication_pending
            then saturating_add u64_max m.coalesced_publications 1
            else m.coalesced_publications);
      publication_pending = true;
      last_publication_utc_micros = some now;
    }
    else m

-- One bin; its index is a `u16`.
unfoldable pub bin_at : (ℕ → ℤ) → ℕ → ℕ → Result SpectrumModelError SpectrumBin
bin_at magnitude fft_size index =
    if ltb 65535 index
    then err arithmetic_overflow
    else elim (bin_frequency_millihertz index fft_size) [
      | err e ↦ err e
      | ok hz ↦ ok (record { index = index; frequency = hz; magnitude = magnitude index })
    ]

-- The bins from this index on.
unfoldable pub row_bins : (ℕ → ℤ) → ℕ → ℕ → ℕ → Result SpectrumModelError (List SpectrumBin)
row_bins magnitude fft_size zero index = ok []
row_bins magnitude fft_size (suc n) index = elim (bin_at magnitude fft_size index) [
  | err e ↦ err e
  | ok bin ↦ elim (row_bins magnitude fft_size n (suc index)) [
    | err e ↦ err e
    | ok bins ↦ ok (bin ∷ bins)
  ]
]

-- The oldest row makes room when the model is full.
unfoldable pub retain : SpectrumRow → SpectrumModel → SpectrumModel
retain row m =
    if length m.rows == m.config.waterfall_rows
    then record m {
      rows = drop 1 m.rows ++ row ∷ [];
      evicted_rows = saturating_add u64_max m.evicted_rows 1;
    }
    else record m { rows = m.rows ++ row ∷ [] }

-- The samples of one hop are done with.
unfoldable pub drain_hop : Exec SpectrumModel SpectrumModelError (Unit {0})
drain_hop m =
    let hop = hop_samples m.config in
    let m' : SpectrumModel = record m { pending_samples = drop hop m.pending_samples } in
    elim (checked_add u32_max m.pending_start_offset hop) [
      | none ↦ (err arithmetic_overflow, m')
      | some offset ↦ (ok tt, record m' { pending_start_offset = offset })
    ]
