-- ===== src/Audio/Spectrum/Push.antt =====
-- crates/audio/src/spectrum.rs: `produce_row` and `push` of `SpectrumModel`.
use slotpilot.Prelude.{
  ◌==◌, ◌||◌, ℕ, zero, suc, none, some, List, ◌++◌, length, take, if◌then◌else◌, leb, ltb,
}
use slotpilot.Prelude.Int.{ℤ}
use slotpilot.Prelude.Words.{checked_add, u32_max, u64_max}
use slotpilot.Prelude.Results.{Result, ok, err, Exec, also}
use slotpilot.Audio.Spectrum.Config.{
  SpectrumModelError, arithmetic_overflow, bin_count, cpu_bound_exceeded,
  max_spectrum_rows_per_push,
}
use slotpilot.Audio.Spectrum.Chunk.{CanonicalSpectrumChunk, row_start_utc_micros}
use slotpilot.Audio.Spectrum.Model.{
  Magnitude, SpectrumBin, SpectrumModel, SpectrumPushResult, SpectrumRow, drain_hop,
  mark_publication, prepare_chunk, retain, row_bins,
}

abbrev pub count_row :
    Result SpectrumModelError ℕ × SpectrumModel → Result SpectrumModelError ℕ × SpectrumModel
count_row (err e, m) = (err e, m)
count_row (ok n, m) = (ok (suc n), m)

module _ (magnitude : Magnitude) (process stream : ℕ) (slot : ℤ) where
  abbrev pub row_of : List SpectrumBin → ℤ → SpectrumModel → SpectrumRow
  row_of bins micros m = record {
    sequence = m.next_sequence;
    process_generation = process;
    stream_generation = stream;
    slot = slot;
    start_sample_offset = m.pending_start_offset;
    start_utc_unix_micros = micros;
    discontinuity = m.pending_discontinuity;
    bins = bins;
  }

  -- The row is kept, the discontinuity it carries is done with, and one hop of samples goes.
  unfoldable pub keep_row :
      List SpectrumBin → ℤ → ℕ → Exec SpectrumModel SpectrumModelError (Unit {0})
  keep_row bins micros next m = drain_hop (
      mark_publication micros (
        retain (row_of bins micros m)
          (record m { next_sequence = next; pending_discontinuity = none })))

  unfoldable pub produce_row : Exec SpectrumModel SpectrumModelError (Unit {0})
  produce_row m =
      elim (row_bins (magnitude (take m.config.fft_size m.pending_samples)) m.config.fft_size
        (bin_count m.config) m.config.first_bin) [
          | err e ↦ (err e, m)
          | ok bins ↦ elim (checked_add u64_max m.next_sequence 1) [
            | none ↦ (err arithmetic_overflow, m)
            | some next ↦ elim (row_start_utc_micros slot m.pending_start_offset) [
              | err e ↦ (err e, record m { next_sequence = next })
              | ok micros ↦ keep_row bins micros next m
            ]
          ]
        ]

  -- The loop of `push`, which may produce so many more rows; the result is their number.
  unfoldable pub produce_rows : ℕ → Exec SpectrumModel SpectrumModelError ℕ
  produce_rows zero m =
      if leb m.config.fft_size (length m.pending_samples)
      then (err cpu_bound_exceeded, m)
      else (ok 0, m)
  produce_rows (suc left) m =
      if leb m.config.fft_size (length m.pending_samples)
      then also (produce_row m) (λ m'. count_row (produce_rows left m'))
      else (ok 0, m)

-- The cursor behind the chunk, and what `push` reports.
unfoldable pub finish_push :
    CanonicalSpectrumChunk → ℕ → Exec SpectrumModel SpectrumModelError SpectrumPushResult
finish_push c produced m = elim (checked_add u32_max c.start_sample_offset (length c.samples)) [
  | none ↦ (err arithmetic_overflow, m)
  | some end ↦
      let m' : SpectrumModel = record m {
        cursor = some (record {
          process_generation = c.process_generation;
          stream_generation = c.stream_generation;
          slot = c.slot;
          next_sample_offset = end;
        });
      } in
      if ltb 65535 produced || ltb 65535 (length m.rows) then (err arithmetic_overflow, m') else (
        ok (record {
          produced_rows = produced;
          retained_rows = length m.rows;
          publication_pending = m.publication_pending;
          coalesced_publications = m.coalesced_publications;
          evicted_rows = m.evicted_rows;
        }),
        m',
      )
]

-- The samples of the chunk, behind those that wait.
unfoldable pub extend : CanonicalSpectrumChunk → SpectrumModel → SpectrumModel
extend c m = record m {
  pending_start_offset =
      (if length m.pending_samples == 0 then c.start_sample_offset else m.pending_start_offset);
  pending_samples = m.pending_samples ++ c.samples;
}

abbrev pub and_finish :
    CanonicalSpectrumChunk
    → Result SpectrumModelError ℕ × SpectrumModel
    → Result SpectrumModelError SpectrumPushResult × SpectrumModel
and_finish c (err e, m) = (err e, m)
and_finish c (ok n, m) = finish_push c n m

unfoldable pub push :
    Magnitude → CanonicalSpectrumChunk → Exec SpectrumModel SpectrumModelError SpectrumPushResult
unfolding finish_push
push magnitude c m = also (prepare_chunk c m) (λ m'. and_finish c (
    produce_rows magnitude c.process_generation c.stream_generation c.slot
      max_spectrum_rows_per_push (extend c m')))
