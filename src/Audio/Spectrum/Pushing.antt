-- ===== src/Audio/Spectrum/Pushing.antt =====
-- crates/audio/src/spectrum.rs: `push` of `SpectrumModel` succeeds and stays within its bounds.
use slotpilot.Prelude.{
  ℕ, ◌+◌, ◌≤◌, ◌<◌, ◌≡◌, ◌⊎◌, refl, sym, ap, ◌∙◌, subst, arith, true, false, some, length,
  length-append, leb, ltb, ◌||◌,
}
use slotpilot.Prelude.Words.{u32_max, u64_max}
use slotpilot.Prelude.Results.{ok, also-ok}
use slotpilot.Audio.Batch.{ft8_receive_window_samples}
use slotpilot.Audio.Spectrum.Limits.{IsChecked}
use slotpilot.Audio.Spectrum.Config.{max_spectrum_chunk_samples, max_spectrum_rows_per_push}
use slotpilot.Audio.Spectrum.Chunk.{CanonicalSpectrumChunk, new_chunk}
use slotpilot.Audio.Spectrum.Model.{Magnitude, SpectrumModel, SpectrumPushResult, prepare_chunk}
use slotpilot.Audio.Spectrum.Push.{and_finish, extend, finish_push, produce_rows, push}
use slotpilot.Audio.Spectrum.Bounds.{produce_rows-IsProduced}
use slotpilot.Audio.Spectrum.Invariant.{FitsMicros, Inv, prepare_chunk-Prepares}

new_chunk-bounds :
    (c : CanonicalSpectrumChunk)
    → new_chunk c ≡ ok c
    → (length c.samples ≤ max_spectrum_chunk_samples)
      × (0 < length c.samples)
      × (c.start_sample_offset + length c.samples ≤ ft8_receive_window_samples)
unfolding new_chunk
new_chunk-bounds c h = ground arith

-- What `finish_push` reports, and the model with the cursor behind the chunk.
abbrev pub report_of : ℕ → SpectrumModel → SpectrumPushResult
report_of n m = record {
  produced_rows = n;
  retained_rows = length m.rows;
  publication_pending = m.publication_pending;
  coalesced_publications = m.coalesced_publications;
  evicted_rows = m.evicted_rows;
}

abbrev pub behind : CanonicalSpectrumChunk → SpectrumModel → SpectrumModel
behind c m = record m {
  cursor = some (record {
    process_generation = c.process_generation;
    stream_generation = c.stream_generation;
    slot = c.slot;
    next_sample_offset = c.start_sample_offset + length c.samples;
  });
}

finish_push-at :
    (c : CanonicalSpectrumChunk) (n : ℕ) (m : SpectrumModel)
    → c.start_sample_offset + length c.samples ≤ ft8_receive_window_samples
    → n ≤ max_spectrum_rows_per_push
    → length m.rows ≤ 120
    → finish_push c n m ≡ (ok (report_of n m), behind c m)
unfolding finish_push
finish_push-at c n m h l w =
    let fits : leb (c.start_sample_offset + length c.samples) u32_max ≡ true = ground arith in
    let few : (ltb 65535 n || ltb 65535 (length m.rows)) ≡ false = ground arith in
    rw (finish_push, fits, few) refl

extended :
    (c : CanonicalSpectrumChunk) (m : SpectrumModel)
    → (length m.pending_samples ≡ 0)
      ⊎ (m.pending_start_offset + length m.pending_samples ≡ c.start_sample_offset)
    → (extend c m).pending_start_offset + length (extend c m).pending_samples
      ≡ c.start_sample_offset + length c.samples
unfolding extend
extended c m h = ground (arith, length-append m.pending_samples c.samples)

-- A checked chunk is always taken in when its slot fits in microseconds and the sequence numbers do
-- not run out: the push produces at most 64 rows, the next sequence number rises by as many, the
-- reported number of rows is the number retained, and the invariant holds again. So fewer samples
-- than one FFT wait, at most the configured rows are kept, and their numbers are consecutive.
pub push_within_bounds :
    (magnitude : Magnitude) (c : CanonicalSpectrumChunk) (m : SpectrumModel)
    → Inv m
    → new_chunk c ≡ ok c
    → FitsMicros c.slot
    → m.next_sequence + max_spectrum_rows_per_push ≤ u64_max
    → (r : SpectrumPushResult) × (m' : SpectrumModel) × (push magnitude c m ≡ (ok r, m'))
      × (r.produced_rows ≤ max_spectrum_rows_per_push)
      × (m'.next_sequence ≡ m.next_sequence + r.produced_rows)
      × (r.retained_rows ≡ length m'.rows)
      × Inv m'
unfolding push extend
push_within_bounds magnitude c m v chunk (k, at, slot) room =
    let (done, ready) = prepare_chunk-Prepares c m v in
    let (small, filled, inside) = new_chunk-bounds c chunk in
    let m1 = (prepare_chunk c m).1 in
    let m2 = extend c m1 in
    let checked : IsChecked m1.config = subst IsChecked (sym ready.config) v.checked in
    let short : length m1.pending_samples < m1.config.fft_size =
      subst (λ x. length m1.pending_samples < x.fft_size) (sym ready.config) ready.short in
    let end = extended c m1 ready.joined in
    let (n, m3, f, l, p) =
      produce_rows-IsProduced magnitude c.process_generation c.stream_generation k
        max_spectrum_rows_per_push m2 checked
        (subst (λ x. length m1.rows ≤ x.waterfall_rows) (sym ready.config) ready.retained)
        ready.numbered (omega (arith, room, ready.sequence)) (omega (arith, end, inside)) slot
        (omega (
          arith,
          length-append m1.pending_samples c.samples,
          short,
          small,
          checked.hop,
          checked.fft_low,
        )) in
    let kept : IsChecked m3.config = subst IsChecked (sym p.config) checked in
    let retained : length m3.rows ≤ m3.config.waterfall_rows =
      subst (λ x. length m3.rows ≤ x.waterfall_rows) (sym p.config) p.retained in
    (
      report_of n m3,
      behind c m3,
      also-ok (prepare_chunk c m) _ done
          ∙ ap
              (λ x. and_finish c (
                produce_rows magnitude c.process_generation c.stream_generation x
                  max_spectrum_rows_per_push m2))
              at
          ∙ ap (and_finish c) f
          ∙ finish_push-at c n m3 inside l (omega (arith, retained, kept.rows_high)),
      l,
      omega (arith, p.sequence, ready.sequence),
      refl,
      record {
        checked = kept;
        short = subst (λ x. length m3.pending_samples < x.fft_size) (sym p.config) p.short;
        retained = retained;
        numbered = p.numbered;
        aligned = (omega (arith, p.end, end), (k, at, slot));
      },
    )
