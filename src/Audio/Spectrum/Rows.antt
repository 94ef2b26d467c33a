-- ===== src/Audio/Spectrum/Rows.antt =====
-- crates/audio/src/spectrum.rs: one row of the model succeeds within the arithmetic of its slot.
use native.Mathlib.Nat.{div-lt_iff_lt-mul}
use slotpilot.Prelude.{
  true, false, ℕ, zero, suc, ◌+◌, ◌-◌, ◌*◌, ◌/◌, ◌≤◌, ◌<◌, ◌≡◌, refl, ap, ◌∙◌, arith, Option, none,
  some, List, [], ◌∷◌, ◌++◌, length, take, drop, length-append, length-drop, leb, ltb,
  if◌then◌else◌, ◌==◌, Bool, Bool-cases, inl, inr,
}
use slotpilot.Prelude.Int.{ℤ, pos, ◌+ℤ◌, ◌*ℤ◌}
use slotpilot.Prelude.Words.{saturating_add, i64_max, u64_max, u32_max}
use slotpilot.Prelude.Results.{ok}
use slotpilot.Audio.Batch.{ft8_receive_window_samples}
use slotpilot.Audio.Spectrum.Limits.{IsChecked}
use slotpilot.Audio.Spectrum.Config.{bin_count, hop_samples}
use slotpilot.Audio.Spectrum.Chunk.{bin_frequency_millihertz, row_start_utc_micros}
use slotpilot.Audio.Spectrum.Model.{
  Magnitude, SpectrumBin, SpectrumModel, SpectrumRow, bin_at, drain_hop, mark_publication,
  row_is_due, retain, row_bins,
}
use slotpilot.Audio.Spectrum.Push.{keep_row, produce_row, row_of}

-- The frequency of a bin below the middle of the FFT fits.
frequency_fits :
    (index fft_size : ℕ)
    → 256 ≤ fft_size
    → fft_size ≤ 4096
    → index * 2 ≤ fft_size
    → (hz : ℕ) × (bin_frequency_millihertz index fft_size ≡ ok hz)
unfolding bin_frequency_millihertz
frequency_fits index fft_size low high half =
    let small : (index * 12000 * 1000 + fft_size / 2) / fft_size < 6000001 =
      (div-lt_iff_lt-mul {k = fft_size} {x = index * 12000 * 1000 + fft_size / 2} {y = 6000001}
          (omega (arith, low))).1
        (omega (arith, half, low)) in
    let fits_1 : leb (index * 12000) u64_max ≡ true = ground arith in
    let fits_2 : leb (index * 12000 * 1000) u64_max ≡ true = ground arith in
    let fits_3 : leb (index * 12000 * 1000 + fft_size / 2) u64_max ≡ true = ground arith in
    let fits_4 : leb ((index * 12000 * 1000 + fft_size / 2) / fft_size) u32_max ≡ true =
      ground (arith, small) in
    ((index * 12000 * 1000 + fft_size / 2) / fft_size, rw (fits_1, fits_2, fits_3, fits_4) refl)

-- The start of each row of the slot fits.
row_start_fits :
    (k offset : ℕ)
    → k * 1000 + 15000000 ≤ i64_max
    → offset ≤ ft8_receive_window_samples
    → (micros : ℤ) × (row_start_utc_micros (pos k) offset ≡ ok micros)
unfolding row_start_utc_micros ◌*ℤ◌ ◌+ℤ◌
row_start_fits k offset h l = (pos (k * 1000 + offset * 1000000 / 12000), ground arith)

bins_fit :
    (magnitude : ℕ → ℤ) (fft_size n index : ℕ)
    → 256 ≤ fft_size
    → fft_size ≤ 4096
    → (index + n) * 2 ≤ fft_size + 2
    → (bins : List SpectrumBin) × (row_bins magnitude fft_size n index ≡ ok bins)
unfolding row_bins bin_at
bins_fit magnitude fft_size zero index low high half = ([], refl)
bins_fit magnitude fft_size (suc n) index low high half =
    let (hz, e) = frequency_fits index fft_size low high (omega (arith, half)) in
    let (bins, f) = bins_fit magnitude fft_size n (suc index) low high (omega (arith, half)) in
    let small : ltb 65535 index ≡ false = ground arith in
    (
      record { index = index; frequency = hz; magnitude = magnitude index } ∷ bins,
      rw (row_bins, bin_at, small, e, f) refl,
    )

-- The rows carry the sequence numbers up to n, the newest last.
abbrev pub Numbered : List SpectrumRow → ℕ → Type 0
Numbered [] n = Unit
Numbered (r ∷ rs) n = (r.sequence + length (r ∷ rs) ≡ n) × Numbered rs n

Numbered-append :
    (rs : List SpectrumRow) (r : SpectrumRow) (n : ℕ)
    → Numbered rs n
    → r.sequence ≡ n
    → Numbered (rs ++ r ∷ []) (n + 1)
Numbered-append [] r n h e = (omega (arith, e), tt)
Numbered-append (q ∷ rs) r n h e =
    (omega (arith, h.0, length-append rs (r ∷ [])), Numbered-append rs r n h.1 e)

Numbered-drop : (rs : List SpectrumRow) (n : ℕ) → Numbered rs n → Numbered (drop 1 rs) n
Numbered-drop [] n h = tt
Numbered-drop (r ∷ rs) n h = h.1

-- What one row does to the model.
pub record IsRowed (m m' : SpectrumModel) : Type 0 where
  pub config : m'.config ≡ m.config
  pub cursor : m'.cursor ≡ m.cursor
  pub waiting : length m'.pending_samples ≡ length m.pending_samples - hop_samples m.config
  pub start : m'.pending_start_offset ≡ m.pending_start_offset + hop_samples m.config
  pub sequence : m'.next_sequence ≡ m.next_sequence + 1
  pub retained : length m'.rows ≤ m.config.waterfall_rows
  pub numbered : Numbered m'.rows m'.next_sequence

retain_rows :
    (row : SpectrumRow) (m : SpectrumModel)
    → length m.rows ≤ m.config.waterfall_rows
    → 1 ≤ m.config.waterfall_rows
    → Numbered m.rows row.sequence
    → (rows : List SpectrumRow) × (n : ℕ) × (retain row m
        ≡ record m { rows = rows; evicted_rows = n })
      × (length rows ≤ m.config.waterfall_rows)
      × Numbered rows (row.sequence + 1)
unfolding retain
retain_rows row m h l v = elim (Bool-cases (length m.rows == m.config.waterfall_rows)) [
  | inl e ↦ (
    drop 1 m.rows ++ row ∷ [],
    saturating_add u64_max m.evicted_rows 1,
    rw (retain, e) refl,
    omega (arith, length-append (drop 1 m.rows) (row ∷ []), length-drop 1 m.rows, h, l),
    Numbered-append (drop 1 m.rows) row row.sequence (Numbered-drop m.rows row.sequence v) refl,
  )
  | inr e ↦ (
    m.rows ++ row ∷ [],
    m.evicted_rows,
    rw (retain, e) refl,
    ground (arith, length-append m.rows (row ∷ []), e),
    Numbered-append m.rows row row.sequence v refl,
  )
]

mark_publication_only :
    (micros : ℤ) (m : SpectrumModel)
    → (n : ℕ) × (b : Bool) × (o : Option ℤ) × (mark_publication micros m ≡ record m {
      coalesced_publications = n;
      publication_pending = b;
      last_publication_utc_micros = o;
    })
unfolding mark_publication
mark_publication_only micros m =
    elim (Bool-cases
      (row_is_due m.last_publication_utc_micros micros m.config.publication_millis)) [
        | inl e ↦ (
          (if m.publication_pending
              then saturating_add u64_max m.coalesced_publications 1
              else m.coalesced_publications),
          true,
          some micros,
          rw (mark_publication, e) refl,
        )
        | inr e ↦ (
          m.coalesced_publications,
          m.publication_pending,
          m.last_publication_utc_micros,
          rw (mark_publication, e) refl,
        )
      ]

drain_hop_fits :
    (m : SpectrumModel)
    → m.pending_start_offset + hop_samples m.config ≤ u32_max
    → drain_hop m ≡ (
      ok tt,
      record m {
        pending_samples = drop (hop_samples m.config) m.pending_samples;
        pending_start_offset = m.pending_start_offset + hop_samples m.config;
      },
    )
unfolding drain_hop
drain_hop_fits m h =
    let fits : leb (m.pending_start_offset + hop_samples m.config) u32_max ≡ true = ground arith in
    rw (drain_hop, fits) refl

module _ (magnitude : Magnitude) (process stream k : ℕ) where
  keep_row-IsRowed :
      (bins : List SpectrumBin) (micros : ℤ) (m : SpectrumModel)
      → 1 ≤ m.config.waterfall_rows
      → length m.rows ≤ m.config.waterfall_rows
      → Numbered m.rows m.next_sequence
      → m.pending_start_offset + hop_samples m.config ≤ u32_max
      → (m' : SpectrumModel) × (keep_row magnitude process stream
            (pos k)
            bins
            micros
            (m.next_sequence + 1)
            m
          ≡ (ok tt, m'))
        × IsRowed m m'
  unfolding keep_row
  keep_row-IsRowed bins micros m l h v fit =
      let row = row_of magnitude process stream (pos k) bins micros m in
      let m1 : SpectrumModel = record m {
        next_sequence = m.next_sequence + 1;
        pending_discontinuity = none;
      } in
      let (rows, n, e, low, num) = retain_rows row m1 h l v in
      let m2 : SpectrumModel = record m1 { rows = rows; evicted_rows = n } in
      let (a, b, o, f) = mark_publication_only micros m2 in
      let m3 : SpectrumModel = record m2 {
        coalesced_publications = a;
        publication_pending = b;
        last_publication_utc_micros = o;
      } in
      (
        record m3 {
          pending_samples = drop (hop_samples m.config) m.pending_samples;
          pending_start_offset = m.pending_start_offset + hop_samples m.config;
        },
        ap (λ x. drain_hop (mark_publication micros x)) e ∙ ap drain_hop f ∙ drain_hop_fits m3 fit,
        record {
          config = refl;
          cursor = refl;
          waiting = length-drop (hop_samples m.config) m.pending_samples;
          start = refl;
          sequence = refl;
          retained = low;
          numbered = num;
        },
      )

  -- The bins, the sequence number and the start of the row are in range, so the row succeeds.
  pub produce_row-IsRowed :
      (m : SpectrumModel)
      → IsChecked m.config
      → length m.rows ≤ m.config.waterfall_rows
      → Numbered m.rows m.next_sequence
      → m.next_sequence + 1 ≤ u64_max
      → m.pending_start_offset + hop_samples m.config ≤ ft8_receive_window_samples
      → k * 1000 + 15000000 ≤ i64_max
      → (m' : SpectrumModel) × (produce_row magnitude process stream (pos k) m ≡ (ok tt, m'))
        × IsRowed m m'
  unfolding produce_row
  produce_row-IsRowed m c h v n fit slot =
      let (bins, e) =
        bins_fit (magnitude (take m.config.fft_size m.pending_samples)) m.config.fft_size
          (bin_count m.config) m.config.first_bin c.fft_low c.fft_high
          (omega (arith, c.bins, c.last)) in
      let (micros, f) = row_start_fits k m.pending_start_offset slot (omega (arith, fit)) in
      let small : leb (m.next_sequence + 1) u64_max ≡ true = ground arith in
      let (m', g, r) = keep_row-IsRowed bins micros m c.rows_low h v (omega (arith, fit)) in
      (m', rw (produce_row, e, small, f) g, r)
