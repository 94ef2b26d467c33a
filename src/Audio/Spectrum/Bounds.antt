-- ===== src/Audio/Spectrum/Bounds.antt =====
-- crates/audio/src/spectrum.rs: `push` stays within its bounds.
use native.Mathlib.Nat.{suc-mul}
use slotpilot.Prelude.{
  ℕ, zero, suc, ◌+◌, ◌*◌, ◌≤◌, ◌<◌, ◌≡◌, inl, inr, refl, sym, ◌∙◌, subst, arith, true, false,
  length, Bool-cases, leb,
}
use slotpilot.Prelude.Int.{pos}
use slotpilot.Prelude.Words.{i64_max, u64_max}
use slotpilot.Prelude.Results.{ok}
use slotpilot.Audio.Batch.{ft8_receive_window_samples}
use slotpilot.Audio.Spectrum.Limits.{IsChecked}
use slotpilot.Audio.Spectrum.Config.{hop_samples}
use slotpilot.Audio.Spectrum.Model.{Magnitude, SpectrumModel}
use slotpilot.Audio.Spectrum.Push.{produce_row, produce_rows}
use slotpilot.Audio.Spectrum.Rows.{IsRowed, Numbered, produce_row-IsRowed}

-- What a run of n rows does to the model: n hops of samples are gone, fewer than one FFT wait, and
-- the end of the waiting samples stays where it is.
pub record IsProduced (n : ℕ) (m m' : SpectrumModel) : Type 0 where
  pub config : m'.config ≡ m.config
  pub waiting : length m'.pending_samples + n * hop_samples m.config ≡ length m.pending_samples
  pub short : length m'.pending_samples < m.config.fft_size
  pub end :
      m'.pending_start_offset + length m'.pending_samples
      ≡ m.pending_start_offset + length m.pending_samples
  pub sequence : m'.next_sequence ≡ m.next_sequence + n
  pub retained : length m'.rows ≤ m.config.waterfall_rows
  pub numbered : Numbered m'.rows m'.next_sequence

one_more :
    (n : ℕ) (m m1 m2 : SpectrumModel)
    → hop_samples m.config ≤ length m.pending_samples
    → IsRowed m m1
    → IsProduced n m1 m2
    → IsProduced (suc n) m m2
one_more n m m1 m2 h r p =
    let waiting =
      subst (λ x. length m2.pending_samples + n * hop_samples x ≡ length m1.pending_samples)
        r.config p.waiting in
    record {
      config = p.config ∙ r.config;
      waiting = omega (arith, waiting, r.waiting, h, suc-mul n (hop_samples m.config));
      short = subst (λ x. length m2.pending_samples < x.fft_size) r.config p.short;
      end = omega (arith, p.end, r.start, r.waiting, h);
      sequence = omega (arith, p.sequence, r.sequence);
      retained = subst (λ x. length m2.rows ≤ x.waterfall_rows) r.config p.retained;
      numbered = p.numbered;
    }

module _ (magnitude : Magnitude) (process stream k : ℕ) where
  produced_again :
      (left : ℕ) (m m1 m2 : SpectrumModel) (n : ℕ)
      → leb m.config.fft_size (length m.pending_samples) ≡ true
      → produce_row magnitude process stream (pos k) m ≡ (ok tt, m1)
      → produce_rows magnitude process stream (pos k) left m1 ≡ (ok n, m2)
      → produce_rows magnitude process stream (pos k) (suc left) m ≡ (ok (suc n), m2)
  unfolding produce_rows
  produced_again left m m1 m2 n e f g = rw (produce_rows, e, f, g) refl

  pub produce_rows-IsProduced :
      (left : ℕ) (m : SpectrumModel)
      → IsChecked m.config
      → length m.rows ≤ m.config.waterfall_rows
      → Numbered m.rows m.next_sequence
      → m.next_sequence + left ≤ u64_max
      → m.pending_start_offset + length m.pending_samples ≤ ft8_receive_window_samples
      → k * 1000 + 15000000 ≤ i64_max
      → length m.pending_samples < m.config.fft_size + left * hop_samples m.config
      → (n : ℕ) × (m' : SpectrumModel) × (produce_rows magnitude process stream (pos k) left m
          ≡ (ok n, m'))
        × (n ≤ left)
        × IsProduced n m m'
  unfolding produce_rows
  produce_rows-IsProduced zero m c h v s fit slot w =
      let small : leb m.config.fft_size (length m.pending_samples) ≡ false = ground arith in
      (
        0,
        m,
        rw (produce_rows, small) refl,
        omega arith,
        record {
          config = refl;
          waiting = omega arith;
          short = omega (arith, w);
          end = refl;
          sequence = omega arith;
          retained = h;
          numbered = v;
        },
      )
  produce_rows-IsProduced (suc left) m c h v s fit slot w =
      elim (Bool-cases (leb m.config.fft_size (length m.pending_samples))) [
        | inr e ↦ (
          0,
          m,
          rw (produce_rows, e) refl,
          omega arith,
          record {
            config = refl;
            waiting = omega arith;
            short = ground (arith, e);
            end = refl;
            sequence = omega arith;
            retained = h;
            numbered = v;
          },
        )
        | inl e ↦
            let full : m.config.fft_size ≤ length m.pending_samples = ground (arith, e) in
            let (m1, f, r) =
              produce_row-IsRowed magnitude process stream k m c h v (omega (arith, s))
                (omega (arith, fit, full)) slot in
            let (n, m2, g, l, p) =
              produce_rows-IsProduced left m1 (subst IsChecked (sym r.config) c)
                (subst (λ x. length m1.rows ≤ x.waterfall_rows) (sym r.config) r.retained)
                r.numbered (omega (arith, s, r.sequence))
                (omega (arith, fit, full, r.start, r.waiting, c.overlap)) slot
                (subst (λ x. length m1.pending_samples < x.fft_size + left * hop_samples x)
                  (sym r.config)
                  (omega
                    (arith, r.waiting, w, full, c.fft_low, suc-mul left (hop_samples m.config)))) in
            (
              suc n,
              m2,
              produced_again left m m1 m2 n e f g,
              omega (arith, l),
              one_more n m m1 m2 (omega (arith, full)) r p,
            )
      ]
