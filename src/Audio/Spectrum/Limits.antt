-- ===== src/Audio/Spectrum/Limits.antt =====
-- crates/audio/src/spectrum.rs: what the checks of `SpectrumConfig::new` ensure.
use native.Mathlib.Nat.{
  div-add-mod', mul-le-mul_right, mul-le-mul_left, div-mul-le_self, le_of_mul-le-mul_right,
}
use slotpilot.Prelude.{
  ℕ, ◌*◌, ◌/◌, ◌≤◌, ◌<◌, ◌≡◌, ◌≢◌, ◌⊎◌, inl, inr, refl, sym, subst, arith, some,
}
use slotpilot.Prelude.Results.{
  Result, ok, err, ok_or, >>=-eq-ok, >>=-ne-err, ok_or-eq_ok, ok_or-ne-err,
}
use slotpilot.Audio.Spectrum.Config.{
  min_spectrum_fft_size, max_spectrum_fft_size, max_waterfall_rows, max_model_bytes,
  SpectrumModelError, SpectrumConfig, hop_samples, div_ceil, first_bin_of, last_bin_of, count_bins,
  bounded_config, policy, derived_config, new_config, invalid_passband, cpu_bound_exceeded,
  arithmetic_overflow,
}

-- What every checked policy satisfies: at least a quarter of the FFT is new in each row, and the
-- bins lie below the middle of the FFT.
pub record IsChecked (c : SpectrumConfig) : Type 0 where
  pub fft_low : min_spectrum_fft_size ≤ c.fft_size
  pub fft_high : c.fft_size ≤ max_spectrum_fft_size
  pub hop : c.fft_size ≤ 4 * hop_samples c
  pub overlap : c.overlap_samples < c.fft_size
  pub bins : c.first_bin ≤ c.last_bin
  pub last : c.last_bin * 2 ≤ c.fft_size
  pub rows_low : 1 ≤ c.waterfall_rows
  pub rows_high : c.waterfall_rows ≤ max_waterfall_rows
  pub memory : c.estimated_model_bytes ≤ max_model_bytes

rows_bound : (hop : ℕ) → 64 ≤ hop → div_ceil 4096 hop ≤ 64
rows_bound hop h =
    let q = div-mul-le_self 4096 hop in
    let t : 4096 / hop ≤ 64 =
      le_of_mul-le-mul_right {m = 4096 / hop} {n = 64} {k = 64}
        (omega (arith, q, mul-le-mul_left (4096 / hop) h)) (omega arith) in
    ground (arith, div-add-mod' 4096 hop, mul-le-mul_left (4096 / hop) h, t)

last_bin_half :
    (hz fft_size last : ℕ) → hz ≤ 6000 → last_bin_of hz fft_size ≡ some last → last * 2 ≤ fft_size
last_bin_half hz fft_size last h e = ground (arith, mul-le-mul_right {m = hz} {n = 6000} fft_size h)

bounded_config-ok :
    (c : SpectrumConfig) (bins : ℕ) (c' : SpectrumConfig)
    → bounded_config c bins ≡ ok c'
    → (c' ≡ record c { estimated_model_bytes = c'.estimated_model_bytes })
      × (c'.estimated_model_bytes ≤ max_model_bytes)
unfolding bounded_config
bounded_config-ok c bins c' h = ground arith

bounded_config-not_cpu :
    (c : SpectrumConfig) (bins : ℕ)
    → 64 ≤ hop_samples c
    → bounded_config c bins ≢ err cpu_bound_exceeded
unfolding bounded_config
bounded_config-not_cpu c bins h e = ground (arith, rows_bound (hop_samples c) h)

count_bins-order : (first last bins : ℕ) → count_bins first last ≡ some bins → first ≤ last
count_bins-order first last bins h = ground arith

module _ (fft_size overlap min_hz max_hz rows millis : ℕ) where
  -- The checks on the arguments that are behind a derived policy.
  abbrev Passes : Type 0
  Passes =
      (256 ≤ fft_size)
      × (fft_size ≤ 4096)
      × (4 * overlap ≤ 3 * fft_size)
      × (max_hz ≤ 6000)
      × (1 ≤ rows)
      × (rows ≤ 120)

  new_config-Passes :
      (r : Result SpectrumModelError SpectrumConfig)
      → ((c : SpectrumConfig) × (r ≡ ok c)) ⊎ (r ≡ err cpu_bound_exceeded)
      → new_config fft_size overlap min_hz max_hz rows millis ≡ r
      → Passes × (derived_config fft_size overlap min_hz max_hz rows millis ≡ r)
  unfolding new_config
  new_config-Passes r k h = ground arith

  policy-IsChecked :
      (first last bytes : ℕ)
      → Passes
      → first ≤ last
      → last * 2 ≤ fft_size
      → bytes ≤ max_model_bytes
      → IsChecked (record (policy fft_size overlap first last rows millis) {
        estimated_model_bytes = bytes;
      })
  policy-IsChecked first last bytes p order half m = record {
    fft_low = p.0;
    fft_high = p.1;
    hop = omega (arith, p.2);
    overlap = omega (arith, p.0, p.2);
    bins = order;
    last = half;
    rows_low = p.4;
    rows_high = p.5;
    memory = m;
  }

  derived_config-IsChecked :
      (c : SpectrumConfig)
      → Passes
      → derived_config fft_size overlap min_hz max_hz rows millis ≡ ok c
      → IsChecked c
  unfolding derived_config
  derived_config-IsChecked c p d =
      let (first, e, d1) =
        >>=-eq-ok (ok_or (first_bin_of min_hz fft_size) arithmetic_overflow) _ d in
      let (last, f, d2) =
        >>=-eq-ok (ok_or (last_bin_of max_hz fft_size) arithmetic_overflow) _ d1 in
      let (bins, g, d3) = >>=-eq-ok (ok_or (count_bins first last) invalid_passband) _ d2 in
      let (k, m) = bounded_config-ok (policy fft_size overlap first last rows millis) bins c d3 in
      let half = last_bin_half max_hz fft_size last p.3 (ok_or-eq_ok _ _ f) in
      let order = count_bins-order first last bins (ok_or-eq_ok _ _ g) in
      subst IsChecked (sym k) (policy-IsChecked first last c.estimated_model_bytes p order half m)

  derived_config-not_cpu :
      Passes → derived_config fft_size overlap min_hz max_hz rows millis ≢ err cpu_bound_exceeded
  unfolding derived_config
  derived_config-not_cpu p =
      >>=-ne-err (ok_or (first_bin_of min_hz fft_size) arithmetic_overflow) _
        (ok_or-ne-err _ (λ h. cc))
        (λ first.
          >>=-ne-err (ok_or (last_bin_of max_hz fft_size) arithmetic_overflow) _
            (ok_or-ne-err _ (λ h. cc))
            (λ last.
              >>=-ne-err (ok_or (count_bins first last) invalid_passband) _
                (ok_or-ne-err _ (λ h. cc))
                (λ bins.
                  bounded_config-not_cpu (policy fft_size overlap first last rows millis) bins
                    (omega (arith, p)))))

-- A policy that `new_config` accepts has an FFT in range, rows that move on by at least a quarter of
-- it, at least one bin, no bin above the middle of the FFT, at least one row, and a memory estimate
-- within the bound.
pub new_config-IsChecked :
    (fft_size overlap min_hz max_hz rows millis : ℕ) (c : SpectrumConfig)
    → new_config fft_size overlap min_hz max_hz rows millis ≡ ok c
    → IsChecked c
unfolding new_config
new_config-IsChecked fft_size overlap min_hz max_hz rows millis c h =
    let (p, d) =
      new_config-Passes fft_size overlap min_hz max_hz rows millis (ok c) (inl (c, refl)) h in
    derived_config-IsChecked fft_size overlap min_hz max_hz rows millis c p d

-- No policy is refused for its CPU bound: the bound on the overlap keeps the rows of one push
-- within it.
pub new_config_within_cpu_bound :
    (fft_size overlap min_hz max_hz rows millis : ℕ)
    → new_config fft_size overlap min_hz max_hz rows millis ≢ err cpu_bound_exceeded
unfolding new_config bounded_config
new_config_within_cpu_bound fft_size overlap min_hz max_hz rows millis h =
    let (p, d) =
      new_config-Passes fft_size overlap min_hz max_hz rows millis (err cpu_bound_exceeded)
        (inr refl) h in
    derived_config-not_cpu fft_size overlap min_hz max_hz rows millis p d
