-- ===== src/Audio/Spectrum/Config.antt =====
-- crates/audio/src/spectrum.rs: the checked spectrum policy and its errors.
use slotpilot.Prelude.{
  ℕ, ◌+◌, ◌-◌, ◌*◌, ◌/◌, ◌%◌, Bool, Option, some, if◌then◌else◌, within, ltb, leb, not, ◌==◌, ◌||◌,
}
use slotpilot.Prelude.Words.{checked_add, checked_mul, checked_sub, u64_max}
use slotpilot.Prelude.Results.{Result, ok, err, ok_or, and_then, ◌>>=◌}
use slotpilot.Audio.Batch.{ft8_receive_sample_rate_hz}

abbrev pub min_spectrum_fft_size : ℕ
min_spectrum_fft_size = 256

abbrev pub max_spectrum_fft_size : ℕ
max_spectrum_fft_size = 4096

abbrev pub max_waterfall_rows : ℕ
max_waterfall_rows = 120

abbrev pub max_spectrum_bins : ℕ
max_spectrum_bins = max_spectrum_fft_size / 2 + 1

abbrev pub max_spectrum_chunk_samples : ℕ
max_spectrum_chunk_samples = 4096

abbrev pub max_spectrum_rows_per_push : ℕ
max_spectrum_rows_per_push = 64

abbrev pub max_model_bytes : ℕ
max_model_bytes = 2 * 1024 * 1024

pub data SpectrumModelError : Type 0 where
  invalid_fft_size invalid_overlap invalid_passband invalid_row_capacity : SpectrumModelError
  invalid_publication_cadence cpu_bound_exceeded memory_bound_exceeded : SpectrumModelError
  dependency_scratch_exceeded empty_chunk chunk_too_large : SpectrumModelError
  chunk_outside_slot arithmetic_overflow : SpectrumModelError

pub record SpectrumConfig : Type 0 where
  pub fft_size : ℕ
  pub overlap_samples : ℕ
  pub first_bin : ℕ
  pub last_bin : ℕ
  pub waterfall_rows : ℕ
  pub publication_millis : ℕ
  pub estimated_model_bytes : ℕ

abbrev pub hop_samples : SpectrumConfig → ℕ
hop_samples c = c.fft_size - c.overlap_samples

abbrev pub bin_count : SpectrumConfig → ℕ
bin_count c = c.last_bin - c.first_bin + 1

-- `is_power_of_two` on the sizes that the range check lets through.
abbrev pub is_power_of_two : ℕ → Bool
is_power_of_two n = n == 256 || n == 512 || n == 1024 || n == 2048 || n == 4096

abbrev pub div_ceil : ℕ → ℕ → ℕ
div_ceil a b = if a % b == 0 then a / b else a / b + 1

-- The first and the last bin of the passband.
abbrev pub first_bin_of : ℕ → ℕ → Option ℕ
first_bin_of hz fft_size =
    and_then (checked_mul u64_max hz fft_size) (λ n. some (div_ceil n ft8_receive_sample_rate_hz))

abbrev pub last_bin_of : ℕ → ℕ → Option ℕ
last_bin_of hz fft_size =
    and_then (checked_mul u64_max hz fft_size) (λ n. some (n / ft8_receive_sample_rate_hz))

abbrev pub count_bins : ℕ → ℕ → Option ℕ
count_bins first last = and_then (checked_sub last first) (λ n. checked_add u64_max n 1)

abbrev pub estimate_bytes : ℕ → ℕ → ℕ → Option ℕ
estimate_bytes rows bins fft_size = and_then (checked_mul u64_max bins 16) (λ a.
    and_then (checked_add u64_max a 128) (λ b.
      and_then (checked_mul u64_max rows b)
        (λ c. and_then (checked_mul u64_max fft_size 64) (λ d. checked_add u64_max c d))))

-- The last check of the constructor, on the memory estimate.
abbrev pub within_memory : SpectrumConfig → ℕ → Result SpectrumModelError SpectrumConfig
within_memory c bytes =
    if ltb max_model_bytes bytes
    then err memory_bound_exceeded
    else ok (record c { estimated_model_bytes = bytes })

-- The checks on the derived values.
unfoldable pub bounded_config : SpectrumConfig → ℕ → Result SpectrumModelError SpectrumConfig
bounded_config c bins =
    if bins == 0 || ltb max_spectrum_bins bins
    then err invalid_passband
    else if ltb max_spectrum_rows_per_push (div_ceil max_spectrum_chunk_samples (hop_samples c))
    then err cpu_bound_exceeded
    else (ok_or (estimate_bytes c.waterfall_rows bins c.fft_size) arithmetic_overflow
        >>= within_memory c)

-- The policy before its memory estimate.
abbrev pub policy : ℕ → ℕ → ℕ → ℕ → ℕ → ℕ → SpectrumConfig
policy fft_size overlap first last rows millis = record {
  fft_size = fft_size;
  overlap_samples = overlap;
  first_bin = first;
  last_bin = last;
  waterfall_rows = rows;
  publication_millis = millis;
  estimated_model_bytes = 0;
}

-- What follows the checks on the arguments.
unfoldable pub derived_config : ℕ → ℕ → ℕ → ℕ → ℕ → ℕ → Result SpectrumModelError SpectrumConfig
derived_config fft_size overlap min_hz max_hz rows millis = do
  first ← ok_or (first_bin_of min_hz fft_size) arithmetic_overflow
  last ← ok_or (last_bin_of max_hz fft_size) arithmetic_overflow
  bins ← ok_or (count_bins first last) invalid_passband
  bounded_config (policy fft_size overlap first last rows millis) bins

-- `SpectrumConfig::new`.
unfoldable pub new_config : ℕ → ℕ → ℕ → ℕ → ℕ → ℕ → Result SpectrumModelError SpectrumConfig
new_config fft_size overlap min_hz max_hz rows millis =
    if not (within min_spectrum_fft_size max_spectrum_fft_size fft_size)
      || not (is_power_of_two fft_size)
    then err invalid_fft_size
    else if leb fft_size overlap || ltb (fft_size * 3 / 4) overlap
    then err invalid_overlap
    else if leb max_hz min_hz || ltb (ft8_receive_sample_rate_hz / 2) max_hz
    then err invalid_passband
    else if not (within 1 max_waterfall_rows rows)
    then err invalid_row_capacity
    else if not (within 50 2000 millis)
    then err invalid_publication_cadence
    else derived_config fft_size overlap min_hz max_hz rows millis
