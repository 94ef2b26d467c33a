-- ===== src/Audio/Spectrum/Examples.antt =====
-- crates/audio/src/spectrum.rs: the theorems at a small policy and one chunk.
use slotpilot.Prelude.{◌≤◌, ◌≡◌, ◌≢◌, ◌+◌, refl, arith, none, replicate, length}
use slotpilot.Prelude.Int.{pos}
use slotpilot.Prelude.Results.{ok, err}
use slotpilot.Audio.Spectrum.Config.{
  SpectrumConfig, bounded_config, cpu_bound_exceeded, derived_config, new_config,
  max_spectrum_rows_per_push,
}
use slotpilot.Audio.Spectrum.Limits.{IsChecked, new_config-IsChecked, new_config_within_cpu_bound}
use slotpilot.Audio.Spectrum.Chunk.{CanonicalSpectrumChunk, new_chunk}
use slotpilot.Audio.Spectrum.Model.{SpectrumModel, SpectrumPushResult, fresh_model}
use slotpilot.Audio.Spectrum.Push.{push}
use slotpilot.Audio.Spectrum.Invariant.{Inv, fresh_model-Inv}
use slotpilot.Audio.Spectrum.Pushing.{push_within_bounds}

abbrev policy : SpectrumConfig
policy = record {
  fft_size = 256;
  overlap_samples = 192;
  first_bin = 2;
  last_bin = 64;
  waterfall_rows = 4;
  publication_millis = 250;
  estimated_model_bytes = 20928;
}

policy-new : new_config 256 192 50 3000 4 250 ≡ ok policy
unfolding new_config derived_config bounded_config
policy-new = refl

new_config-IsChecked_example : IsChecked policy
new_config-IsChecked_example = new_config-IsChecked 256 192 50 3000 4 250 policy policy-new

new_config_within_cpu_bound_example : new_config 256 192 50 3000 4 250 ≢ err cpu_bound_exceeded
new_config_within_cpu_bound_example = new_config_within_cpu_bound 256 192 50 3000 4 250

abbrev chunk : CanonicalSpectrumChunk
chunk = record {
  process_generation = 1;
  stream_generation = 3;
  slot = pos 15000;
  start_sample_offset = 0;
  discontinuity = none;
  samples = replicate 400 (pos 7);
}

chunk-new : new_chunk chunk ≡ ok chunk
unfolding new_chunk
chunk-new = refl

policy-IsChecked : IsChecked policy
policy-IsChecked = new_config-IsChecked 256 192 50 3000 4 250 policy policy-new

push_within_bounds_example :
    (r : SpectrumPushResult) × (m' : SpectrumModel) × (push
        (λ xs i. pos i)
        chunk
        (fresh_model policy)
      ≡ (ok r, m'))
    × (r.produced_rows ≤ max_spectrum_rows_per_push)
    × (m'.next_sequence ≡ 0 + r.produced_rows)
    × (r.retained_rows ≡ length m'.rows)
    × Inv m'
push_within_bounds_example =
    push_within_bounds (λ xs i. pos i) chunk (fresh_model policy)
      (fresh_model-Inv policy policy-IsChecked) chunk-new (15000, refl, omega arith) (omega arith)
