-- ===== src/Audio/Config.antt =====
-- crates/audio/src/lib.rs: input configurations and their ranges.
use native.Mathlib.Decide.{ℕ_discrete}
use slotpilot.Prelude.{ℕ, ◌≤◌, ◌<◌, ◌≡◌, ◌↔◌, arith, if◌then◌else◌, within, leb, ltb, ◌==◌, ◌||◌}
use slotpilot.Prelude.Results.{Result, ok, err}

pub data ReceiveAudioError : Type 0 where
  invalid_stable_identity invalid_display_metadata invalid_sample_rate : ReceiveAudioError
  invalid_channel_count invalid_selected_channel : ReceiveAudioError
  invalid_configuration_count invalid_generation invalid_utc_timestamp : ReceiveAudioError
  invalid_callback_delay invalid_latency invalid_drift invalid_batch_shape : ReceiveAudioError
  batch_too_large invalid_clipped_sample_count : ReceiveAudioError
  discontinuity_position_mismatch position_overflow misaligned_ft8_window : ReceiveAudioError
  invalid_ft8_window_size : ReceiveAudioError

pub data InputSampleFormat : Type 0 where
  signed8 signed16 signed24 signed32 signed64 : InputSampleFormat
  unsigned8 unsigned16 unsigned24 unsigned32 unsigned64 : InputSampleFormat
  float32 float64 : InputSampleFormat

abbrev pub max_input_channels : ℕ
max_input_channels = 32

abbrev pub min_sample_rate_hz : ℕ
min_sample_rate_hz = 8000

abbrev pub max_sample_rate_hz : ℕ
max_sample_rate_hz = 384000

pub record InputConfiguration : Type 0 where
  pub sample_rate_hz : ℕ
  pub channels : ℕ
  pub sample_format : InputSampleFormat
  pub selected_channel : ℕ

unfoldable pub InputConfiguration-discrete : Discrete InputConfiguration
InputConfiguration-discrete = hlevel ℕ_discrete

unfoldable pub new_configuration :
    ℕ → ℕ → InputSampleFormat → ℕ → Result ReceiveAudioError InputConfiguration
new_configuration rate channels format selected =
    if within min_sample_rate_hz max_sample_rate_hz rate
    then if channels == 0 || ltb max_input_channels channels
      then err invalid_channel_count
      else if leb channels selected
      then err invalid_selected_channel
      else ok (record {
        sample_rate_hz = rate;
        channels = channels;
        sample_format = format;
        selected_channel = selected;
      })
    else err invalid_sample_rate

pub record InputConfigurationRange : Type 0 where
  pub min_rate : ℕ
  pub max_rate : ℕ
  pub channels : ℕ
  pub sample_format : InputSampleFormat

unfoldable pub new_range :
    ℕ → ℕ → ℕ → InputSampleFormat → Result ReceiveAudioError InputConfigurationRange
new_range lo hi channels format =
    if ltb hi lo
    then err invalid_sample_rate
    else if within min_sample_rate_hz max_sample_rate_hz lo
    then if within min_sample_rate_hz max_sample_rate_hz hi
      then if channels == 0 || ltb max_input_channels channels
        then err invalid_channel_count
        else ok
            (record { min_rate = lo; max_rate = hi; channels = channels; sample_format = format })
      else err invalid_sample_rate
    else err invalid_sample_rate

unfoldable pub select :
    InputConfigurationRange → ℕ → ℕ → Result ReceiveAudioError InputConfiguration
unfolding new_configuration
select range rate selected =
    if within range.min_rate range.max_rate rate
    then new_configuration rate range.channels range.sample_format selected
    else err invalid_sample_rate

-- What every checked configuration satisfies.
pub record IsConfigured (c : InputConfiguration) : Type 0 where
  pub rate_low : min_sample_rate_hz ≤ c.sample_rate_hz
  pub rate_high : c.sample_rate_hz ≤ max_sample_rate_hz
  pub channels_high : c.channels ≤ max_input_channels
  pub selected_low : c.selected_channel < c.channels

pub new_configuration-IsConfigured :
    (rate channels : ℕ) (format : InputSampleFormat) (selected : ℕ) (c : InputConfiguration)
    → new_configuration rate channels format selected ≡ ok c
    → IsConfigured c
unfolding new_configuration
new_configuration-IsConfigured rate channels format selected c h = ground arith

-- Selecting from a checked range succeeds exactly when the rate lies in the range and the channel
-- exists: no rate of a checked range is refused later, and nothing else is accepted.
pub select_iff :
    (lo hi channels : ℕ) (format : InputSampleFormat) (range : InputConfigurationRange)
    (rate selected : ℕ) (c : InputConfiguration)
    → new_range lo hi channels format ≡ ok range
    → (select range rate selected ≡ ok c) ↔ (
        (lo ≤ rate)
        × (rate ≤ hi)
        × (selected < channels)
        × (c ≡ record {
          sample_rate_hz = rate;
          channels = channels;
          sample_format = format;
          selected_channel = selected;
        }))
unfolding new_range select
select_iff lo hi channels format range rate selected c h = (λ e. ground arith, λ e. ground arith)
