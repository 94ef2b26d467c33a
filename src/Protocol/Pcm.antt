-- ===== src/Protocol/Pcm.antt =====
-- crates/protocol/src/lib.rs: offline PCM buffers, and the decodes that a decoder returns.
use slotpilot.Prelude.{ℕ, ◌/◌, ◌%◌, List, length, if◌then◌else◌, within, ltb, leb, ◌==◌}
use slotpilot.Prelude.Int.{ℤ}
use slotpilot.Prelude.Words.{saturating_mul, u32_max, u64_max}
use slotpilot.Prelude.Results.{Result, ok, err}

abbrev pub max_offline_pcm_samples : ℕ
max_offline_pcm_samples = 24000000

pub data PcmError : Type 0 where
  invalid_sample_rate invalid_channel_count incomplete_frame buffer_too_large : PcmError

pub data PcmSampleFormat : Type 0 where
  signed16_little_endian : PcmSampleFormat

pub record PcmFormat : Type 0 where
  pub sample_rate_hz : ℕ
  pub channels : ℕ
  pub sample_format : PcmSampleFormat

unfoldable pub new_format : ℕ → ℕ → PcmSampleFormat → Result PcmError PcmFormat
new_format rate channels format =
    if within 1 384000 rate
    then if within 1 8 channels
      then ok (record { sample_rate_hz = rate; channels = channels; sample_format = format })
      else err invalid_channel_count
    else err invalid_sample_rate

pub record PcmDuration : Type 0 where
  pub frames : ℕ
  pub microseconds : ℕ

pub record PcmBuffer : Type 0 where
  pub format : PcmFormat
  pub duration : PcmDuration
  pub samples : List ℤ

unfoldable pub new_buffer : PcmFormat → List ℤ → Result PcmError PcmBuffer
new_buffer format samples =
    if ltb max_offline_pcm_samples (length samples)
    then err buffer_too_large
    else if length samples % format.channels == 0
    then (let frames = length samples / format.channels in
        if leb frames u32_max
        then ok (record {
          format = format;
          duration = record {
            frames = frames;
            microseconds = saturating_mul u64_max frames 1000000 / format.sample_rate_hz;
          };
          samples = samples;
        })
        else err buffer_too_large)
    else err incomplete_frame

pub record Ft8DecodeMetadata : Type 0 where
  pub start_offset_millis : ℤ
  pub audio_frequency_hz : ℕ
  pub signal_to_noise_db : ℤ

-- The classified message is of the type that the decoder returns.
pub record Ft8Decode (Message : Type 0) : Type 0 where
  pub metadata : Ft8DecodeMetadata
  pub message : Message
