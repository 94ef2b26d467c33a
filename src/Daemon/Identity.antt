-- ===== src/Daemon/Identity.antt =====
-- apps/daemon/src/receive.rs: `receive_window_id`. A text is the list of its bytes.
use slotpilot.Prelude.{ℕ, zero, suc, ◌+◌, ◌-◌, ◌/◌, ◌%◌, ◌^◌, List, [], ◌∷◌, ◌++◌}
use slotpilot.Prelude.Int.{ℤ, pos, negsuc}
use slotpilot.Prelude.Results.{Result}
use slotpilot.Domain.Ids.{IdError, parse_id, receive_window_prefix}
use slotpilot.Audio.Config.{
  InputSampleFormat, float32, float64, signed16, signed24, signed32, signed64, signed8, unsigned16,
  unsigned24, unsigned32, unsigned64, unsigned8,
}
use slotpilot.Storage.Record.{
  InputPlatform, linux_alsa, linux_jack, mac_os_core_audio, windows_wasapi,
}
use slotpilot.Daemon.Types.{ReceiveSelection}

abbrev pub platform_code : InputPlatform → ℕ
platform_code mac_os_core_audio = 1
platform_code windows_wasapi = 2
platform_code linux_alsa = 3
platform_code linux_jack = 4

abbrev pub sample_format_code : InputSampleFormat → ℕ
sample_format_code signed8 = 1
sample_format_code signed16 = 2
sample_format_code signed24 = 3
sample_format_code signed32 = 4
sample_format_code signed64 = 5
sample_format_code unsigned8 = 6
sample_format_code unsigned16 = 7
sample_format_code unsigned24 = 8
sample_format_code unsigned32 = 9
sample_format_code unsigned64 = 10
sample_format_code float32 = 11
sample_format_code float64 = 12

-- `to_be_bytes` of an unsigned type with so many bytes.
unfoldable pub to_be_bytes : ℕ → ℕ → List ℕ
to_be_bytes zero n = []
to_be_bytes (suc count) n = to_be_bytes count (n / 256) ++ (n % 256) ∷ []

-- An `i64` as the `u64` with the same bytes.
abbrev pub as_u64 : ℤ → ℕ
as_u64 (pos n) = n
as_u64 (negsuc n) = 2 ^ 64 - (n + 1)

-- The bytes that the digest takes in.
unfoldable pub digest_input : List ℕ → ReceiveSelection → ℕ → ℕ → ℤ → List ℕ
digest_input service selection process stream slot =
    service
    ++ to_be_bytes 8 process
    ++ to_be_bytes 8 stream
    ++ to_be_bytes 8 (as_u64 slot)
    ++ (platform_code selection.device_identity.platform ∷ [])
    ++ selection.device_identity.opaque_id
    ++ to_be_bytes 4 selection.configuration.sample_rate_hz
    ++ to_be_bytes 2 selection.configuration.channels
    ++ (sample_format_code selection.configuration.sample_format ∷ [])
    ++ to_be_bytes 2 selection.configuration.selected_channel

-- The first argument gives the hexadecimal text of the digest.
unfoldable pub receive_window_id :
    (List ℕ → List ℕ) → List ℕ → ReceiveSelection → ℕ → ℕ → ℤ → Result IdError (List ℕ)
receive_window_id sha256_hex service selection process stream slot =
    parse_id receive_window_prefix
      (receive_window_prefix ++ sha256_hex (digest_input service selection process stream slot))
