-- ===== src/Domain/Radio.antt =====
-- crates/domain/src/radio.rs: bands, bounded frequencies and power, modes and UTC slots.
pub mod Names
mod Examples
use text.Mathlib.Text.{◌==◌ as str_eq}
use Prim.Native.String.{String}
use slotpilot.Prelude.{ℕ, Bool, Option, none, some, List, [], ◌∷◌, if◌then◌else◌, within, ◌==◌}
use slotpilot.Prelude.Int.{ℤ, pos, ◌%ℤ◌, is_negative, eqb_ℤ}
use slotpilot.Prelude.Results.{Result, ok, err, ok_or}

-- The payload of `FrequencyOutOfRange` is the role with its two bounds.
pub data RadioValueError : Type 0 where
  invalid_integer invalid_band power_out_of_range invalid_mode negative_slot misaligned_slot :
      RadioValueError
  frequency_out_of_range : String → ℕ → ℕ → RadioValueError

pub data Band : Type 0 where
  b2200m b630m b160m b80m b60m b40m b30m b20m b17m b15m b12m b10m b6m b2m b70cm : Band

unfoldable pub band_as_str : Band → String
band_as_str b2200m = "2200m"
band_as_str b630m = "630m"
band_as_str b160m = "160m"
band_as_str b80m = "80m"
band_as_str b60m = "60m"
band_as_str b40m = "40m"
band_as_str b30m = "30m"
band_as_str b20m = "20m"
band_as_str b17m = "17m"
band_as_str b15m = "15m"
band_as_str b12m = "12m"
band_as_str b10m = "10m"
band_as_str b6m = "6m"
band_as_str b2m = "2m"
band_as_str b70cm = "70cm"

abbrev pub all_bands : List Band
all_bands =
    b2200m ∷ b630m ∷ b160m ∷ b80m ∷ b60m ∷ b40m ∷ b30m ∷ b20m ∷ b17m ∷ b15m ∷ b12m ∷ b10m ∷ b6m
    ∷ b2m ∷ b70cm ∷ []

-- `into_iter().find(|band| band.as_str() == value)`.
pub find_band : String → List Band → Option Band
find_band value [] = none
find_band value (b ∷ bs) = if str_eq (band_as_str b) value then some b else find_band value bs

pub band_from_str : String → Result RadioValueError Band
unfolding find_band band_as_str
band_from_str value = ok_or (find_band value all_bands) invalid_band

-- What the macro `frequency!` generates for a role and its bounds.
pub from_hz : String → ℕ → ℕ → ℕ → Result RadioValueError ℕ
from_hz kind minimum maximum hz =
    if within minimum maximum hz then ok hz else err (frequency_out_of_range kind minimum maximum)

pub dial_from_hz : ℕ → Result RadioValueError ℕ
unfolding from_hz
dial_from_hz = from_hz "dial" 100000 300000000000

pub audio_from_hz : ℕ → Result RadioValueError ℕ
unfolding from_hz
audio_from_hz = from_hz "audio" 1 50000

pub power_from_milliwatts : ℕ → Result RadioValueError ℕ
power_from_milliwatts value = if within 1 1000000 value then ok value else err power_out_of_range

pub data OperatingMode : Type 0 where
  ft8 wspr : OperatingMode

abbrev pub slot_millis : OperatingMode → ℕ
slot_millis ft8 = 15000
slot_millis wspr = 120000

unfoldable pub mode_as_str : OperatingMode → String
mode_as_str ft8 = "FT8"
mode_as_str wspr = "WSPR"

pub mode_from_str : String → Result RadioValueError OperatingMode
mode_from_str value =
    if str_eq value "FT8" then ok ft8 else if str_eq value "WSPR" then ok wspr else err invalid_mode

-- A slot start is an `i64`.
pub record UtcSlot : Type 0 where
  pub mode : OperatingMode
  pub start_unix_millis : ℤ

unfoldable pub new_utc_slot : OperatingMode → ℤ → Result RadioValueError UtcSlot
unfolding ◌%ℤ◌
new_utc_slot mode start =
    if is_negative start
    then err negative_slot
    else if eqb_ℤ (start %ℤ slot_millis mode) (pos 0)
    then ok (record { mode = mode; start_unix_millis = start })
    else err misaligned_slot
