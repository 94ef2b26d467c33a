-- ===== src/Domain/Radio/Names.antt =====
-- The wire names of radio.rs are read back as what they name.
use Prim.Native.String.{String}
use text.Mathlib.TextEquality.{eq_iff}
use slotpilot.Prelude.{◌≡◌, refl, arith, List, [], ◌∷◌, some, ◌↔◌}
use slotpilot.Prelude.Results.{ok, ok_or-eq_ok}
use slotpilot.Domain.Radio.{
  Band, OperatingMode, all_bands, band_as_str, band_from_str, find_band, mode_as_str, mode_from_str,
}

band_roundtrip : (b : Band) → band_from_str (band_as_str b) ≡ ok b
unfolding band_from_str band_as_str find_band
band_roundtrip Band.b2200m = refl
band_roundtrip _ = refl

pub mode_roundtrip : (m : OperatingMode) → mode_from_str (mode_as_str m) ≡ ok m
unfolding mode_from_str mode_as_str
mode_roundtrip OperatingMode.ft8 = refl
mode_roundtrip OperatingMode.wspr = refl

find_band-name :
    (s : String) (b : Band) (bs : List Band) → find_band s bs ≡ some b → s ≡ band_as_str b
unfolding find_band
find_band-name s b [] h = ground arith
find_band-name s b (x ∷ bs) h = ground (arith, eq_iff (band_as_str x) s, find_band-name s b bs)

-- The text that a band is read from is its wire name: no other text is accepted, and each wire
-- name is read as its band.
pub band_from_str_iff : (s : String) (b : Band) → (band_from_str s ≡ ok b) ↔ (s ≡ band_as_str b)
unfolding band_from_str
band_from_str_iff s b =
    ((λ h. find_band-name s b all_bands (ok_or-eq_ok _ _ h)), (λ e. rw e (band_roundtrip b)))
