-- ===== src/Domain/Radio/Examples.antt =====
-- The wire names of radio.rs at one of them.
use slotpilot.Prelude.{◌≡◌, ◌↔◌}
use slotpilot.Prelude.Results.{ok}
use slotpilot.Domain.Radio.{b20m, band_as_str, band_from_str}
use slotpilot.Domain.Radio.Names.{band_from_str_iff}

band_from_str_iff_example : (band_from_str "20m" ≡ ok b20m) ↔ ("20m" ≡ band_as_str b20m)
band_from_str_iff_example = band_from_str_iff "20m" b20m
