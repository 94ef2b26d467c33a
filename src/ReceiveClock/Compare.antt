-- ===== src/ReceiveClock/Compare.antt =====
-- What two samples `compare` lets pass: the two timelines moved forward together.
use slotpilot.Prelude.{◌+◌, ◌≤◌, ◌≡◌, ◌↔◌, arith, none}
use slotpilot.Prelude.Int.{◌-ℤ◌}
use slotpilot.Prelude.Words.{IsInstant}
use slotpilot.Time.{ClockSample}
use slotpilot.Time.Monitor.{Agrees}
use slotpilot.ReceiveClock.{ReceiveClockConfig}
use slotpilot.ReceiveClock.Monitor.{compare}

-- The samples agree within the jump tolerance, and no more than the greatest gap lies between them.
pub record Consistent (c : ReceiveClockConfig) (previous current : ClockSample) : Type 0 where
  pub agrees : Agrees c.jump_tolerance_millis previous current
  pub near : current.monotonic ≤ previous.monotonic + c.max_sample_gap_millis

module _ (c : ReceiveClockConfig) (previous current : ClockSample) where
  compare-Consistent :
      IsInstant previous.utc
      → IsInstant current.utc
      → c.jump_tolerance_millis ≤ 5000
      → c.max_sample_gap_millis ≤ 300000
      → compare c previous current ≡ none
      → Consistent c previous current
  unfolding compare ◌-ℤ◌
  compare-Consistent i j t g h = ground arith

  Consistent-compare :
      IsInstant previous.utc
      → IsInstant current.utc
      → c.jump_tolerance_millis ≤ 5000
      → c.max_sample_gap_millis ≤ 300000
      → Consistent c previous current
      → compare c previous current ≡ none
  unfolding compare ◌-ℤ◌
  Consistent-compare i j t g h = ground arith

  -- Two samples pass exactly when they are consistent, for every policy within the bounds of
  -- `ReceiveClockConfig::new`.
  pub compare_iff :
      IsInstant previous.utc
      → IsInstant current.utc
      → c.jump_tolerance_millis ≤ 5000
      → c.max_sample_gap_millis ≤ 300000
      → (compare c previous current ≡ none) ↔ Consistent c previous current
  compare_iff i j t g = (compare-Consistent i j t g, Consistent-compare i j t g)
