-- ===== src/Time.antt =====
-- crates/operations/src/time.rs: paired UTC and monotonic time, slots and deadlines, the virtual
-- clock and the first clock monitor. UTC is an `i64` and may not be negative; monotonic time is a
-- `u64`. Both are milliseconds.
pub mod Slots
pub mod Monitor
mod Examples
use slotpilot.Prelude.{
  ℕ, suc, ◌+◌, ◌-◌, ◌*◌, Bool, Option, none, some, if◌then◌else◌, ltb, leb, ◌==◌,
}
use slotpilot.Prelude.Int.{ℤ, pos, ◌+ℤ◌, ◌-ℤ◌, ◌*ℤ◌, ◌/ℤ◌, ◌%ℤ◌, is_negative, abs}
use slotpilot.Prelude.Words.{
  try_i64, try_unsigned, saturate, checked_add, checked_sub, checked_add_i64, checked_sub_i64,
  u64_max, i64_max,
}
use slotpilot.Prelude.Results.{Result, ok, err, ok_or, map_err, guard, Exec, and_then, ◌>>=◌, ◌>>◌}
use slotpilot.Domain.Radio.{OperatingMode, UtcSlot, slot_millis, new_utc_slot}

pub data SlotTimeError : Type 0 where
  before_unix_epoch missed_deadline arithmetic_overflow misaligned_slot : SlotTimeError

unfoldable pub from_unix_millis : ℤ → Result SlotTimeError ℤ
from_unix_millis value = if is_negative value then err before_unix_epoch else ok value

-- A deadline is the monotonic instant at which it occurs.
pub is_expired_at : ℕ → ℕ → Bool
is_expired_at deadline now = leb deadline now

pub record ClockSample : Type 0 where
  pub utc : ℤ
  pub monotonic : ℕ

pub deadline_for : ClockSample → ℤ → Result SlotTimeError ℕ
unfolding ◌-ℤ◌
deadline_for s target = do
  delta ← ok_or (checked_sub_i64 target s.utc) arithmetic_overflow
  if is_negative delta then err missed_deadline else do
    delta ← ok_or (try_unsigned u64_max delta) arithmetic_overflow
    ok_or (checked_add u64_max s.monotonic delta) arithmetic_overflow

-- The start of the first slot after the sample, as the chain of checked operations gives it.
next_start : ClockSample → ℕ → Option ℤ
unfolding ◌+ℤ◌ ◌*ℤ◌ ◌/ℤ◌
next_start s duration =
    and_then (try_i64 (s.utc /ℤ duration))
      λ index. and_then (checked_add_i64 index (pos 1)) λ index. try_i64 (index *ℤ pos duration)

pub next_slot : ClockSample → OperatingMode → Result SlotTimeError (UtcSlot × ℕ)
unfolding next_start from_unix_millis new_utc_slot deadline_for
next_slot s mode = do
  start ← ok_or (next_start s (slot_millis mode)) arithmetic_overflow
  utc ← from_unix_millis start
  slot ← map_err (λ _. misaligned_slot) (new_utc_slot mode start)
  deadline ← deadline_for s utc
  ok (slot, deadline)

pub current_slot : ClockSample → OperatingMode → Result SlotTimeError UtcSlot
unfolding ◌-ℤ◌ ◌%ℤ◌ new_utc_slot
current_slot s mode =
    let start = s.utc -ℤ (s.utc %ℤ slot_millis mode) in
    map_err (λ _. misaligned_slot) (new_utc_slot mode start)

-- `VirtualClock`: the sample behind its lock. UTC is written before the monotonic sum is checked.
unfoldable pub advance : ℕ → Exec ClockSample SlotTimeError (Unit {0})
unfolding ◌+ℤ◌
advance millis s = elim (try_i64 (pos millis)) [
  | none ↦ (err arithmetic_overflow, s)
  | some delta ↦ elim (checked_add_i64 s.utc delta) [
    | none ↦ (err arithmetic_overflow, s)
    | some utc ↦ elim (checked_add u64_max s.monotonic millis) [
      | none ↦ (err arithmetic_overflow, record s { utc = utc })
      | some monotonic ↦ (ok tt, record { utc = utc; monotonic = monotonic })
    ]
  ]
]

unfoldable pub jump_utc : ℤ → Exec ClockSample SlotTimeError (Unit {0})
unfolding ◌+ℤ◌
jump_utc delta s = elim (checked_add_i64 s.utc delta) [
  | none ↦ (err arithmetic_overflow, s)
  | some updated ↦
      if is_negative updated
      then (err before_unix_epoch, s)
      else (ok tt, record s { utc = updated })
]

pub data ClockFault : Type 0 where
  wall_clock_jump : ℤ → ClockFault
  timeline_regressed : ClockFault

pub data ClockHealth : Type 0 where
  healthy : ClockHealth
  unhealthy : ClockFault → ClockHealth

pub record ClockMonitor : Type 0 where
  pub last : ClockSample
  pub tolerance_millis : ℕ
  pub health : ClockHealth

pub new_monitor : ClockSample → ℕ → ClockMonitor
new_monitor initial tolerance = record {
  last = initial;
  tolerance_millis = tolerance;
  health = healthy;
}

-- What a healthy monitor makes of the next sample.
judge : ClockMonitor → ClockSample → ClockHealth
unfolding ◌-ℤ◌
judge m s = elim (checked_sub_i64 s.utc m.last.utc) [
  | none ↦ unhealthy timeline_regressed
  | some utc_delta ↦ elim (checked_sub s.monotonic m.last.monotonic) [
    | none ↦ unhealthy timeline_regressed
    | some monotonic_delta ↦
        if is_negative utc_delta
        then unhealthy timeline_regressed
        else let divergence =
            saturate i64_max (utc_delta -ℤ saturate i64_max (pos monotonic_delta)) in
          if ltb m.tolerance_millis (abs divergence)
          then unhealthy (wall_clock_jump divergence)
          else healthy
  ]
]

-- `observe`: an unhealthy monitor stays as it is; a healthy one keeps the sample it accepts.
settle : ClockHealth → ClockMonitor → ClockSample → ClockMonitor
settle healthy m s = record m { last = s }
settle (unhealthy f) m s = record m { health = unhealthy f }

latched : ClockHealth → ClockMonitor → ClockSample → ClockMonitor
unfolding judge settle
latched healthy m s = settle (judge m s) m s
latched (unhealthy f) m s = m

unfoldable pub observe : ClockMonitor → ClockSample → ClockMonitor
unfolding latched
observe m s = latched m.health m s
