-- ===== src/Time/Examples.antt =====
-- The clocks of the tests of time.rs, and each theorem at a run of them.
use slotpilot.Prelude.{ℕ, ◌+◌, ◌<◌, ◌≤◌, ◌≡◌, ◌≢◌, ◌↔◌, refl, arith, true, [], ◌∷◌}
use slotpilot.Prelude.Int.{pos, negsuc, ◌-ℤ◌, ◌+ℤ◌, ◌%ℤ◌, ◌≤ℤ◌}
use slotpilot.Prelude.Results.{ok}
use slotpilot.Domain.Radio.{UtcSlot, ft8, wspr}
use slotpilot.Time.{
  ClockSample, ClockMonitor, advance, current_slot, deadline_for, healthy, is_expired_at, jump_utc,
  next_slot, observe,
}
use slotpilot.Time.Slots.{
  StartsAfter, current_slot_total, deadline_expires_with_target, next_slot_total,
}
use slotpilot.Time.Monitor.{jump_latches, observe_all, run_steps, run_steps-healthy, total}

abbrev late : ClockSample
late = record { utc = pos 15001; monotonic = 500 }

next_slot_total_example :
    (slot : UtcSlot) × (wait : ℕ) × (next_slot late ft8 ≡ ok (slot, 500 + wait))
    × StartsAfter ft8 (pos 15001) wait slot
    × (0 < wait)
    × (wait ≤ 15000)
next_slot_total_example = next_slot_total ft8 late (omega arith) (omega arith) (omega arith)

-- The boundary and the deadline of the source's own test.
late_slot : next_slot late ft8 ≡ ok (record { mode = ft8; start_unix_millis = pos 30000 }, 15499)
unfolding next_slot
late_slot = refl

current_slot_total_example :
    (slot : UtcSlot) × (elapsed : ℕ) × (current_slot late wspr ≡ ok slot)
    × (slot.mode ≡ wspr)
    × (slot.start_unix_millis %ℤ 120000 ≡ pos 0)
    × (pos 15001 -ℤ slot.start_unix_millis ≡ pos elapsed)
    × (elapsed < 120000)
current_slot_total_example = current_slot_total wspr late (omega arith)

deadline_expires_with_target_example : (is_expired_at 15499 1000 ≡ true) ↔ (pos 30000 ≤ℤ pos 15501)
deadline_expires_with_target_example =
    deadline_expires_with_target late (pos 30000) 15499 500
      (record { utc = pos 15501; monotonic = 1000 }) (omega arith) (omega arith)
      (unfold deadline_for in refl) (unfold advance ◌+ℤ◌ in refl)

abbrev watching : ClockMonitor
watching = record { last = late; tolerance_millis = 100; health = healthy }

run_steps-healthy_example :
    let r = run_steps watching late (1000 ∷ 0 ∷ 86400000 ∷ []) in
    (r.0.health ≡ healthy) × (r.0.last ≡ r.1)
unfolding total
run_steps-healthy_example =
    run_steps-healthy watching late (1000 ∷ 0 ∷ 86400000 ∷ []) (omega arith) refl refl (omega arith)
      (omega arith)

jump_latches_example :
    (observe_all
      (observe watching (record { utc = pos 13001; monotonic = 500 }))
      (late ∷ late ∷ [])).health
    ≢ healthy
jump_latches_example =
    jump_latches watching late (negsuc 1999) (record { utc = pos 13001; monotonic = 500 })
      (late ∷ late ∷ []) (omega arith, omega arith) refl refl (omega arith)
      (unfold jump_utc in refl)
