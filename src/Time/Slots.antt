-- ===== src/Time/Slots.antt =====
-- The slots of time.rs: which slot a sample lies in, which comes next, and when its deadline is.
use slotpilot.Prelude.{
  ℕ, ◌+◌, ◌-◌, ◌*◌, ◌/◌, ◌%◌, ◌≤◌, ◌<◌, ◌≡◌, ◌↔◌, refl, arith, true, leb→le, le→leb,
}
use slotpilot.Prelude.Int.{ℤ, pos, negsuc, pos_part, neg_part, ◌+ℤ◌, ◌-ℤ◌, ◌%ℤ◌, ◌≤ℤ◌}
use slotpilot.Prelude.Words.{IsInstant, i64_max, u64_max}
use slotpilot.Prelude.Results.{ok}
use slotpilot.Domain.Radio.{OperatingMode, ft8, wspr, UtcSlot, slot_millis}
use slotpilot.Time.{ClockSample, advance, current_slot, deadline_for, is_expired_at, next_slot}

-- A slot of the mode, aligned to its duration, that starts `wait` after the time `utc`.
pub record StartsAfter (mode : OperatingMode) (utc : ℤ) (wait : ℕ) (slot : UtcSlot) : Type 0 where
  pub of_mode : slot.mode ≡ mode
  pub aligned : slot.start_unix_millis %ℤ slot_millis mode ≡ pos 0
  pub after : slot.start_unix_millis -ℤ utc ≡ pos wait

next_slot_go :
    (mode : OperatingMode) (u m : ℕ)
    → u + slot_millis mode ≤ i64_max
    → m + slot_millis mode ≤ u64_max
    → (slot : UtcSlot) × (wait : ℕ) × (next_slot (record { utc = pos u; monotonic = m }) mode
        ≡ ok (slot, m + wait))
      × StartsAfter mode (pos u) wait slot
      × (0 < wait)
      × (wait ≤ slot_millis mode)
unfolding next_slot ◌-ℤ◌ ◌%ℤ◌
next_slot_go ft8 u m h k = (
  record { mode = ft8; start_unix_millis = pos ((u / 15000 + 1) * 15000) },
  (u / 15000 + 1) * 15000 - u,
  ground arith,
  record { of_mode = refl; aligned = ground arith; after = ground arith },
  omega arith,
  omega arith,
)
next_slot_go wspr u m h k = (
  record { mode = wspr; start_unix_millis = pos ((u / 120000 + 1) * 120000) },
  (u / 120000 + 1) * 120000 - u,
  ground arith,
  record { of_mode = refl; aligned = ground arith; after = ground arith },
  omega arith,
  omega arith,
)

-- The next slot of a sample exists whenever one slot more fits the two timelines: it is aligned,
-- it starts after the sample by at least a millisecond and at most one slot, and its deadline is
-- the monotonic reading plus that wait.
pub next_slot_total :
    (mode : OperatingMode) (s : ClockSample)
    → IsInstant s.utc
    → pos_part s.utc + slot_millis mode ≤ i64_max
    → s.monotonic + slot_millis mode ≤ u64_max
    → (slot : UtcSlot) × (wait : ℕ) × (next_slot s mode ≡ ok (slot, s.monotonic + wait))
      × StartsAfter mode s.utc wait slot
      × (0 < wait)
      × (wait ≤ slot_millis mode)
next_slot_total mode s i h k = go s.utc i h
  where
    go :
        (utc : ℤ)
        → IsInstant utc
        → pos_part utc + slot_millis mode ≤ i64_max
        → (slot : UtcSlot) × (wait : ℕ) × (next_slot
              (record { utc = utc; monotonic = s.monotonic })
              mode
            ≡ ok (slot, s.monotonic + wait))
          × StartsAfter mode utc wait slot
          × (0 < wait)
          × (wait ≤ slot_millis mode)
    go (pos u) i h = next_slot_go mode u s.monotonic h k
    go (negsuc u) i h = absurd i

-- The current slot of a sample always exists: it is aligned and holds the sample.
pub current_slot_total :
    (mode : OperatingMode) (s : ClockSample)
    → IsInstant s.utc
    → (slot : UtcSlot) × (elapsed : ℕ) × (current_slot s mode ≡ ok slot)
      × (slot.mode ≡ mode)
      × (slot.start_unix_millis %ℤ slot_millis mode ≡ pos 0)
      × (s.utc -ℤ slot.start_unix_millis ≡ pos elapsed)
      × (elapsed < slot_millis mode)
unfolding current_slot ◌-ℤ◌ ◌%ℤ◌
current_slot_total mode s i = go mode s.utc i
  where
    go :
        (mode : OperatingMode) (utc : ℤ)
        → IsInstant utc
        → (slot : UtcSlot) × (elapsed : ℕ) × (current_slot
              (record { utc = utc; monotonic = s.monotonic })
              mode
            ≡ ok slot)
          × (slot.mode ≡ mode)
          × (slot.start_unix_millis %ℤ slot_millis mode ≡ pos 0)
          × (utc -ℤ slot.start_unix_millis ≡ pos elapsed)
          × (elapsed < slot_millis mode)
    go ft8 (pos u) i = (
      record { mode = ft8; start_unix_millis = pos (u - u % 15000) },
      u % 15000,
      ground arith,
      refl,
      ground arith,
      ground arith,
      omega arith,
    )
    go wspr (pos u) i = (
      record { mode = wspr; start_unix_millis = pos (u - u % 120000) },
      u % 120000,
      ground arith,
      refl,
      ground arith,
      ground arith,
      omega arith,
    )
    go _ (negsuc u) i = absurd i

deadline_for-eq_ok :
    (s : ClockSample) (target : ℤ) (deadline : ℕ)
    → IsInstant s.utc
    → IsInstant target
    → deadline_for s target ≡ ok deadline
    → deadline + pos_part s.utc ≡ pos_part target + s.monotonic
unfolding deadline_for ◌-ℤ◌
deadline_for-eq_ok s target deadline i j h = ground arith

-- An advance that succeeds moves both timelines by the same amount.
pub advance-eq_ok :
    (s later : ClockSample) (millis : ℕ)
    → IsInstant s.utc
    → advance millis s ≡ (ok tt, later)
    → IsInstant later.utc
      × (pos_part later.utc ≡ pos_part s.utc + millis)
      × (later.monotonic ≡ s.monotonic + millis)
unfolding advance ◌+ℤ◌
advance-eq_ok s later millis i h = ground arith

instant-nonneg : (z : ℤ) → IsInstant z → neg_part z ≡ 0
instant-nonneg (pos n) i = refl
instant-nonneg (negsuc n) i = absurd i

-- A deadline mapped from a sample has expired on the virtual clock exactly when the UTC instant
-- that it was mapped from has come, however far the clock was advanced in between.
pub deadline_expires_with_target :
    (s : ClockSample) (target : ℤ) (deadline millis : ℕ) (later : ClockSample)
    → IsInstant s.utc
    → IsInstant target
    → deadline_for s target ≡ ok deadline
    → advance millis s ≡ (ok tt, later)
    → (is_expired_at deadline later.monotonic ≡ true) ↔ (target ≤ℤ later.utc)
unfolding is_expired_at
deadline_expires_with_target s target deadline millis later i j d a =
    let due = deadline_for-eq_ok s target deadline i j d in
    let moved = advance-eq_ok s later millis i a in
    let p = instant-nonneg target j in
    let q = instant-nonneg later.utc moved.0 in
    (
      (λ h. omega (arith, leb→le deadline later.monotonic h)),
      (λ h. omega (arith, le→leb deadline later.monotonic)),
    )
