-- ===== src/ReceiveClock/Gate.antt =====
-- The window gate: when a canonical window is let through to the decoder.
use slotpilot.Prelude.{ℕ, ◌+◌, ◌-◌, ◌≤◌, ◌≡◌, ◌↔◌, subst, arith, Option, none, some}
use slotpilot.Prelude.Int.{ℤ, ◌+ℤ◌, ◌-ℤ◌, pos_part}
use slotpilot.Prelude.Words.{IsInstant, u64_max}
use slotpilot.Prelude.Results.{ok}
use slotpilot.Audio.Batch.{Ft8ReceiveWindow}
use slotpilot.Audio.Slot.{ReceiveTimelineEvent}
use slotpilot.ReceiveClock.{
  ReceiveWindowAlignment, ReceiveClockFault, ReceiveClockState, healthy, unhealthy, window_ready,
  window_rejected,
}
use slotpilot.ReceiveClock.Monitor.{
  ReceiveClockMonitor, align_window, gate, gate_window, refresh, snapshot, snapshot_unchecked,
}

-- The window may be decoded: the clock is healthy and its mapping fresh, the alignment names the
-- slot of the window and its start on the monotonic timeline, and the capture mapping lies within
-- the tolerance of that start.
pub record MayDecode (m : ReceiveClockMonitor) (w : Ft8ReceiveWindow) (at : ℕ)
    (a : ReceiveWindowAlignment) : Type 0 where
  pub clock : m.state ≡ healthy
  pub fresh : at - m.last_accepted.monotonic ≤ m.config.freshness_millis
  pub slot : a.slot ≡ w.slot_start_utc_millis
  pub age : a.mapping_age_millis ≡ at - m.last_accepted.monotonic
  pub start :
      a.slot_start_monotonic + pos_part m.last_accepted.utc
      ≡ m.last_accepted.monotonic + pos_part w.slot_start_utc_millis
  pub not_late :
      w.mapping.monotonic_millis ≤ a.slot_start_monotonic + m.config.jump_tolerance_millis
  pub not_early :
      a.slot_start_monotonic ≤ w.mapping.monotonic_millis + m.config.jump_tolerance_millis

abbrev pub fault_of : ReceiveClockState → Option ReceiveClockFault
fault_of healthy = none
fault_of (unhealthy f p r) = some f

module _ (m : ReceiveClockMonitor) (w : Ft8ReceiveWindow) (at : ℕ) where
  align_window-MayDecode :
      (a : ReceiveWindowAlignment)
      → IsInstant m.last_accepted.utc
      → IsInstant w.slot_start_utc_millis
      → m.state ≡ healthy
      → at - m.last_accepted.monotonic ≤ m.config.freshness_millis
      → align_window m w w.slot_start_utc_millis (at - m.last_accepted.monotonic) ≡ ok a
      → MayDecode m w at a
  unfolding align_window ◌+ℤ◌ ◌-ℤ◌
  align_window-MayDecode a i j s f h = ground arith

  MayDecode-align_window :
      (a : ReceiveWindowAlignment)
      → IsInstant m.last_accepted.utc
      → IsInstant w.slot_start_utc_millis
      → m.config.jump_tolerance_millis ≤ 5000
      → w.mapping.monotonic_millis ≤ u64_max
      → a.slot_start_monotonic ≤ u64_max
      → MayDecode m w at a
      → align_window m w w.slot_start_utc_millis (at - m.last_accepted.monotonic) ≡ ok a
  unfolding align_window ◌+ℤ◌ ◌-ℤ◌
  MayDecode-align_window a i j t x y d = ground arith

  gate-align :
      (w' : Ft8ReceiveWindow) (a : ReceiveWindowAlignment) (m' : ReceiveClockMonitor)
      → gate m (ReceiveTimelineEvent.window w) at ≡ (window_ready w' a, m')
      → (m.state ≡ healthy)
        × (at - m.last_accepted.monotonic ≤ m.config.freshness_millis)
        × (align_window m w w.slot_start_utc_millis (at - m.last_accepted.monotonic) ≡ ok a)
        × (w' ≡ w)
        × (m' ≡ m)
  unfolding gate gate_window snapshot snapshot_unchecked refresh
  gate-align w' a m' h = ground arith

  gate-own :
      (e : ReceiveTimelineEvent) (a : ReceiveWindowAlignment) (m' : ReceiveClockMonitor)
      → gate m e at ≡ (window_ready w a, m')
      → e ≡ ReceiveTimelineEvent.window w
  unfolding gate gate_window snapshot snapshot_unchecked refresh
  gate-own (ReceiveTimelineEvent.incomplete i) a m' h = cc
  gate-own (ReceiveTimelineEvent.window v) a m' h = ground arith

  align-gate :
      (a : ReceiveWindowAlignment)
      → m.state ≡ healthy
      → at - m.last_accepted.monotonic ≤ m.config.freshness_millis
      → align_window m w w.slot_start_utc_millis (at - m.last_accepted.monotonic) ≡ ok a
      → gate m (ReceiveTimelineEvent.window w) at ≡ (window_ready w a, m)
  unfolding gate gate_window snapshot snapshot_unchecked refresh
  align-gate a s f h = ground arith

  -- The gate answers an event with a ready window exactly when the event is that window and it may
  -- be decoded: the clock is healthy, the mapping fresh, and the capture mapping within the
  -- tolerance of the slot start. The gate then leaves the monitor as it was.
  pub gate_ready_iff :
      (e : ReceiveTimelineEvent) (a : ReceiveWindowAlignment) (m' : ReceiveClockMonitor)
      → IsInstant m.last_accepted.utc
      → IsInstant w.slot_start_utc_millis
      → m.config.jump_tolerance_millis ≤ 5000
      → w.mapping.monotonic_millis ≤ u64_max
      → a.slot_start_monotonic ≤ u64_max
      → (gate m e at ≡ (window_ready w a, m'))
        ↔ ((e ≡ ReceiveTimelineEvent.window w) × (m' ≡ m) × MayDecode m w at a)
  gate_ready_iff e a m' i j t x y = (
    (λ h.
        let own = gate-own e a m' h in
        let g = gate-align w a m' (subst (λ d. gate m d at ≡ (window_ready w a, m')) own h) in
        (own, g.4, align_window-MayDecode a i j g.0 g.1 g.2)),
    (λ d.
        rw (d.0, d.1) (align-gate a d.2.clock d.2.fresh (MayDecode-align_window a i j t x y d.2))),
  )

  -- A window that is rejected is rejected under its own slot, and leaves the clock unhealthy with
  -- the fault that the rejection names.
  pub gate_rejected :
      (slot : ℤ) (f : ReceiveClockFault) (m' : ReceiveClockMonitor)
      → gate m (ReceiveTimelineEvent.window w) at ≡ (window_rejected slot f, m')
      → (slot ≡ w.slot_start_utc_millis) × (fault_of m'.state ≡ some f)
  unfolding gate gate_window snapshot snapshot_unchecked refresh
  gate_rejected slot f m' h = ground arith
