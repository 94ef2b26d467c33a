-- ===== src/ReceiveClock/Report.antt =====
-- The transition that `observe` reports is the change of state that it makes.
use slotpilot.Prelude.{ℕ, ◌-◌, ◌≤◌, ◌≡◌, arith}
use slotpilot.Time.{ClockSample}
use slotpilot.ReceiveClock.{
  GenerationClockSample, ReceiveClockState, ReceiveClockSnapshot, ReceiveClockTransition, healthy,
  stayed_healthy, became_unhealthy, recovering, recovered, stayed_unhealthy,
}
use slotpilot.ReceiveClock.Monitor.{
  ReceiveClockMonitor, is_healthy, latch, observe, observe_in, observe_healthy, observe_unhealthy,
  recover, refresh, snapshot, snapshot_unchecked,
}
use slotpilot.ReceiveClock.Invariant.{Inv}
use slotpilot.Prelude.{false}

-- What each transition says of the state before it and the state after it.
abbrev pub Reports : ReceiveClockState → ReceiveClockTransition → ReceiveClockState → Type 0
Reports before (stayed_healthy _) after = (before ≡ healthy) × (after ≡ healthy)
Reports before (became_unhealthy _) after = (before ≡ healthy) × (is_healthy after ≡ false)
Reports before (recovering _) after = (is_healthy before ≡ false) × (is_healthy after ≡ false)
Reports before (recovered _) after = (is_healthy before ≡ false) × (after ≡ healthy)
Reports before (stayed_unhealthy _) after = (is_healthy before ≡ false) × (is_healthy after ≡ false)

abbrev pub snapshot_of : ReceiveClockTransition → ReceiveClockSnapshot
snapshot_of (stayed_healthy s) = s
snapshot_of (became_unhealthy s) = s
snapshot_of (recovering s) = s
snapshot_of (recovered s) = s
snapshot_of (stayed_unhealthy s) = s

observe_in-Reports :
    (m : ReceiveClockMonitor) (s : ClockSample) (at : ℕ)
    → Inv m
    → at - s.monotonic ≤ m.config.max_sampling_delay_millis
    → Reports m.state (observe_in m.state m s at).0 (observe_in m.state m s at).1.state
unfolding observe_in observe_healthy observe_unhealthy recover snapshot latch refresh
observe_in-Reports m s at v d = ground arith

observe_in-snapshot :
    (m : ReceiveClockMonitor) (s : ClockSample) (at : ℕ)
    → snapshot_of (observe_in m.state m s at).0
      ≡ snapshot_unchecked (observe_in m.state m s at).1 at
unfolding observe_in observe_healthy observe_unhealthy recover snapshot latch
observe_in-snapshot m s at = ground arith

-- Each transition of `observe` tells the truth: its kind is the change between healthy and
-- unhealthy that the call made, so that a sample which is accepted or completes a recovery never
-- leaves the mapping stale; and its snapshot is that of the monitor after the call.
pub observe-Reports :
    (m : ReceiveClockMonitor) (o : GenerationClockSample) (at : ℕ)
    → Inv m
    → Reports m.state (observe m o at).0 (observe m o at).1.state
      × (snapshot_of (observe m o at).0 ≡ snapshot_unchecked (observe m o at).1 at)
unfolding observe latch
observe-Reports m o at v =
    ground (arith, observe_in-Reports m o.sample at v, observe_in-snapshot m o.sample at)
