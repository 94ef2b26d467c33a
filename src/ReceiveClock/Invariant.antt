-- ===== src/ReceiveClock/Invariant.antt =====
-- What holds of a receive-clock monitor between two calls.
use slotpilot.Prelude.{ℕ, ◌≤◌, ◌<◌, ◌≡◌, arith, List, [], ◌∷◌, Option, none, some}
use slotpilot.Prelude.Results.{Result, ok, err, >>=-eq-ok}
use slotpilot.Time.{ClockSample}
use slotpilot.Audio.Slot.{ReceiveTimelineEvent}
use slotpilot.ReceiveClock.{
  GenerationClockSample, ReceiveClockError, ReceiveClockConfig, new_config, ReceiveClockState,
  healthy, unhealthy,
}
use slotpilot.ReceiveClock.Monitor.{
  ReceiveClockMonitor, latch, new_monitor, observe, observe_in, observe_healthy, observe_unhealthy,
  recover, gate, gate_window, refresh, snapshot, poll,
}

-- A policy that `ReceiveClockConfig::new` accepts.
pub record IsBounded (c : ReceiveClockConfig) : Type 0 where
  pub cadence : 10 ≤ c.sample_cadence_millis
  pub cadence_high : c.sample_cadence_millis ≤ 10000
  pub fresh : c.sample_cadence_millis ≤ c.freshness_millis
  pub fresh_high : c.freshness_millis ≤ 60000
  pub gap_low : c.sample_cadence_millis ≤ c.max_sample_gap_millis
  pub gap : c.max_sample_gap_millis ≤ 300000
  pub tolerance : c.jump_tolerance_millis ≤ 5000
  pub delay : c.max_sampling_delay_millis ≤ c.sample_cadence_millis
  pub recovery_low : 2 ≤ c.recovery_samples
  pub recovery_high : c.recovery_samples ≤ 10

-- The recovery sample is there exactly while a recovery is in progress, which is incomplete.
abbrev pub Coherent : ReceiveClockState → Option ClockSample → ℕ → Type 0
Coherent healthy last n = last ≡ none
Coherent (unhealthy f p r) none n = (p ≡ 0) × (r ≡ n) × (p < r)
Coherent (unhealthy f p r) (some s) n = (0 < p) × (r ≡ n) × (p < r)

pub record Inv (m : ReceiveClockMonitor) : Type 0 where
  pub bounded : IsBounded m.config
  pub coherent : Coherent m.state m.recovery_last m.config.recovery_samples

new_config-IsBounded : (c d : ReceiveClockConfig) → new_config c ≡ ok d → IsBounded c × (d ≡ c)
unfolding new_config
new_config-IsBounded c d h = ground arith

-- A monitor that is constructed satisfies the invariant, and so its policy is bounded.
pub new_monitor-Inv :
    (o : GenerationClockSample) (c : ReceiveClockConfig) (m : ReceiveClockMonitor)
    → new_monitor o c ≡ ok m
    → Inv m
unfolding new_monitor
new_monitor-Inv o c m h =
    let r = >>=-eq-ok (new_config c) _ h in
    let b = (new_config-IsBounded c r.0 r.1).0 in ground arith

refresh-Inv : (m : ReceiveClockMonitor) (at : ℕ) → Inv m → Inv (refresh m at)
unfolding refresh
refresh-Inv m at v = ground arith

observe_in-Inv :
    (m : ReceiveClockMonitor) (s : ClockSample) (at : ℕ) → Inv m → Inv (observe_in m.state m s at).1
unfolding observe_in observe_healthy observe_unhealthy recover snapshot latch refresh
observe_in-Inv m s at v = ground arith

pub observe-Inv :
    (m : ReceiveClockMonitor) (o : GenerationClockSample) (at : ℕ) → Inv m → Inv (observe m o at).1
unfolding observe latch
observe-Inv m o at v = ground (arith, observe_in-Inv m o.sample at v)

gate-Inv :
    (m : ReceiveClockMonitor) (e : ReceiveTimelineEvent) (at : ℕ) → Inv m → Inv (gate m e at).1
unfolding gate gate_window snapshot refresh
gate-Inv m (ReceiveTimelineEvent.incomplete i) at v = v
gate-Inv m (ReceiveTimelineEvent.window w) at v = ground arith

poll-Inv :
    (r : Result ReceiveClockError GenerationClockSample) (m : ReceiveClockMonitor)
    → Inv m
    → Inv (poll r m).1
unfolding poll
poll-Inv (err e) m v = v
poll-Inv (ok o) m v = ground (arith, observe-Inv m o o.sample.monotonic v)

-- A call on a monitor, with what it reads from outside.
pub data Call : Type 0 where
  observes : GenerationClockSample → ℕ → Call
  gates : ReceiveTimelineEvent → ℕ → Call
  snapshots : ℕ → Call
  polls : Result ReceiveClockError GenerationClockSample → Call

unfoldable pub step : ReceiveClockMonitor → Call → ReceiveClockMonitor
step m (observes o at) = (observe m o at).1
step m (gates e at) = (gate m e at).1
step m (snapshots at) = (snapshot m at).1
step m (polls r) = (poll r m).1

unfoldable pub run : ReceiveClockMonitor → List Call → ReceiveClockMonitor
run m [] = m
run m (c ∷ cs) = run (step m c) cs

pub step-Inv : (m : ReceiveClockMonitor) (c : Call) → Inv m → Inv (step m c)
unfolding step snapshot
step-Inv m (observes o at) v = observe-Inv m o at v
step-Inv m (gates e at) v = gate-Inv m e at v
step-Inv m (snapshots at) v = refresh-Inv m at v
step-Inv m (polls r) v = poll-Inv r m v

pub run-Inv : (m : ReceiveClockMonitor) (cs : List Call) → Inv m → Inv (run m cs)
unfolding run
run-Inv m [] v = v
run-Inv m (c ∷ cs) v = run-Inv (step m c) cs (step-Inv m c v)

-- After any history of calls on a monitor that was constructed, the policy is bounded, a healthy
-- monitor holds no recovery sample, and an unhealthy one has made less than the required progress
-- and holds a recovery sample exactly when it has made some.
pub run-new_monitor-Inv :
    (o : GenerationClockSample) (c : ReceiveClockConfig) (m : ReceiveClockMonitor) (cs : List Call)
    → new_monitor o c ≡ ok m
    → Inv (run m cs)
run-new_monitor-Inv o c m cs h = run-Inv m cs (new_monitor-Inv o c m h)
