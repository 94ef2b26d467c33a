-- ===== src/ReceiveClock/Generation.antt =====
-- A sample of another process generation: how long its latch holds, and how it is lost.
use slotpilot.Prelude.{ℕ, ◌-◌, ◌≤◌, ◌<◌, ◌≡◌, ◌≢◌, ◌⊎◌, refl, arith, List, [], ◌∷◌, none, length}
use slotpilot.Prelude.Results.{ok, err}
use slotpilot.Audio.Slot.{ReceiveTimelineEvent}
use slotpilot.ReceiveClock.{
  GenerationClockSample, ReceiveClockState, healthy, unhealthy, process_generation_changed,
  sampling_delayed,
}
use slotpilot.ReceiveClock.Monitor.{
  ReceiveClockMonitor, gate, gate_window, latch, observe, observe_in, observe_unhealthy, poll,
  refresh, snapshot, snapshot_unchecked,
}
use slotpilot.ReceiveClock.Invariant.{
  Inv, Call, observes, gates, snapshots, polls, step, run, observe-Inv,
}
use slotpilot.ReceiveClock.Recovery.{Chain, observe_each, recovery_completes}

abbrev pub IsForeign : ReceiveClockState → Type 0
IsForeign (unhealthy process_generation_changed p r) = Unit
IsForeign _ = ⊥

-- The samples that are handed to the monitor are of another generation, or observed in time.
abbrev pub InTime : ReceiveClockMonitor → Call → Type 0
InTime m (observes o at) =
    (o.generation ≢ m.generation)
    ⊎ ((o.sample.monotonic ≤ at) × (at - o.sample.monotonic ≤ m.config.max_sampling_delay_millis))
InTime m _ = Unit

abbrev pub AllInTime : ReceiveClockMonitor → List Call → Type 0
AllInTime m [] = Unit
AllInTime m (c ∷ cs) = InTime m c × AllInTime (step m c) cs

observe-IsForeign :
    (m : ReceiveClockMonitor) (o : GenerationClockSample) (at : ℕ)
    → InTime m (observes o at)
    → IsForeign m.state
    → IsForeign (observe m o at).1.state
unfolding observe observe_in observe_unhealthy latch snapshot refresh
observe-IsForeign m o at t h = ground arith

step-IsForeign :
    (m : ReceiveClockMonitor) (c : Call)
    → InTime m c
    → IsForeign m.state
    → IsForeign (step m c).state
unfolding step poll gate gate_window snapshot snapshot_unchecked refresh
step-IsForeign m (observes o at) t h = observe-IsForeign m o at t h
step-IsForeign m (gates (ReceiveTimelineEvent.incomplete i) at) t h = h
step-IsForeign m (gates (ReceiveTimelineEvent.window w) at) t h = ground arith
step-IsForeign m (snapshots at) t h = ground arith
step-IsForeign m (polls (err e)) t h = h
step-IsForeign m (polls (ok o)) t h = ground (
  arith,
  λ (i : InTime m (observes o o.sample.monotonic)). observe-IsForeign m o o.sample.monotonic i h,
)

-- The latch of a change of generation holds for ever while each sample that is handed to the
-- monitor directly is of another generation or observed in time; polls of the driver, gated events
-- and snapshots may come in any number.
pub run-IsForeign :
    (m : ReceiveClockMonitor) (cs : List Call)
    → AllInTime m cs
    → IsForeign m.state
    → IsForeign (run m cs).state
unfolding run
run-IsForeign m [] t h = h
run-IsForeign m (c ∷ cs) t h = run-IsForeign (step m c) cs t.1 (step-IsForeign m c t.0 h)

delayed :
    (m : ReceiveClockMonitor) (o : GenerationClockSample) (at : ℕ)
    → o.generation ≡ m.generation
    → o.sample.monotonic ≤ at
    → m.config.max_sampling_delay_millis < at - o.sample.monotonic
    → (observe m o at).1 ≡ record m {
      state = unhealthy (sampling_delayed (at - o.sample.monotonic)) 0 m.config.recovery_samples;
      recovery_last = none;
    }
unfolding observe latch
delayed m o at g p d = ground arith

-- The latch of a change of generation is lost by one sample that is observed too late: its fault
-- replaces the change of generation, and as many timely consistent samples as any recovery takes
-- make the same monitor healthy.
pub generation_latch_lost :
    (m : ReceiveClockMonitor) (o : GenerationClockSample) (at : ℕ)
    (os : List (GenerationClockSample × ℕ))
    → Inv m
    → IsForeign m.state
    → o.generation ≡ m.generation
    → o.sample.monotonic ≤ at
    → m.config.max_sampling_delay_millis < at - o.sample.monotonic
    → Chain m.generation m.config none os
    → length os ≡ m.config.recovery_samples
    → (observe_each (observe m o at).1 os).state ≡ healthy
generation_latch_lost m o at os v h g p d c n =
    let e = delayed m o at g p d in
    rw e
      (recovery_completes
        (record m {
          state =
              unhealthy (sampling_delayed (at - o.sample.monotonic)) 0 m.config.recovery_samples;
          recovery_last = none;
        })
        (sampling_delayed (at - o.sample.monotonic)) 0 m.config.recovery_samples os
        (rw e at (observe-Inv m o at v)) refl refl c (omega arith)).0
