-- ===== src/ReceiveClock/Examples.antt =====
-- The receive clock of the tests of receive_clock.rs, and each theorem at a run of it.
use slotpilot.Prelude.{ℕ, some, ◌≡◌, ◌↔◌, refl, arith, List, [], ◌∷◌, none, replicate}
use slotpilot.Prelude.Int.{ℤ, pos}
use slotpilot.Prelude.Results.{ok}
use slotpilot.Audio.Batch.{Ft8ReceiveWindow}
use slotpilot.Audio.Slot.{ReceiveTimelineEvent}
use slotpilot.ReceiveClock.{
  GenerationClockSample, ReceiveClockFault, ReceiveWindowAlignment, default_config, healthy,
  unhealthy, process_generation_changed, window_misaligned, window_ready, window_rejected,
  new_config, utc_jump,
}
use slotpilot.ReceiveClock.Monitor.{
  ReceiveClockMonitor, compare, new_monitor, observe, latch, snapshot, refresh, snapshot_unchecked,
  gate, gate_window, align_window,
}
use slotpilot.ReceiveClock.Compare.{Consistent, compare_iff}
use slotpilot.ReceiveClock.Gate.{MayDecode, fault_of, gate_ready_iff, gate_rejected}
use slotpilot.ReceiveClock.Invariant.{
  Inv, Call, observes, snapshots, run, step, run-new_monitor-Inv,
}
use slotpilot.ReceiveClock.Report.{Reports, snapshot_of, observe-Reports}
use slotpilot.ReceiveClock.Recovery.{
  Chain, observe_each, recovery_takes_samples, recovery_completes,
}
use slotpilot.ReceiveClock.Generation.{AllInTime, IsForeign, run-IsForeign, generation_latch_lost}

abbrev at_time : ℕ → ℤ → ℕ → GenerationClockSample
at_time generation utc monotonic = record {
  generation = generation;
  sample = record { utc = utc; monotonic = monotonic };
}

abbrev monitor : ReceiveClockMonitor
monitor = record {
  generation = 1;
  config = default_config;
  state = healthy;
  last_accepted = record { utc = pos 30000; monotonic = 1000 };
  recovery_last = none;
}

monitor_starts : new_monitor (at_time 1 (pos 30000) 1000) default_config ≡ ok monitor
unfolding new_monitor new_config
monitor_starts = refl

silence : List ℤ
silence = replicate 180000 (pos 0)

abbrev window_at : ℤ → ℕ → Ft8ReceiveWindow
window_at slot monotonic = record {
  process_generation = 1;
  stream_generation = 1;
  slot_start_utc_millis = slot;
  mapping = record { position = 0; utc_unix_millis = slot; monotonic_millis = monotonic };
  samples = silence;
}

abbrev alignment : ReceiveWindowAlignment
alignment = record { slot = pos 30000; slot_start_monotonic = 1000; mapping_age_millis = 100 }

compare_iff_example :
    (compare default_config monitor.last_accepted (record { utc = pos 31000; monotonic = 2000 })
      ≡ none)
    ↔ Consistent default_config monitor.last_accepted (record { utc = pos 31000; monotonic = 2000 })
compare_iff_example =
    compare_iff default_config monitor.last_accepted (record { utc = pos 31000; monotonic = 2000 })
      (omega arith) (omega arith) (omega arith) (omega arith)

gate_ready_iff_example :
    (gate monitor (ReceiveTimelineEvent.window (window_at (pos 30000) 1000)) 1100
      ≡ (window_ready (window_at (pos 30000) 1000) alignment, monitor))
    ↔ ((ReceiveTimelineEvent.window (window_at (pos 30000) 1000)
          ≡ ReceiveTimelineEvent.window (window_at (pos 30000) 1000))
        × (monitor ≡ monitor)
        × MayDecode monitor (window_at (pos 30000) 1000) 1100 alignment)
gate_ready_iff_example =
    gate_ready_iff monitor (window_at (pos 30000) 1000) 1100
      (ReceiveTimelineEvent.window (window_at (pos 30000) 1000)) alignment monitor (omega arith)
      (omega arith) (omega arith) (omega arith) (omega arith)

abbrev misaligned : ReceiveClockMonitor
misaligned = record monitor { state = unhealthy (window_misaligned (pos 101)) 0 3 }

gate-misaligned :
    gate monitor (ReceiveTimelineEvent.window (window_at (pos 30000) 1101)) 1100
    ≡ (window_rejected (pos 30000) (window_misaligned (pos 101)), misaligned)
unfolding gate gate_window align_window snapshot refresh snapshot_unchecked
gate-misaligned = refl

gate_rejected_example :
    (◌≡◌ {A = ℤ} (pos 30000) (pos 30000))
    × (fault_of misaligned.state ≡ some (window_misaligned (pos 101)))
gate_rejected_example =
    gate_rejected monitor (window_at (pos 30000) 1101) 1100 (pos 30000)
      (window_misaligned (pos 101)) misaligned gate-misaligned

-- A jump of UTC, then two samples of the recovery.
abbrev interrupted : List Call
interrupted =
    observes (at_time 1 (pos 33000) 2000) 2000
    ∷ observes (at_time 1 (pos 40000) 10000) 10000
    ∷ snapshots 10001
    ∷ observes (at_time 1 (pos 41000) 11000) 11000
    ∷ []

run-new_monitor-Inv_example : Inv (run monitor interrupted)
run-new_monitor-Inv_example =
    run-new_monitor-Inv (at_time 1 (pos 30000) 1000) default_config monitor interrupted
      monitor_starts

monitor-Inv : Inv monitor
monitor-Inv = record { bounded = omega arith; coherent = refl }

observe-Reports_example :
    Reports monitor.state
      (observe monitor (at_time 1 (pos 33000) 2000) 2000).0
      (observe monitor (at_time 1 (pos 33000) 2000) 2000).1.state
    × (snapshot_of (observe monitor (at_time 1 (pos 33000) 2000) 2000).0
        ≡ snapshot_unchecked (observe monitor (at_time 1 (pos 33000) 2000) 2000).1 2000)
observe-Reports_example = observe-Reports monitor (at_time 1 (pos 33000) 2000) 2000 monitor-Inv

abbrev jumped : ReceiveClockMonitor
jumped = record monitor { state = unhealthy (utc_jump (pos 2000)) 0 3 }

jumped-Inv : Inv jumped
jumped-Inv = omega arith

recovery_takes_samples_example :
    (g : ReceiveClockFault) × ((gate
        (run jumped (observes (at_time 1 (pos 40000) 10000) 10000 ∷ []))
        (ReceiveTimelineEvent.window (window_at (pos 45000) 15000))
        10000).0
      ≡ window_rejected (pos 45000) g)
recovery_takes_samples_example =
    recovery_takes_samples jumped (utc_jump (pos 2000)) 3
      (observes (at_time 1 (pos 40000) 10000) 10000 ∷ []) (window_at (pos 45000) 15000) 10000
      jumped-Inv refl (omega arith)

abbrev steady : List (GenerationClockSample × ℕ)
steady =
    (at_time 1 (pos 40000) 10000, 10000)
    ∷ (at_time 1 (pos 41000) 11000, 11100)
    ∷ (at_time 1 (pos 42000) 12000, 12000)
    ∷ []

steady-Chain : Chain 1 default_config none steady
unfolding compare
steady-Chain = ground arith

recovery_completes_example :
    ((observe_each jumped steady).state ≡ healthy)
    × ((observe_each jumped steady).last_accepted ≡ record { utc = pos 42000; monotonic = 12000 })
recovery_completes_example =
    recovery_completes jumped (utc_jump (pos 2000)) 0 3 steady jumped-Inv refl refl steady-Chain
      refl

abbrev foreign : ReceiveClockMonitor
foreign = record monitor { state = unhealthy process_generation_changed 0 3 }

abbrev mixed : List Call
mixed = observes (at_time 2 (pos 31000) 2000) 2000 ∷ observes (at_time 1 (pos 31000) 2000) 2100 ∷ []

mixed-AllInTime : AllInTime foreign mixed
unfolding step observe latch
mixed-AllInTime = ground arith

run-IsForeign_example : IsForeign (run foreign mixed).state
run-IsForeign_example = run-IsForeign foreign mixed mixed-AllInTime tt

generation_latch_lost_example :
    (observe_each (observe foreign (at_time 1 (pos 31000) 2000) 2251).1 steady).state ≡ healthy
generation_latch_lost_example =
    generation_latch_lost foreign (at_time 1 (pos 31000) 2000) 2251 steady
      (record { bounded = omega arith; coherent = ground arith }) tt refl (omega arith)
      (omega arith) steady-Chain refl
