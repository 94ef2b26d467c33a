-- ===== src/ReceiveClock/Recovery.antt =====
-- How a latched clock recovers: not before the required number of samples, and with as many
-- consistent ones.
use slotpilot.Prelude.{
  ℕ, suc, ◌+◌, ◌-◌, ◌≤◌, ◌<◌, ◌≡◌, refl, arith, false, List, [], ◌∷◌, Option, none, some, length,
}
use slotpilot.Prelude.Results.{ok, err}
use slotpilot.Time.{ClockSample}
use slotpilot.Audio.Batch.{Ft8ReceiveWindow}
use slotpilot.Audio.Slot.{ReceiveTimelineEvent}
use slotpilot.ReceiveClock.{
  GenerationClockSample, ReceiveClockConfig, ReceiveClockFault, ReceiveClockState, healthy,
  unhealthy, process_generation_changed, window_rejected,
}
use slotpilot.ReceiveClock.Monitor.{
  ReceiveClockMonitor, gate, gate_window, is_generation_changed, latch, observe, observe_healthy,
  observe_in, observe_unhealthy, poll, recover, recovery_fault, refresh, snapshot,
  snapshot_unchecked,
}
use slotpilot.ReceiveClock.Invariant.{
  Inv, Call, observes, gates, snapshots, polls, step, run, step-Inv, observe-Inv,
}

-- The state is unhealthy, and `k` more samples do not make it healthy.
abbrev pub Lacks : ReceiveClockState → ℕ → Type 0
Lacks healthy k = ⊥
Lacks (unhealthy f p r) k = p + k < r

-- How many samples a call may take.
abbrev pub sampled : Call → ℕ
sampled (observes o at) = 1
sampled (gates e at) = 0
sampled (snapshots at) = 0
sampled (polls r) = 1

abbrev pub samples : List Call → ℕ
samples [] = 0
samples (c ∷ cs) = sampled c + samples cs

observe_in-Lacks :
    (m : ReceiveClockMonitor) (s : ClockSample) (at k : ℕ)
    → Inv m
    → Lacks m.state (suc k)
    → Lacks (observe_in m.state m s at).1.state k
unfolding observe_in observe_healthy observe_unhealthy recover snapshot latch refresh
observe_in-Lacks m s at k v h = ground arith

observe-Lacks :
    (m : ReceiveClockMonitor) (o : GenerationClockSample) (at k : ℕ)
    → Inv m
    → Lacks m.state (suc k)
    → Lacks (observe m o at).1.state k
unfolding observe latch
observe-Lacks m o at k v h = ground (arith, observe_in-Lacks m o.sample at k v h)

step-Lacks :
    (m : ReceiveClockMonitor) (c : Call) (k : ℕ)
    → Inv m
    → Lacks m.state (sampled c + k)
    → Lacks (step m c).state k
unfolding step poll gate gate_window snapshot refresh snapshot_unchecked
step-Lacks m (observes o at) k v h = observe-Lacks m o at k v (ground arith)
step-Lacks m (gates (ReceiveTimelineEvent.incomplete i) at) k v h = ground arith
step-Lacks m (gates (ReceiveTimelineEvent.window w) at) k v h = ground arith
step-Lacks m (snapshots at) k v h = ground arith
step-Lacks m (polls (err e)) k v h = ground arith
step-Lacks m (polls (ok o)) k v h = ground (arith, observe-Lacks m o o.sample.monotonic k v)

run-Lacks :
    (m : ReceiveClockMonitor) (cs : List Call) (k : ℕ)
    → Inv m
    → Lacks m.state (samples cs + k)
    → Lacks (run m cs).state k
unfolding run
run-Lacks m [] k v h = ground arith
run-Lacks m (c ∷ cs) k v h =
    run-Lacks (step m c) cs k (step-Inv m c v) (step-Lacks m c (samples cs + k) v (ground arith))

abbrev latched_fault : ReceiveClockState → ReceiveClockFault
latched_fault healthy = process_generation_changed
latched_fault (unhealthy f p r) = f

rejects :
    (m : ReceiveClockMonitor) (w : Ft8ReceiveWindow) (at : ℕ)
    → Lacks m.state 0
    → (f : ReceiveClockFault) × ((gate m (ReceiveTimelineEvent.window w) at).0
        ≡ window_rejected w.slot_start_utc_millis f)
unfolding gate gate_window snapshot refresh snapshot_unchecked
rejects m w at h = (latched_fault m.state, ground arith)

-- A clock that has made no recovery progress lets no window through before it has taken the
-- required number of samples, whatever those samples and the calls between them are.
pub recovery_takes_samples :
    (m : ReceiveClockMonitor) (f : ReceiveClockFault) (r : ℕ) (cs : List Call)
    (w : Ft8ReceiveWindow) (at : ℕ)
    → Inv m
    → m.state ≡ unhealthy f 0 r
    → samples cs < m.config.recovery_samples
    → (g : ReceiveClockFault) × ((gate (run m cs) (ReceiveTimelineEvent.window w) at).0
        ≡ window_rejected w.slot_start_utc_millis g)
recovery_takes_samples m f r cs w at v e h =
    rejects (run m cs) w at (run-Lacks m cs 0 v (ground arith))

-- A sample of the monitor's own process that is observed in time.
pub record IsTimely (generation : ℕ) (c : ReceiveClockConfig) (o : GenerationClockSample) (at : ℕ)
    : Type 0 where
  pub own : o.generation ≡ generation
  pub past : o.sample.monotonic ≤ at
  pub prompt : at - o.sample.monotonic ≤ c.max_sampling_delay_millis

-- Timely samples, each consistent with the one before it.
abbrev pub Chain :
    ℕ → ReceiveClockConfig → Option ClockSample → List (GenerationClockSample × ℕ) → Type 0
Chain generation c previous [] = Unit
Chain generation c previous ((o, at) ∷ os) =
    IsTimely generation c o at
    × (recovery_fault c previous o.sample ≡ none)
    × Chain generation c (some o.sample) os

pub observe_each : ReceiveClockMonitor → List (GenerationClockSample × ℕ) → ReceiveClockMonitor
observe_each m [] = m
observe_each m ((o, at) ∷ os) = observe_each (observe m o at).1 os

abbrev pub final_sample : ClockSample → List (GenerationClockSample × ℕ) → ClockSample
final_sample s [] = s
final_sample s ((o, at) ∷ os) = final_sample o.sample os

module _ (m : ReceiveClockMonitor) (o : GenerationClockSample) (at : ℕ) (f : ReceiveClockFault)
    (p r : ℕ) (v : Inv m) (e : m.state ≡ unhealthy f p r) (own : is_generation_changed f ≡ false)
    (timely : IsTimely m.generation m.config o at)
    (agrees : recovery_fault m.config m.recovery_last o.sample ≡ none) where
  observe-progress :
      suc (suc p) ≤ r
      → (observe m o at).1
        ≡ record m { recovery_last = some o.sample; state = unhealthy f (suc p) r }
  unfolding observe observe_in observe_unhealthy recover snapshot refresh
  observe-progress h = ground arith

  observe_complete :
      suc p ≡ r
      → (observe m o at).1
        ≡ record m { last_accepted = o.sample; recovery_last = none; state = healthy }
  unfolding observe observe_in observe_unhealthy recover snapshot refresh
  observe_complete h = ground arith

-- A clock latched by any fault but a change of generation recovers after as many timely samples as
-- are still required, each consistent with the one before it; the last of them is the mapping that
-- it then accepts.
pub recovery_completes :
    (m : ReceiveClockMonitor) (f : ReceiveClockFault) (p r : ℕ)
    (os : List (GenerationClockSample × ℕ))
    → Inv m
    → m.state ≡ unhealthy f p r
    → is_generation_changed f ≡ false
    → Chain m.generation m.config m.recovery_last os
    → p + length os ≡ r
    → ((observe_each m os).state ≡ healthy)
      × ((observe_each m os).last_accepted ≡ final_sample m.last_accepted os)
unfolding observe_each
recovery_completes m f p r [] v e own c n = absurd (ground arith)
recovery_completes m f p r ((o, at) ∷ []) v e own c n =
    let done = observe_complete m o at f p r v e own c.0 c.1 (omega arith) in ground arith
recovery_completes m f p r ((o, at) ∷ (o', at') ∷ os) v e own c n =
    let more = observe-progress m o at f p r v e own c.0 c.1 (omega arith) in
    let next : ReceiveClockMonitor = record m {
      recovery_last = some o.sample;
      state = unhealthy f (suc p) r;
    } in
    rw (more, observe_each)
      (recovery_completes next f (suc p) r ((o', at') ∷ os) (rw more at (observe-Inv m o at v)) refl
        own c.2 (omega arith))
