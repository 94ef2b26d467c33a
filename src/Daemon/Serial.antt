-- ===== src/Daemon/Serial.antt =====
-- apps/daemon/src/receive.rs: the calls on a coordinator, and the lifecycle that they follow.
use slotpilot.Prelude.{ℕ, suc, ◌≡◌, Option, none, List, [], ◌∷◌, ◌⊎◌}
use slotpilot.Prelude.Int.{ℤ}
use slotpilot.Audio.Batch.{CaptureBatch}
use slotpilot.Audio.Timeline.{Ft8ReceiveTimeline}
use slotpilot.Audio.Spectrum.Config.{SpectrumConfig}
use slotpilot.ReceiveClock.{GenerationClockSample}
use slotpilot.ReceiveClock.Monitor.{ReceiveClockMonitor}
use slotpilot.Daemon.Types.{
  LiveReceiveCoordinator, Ports, ReceiveInhibition, ReceiveLifecycleState, ReceiveStopReason,
  inhibited, receiving, starting, stopped,
}
use slotpilot.Daemon.Lifecycle.{enable_spectrum, observe_clock, start, stop}
use slotpilot.Daemon.Poll.{poll}
use slotpilot.Daemon.Live.{Goes}

-- A call of a method that changes the coordinator.
pub data Call : Type 0 where
  to_enable : SpectrumConfig → ℕ → Call
  to_start : GenerationClockSample → Call
  to_observe : GenerationClockSample → ℕ → Call
  to_poll : ℕ → ℤ → Call
  to_stop : ReceiveStopReason → Call

-- The fields of a coordinator without evidence in the state s.
pub record IsEmptyAt (p : ℕ) (s : ReceiveLifecycleState) (process : ℕ)
    (state : ReceiveLifecycleState) (timeline : Option Ft8ReceiveTimeline)
    (clock : Option ReceiveClockMonitor) (batches : List CaptureBatch) : Type 0 where
  pub process_same : process ≡ p
  pub state_is : state ≡ s
  pub no_timeline : timeline ≡ none
  pub no_clock : clock ≡ none
  pub no_batches : batches ≡ []

-- How the state s after the generation last leads to the state s' after last'.
pub data Leads (p last : ℕ) (s : ReceiveLifecycleState) (last' : ℕ) (s' : ReceiveLifecycleState)
    : Type 0 where
  kept : last' ≡ last → s' ≡ s → Leads p last s last' s'
  started :
      last' ≡ suc last → s ≡ stopped p last → s' ≡ receiving (suc last) → Leads p last s last' s'
  stalled :
      last' ≡ suc last → s ≡ stopped p last → s' ≡ starting (suc last) → Leads p last s last' s'
  refused :
      (r : ReceiveInhibition)
      → last' ≡ suc last
      → s ≡ stopped p last
      → s' ≡ inhibited (suc last) r
      → Leads p last s last' s'
  inhibiting :
      (r : ReceiveInhibition)
      → last' ≡ last
      → s ≡ receiving last
      → s' ≡ inhibited last r
      → Leads p last s last' s'
  stopping :
      last' ≡ last
      → (s ≡ receiving last) ⊎ ((r : ReceiveInhibition) × (s ≡ inhibited last r))
      → s' ≡ stopped p last
      → Leads p last s last' s'

module _ {P : Ports} where
  unfoldable pub step : Call → LiveReceiveCoordinator P → LiveReceiveCoordinator P
  step (to_enable config scratch) c = (enable_spectrum config scratch c).1
  step (to_start initial) c = (start initial c).1
  step (to_observe observation at) c = (observe_clock observation at c).1
  step (to_poll at recorded) c = (poll at recorded c).1
  step (to_stop reason) c = (stop reason c).1

  unfoldable pub run : List Call → LiveReceiveCoordinator P → LiveReceiveCoordinator P
  run [] c = c
  run (call ∷ later) c = run later (step call c)

  abbrev pub IsEmpty : ℕ → ReceiveLifecycleState → LiveReceiveCoordinator P → Type 0
  IsEmpty p s c = IsEmptyAt p s c.process_generation c.state c.timeline c.clock c.worker_batches

  -- The coordinator is stopped or stalled in `Starting` without evidence, or receives or is
  -- inhibited, each in the generation that was issued last.
  pub data IsSerial (p : ℕ) (c : LiveReceiveCoordinator P) : Type 0 where
    idle : IsEmpty p (stopped p c.last_stream_generation) c → IsSerial p c
    stuck : IsEmpty p (starting c.last_stream_generation) c → IsSerial p c
    going : Goes p c.last_stream_generation c → IsSerial p c

  abbrev pub LeadsTo : ℕ → LiveReceiveCoordinator P → LiveReceiveCoordinator P → Type 0
  LeadsTo p c c' = Leads p c.last_stream_generation c.state c'.last_stream_generation c'.state

  -- What a call does to a coordinator.
  pub record Follows (p : ℕ) (c c' : LiveReceiveCoordinator P) : Type 0 where
    pub serial : IsSerial p c'
    pub leads : LeadsTo p c c'
