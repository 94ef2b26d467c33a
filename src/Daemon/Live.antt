-- ===== src/Daemon/Live.antt =====
-- apps/daemon/src/receive.rs: what a receiving coordinator holds, and what an inhibited one has
-- left.
use slotpilot.Prelude.{ℕ, ◌≤◌, ◌≡◌, refl, Bool, true, false, Option, none, some, List, [], length}
use slotpilot.Audio.Batch.{CaptureBatch}
use slotpilot.Audio.Timeline.{Ft8ReceiveTimeline}
use slotpilot.ReceiveClock.Monitor.{ReceiveClockMonitor}
use slotpilot.Daemon.Types.{
  LiveReceiveCoordinator, Ports, ReceiveInhibition, ReceiveLifecycleState, inhibited, receiving,
  worker_batch_capacity,
}
use slotpilot.Daemon.Lifecycle.{inhibit, release, transition}

abbrev pub is_some : {A : Type 0} → Option A → Bool
is_some none = false
is_some (some a) = true

-- The fields of a coordinator that receives in the stream generation g of the process p.
pub record IsLiveAt (p g process last : ℕ) (state : ReceiveLifecycleState)
    (timeline : Option Ft8ReceiveTimeline) (clock : Option ReceiveClockMonitor)
    (batches : List CaptureBatch) : Type 0 where
  pub process_same : process ≡ p
  pub last_same : last ≡ g
  pub state_is : state ≡ receiving g
  pub has_timeline : is_some timeline ≡ true
  pub has_clock : is_some clock ≡ true
  pub bounded : length batches ≤ worker_batch_capacity

-- The fields of a coordinator that was inhibited in that generation: no evidence is left.
pub record IsHaltedAt (p g process last : ℕ) (state : ReceiveLifecycleState)
    (timeline : Option Ft8ReceiveTimeline) (clock : Option ReceiveClockMonitor)
    (batches : List CaptureBatch) : Type 0 where
  pub process_same : process ≡ p
  pub last_same : last ≡ g
  pub reason : ReceiveInhibition
  pub state_is : state ≡ inhibited g reason
  pub no_timeline : timeline ≡ none
  pub no_clock : clock ≡ none
  pub no_batches : batches ≡ []

module _ {P : Ports} where
  abbrev pub IsLive : ℕ → ℕ → LiveReceiveCoordinator P → Type 0
  IsLive p g c =
      IsLiveAt p g c.process_generation c.last_stream_generation c.state c.timeline c.clock
        c.worker_batches

  abbrev pub IsHalted : ℕ → ℕ → LiveReceiveCoordinator P → Type 0
  IsHalted p g c =
      IsHaltedAt p g c.process_generation c.last_stream_generation c.state c.timeline c.clock
        c.worker_batches

  -- It receives on, or was inhibited.
  pub data Goes (p g : ℕ) (c : LiveReceiveCoordinator P) : Type 0 where
    on : IsLive p g c → Goes p g c
    halted : IsHalted p g c → Goes p g c

  pub inhibit-IsHalted :
      {p g : ℕ} (c : LiveReceiveCoordinator P) (r : ReceiveInhibition)
      → IsLive p g c
      → IsHalted p g (inhibit r c).1
  unfolding inhibit transition release
  inhibit-IsHalted c r l = rw (l.state_is) (record {
    process_same = l.process_same;
    last_same = l.last_same;
    reason = r;
    state_is = refl;
    no_timeline = refl;
    no_clock = refl;
    no_batches = refl;
  })

  pub renew_clock :
      {p g : ℕ} (c : LiveReceiveCoordinator P) (m : ReceiveClockMonitor)
      → IsLive p g c
      → IsLive p g (record c { clock = some m })
  renew_clock c m l = record {
    process_same = l.process_same;
    last_same = l.last_same;
    state_is = l.state_is;
    has_timeline = l.has_timeline;
    has_clock = refl;
    bounded = l.bounded;
  }

  pub renew_timeline :
      {p g : ℕ} (c : LiveReceiveCoordinator P) (t : Ft8ReceiveTimeline)
      → IsLive p g c
      → IsLive p g (record c { timeline = some t })
  renew_timeline c t l = record {
    process_same = l.process_same;
    last_same = l.last_same;
    state_is = l.state_is;
    has_timeline = refl;
    has_clock = l.has_clock;
    bounded = l.bounded;
  }

  pub renew_batches :
      {p g : ℕ} (c : LiveReceiveCoordinator P) (batches : List CaptureBatch)
      → length batches ≤ worker_batch_capacity
      → IsLive p g c
      → IsLive p g (record c { worker_batches = batches })
  renew_batches c batches h l = record {
    process_same = l.process_same;
    last_same = l.last_same;
    state_is = l.state_is;
    has_timeline = l.has_timeline;
    has_clock = l.has_clock;
    bounded = h;
  }
