-- ===== src/Daemon/Polling.antt =====
-- apps/daemon/src/receive.rs: `poll` and `observe_clock` receive on or inhibit.
use slotpilot.Prelude.{
  ℕ, zero, suc, ◌+◌, ◌-◌, ◌≤◌, ◌≡◌, arith, Bool-cases, List, [], ◌∷◌, ◌++◌, length, length-append,
  Option-cases, inl, inr, ltb, refl, ◌⊎◌,
}
use slotpilot.Prelude.Int.{ℤ}
use slotpilot.Prelude.Results.{Result, Result-cases, ok, err}
use slotpilot.Audio.Batch.{CaptureBatch, InputHealth}
use slotpilot.Audio.Slot.{ReceiveTimelineEvent}
use slotpilot.Audio.Timeline.Push.{push}
use slotpilot.ReceiveClock.{
  GenerationClockSample, ReceiveClockFault, ReceiveClockState, healthy, unhealthy,
}
use slotpilot.ReceiveClock.Monitor.{gate, observe, snapshot}
use slotpilot.Daemon.Types.{
  LiveReceiveCoordinator, Ports, ReceiveCoordinatorError, ReceivePollEvent, worker_batch_capacity,
}
use slotpilot.Daemon.Lifecycle.{after_clock, observe_clock, snapshot_of}
use slotpilot.Daemon.Window.{Flow, last, next}
use slotpilot.Daemon.Poll.{
  behind, fill_batches, poll, poll_batches, poll_clock, poll_health, process_batch, process_event,
  process_events, process_first, return_inhibited,
}
use slotpilot.Daemon.Live.{
  Goes, IsLive, halted, inhibit-IsHalted, on, renew_batches, renew_clock, renew_timeline,
}
use slotpilot.Daemon.Going.{handle_gated-Goes}

Flow-cases :
    (f : Flow)
    → ((es : List ReceivePollEvent) × (f ≡ next es))
      ⊎ ((es : List ReceivePollEvent) × (f ≡ last es))
Flow-cases (next es) = inl (es, refl)
Flow-cases (last es) = inr (es, refl)

State-cases :
    (s : ReceiveClockState)
    → (s ≡ healthy) ⊎ ((f : ReceiveClockFault) × (m : ℕ) × (n : ℕ) × (s ≡ unhealthy f m n))
State-cases healthy = inl refl
State-cases (unhealthy f m n) = inr (f, m, n, refl)

module _ {P : Ports} {p g : ℕ} where
  process_event-Goes :
      (audio : InputHealth) (at : ℕ) (recorded : ℤ) (e : ReceiveTimelineEvent)
      (c : LiveReceiveCoordinator P)
      → Goes p g c
      → Goes p g (process_event audio at recorded e c).1
  unfolding process_event
  process_event-Goes audio at recorded e c (halted h) = rw (process_event, h.no_clock) (halted h)
  process_event-Goes audio at recorded e c (on l) = elim (Option-cases c.clock) [
    | inl f ↦ rw (process_event, f) (on l)
    | inr (m, f) ↦
        rw (process_event, f)
          (handle_gated-Goes audio recorded (gate m e at).0 _ (renew_clock c (gate m e at).1 l))
  ]

  behind-Goes :
      (es : List ReceivePollEvent)
      (r : Result ReceiveCoordinatorError (List ReceivePollEvent) × LiveReceiveCoordinator P)
      → Goes p g r.1
      → Goes p g (behind es r).1
  behind-Goes es (ok later, c) d = d
  behind-Goes es (err e, c) d = d

  process_events-Goes :
      (audio : InputHealth) (at : ℕ) (recorded : ℤ) (es : List ReceiveTimelineEvent)
      (c : LiveReceiveCoordinator P)
      → Goes p g c
      → Goes p g (process_events audio at recorded es c).1
  unfolding process_events
  process_events-Goes audio at recorded [] c d = d
  process_events-Goes audio at recorded (e ∷ later) c d =
      let d' = process_event-Goes audio at recorded e c d in
      elim (Result-cases (process_event audio at recorded e c).0) [
        | inr (problem, h) ↦ rw (process_events, h) d'
        | inl (flow, h) ↦ elim (Flow-cases flow) [
          | inr (events, k) ↦ rw (process_events, h, k) d'
          | inl (events, k) ↦
              rw (process_events, h, k)
                (behind-Goes events _ (process_events-Goes audio at recorded later _ d'))
        ]
      ]

  process_batch-Goes :
      (b : CaptureBatch) (audio : InputHealth) (at : ℕ) (recorded : ℤ)
      (c : LiveReceiveCoordinator P)
      → IsLive p g c
      → Goes p g (process_batch b audio at recorded c).1
  unfolding process_batch return_inhibited
  process_batch-Goes b audio at recorded c l = elim (Option-cases c.timeline) [
    | inl e ↦ rw (process_batch, e) (on l)
    | inr (t, e) ↦
        let l' = renew_timeline c (push b at t).1 l in
        elim (Result-cases (push b at t).0) [
          | inr (problem, h) ↦ rw (process_batch, e, h) (halted (inhibit-IsHalted _ _ l'))
          | inl (events, h) ↦
              rw (process_batch, e, h) (process_events-Goes audio at recorded events _ (on l'))
        ]
  ]

  fill_batches-IsLive :
      (room : ℕ) (c : LiveReceiveCoordinator P)
      → length c.worker_batches + room ≤ worker_batch_capacity
      → IsLive p g c
      → IsLive p g (fill_batches room c).1
  unfolding fill_batches
  fill_batches-IsLive zero c n l = l
  fill_batches-IsLive (suc room) c n l = elim (Result-cases (P.next_batch c.input).0) [
    | inr (problem, e) ↦ rw (fill_batches, e) l
    | inl (found, e) ↦ elim (Option-cases found) [
      | inl f ↦ rw (fill_batches, e, f) l
      | inr (b, f) ↦
          let n' : length (c.worker_batches ++ b ∷ []) + room ≤ worker_batch_capacity =
            omega (arith, n, length-append c.worker_batches (b ∷ [])) in
          rw (fill_batches, e, f)
            (fill_batches-IsLive room _ n'
              (renew_batches c (c.worker_batches ++ b ∷ []) (omega arith) l))
    ]
  ]

  process_first-Goes :
      (bs : List CaptureBatch) (audio : InputHealth) (at : ℕ) (recorded : ℤ)
      (c : LiveReceiveCoordinator P)
      → length bs ≤ worker_batch_capacity
      → IsLive p g c
      → Goes p g (process_first bs audio at recorded c).1
  unfolding process_first
  process_first-Goes [] audio at recorded c n l = on l
  process_first-Goes (b ∷ later) audio at recorded c n l =
      process_batch-Goes b audio at recorded _ (renew_batches c later (omega (arith, n)) l)

  poll_batches-Goes :
      (audio : InputHealth) (at : ℕ) (recorded : ℤ) (c : LiveReceiveCoordinator P)
      → IsLive p g c
      → Goes p g (poll_batches audio at recorded c).1
  unfolding poll_batches return_inhibited
  poll_batches-Goes audio at recorded c l =
      let room = worker_batch_capacity - length c.worker_batches in
      let l' = fill_batches-IsLive room c (omega (arith, l.bounded)) l in
      elim (Result-cases (fill_batches room c).0) [
        | inr (problem, e) ↦ rw (poll_batches, e) (halted (inhibit-IsHalted _ _ l'))
        | inl (u, e) ↦ rw (poll_batches, e) (process_first-Goes _ audio at recorded _ l'.bounded l')
      ]

  poll_clock-Goes :
      (audio : InputHealth) (at : ℕ) (recorded : ℤ) (c : LiveReceiveCoordinator P)
      → IsLive p g c
      → Goes p g (poll_clock audio at recorded c).1
  unfolding poll_clock return_inhibited
  poll_clock-Goes audio at recorded c l = elim (Option-cases c.clock) [
    | inl e ↦ rw (poll_clock, e) (on l)
    | inr (m, e) ↦
        let l' = renew_clock c (snapshot m at).1 l in
        elim (State-cases (snapshot m at).0.state) [
          | inl h ↦ rw (poll_clock, e, h) (poll_batches-Goes audio at recorded _ l')
          | inr (f, i, j, h) ↦ rw (poll_clock, e, h) (halted (inhibit-IsHalted _ _ l'))
        ]
  ]

  poll_health-Goes :
      (at : ℕ) (recorded : ℤ) (c : LiveReceiveCoordinator P)
      → IsLive p g c
      → Goes p g (poll_health at recorded c).1
  unfolding poll_health return_inhibited
  poll_health-Goes at recorded c l = elim (Result-cases (P.health c.input).0) [
    | inr (problem, e) ↦ rw (poll_health, e) (halted (inhibit-IsHalted _ _ l))
    | inl (audio, e) ↦ elim (Bool-cases (ltb 0 audio.overflow_count)) [
      | inl h ↦ rw (poll_health, e, h) (halted (inhibit-IsHalted _ _ l))
      | inr h ↦ rw (poll_health, e, h) (poll_clock-Goes audio at recorded _ l)
    ]
  ]

  -- A poll of a receiving coordinator receives on in the same generation or inhibits it.
  pub poll-Goes :
      (at : ℕ) (recorded : ℤ) (c : LiveReceiveCoordinator P)
      → IsLive p g c
      → Goes p g (poll at recorded c).1
  unfolding poll return_inhibited
  poll-Goes at recorded c l = elim (Option-cases (P.next_fault c.input).0) [
    | inl e ↦ rw (poll, l.state_is, e) (poll_health-Goes at recorded _ l)
    | inr (f, e) ↦ rw (poll, l.state_is, e) (halted (inhibit-IsHalted _ _ l))
  ]

  pub observe_clock-Goes :
      (o : GenerationClockSample) (at : ℕ) (c : LiveReceiveCoordinator P)
      → IsLive p g c
      → Goes p g (observe_clock o at c).1
  unfolding observe_clock after_clock
  observe_clock-Goes o at c l = elim (Option-cases c.clock) [
    | inl e ↦ rw (observe_clock, l.state_is, e) (on l)
    | inr (m, e) ↦
        let l' = renew_clock c (observe m o at).1 l in
        elim (State-cases (snapshot_of (observe m o at).0).state) [
          | inl h ↦ rw (observe_clock, l.state_is, e, h) (on l')
          | inr (f, i, j, h) ↦
              rw (observe_clock, l.state_is, e, h) (halted (inhibit-IsHalted _ _ l'))
        ]
  ]
