-- ===== src/Daemon/Poll.antt =====
-- apps/daemon/src/receive.rs: `poll` and `process_batch`.
use slotpilot.Prelude.{
  ℕ, zero, suc, ◌-◌, none, some, List, [], ◌∷◌, ◌++◌, length, if◌then◌else◌, ltb,
}
use slotpilot.Prelude.Int.{ℤ}
use slotpilot.Prelude.Results.{Result, ok, err, Exec}
use slotpilot.Audio.Batch.{CaptureBatch, InputFaultKind, InputHealth}
use slotpilot.Audio.Slot.{ReceiveTimelineEvent}
use slotpilot.Audio.Timeline.Push.{push}
use slotpilot.Audio.Capture.Worker.{InputCaptureError}
use slotpilot.ReceiveClock.{
  ClockGatedTimelineEvent, healthy, still_incomplete, unhealthy, window_ready, window_rejected,
}
use slotpilot.ReceiveClock.Monitor.{gate, snapshot}
use slotpilot.Daemon.Types.{
  LiveReceiveCoordinator, Method, Ports, ReceiveCoordinatorError, ReceiveInhibition,
  ReceivePollEvent, incomplete, invalid_lifecycle, lifecycle, worker_batch_capacity,
}
use slotpilot.Daemon.Lifecycle.{capture_error_kind, inhibit, require_receiving}
use slotpilot.Daemon.Window.{Flow, break_inhibited, handle_window, last, next}

-- The events of the later rounds of a loop, behind those of this one.
abbrev pub behind :
    {P : Ports}
    → List ReceivePollEvent
    → Result ReceiveCoordinatorError (List ReceivePollEvent) × LiveReceiveCoordinator P
    → Result ReceiveCoordinatorError (List ReceivePollEvent) × LiveReceiveCoordinator P
behind events (err e, c) = (err e, c)
behind events (ok later, c) = (ok (events ++ later), c)

module _ {P : Ports} where
  -- The coordinator is inhibited and the poll over.
  unfoldable pub return_inhibited : ReceiveInhibition → Method P (List ReceivePollEvent)
  return_inhibited reason c = let (event, c') = inhibit reason c in (ok (lifecycle event ∷ []), c')

  unfoldable pub handle_gated : InputHealth → ℤ → ClockGatedTimelineEvent → Method P Flow
  handle_gated audio recorded (still_incomplete i) c =
      (ok (next (incomplete i.slot i.accumulated_samples ∷ [])), c)
  handle_gated audio recorded (window_rejected slot fault) c =
      break_inhibited (ReceiveInhibition.clock fault) c
  handle_gated audio recorded (window_ready w a) c = handle_window w a audio recorded c

  -- One round of the loop over the events.
  unfoldable pub process_event : InputHealth → ℕ → ℤ → ReceiveTimelineEvent → Method P Flow
  process_event audio at recorded event c = elim c.clock [
    | none ↦ (err (invalid_lifecycle c.state), c)
    | some m ↦
        let (gated, m') = gate m event at in
        handle_gated audio recorded gated (record c { clock = some m' })
  ]

  -- The loop over the events of the timeline.
  unfoldable pub process_events :
      InputHealth → ℕ → ℤ → List ReceiveTimelineEvent → Method P (List ReceivePollEvent)
  process_events audio at recorded [] c = (ok [], c)
  process_events audio at recorded (event ∷ later) c =
      let (result, c') = process_event audio at recorded event c in
      elim result [
        | err e ↦ (err e, c')
        | ok flow ↦ elim flow [
          | last events ↦ (ok events, c')
          | next events ↦ behind events (process_events audio at recorded later c')
        ]
      ]

  unfoldable pub process_batch :
      CaptureBatch → InputHealth → ℕ → ℤ → Method P (List ReceivePollEvent)
  process_batch b audio at recorded c = elim c.timeline [
    | none ↦ (err (invalid_lifecycle c.state), c)
    | some t ↦
        let (result, t') = push b at t in
        let c' : LiveReceiveCoordinator P = record c { timeline = some t' } in
        elim result [
          | err e ↦ return_inhibited (ReceiveInhibition.timeline e) c'
          | ok events ↦ process_events audio at recorded events c'
        ]
  ]

  -- The loop that admits batches while there is room for so many more.
  unfoldable pub fill_batches : ℕ → Exec (LiveReceiveCoordinator P) InputCaptureError (Unit {0})
  fill_batches zero c = (ok tt, c)
  fill_batches (suc room) c =
      let (result, input') = P.next_batch c.input in
      let c' : LiveReceiveCoordinator P = record c { input = input' } in
      elim result [
        | err e ↦ (err e, c')
        | ok found ↦ elim found [
          | none ↦ (ok tt, c')
          | some b ↦ fill_batches room (record c' { worker_batches = c'.worker_batches ++ b ∷ [] })
        ]
      ]

  -- The first of the admitted batches is processed.
  unfoldable pub process_first :
      List CaptureBatch → InputHealth → ℕ → ℤ → Method P (List ReceivePollEvent)
  process_first [] audio at recorded c = (ok [], c)
  process_first (b ∷ later) audio at recorded c =
      process_batch b audio at recorded (record c { worker_batches = later })

  unfoldable pub poll_batches : InputHealth → ℕ → ℤ → Method P (List ReceivePollEvent)
  poll_batches audio at recorded c =
      let (result, c') = fill_batches (worker_batch_capacity - length c.worker_batches) c in
      elim result [
        | err e ↦ return_inhibited (ReceiveInhibition.input (capture_error_kind e)) c'
        | ok _ ↦ process_first c'.worker_batches audio at recorded c'
      ]

  unfoldable pub poll_clock : InputHealth → ℕ → ℤ → Method P (List ReceivePollEvent)
  poll_clock audio at recorded c = elim c.clock [
    | none ↦ (err (invalid_lifecycle c.state), c)
    | some m ↦
        let (snap, m') = snapshot m at in
        let c' : LiveReceiveCoordinator P = record c { clock = some m' } in
        elim snap.state [
          | unhealthy fault p r ↦ return_inhibited (ReceiveInhibition.clock fault) c'
          | healthy ↦ poll_batches audio at recorded c'
        ]
  ]

  unfoldable pub poll_health : ℕ → ℤ → Method P (List ReceivePollEvent)
  poll_health at recorded c =
      let (result, input') = P.health c.input in
      let c' : LiveReceiveCoordinator P = record c { input = input' } in
      elim result [
        | err e ↦ return_inhibited (ReceiveInhibition.input (capture_error_kind e)) c'
        | ok audio ↦
            if ltb 0 audio.overflow_count
            then return_inhibited (ReceiveInhibition.input (InputFaultKind.overflowed 0)) c'
            else poll_clock audio at recorded c'
      ]

  unfoldable pub poll : ℕ → ℤ → Method P (List ReceivePollEvent)
  poll at recorded c = elim (require_receiving c.state) [
    | err e ↦ (err e, c)
    | ok _ ↦
        let (fault, input') = P.next_fault c.input in
        let c' : LiveReceiveCoordinator P = record c { input = input' } in
        elim fault [
          | some f ↦ return_inhibited (ReceiveInhibition.input f.kind) c'
          | none ↦ poll_health at recorded c'
        ]
  ]
