-- ===== src/Daemon/Histories.antt =====
-- apps/daemon/src/receive.rs: what holds after any history of calls on a coordinator.
use slotpilot.Prelude.{
  ℕ, suc, ◌≡◌, refl, ap, sym, subst, ◌∙◌, true, some, List, [], ◌∷◌, ◌==◌, inl, inr,
}
use slotpilot.Prelude.Words.{checked_add, u64_max}
use slotpilot.Prelude.Results.{Result-cases, ok, err}
use slotpilot.Audio.Spectrum.Config.{SpectrumConfig}
use slotpilot.Audio.Spectrum.Model.{new_model}
use slotpilot.ReceiveClock.{GenerationClockSample, ReceiveClockError}
use slotpilot.ReceiveClock.Monitor.{new_monitor}
use slotpilot.Daemon.Types.{
  CoordinatorConfig, LiveReceiveCoordinator, Ports, ReceiveCoordinatorError, starting,
}
use slotpilot.Daemon.Lifecycle.{
  begin_receiving, enable_spectrum, is_stopped, new_coordinator, open_input, start, stoppable,
}
use slotpilot.Daemon.Serial.{
  Call, IsSerial, idle, run, step, to_enable, to_observe, to_poll, to_start, to_stop,
}
use slotpilot.Daemon.Steps.{first_event, reserved, start_opens}
use slotpilot.Daemon.Order.{
  observe_refused, poll_refused, RefusesReceiving, run-IsSerial, start_refused, stop_refused,
}

module _ {P : Ports} where
  -- After any history of calls on a new coordinator, whatever its input, decoder and store do, it
  -- is stopped or stalled in `Starting` and holds no timeline, clock or batch, or it receives
  -- with a timeline, a clock and at most four batches, or it is inhibited and holds none of them;
  -- and the state names the process and the stream generation that was issued last.
  pub history-IsSerial :
      (input : P.Input) (store : P.Store) (config : CoordinatorConfig P) (calls : List Call)
      → IsSerial config.process_generation (run calls (new_coordinator input store config))
  unfolding new_coordinator
  history-IsSerial input store config calls = run-IsSerial calls _ (
      idle (record {
        process_same = refl;
        state_is = refl;
        no_timeline = refl;
        no_clock = refl;
        no_batches = refl;
      }))

  enable_keeps :
      (config : SpectrumConfig) (scratch : ℕ) (c : LiveReceiveCoordinator P)
      → (enable_spectrum config scratch c).1.state ≡ c.state
  unfolding enable_spectrum
  enable_keeps config scratch c = elim (Result-cases (new_model config scratch)) [
    | inl (m, h) ↦ rw (enable_spectrum, h) refl
    | inr (e, h) ↦ rw (enable_spectrum, h) refl
  ]

  -- The state of what a refused call leaves.
  state_of {ℓ} :
      {A : Type ℓ} (r : A × LiveReceiveCoordinator P) (a : A) (c : LiveReceiveCoordinator P)
      → r ≡ (a, c)
      → r.1.state ≡ c.state
  state_of {A = A} r a c h = ap (λ (x : A × LiveReceiveCoordinator P). x.1.state) h

  starting_lasts :
      (g : ℕ) (call : Call) (c : LiveReceiveCoordinator P)
      → c.state ≡ starting g
      → (step call c).state ≡ starting g
  unfolding step
  starting_lasts g (to_enable config scratch) c s = enable_keeps config scratch c ∙ s
  starting_lasts g (to_start initial) c s =
      state_of _ _ c (start_refused initial c (ap is_stopped s)) ∙ s
  starting_lasts g (to_observe o at) c s =
      state_of _ _ c (observe_refused o at c (subst RefusesReceiving (sym s) refl)) ∙ s
  starting_lasts g (to_poll at recorded) c s =
      state_of _ _ c (poll_refused at recorded c (subst RefusesReceiving (sym s) refl)) ∙ s
  starting_lasts g (to_stop reason) c s =
      state_of _ _ c (stop_refused reason c (ap stoppable s)) ∙ s

  starting_lasts_run :
      (g : ℕ) (calls : List Call) (c : LiveReceiveCoordinator P)
      → c.state ≡ starting g
      → (run calls c).state ≡ starting g
  unfolding run
  starting_lasts_run g [] c s = s
  starting_lasts_run g (call ∷ later) c s = starting_lasts_run g later _ (starting_lasts g call c s)

  module _ (initial : GenerationClockSample) (c : LiveReceiveCoordinator P)
      (e : ReceiveClockError) where
    monitor_refused :
        (P.start_input c.selection c.process_generation (suc c.last_stream_generation) c.input).0
          ≡ ok tt
        → new_monitor initial c.clock_config ≡ err e
        → ((open_input initial (first_event c) (suc c.last_stream_generation) (reserved c)).0
            ≡ err (ReceiveCoordinatorError.clock e))
          × ((open_input initial
                (first_event c)
                (suc c.last_stream_generation)
                (reserved c)).1.state
              ≡ starting (suc c.last_stream_generation))
    unfolding open_input begin_receiving
    monitor_refused h k =
        (rw (open_input, h, begin_receiving, k) refl, rw (open_input, h, begin_receiving, k) refl)

    -- A stopped coordinator starts with a sample of its process, the next generation fits, and
    -- the input opens, but the clock monitor refuses the clock policy. Then `start` returns that
    -- error, and the coordinator is in `Starting` after every later history of calls: no start,
    -- stop or poll gets it out.
    pub refused_monitor_stalls :
        (calls : List Call)
        → is_stopped c.state ≡ true
        → checked_add u64_max c.last_stream_generation 1 ≡ some (suc c.last_stream_generation)
        → (initial.generation == c.process_generation) ≡ true
        → (P.start_input c.selection c.process_generation (suc c.last_stream_generation) c.input).0
          ≡ ok tt
        → new_monitor initial c.clock_config ≡ err e
        → ((start initial c).0 ≡ err (ReceiveCoordinatorError.clock e))
          × ((run calls (start initial c).1).state ≡ starting (suc c.last_stream_generation))
    refused_monitor_stalls calls s n g h k =
        let opened = start_opens initial c s n g in
        let refused = monitor_refused h k in
        (
          ap (λ r. r.0) opened ∙ refused.0,
          starting_lasts_run _ calls _ (ap (λ r. r.1.state) opened ∙ refused.1),
        )
