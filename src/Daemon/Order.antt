-- ===== src/Daemon/Order.antt =====
-- apps/daemon/src/receive.rs: the lifecycle over any history of calls.
use slotpilot.Prelude.{ℕ, ◌≡◌, inl, inr, refl, ap, sym, subst, false, none, List, [], ◌∷◌}
use slotpilot.Prelude.Int.{ℤ}
use slotpilot.Prelude.Results.{Result-cases, err}
use slotpilot.Audio.Spectrum.Config.{SpectrumConfig}
use slotpilot.Audio.Spectrum.Model.{new_model}
use slotpilot.ReceiveClock.{GenerationClockSample}
use slotpilot.Daemon.Types.{
  LiveReceiveCoordinator, Ports, ReceiveLifecycleState, ReceiveStopReason, invalid_lifecycle,
}
use slotpilot.Daemon.Lifecycle.{
  enable_spectrum, is_stopped, observe_clock, require_receiving, start, stop, stoppable,
}
use slotpilot.Daemon.Poll.{poll}
use slotpilot.Daemon.Live.{halted, on}
use slotpilot.Daemon.Polling.{observe_clock-Goes, poll-Goes}
use slotpilot.Daemon.Serial.{
  Call, Follows, IsSerial, going, idle, kept, run, step, stuck, to_enable, to_observe, to_poll,
  to_start, to_stop,
}
use slotpilot.Daemon.Steps.{Goes-Follows, start-Follows, stays, stop-Follows}

-- The state is neither stopped, nor receiving, nor inhibited.
abbrev pub RefusesReceiving : ReceiveLifecycleState → Type 0
RefusesReceiving s = require_receiving s ≡ err (invalid_lifecycle s)

module _ {P : Ports} where
  pub start_refused :
      (initial : GenerationClockSample) (c : LiveReceiveCoordinator P)
      → is_stopped c.state ≡ false
      → start initial c ≡ (err (invalid_lifecycle c.state), c)
  unfolding start
  start_refused initial c s = rw (start, s) refl

  pub stop_refused :
      (reason : ReceiveStopReason) (c : LiveReceiveCoordinator P)
      → stoppable c.state ≡ none
      → stop reason c ≡ (err (invalid_lifecycle c.state), c)
  unfolding stop
  stop_refused reason c s = rw (stop, s) refl

  pub poll_refused :
      (at : ℕ) (recorded : ℤ) (c : LiveReceiveCoordinator P)
      → RefusesReceiving c.state
      → poll at recorded c ≡ (err (invalid_lifecycle c.state), c)
  unfolding poll
  poll_refused at recorded c s = rw (poll, s) refl

  pub observe_refused :
      (o : GenerationClockSample) (at : ℕ) (c : LiveReceiveCoordinator P)
      → RefusesReceiving c.state
      → observe_clock o at c ≡ (err (invalid_lifecycle c.state), c)
  unfolding observe_clock
  observe_refused o at c s = rw (observe_clock, s) refl

module _ {P : Ports} {p : ℕ} where
  enable-Follows :
      (config : SpectrumConfig) (scratch : ℕ) (c : LiveReceiveCoordinator P)
      → IsSerial p c
      → Follows p c (enable_spectrum config scratch c).1
  unfolding enable_spectrum
  enable-Follows config scratch c s = elim (Result-cases (new_model config scratch)) [
    | inr (problem, h) ↦ rw (enable_spectrum, h) (stays c s)
    | inl (m, h) ↦
        rw (enable_spectrum, h)
          (record {
            serial = elim s [
              | idle e ↦ idle e
              | stuck e ↦ stuck e
              | going d ↦ elim d [ on l ↦ going (on l) | halted k ↦ going (halted k) ]
            ];
            leads = kept refl refl;
          })
  ]

  keeps : (c d : LiveReceiveCoordinator P) → IsSerial p c → d ≡ c → Follows p c d
  keeps c d s h = subst (λ (b : LiveReceiveCoordinator P). Follows p c b) (sym h) (stays c s)

  poll-Follows :
      (at : ℕ) (recorded : ℤ) (c : LiveReceiveCoordinator P)
      → IsSerial p c
      → Follows p c (poll at recorded c).1
  poll-Follows at recorded c (idle e) =
      keeps c _ (idle e)
        (ap (λ r. r.1) (poll_refused at recorded c (subst RefusesReceiving (sym e.state_is) refl)))
  poll-Follows at recorded c (stuck e) =
      keeps c _ (stuck e)
        (ap (λ r. r.1) (poll_refused at recorded c (subst RefusesReceiving (sym e.state_is) refl)))
  poll-Follows at recorded c (going (on l)) = Goes-Follows c _ l (poll-Goes at recorded c l)
  poll-Follows at recorded c (going (halted k)) =
      keeps c _ (going (halted k))
        (ap (λ r. r.1) (poll_refused at recorded c (subst RefusesReceiving (sym k.state_is) refl)))

  observe-Follows :
      (o : GenerationClockSample) (at : ℕ) (c : LiveReceiveCoordinator P)
      → IsSerial p c
      → Follows p c (observe_clock o at c).1
  observe-Follows o at c (idle e) =
      keeps c _ (idle e)
        (ap (λ r. r.1) (observe_refused o at c (subst RefusesReceiving (sym e.state_is) refl)))
  observe-Follows o at c (stuck e) =
      keeps c _ (stuck e)
        (ap (λ r. r.1) (observe_refused o at c (subst RefusesReceiving (sym e.state_is) refl)))
  observe-Follows o at c (going (on l)) = Goes-Follows c _ l (observe_clock-Goes o at c l)
  observe-Follows o at c (going (halted k)) =
      keeps c _ (going (halted k))
        (ap (λ r. r.1) (observe_refused o at c (subst RefusesReceiving (sym k.state_is) refl)))

  start_call-Follows :
      (initial : GenerationClockSample) (c : LiveReceiveCoordinator P)
      → IsSerial p c
      → Follows p c (start initial c).1
  start_call-Follows initial c (idle e) = start-Follows initial c e
  start_call-Follows initial c (stuck e) =
      keeps c _ (stuck e) (ap (λ r. r.1) (start_refused initial c (ap is_stopped e.state_is)))
  start_call-Follows initial c (going (on l)) =
      keeps c _ (going (on l)) (ap (λ r. r.1) (start_refused initial c (ap is_stopped l.state_is)))
  start_call-Follows initial c (going (halted k)) =
      keeps c _ (going (halted k))
        (ap (λ r. r.1) (start_refused initial c (ap is_stopped k.state_is)))

  stop_call-Follows :
      (reason : ReceiveStopReason) (c : LiveReceiveCoordinator P)
      → IsSerial p c
      → Follows p c (stop reason c).1
  stop_call-Follows reason c (idle e) =
      keeps c _ (idle e) (ap (λ r. r.1) (stop_refused reason c (ap stoppable e.state_is)))
  stop_call-Follows reason c (stuck e) =
      keeps c _ (stuck e) (ap (λ r. r.1) (stop_refused reason c (ap stoppable e.state_is)))
  stop_call-Follows reason c (going d) = stop-Follows reason c d

  -- Every call on a serial coordinator keeps it serial, and it does to the lifecycle one of six
  -- things: it keeps the state; from `Stopped` it goes, in the next generation, to `Receiving`,
  -- to `Inhibited`, or to a `Starting` that lasts; it inhibits the generation that was received;
  -- or it stops that generation from `Receiving` or `Inhibited`. Only from `Stopped` is a
  -- generation issued.
  pub step-Follows :
      (call : Call) (c : LiveReceiveCoordinator P) → IsSerial p c → Follows p c (step call c)
  unfolding step
  step-Follows (to_enable config scratch) c s = enable-Follows config scratch c s
  step-Follows (to_start initial) c s = start_call-Follows initial c s
  step-Follows (to_observe o at) c s = observe-Follows o at c s
  step-Follows (to_poll at recorded) c s = poll-Follows at recorded c s
  step-Follows (to_stop reason) c s = stop_call-Follows reason c s

  pub run-IsSerial :
      (calls : List Call) (c : LiveReceiveCoordinator P) → IsSerial p c → IsSerial p (run calls c)
  unfolding run
  run-IsSerial [] c s = s
  run-IsSerial (call ∷ later) c s = run-IsSerial later _ (step-Follows call c s).serial
