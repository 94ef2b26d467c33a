-- ===== src/Time/Monitor.antt =====
-- `ClockMonitor` of time.rs: what it accepts, that it latches, and how it sees the virtual clock.
use slotpilot.Prelude.{ℕ, ◌+◌, ◌≤◌, ◌<◌, ◌≡◌, ◌≢◌, ◌↔◌, ◌⊎◌, inl, inr, refl, arith, List, [], ◌∷◌}
use slotpilot.Prelude.Int.{ℤ, pos, pos_part, abs, ◌+ℤ◌, ◌-ℤ◌}
use slotpilot.Prelude.Words.{IsInstant, i64_max}
use slotpilot.Prelude.Results.{ok}
use slotpilot.Time.{
  ClockSample, ClockMonitor, ClockFault, ClockHealth, healthy, unhealthy, advance, jump_utc, judge,
  observe,
}

pub observe_all : ClockMonitor → List ClockSample → ClockMonitor
observe_all m [] = m
observe_all m (s ∷ ss) = observe_all (observe m s) ss

-- A sample that agrees with the last one: neither timeline has moved back, and the two have moved
-- by the same amount up to the tolerance.
pub record Agrees (tolerance : ℕ) (last s : ClockSample) : Type 0 where
  pub utc_forward : pos_part last.utc ≤ pos_part s.utc
  pub monotonic_forward : last.monotonic ≤ s.monotonic
  pub not_ahead : pos_part s.utc + last.monotonic ≤ pos_part last.utc + s.monotonic + tolerance
  pub not_behind : pos_part last.utc + s.monotonic ≤ pos_part s.utc + last.monotonic + tolerance

abbrev InRange : ClockSample → Type 0
InRange s = IsInstant s.utc × (s.monotonic ≤ i64_max)

judge-Agrees :
    (m : ClockMonitor) (s : ClockSample)
    → InRange m.last
    → InRange s
    → judge m s ≡ healthy
    → Agrees m.tolerance_millis m.last s
unfolding judge ◌-ℤ◌
judge-Agrees m s i j h = ground arith

Agrees-judge :
    (m : ClockMonitor) (s : ClockSample)
    → InRange m.last
    → InRange s
    → Agrees m.tolerance_millis m.last s
    → judge m s ≡ healthy
unfolding judge ◌-ℤ◌
Agrees-judge m s i j h = ground arith

pub observe-Agrees :
    (m : ClockMonitor) (s : ClockSample)
    → InRange m.last
    → InRange s
    → m.health ≡ healthy
    → (((observe m s).health ≡ healthy) ↔ Agrees m.tolerance_millis m.last s)
      × (Agrees m.tolerance_millis m.last s → (observe m s).last ≡ s)
unfolding observe
observe-Agrees m s i j h = (
  (
    (λ e. judge-Agrees m s i j (ground arith)),
    (λ a. let e = Agrees-judge m s i j a in ground arith),
  ),
  (λ a. let e = Agrees-judge m s i j a in ground arith),
)

-- An unhealthy monitor is latched: no sequence of samples changes it.
pub observe_all-latched :
    (m : ClockMonitor) (f : ClockFault) (ss : List ClockSample)
    → m.health ≡ unhealthy f
    → observe_all m ss ≡ m
unfolding observe_all observe
observe_all-latched m f [] h = refl
observe_all-latched m f (s ∷ ss) h =
    let e : observe m s ≡ m = ground arith in rw e (observe_all-latched m f ss h)

-- A test run: the virtual clock is advanced by each step, and each time the monitor observes it.
unfoldable pub run_steps : ClockMonitor → ClockSample → List ℕ → ClockMonitor × ClockSample
run_steps m s [] = (m, s)
run_steps m s (k ∷ ks) = let (_, s') = advance k s in run_steps (observe m s') s' ks

unfoldable pub total : List ℕ → ℕ
total [] = 0
total (k ∷ ks) = k + total ks

abbrev advanced : ClockSample → ℕ → ClockSample
advanced s k = record { utc = pos (pos_part s.utc + k); monotonic = s.monotonic + k }

advance_fits :
    (s : ClockSample) (k : ℕ)
    → IsInstant s.utc
    → pos_part s.utc + k ≤ i64_max
    → s.monotonic + k ≤ i64_max
    → advance k s ≡ (ok tt, advanced s k)
unfolding advance ◌+ℤ◌
advance_fits s k i p q = ground arith

observe-advanced :
    (m : ClockMonitor) (s : ClockSample) (k : ℕ)
    → IsInstant s.utc
    → m.health ≡ healthy
    → m.last ≡ s
    → pos_part s.utc + k ≤ i64_max
    → s.monotonic + k ≤ i64_max
    → observe m (advanced s k) ≡ record m { last = advanced s k }
unfolding observe judge ◌-ℤ◌
observe-advanced m s k i h l p q = ground arith

-- Start healthy, with the present reading of a virtual clock as the last one. While the steps keep
-- both timelines of the clock within i64::MAX, the monitor never faults on a clock that is only
-- advanced, whatever its tolerance and the steps, and its last reading is that of the clock.
pub run_steps-healthy :
    (m : ClockMonitor) (s : ClockSample) (ks : List ℕ)
    → IsInstant s.utc
    → m.health ≡ healthy
    → m.last ≡ s
    → pos_part s.utc + total ks ≤ i64_max
    → s.monotonic + total ks ≤ i64_max
    → let (m', s') = run_steps m s ks in (m'.health ≡ healthy) × (m'.last ≡ s')
unfolding run_steps total
run_steps-healthy m s [] i h l p q = (h, l)
run_steps-healthy m s (k ∷ ks) i h l p q =
    rw (advance_fits s k i (omega arith) (omega arith), run_steps)
      (rw (observe-advanced m s k i h l (omega arith) (omega arith), run_steps)
        (run_steps-healthy (record m { last = advanced s k }) (advanced s k) ks (omega arith) h refl
          (omega arith) (omega arith)))

health-cases : (h : ClockHealth) → (h ≡ healthy) ⊎ ((f : ClockFault) × (h ≡ unhealthy f))
health-cases healthy = inl refl
health-cases (unhealthy f) = inr (f, refl)

jump-disagrees :
    (tolerance : ℕ) (s : ClockSample) (delta : ℤ) (jumped : ClockSample)
    → IsInstant s.utc
    → tolerance < abs delta
    → jump_utc delta s ≡ (ok tt, jumped)
    → Agrees tolerance s jumped
    → ⊥
unfolding jump_utc ◌+ℤ◌
jump-disagrees tolerance s delta jumped i t j a = ground arith

jump-InRange :
    (s : ClockSample) (delta : ℤ) (jumped : ClockSample)
    → InRange s
    → jump_utc delta s ≡ (ok tt, jumped)
    → InRange jumped
unfolding jump_utc ◌+ℤ◌
jump-InRange s delta jumped i j = ground arith

-- A jump of UTC beyond the tolerance is seen by the next observation, and no later sample makes the
-- monitor healthy again.
pub jump_latches :
    (m : ClockMonitor) (s : ClockSample) (delta : ℤ) (jumped : ClockSample) (ss : List ClockSample)
    → InRange s
    → m.health ≡ healthy
    → m.last ≡ s
    → m.tolerance_millis < abs delta
    → jump_utc delta s ≡ (ok tt, jumped)
    → (observe_all (observe m jumped) ss).health ≢ healthy
jump_latches m s delta jumped ss i h l t j still = elim (health-cases (observe m jumped).health) [
  | inl e ↦
      let range : InRange m.last = rw l i in
      let agrees = (observe-Agrees m jumped range (jump-InRange s delta jumped i j) h).0.0 e in
      jump-disagrees m.tolerance_millis s delta jumped i.0 t j (rw l at agrees)
  | inr (f, e) ↦ let stuck = observe_all-latched (observe m jumped) f ss e in cc (stuck, e)
]
