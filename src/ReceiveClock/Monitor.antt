-- ===== src/ReceiveClock/Monitor.antt =====
-- crates/operations/src/receive_clock.rs: the monitor, its window gate and its driver. A method
-- returns its value and the monitor as it leaves it.
use slotpilot.Prelude.{
  ℕ, ◌-◌, Bool, true, false, Option, none, some, if◌then◌else◌, leb, ltb, ◌==◌, ◌&&◌,
}
use slotpilot.Prelude.Int.{ℤ, pos, negsuc, ◌+ℤ◌, ◌-ℤ◌, is_negative, abs}
use slotpilot.Prelude.Words.{
  checked_add, checked_sub, checked_sub_i64, saturating_add, saturate, try_i64, try_unsigned,
  u8_max, u64_max, i64_max,
}
use slotpilot.Prelude.Results.{Result, ok, err, ok_or, Exec, ◌>>=◌}
use slotpilot.Time.{ClockSample}
use slotpilot.Audio.Batch.{Ft8ReceiveWindow}
use slotpilot.Audio.Slot.{ReceiveTimelineEvent}
use slotpilot.ReceiveClock.{
  ReceiveClockError, GenerationClockSample, ReceiveClockConfig, new_config, ReceiveClockFault,
  ReceiveClockState, ReceiveClockSnapshot, ReceiveClockTransition, ReceiveClockPoll,
  ReceiveWindowAlignment, ClockGatedTimelineEvent, process_generation_changed, timeline_regressed,
  utc_jump, window_misaligned, stale_mapping, sampling_delayed, sample_gap, healthy, unhealthy,
  stayed_healthy, became_unhealthy, recovering, recovered, stayed_unhealthy, not_due, observed,
  window_ready, window_rejected, still_incomplete,
}

pub record ReceiveClockMonitor : Type 0 where
  pub generation : ℕ
  pub config : ReceiveClockConfig
  pub state : ReceiveClockState
  pub last_accepted : ClockSample
  pub recovery_last : Option ClockSample

unfoldable pub new_monitor :
    GenerationClockSample → ReceiveClockConfig → Result ReceiveClockError ReceiveClockMonitor
unfolding new_config
new_monitor initial config = do
  _ ← new_config config
  ok (record {
    generation = initial.generation;
    config = config;
    state = healthy;
    last_accepted = initial.sample;
    recovery_last = none;
  })

unfoldable pub next_sample_due : ReceiveClockMonitor → Result ReceiveClockError ℕ
next_sample_due m =
    ok_or (checked_add u64_max m.last_accepted.monotonic m.config.sample_cadence_millis)
      ReceiveClockError.arithmetic_overflow

abbrev or_else {ℓ} : {A : Type ℓ} → Option A → A → A
or_else none d = d
or_else (some a) d = a

-- `compare`, which reads only the configuration.
unfoldable pub compare : ReceiveClockConfig → ClockSample → ClockSample → Option ReceiveClockFault
unfolding ◌-ℤ◌
compare c previous current = elim (checked_sub_i64 current.utc previous.utc) [
  | none ↦ some ReceiveClockFault.arithmetic_overflow
  | some utc_delta ↦ elim (checked_sub current.monotonic previous.monotonic) [
    | none ↦ some timeline_regressed
    | some monotonic_delta ↦
        let divergence = utc_delta -ℤ pos monotonic_delta in
        if is_negative utc_delta
        then some (utc_jump (or_else (try_i64 divergence) (negsuc i64_max)))
        else if ltb c.max_sample_gap_millis monotonic_delta
        then some (sample_gap monotonic_delta)
        else if ltb c.jump_tolerance_millis (abs (saturate i64_max divergence))
        then some (utc_jump (saturate i64_max divergence))
        else none
  ]
]

abbrev result_or : Result ReceiveClockError ℕ → ℕ → ℕ
result_or (ok n) d = n
result_or (err e) d = d

unfoldable pub snapshot_unchecked : ReceiveClockMonitor → ℕ → ReceiveClockSnapshot
snapshot_unchecked m at = record {
  generation = m.generation;
  state = m.state;
  last_accepted = m.last_accepted;
  observed_at = at;
  mapping_age_millis = at - m.last_accepted.monotonic;
  next_sample_due = result_or (next_sample_due m) u64_max;
}

abbrev pub is_healthy : ReceiveClockState → Bool
is_healthy healthy = true
is_healthy (unhealthy f p r) = false

-- `u8::from(recovery_last.is_some())`.
abbrev pub started : Option ClockSample → ℕ
started none = 0
started (some s) = 1

unfoldable pub latch :
    ReceiveClockMonitor
    → ReceiveClockFault
    → ℕ
    → Option ClockSample
    → ReceiveClockTransition × ReceiveClockMonitor
latch m fault at last =
    let m' = record m {
      state = unhealthy fault (started last) m.config.recovery_samples;
      recovery_last = last;
    } in
    if is_healthy m.state
    then (became_unhealthy (snapshot_unchecked m' at), m')
    else (stayed_unhealthy (snapshot_unchecked m' at), m')

-- The monitor after `snapshot`, which latches a mapping that has grown stale.
unfoldable pub refresh : ReceiveClockMonitor → ℕ → ReceiveClockMonitor
refresh m at =
    let age = at - m.last_accepted.monotonic in
    if ltb m.config.freshness_millis age && is_healthy m.state
    then record m {
      state = unhealthy (stale_mapping age) 0 m.config.recovery_samples;
      recovery_last = none;
    }
    else m

unfoldable pub snapshot : ReceiveClockMonitor → ℕ → ReceiveClockSnapshot × ReceiveClockMonitor
snapshot m at = let m' = refresh m at in (snapshot_unchecked m' at, m')

abbrev reply :
    (ReceiveClockSnapshot → ReceiveClockTransition)
    → ReceiveClockSnapshot × ReceiveClockMonitor
    → ReceiveClockTransition × ReceiveClockMonitor
reply f (snap, m) = (f snap, m)

abbrev pub is_generation_changed : ReceiveClockFault → Bool
is_generation_changed process_generation_changed = true
is_generation_changed _ = false

-- The arm of `observe` for a healthy monitor.
unfoldable pub observe_healthy :
    ReceiveClockMonitor → ClockSample → ℕ → ReceiveClockTransition × ReceiveClockMonitor
observe_healthy m s at = elim (compare m.config m.last_accepted s) [
  | some fault ↦ latch m fault at none
  | none ↦ reply stayed_healthy (snapshot (record m { last_accepted = s }) at)
]

-- One more consistent sample of a recovery.
unfoldable pub recover :
    ReceiveClockMonitor
    → ReceiveClockFault
    → ℕ
    → ℕ
    → ClockSample
    → ℕ
    → ReceiveClockTransition × ReceiveClockMonitor
recover m fault progress required s at =
    let progress' = saturating_add u8_max progress 1 in
    if leb required progress'
    then reply recovered
        (snapshot (record m { last_accepted = s; recovery_last = none; state = healthy }) at)
    else reply recovering (
        snapshot (record m { recovery_last = some s; state = unhealthy fault progress' required })
          at)

-- `if let Some(previous) = self.recovery_last && let Some(new_fault) = self.compare(..)`.
abbrev pub recovery_fault :
    ReceiveClockConfig → Option ClockSample → ClockSample → Option ReceiveClockFault
recovery_fault c none s = none
recovery_fault c (some previous) s = compare c previous s

-- The arm of `observe` for an unhealthy monitor.
unfoldable pub observe_unhealthy :
    ReceiveClockMonitor
    → ReceiveClockFault
    → ℕ
    → ℕ
    → ClockSample
    → ℕ
    → ReceiveClockTransition × ReceiveClockMonitor
observe_unhealthy m fault progress required s at =
    if is_generation_changed fault
    then reply stayed_unhealthy (snapshot m at)
    else elim (recovery_fault m.config m.recovery_last s) [
      | some new_fault ↦ latch m new_fault at (some s)
      | none ↦ recover m fault progress required s at
    ]

unfoldable pub observe_in :
    ReceiveClockState
    → ReceiveClockMonitor
    → ClockSample
    → ℕ
    → ReceiveClockTransition × ReceiveClockMonitor
observe_in healthy m s at = observe_healthy m s at
observe_in (unhealthy fault progress required) m s at =
    observe_unhealthy m fault progress required s at

unfoldable pub observe :
    ReceiveClockMonitor → GenerationClockSample → ℕ → ReceiveClockTransition × ReceiveClockMonitor
observe m o at =
    if o.generation == m.generation
    then elim (checked_sub at o.sample.monotonic) [
      | none ↦ latch m timeline_regressed at none
      | some delay ↦
          if ltb m.config.max_sampling_delay_millis delay
          then latch m (sampling_delayed delay) at none
          else observe_in m.state m o.sample at
    ]
    else latch m process_generation_changed at none

unfoldable pub align_window :
    ReceiveClockMonitor → Ft8ReceiveWindow → ℤ → ℕ → Result ReceiveClockFault ReceiveWindowAlignment
unfolding ◌+ℤ◌ ◌-ℤ◌
align_window m w slot age = do
  let utc_delta = slot -ℤ m.last_accepted.utc
  predicted ←
      ok_or (try_unsigned u64_max (pos m.last_accepted.monotonic +ℤ utc_delta))
        ReceiveClockFault.arithmetic_overflow
  divergence ←
      ok_or (try_i64 (pos w.mapping.monotonic_millis -ℤ pos predicted))
        ReceiveClockFault.arithmetic_overflow
  if ltb m.config.jump_tolerance_millis (abs divergence)
      then err (window_misaligned divergence)
      else ok (record { slot = slot; slot_start_monotonic = predicted; mapping_age_millis = age })

-- The arm of `gate` for a window, at the state that the snapshot shows.
unfoldable pub gate_window :
    ReceiveClockState
    → ReceiveClockMonitor
    → Ft8ReceiveWindow
    → ℕ
    → ClockGatedTimelineEvent × ReceiveClockMonitor
gate_window (unhealthy fault p r) m w age = (window_rejected w.slot_start_utc_millis fault, m)
gate_window healthy m w age = elim (align_window m w w.slot_start_utc_millis age) [
  | ok alignment ↦ (window_ready w alignment, m)
  | err fault ↦ (
    window_rejected w.slot_start_utc_millis fault,
    record m { state = unhealthy fault 0 m.config.recovery_samples; recovery_last = none },
  )
]

unfoldable pub gate :
    ReceiveClockMonitor → ReceiveTimelineEvent → ℕ → ClockGatedTimelineEvent × ReceiveClockMonitor
gate m (ReceiveTimelineEvent.incomplete i) at = (still_incomplete i, m)
gate m (ReceiveTimelineEvent.window w) at =
    let (snap, m') = snapshot m at in gate_window snap.state m' w snap.mapping_age_millis

-- `ReceiveClockDriver::poll`, given what its source returns.
unfoldable pub poll :
    Result ReceiveClockError GenerationClockSample
    → Exec ReceiveClockMonitor ReceiveClockError ReceiveClockPoll
poll (err e) m = (err e, m)
poll (ok o) m = elim (next_sample_due m) [
  | err e ↦ (err e, m)
  | ok due ↦
      if ltb o.sample.monotonic due
      then (ok (not_due due), m)
      else let (transition, m') = observe m o o.sample.monotonic in (ok (observed transition), m')
]
