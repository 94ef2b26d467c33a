-- ===== src/ReceiveClock.antt =====
-- crates/operations/src/receive_clock.rs: the policy, the states and the evidence of the receive
-- clock. The monitor stands in ReceiveClock/Monitor.antt.
pub mod Monitor
pub mod Compare
pub mod Invariant
pub mod Gate
pub mod Report
pub mod Recovery
pub mod Generation
mod Examples
use slotpilot.Prelude.{ℕ, ◌+◌, ◌-◌, ◌/◌, Option, none, some, if◌then◌else◌, ltb, ◌==◌, ◌||◌}
use slotpilot.Prelude.Int.{ℤ, pos}
use slotpilot.Prelude.Words.{checked_add, u64_max, i64_max, try_i64, try_unsigned}
use slotpilot.Prelude.Results.{Result, ok, err, ok_or, map_err, ◌>>=◌}
use slotpilot.Time.{ClockSample, from_unix_millis}
use slotpilot.Audio.Batch.{Ft8ReceiveWindow}
use slotpilot.Audio.Slot.{IncompleteFt8Slot}

pub data ReceiveClockError : Type 0 where
  invalid_generation invalid_configuration system_clock_before_epoch : ReceiveClockError
  arithmetic_overflow : ReceiveClockError

pub new_process_generation : ℕ → Result ReceiveClockError ℕ
new_process_generation value = if value == 0 then err invalid_generation else ok value

pub record GenerationClockSample : Type 0 where
  pub generation : ℕ
  pub sample : ClockSample

duration_millis : ℕ → Result ReceiveClockError ℕ
duration_millis millis = ok_or (try_unsigned u64_max (pos millis)) arithmetic_overflow

-- `SystemClock::sample`, from what the two monotonic readings and the UTC reading between them
-- give in milliseconds; `none` is a UTC clock before the epoch.
pub system_sample : ℕ → ℕ → Option ℕ → ℕ → Result ReceiveClockError GenerationClockSample
unfolding duration_millis from_unix_millis
system_sample generation elapsed_before since_epoch elapsed_after = do
  before ← duration_millis elapsed_before
  since ← ok_or since_epoch system_clock_before_epoch
  after ← duration_millis elapsed_after
  midpoint ← ok_or (checked_add u64_max before ((after - before) / 2)) arithmetic_overflow
  millis ← ok_or (try_i64 (pos since)) arithmetic_overflow
  utc ← map_err (λ _. system_clock_before_epoch) (from_unix_millis millis)
  ok (record { generation = generation; sample = record { utc = utc; monotonic = midpoint } })

pub record ReceiveClockConfig : Type 0 where
  pub sample_cadence_millis : ℕ
  pub freshness_millis : ℕ
  pub max_sample_gap_millis : ℕ
  pub jump_tolerance_millis : ℕ
  pub max_sampling_delay_millis : ℕ
  pub recovery_samples : ℕ

-- `ReceiveClockConfig::new` over the record of its arguments.
unfoldable pub new_config : ReceiveClockConfig → Result ReceiveClockError ReceiveClockConfig
new_config c =
    if ltb c.sample_cadence_millis 10
      || ltb 10000 c.sample_cadence_millis
      || ltb c.freshness_millis c.sample_cadence_millis
      || ltb 60000 c.freshness_millis
      || ltb c.max_sample_gap_millis c.sample_cadence_millis
      || ltb 300000 c.max_sample_gap_millis
      || ltb 5000 c.jump_tolerance_millis
      || ltb c.sample_cadence_millis c.max_sampling_delay_millis
      || ltb c.recovery_samples 2
      || ltb 10 c.recovery_samples
    then err invalid_configuration
    else ok c

abbrev pub default_config : ReceiveClockConfig
default_config = record {
  sample_cadence_millis = 1000;
  freshness_millis = 2500;
  max_sample_gap_millis = 5000;
  jump_tolerance_millis = 100;
  max_sampling_delay_millis = 250;
  recovery_samples = 3;
}

pub data ReceiveClockFault : Type 0 where
  process_generation_changed timeline_regressed arithmetic_overflow : ReceiveClockFault
  utc_jump window_misaligned : ℤ → ReceiveClockFault
  stale_mapping sampling_delayed sample_gap : ℕ → ReceiveClockFault

-- `unhealthy fault progress required`.
pub data ReceiveClockState : Type 0 where
  healthy : ReceiveClockState
  unhealthy : ReceiveClockFault → ℕ → ℕ → ReceiveClockState

pub record ReceiveClockSnapshot : Type 0 where
  pub generation : ℕ
  pub state : ReceiveClockState
  pub last_accepted : ClockSample
  pub observed_at : ℕ
  pub mapping_age_millis : ℕ
  pub next_sample_due : ℕ

pub data ReceiveClockTransition : Type 0 where
  stayed_healthy became_unhealthy recovering recovered stayed_unhealthy :
      ReceiveClockSnapshot → ReceiveClockTransition

pub data ReceiveClockPoll : Type 0 where
  not_due : ℕ → ReceiveClockPoll
  observed : ReceiveClockTransition → ReceiveClockPoll

pub record ReceiveWindowAlignment : Type 0 where
  pub slot : ℤ
  pub slot_start_monotonic : ℕ
  pub mapping_age_millis : ℕ

pub data ClockGatedTimelineEvent : Type 0 where
  window_ready : Ft8ReceiveWindow → ReceiveWindowAlignment → ClockGatedTimelineEvent
  window_rejected : ℤ → ReceiveClockFault → ClockGatedTimelineEvent
  still_incomplete : IncompleteFt8Slot → ClockGatedTimelineEvent
