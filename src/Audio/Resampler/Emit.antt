-- ===== src/Audio/Resampler/Emit.antt =====
-- crates/audio/src/timeline.rs: the loop of `RationalResampler::push_sample`.
use slotpilot.Prelude.{ℕ, zero, suc, true, false, if◌then◌else◌, ◌==◌}
use slotpilot.Prelude.Int.{ℤ, pos, ◌+ℤ◌, ◌-ℤ◌, ◌*ℤ◌, ltb_ℤ}
use slotpilot.Prelude.Results.{Result, ok, err, ok_or, Exec, ◌>>=◌, also}
use slotpilot.Audio.Batch.{ft8_receive_sample_rate_hz}
use slotpilot.Audio.Slot.{ReceiveTimelineError, arithmetic_overflow, out_of_order}
use slotpilot.Audio.Resampler.Accumulator.{ticks_per_millisecond, wide}
use slotpilot.Audio.Resampler.Interpolate.{interpolate}
use slotpilot.Audio.Resampler.State.{RationalResampler}
use slotpilot.Audio.Resampler.Output.{Output, push_output}

-- The position of the next output on the source axis, in units of 1 / (12000 rate) seconds.
unfoldable pub target_source_tick : RationalResampler → Result ReceiveTimelineError ℤ
unfolding ◌-ℤ◌ ◌*ℤ◌
target_source_tick r = do
  anchor_tick ← wide (r.anchor.utc_unix_millis *ℤ pos ticks_per_millisecond)
  from_anchor ← wide (r.next_output_tick -ℤ anchor_tick)
  wide (from_anchor *ℤ pos r.source_rate_hz)

-- The value of the next output between the previous sample and this one.
unfoldable pub value_at : RationalResampler → ℕ → ℤ → ℤ → ℤ → Result ReceiveTimelineError ℤ
value_at r position_delta sample current target = do
  previous ← ok_or r.previous arithmetic_overflow
  previous_tick ← wide (pos previous.0 *ℤ pos ft8_receive_sample_rate_hz)
  if ltb_ℤ target previous_tick
      then err out_of_order
      else if position_delta == previous.0
      then ok previous.1
      else interpolate previous.1 sample (target -ℤ previous_tick) (current -ℤ previous_tick)

-- `self.next_output_tick.checked_add(1)`.
unfoldable pub next_tick : Exec Output ReceiveTimelineError (Unit {0})
next_tick o = elim (wide (o.resampler.next_output_tick +ℤ pos 1)) [
  | err e ↦ (err e, o)
  | ok tick ↦ (ok tt, record o { resampler = record o.resampler { next_output_tick = tick } })
]

-- One output: its value goes to the accumulator, and the tick advances.
unfoldable pub emit : ℤ → Exec Output ReceiveTimelineError (Unit {0})
emit value o = also (push_output value o) next_tick

-- The `loop`, with fuel; it ends where the next output lies behind this sample.
unfoldable pub emit_up_to : ℕ → ℕ → ℤ → ℤ → Exec Output ReceiveTimelineError (Unit {0})
emit_up_to zero position_delta sample current o = (ok tt, o)
emit_up_to (suc fuel) position_delta sample current o = elim (target_source_tick o.resampler) [
  | err e ↦ (err e, o)
  | ok target ↦ elim (ltb_ℤ current target) [
    | true ↦ (ok tt, o)
    | false ↦ elim (value_at o.resampler position_delta sample current target) [
      | err e ↦ (err e, o)
      | ok value ↦ also (emit value o) (emit_up_to fuel position_delta sample current)
    ]
  ]
]
