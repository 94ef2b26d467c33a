-- ===== src/Audio/Resampler/Output.antt =====
-- crates/audio/src/timeline.rs: `RationalResampler::push_output`.
use slotpilot.Prelude.{
  Bool, true, Option, none, some, List, [], ◌∷◌, ◌++◌, length, if◌then◌else◌, ◌==◌, not,
}
use slotpilot.Prelude.Int.{ℤ, pos, ◌*ℤ◌, div_euclid, eqb_ℤ}
use slotpilot.Prelude.Results.{Result, ok, err, map_err, Exec, also}
use slotpilot.Audio.Batch.{Ft8ReceiveWindow, new_window, ft8_receive_window_samples}
use slotpilot.Audio.Slot.{ReceiveTimelineError, arithmetic_overflow, ReceiveTimelineEvent}
use slotpilot.Audio.Resampler.Accumulator.{
  ticks_per_slot, WindowAccumulator, new_accumulator, incomplete_event,
}
use slotpilot.Audio.Resampler.State.{RationalResampler, mapping_for_tick}

-- The resampler and the events that the call has produced so far.
pub record Output : Type 0 where
  pub resampler : RationalResampler
  pub events : List ReceiveTimelineEvent

abbrev pub push_event :
    Option ReceiveTimelineEvent → List ReceiveTimelineEvent → List ReceiveTimelineEvent
push_event none events = events
push_event (some e) events = events ++ e ∷ []

-- `previous.incomplete_event()?` of an accumulator that may not be there.
abbrev pub leftover :
    Option WindowAccumulator → Result ReceiveTimelineError (Option ReceiveTimelineEvent)
leftover none = ok none
leftover (some a) = incomplete_event a

-- The slot tick that the next output belongs to.
unfoldable pub slot_tick_of : ℤ → ℤ
unfolding div_euclid ◌*ℤ◌
slot_tick_of tick = div_euclid tick ticks_per_slot *ℤ pos ticks_per_slot

-- A new accumulator is due: there is none, or it is of another slot.
abbrev pub is_due : Option WindowAccumulator → ℤ → Bool
is_due none slot_tick = true
is_due (some a) slot_tick = not (eqb_ℤ a.slot_tick slot_tick)

-- The first half of `push_output`. The old accumulator is taken before anything can fail.
unfoldable pub open_slot : Exec Output ReceiveTimelineError (Unit {0})
open_slot o =
    let r = o.resampler in
    let slot_tick = slot_tick_of r.next_output_tick in
    let taken : Output = record o { resampler = record r { active = none } } in
    if is_due r.active slot_tick
    then elim (leftover r.active) [
      | err e ↦ (err e, taken)
      | ok event ↦
          let logged : Output = record taken { events = push_event event o.events } in
          elim (mapping_for_tick r slot_tick) [
            | err e ↦ (err e, logged)
            | ok mapping ↦ elim (new_accumulator slot_tick r.next_output_tick mapping) [
              | err e ↦ (err e, logged)
              | ok a ↦ (ok tt, record logged { resampler = record r { active = some a } })
            ]
          ]
    ]
    else (ok tt, o)

-- The window of a full accumulator.
unfoldable pub complete_window :
    RationalResampler → WindowAccumulator → Result ReceiveTimelineError Ft8ReceiveWindow
complete_window r a =
    map_err (λ _. arithmetic_overflow)
      (new_window (record {
        process_generation = r.process_generation;
        stream_generation = r.stream_generation;
        slot_start_utc_millis = a.slot;
        mapping = a.mapping;
        samples = a.samples;
      }))

-- The second half of `push_output`.
unfoldable pub add_sample : ℤ → Exec Output ReceiveTimelineError (Unit {0})
add_sample sample o =
    let r = o.resampler in
    elim r.active [
      | none ↦ (err arithmetic_overflow, o)
      | some a ↦
          let a' : WindowAccumulator = record a { samples = a.samples ++ sample ∷ [] } in
          if length a'.samples == ft8_receive_window_samples
          then (let taken : Output = record o { resampler = record r { active = none } } in
              elim (complete_window r a') [
                | err e ↦ (err e, taken)
                | ok w ↦ (
                  ok tt,
                  record taken { events = o.events ++ ReceiveTimelineEvent.window w ∷ [] },
                )
              ])
          else (ok tt, record o { resampler = record r { active = some a' } })
    ]

unfoldable pub push_output : ℤ → Exec Output ReceiveTimelineError (Unit {0})
push_output sample o = also (open_slot o) (add_sample sample)
