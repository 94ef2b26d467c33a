-- ===== src/Audio/Resampler/Completion.antt =====
-- crates/audio/src/timeline.rs: `RationalResampler::push_output` publishes a slot with its last
-- output.
use slotpilot.Prelude.Int.{pos}
use slotpilot.Prelude.{
  ◌≤◌, ◌%◌, ◌==◌, ap, true, ℕ, suc, ◌+◌, ◌*◌, ◌<◌, ◌≡◌, refl, ◌∙◌, arith, List, [], ◌∷◌, ◌++◌,
  length,
}
use slotpilot.Prelude.Int.{ℤ}
use slotpilot.Prelude.Results.{ok, also-eq_ok}
use slotpilot.Audio.Batch.{Ft8ReceiveWindow}
use slotpilot.Audio.Slot.{ReceiveTimelineEvent}
use slotpilot.Audio.Resampler.Accumulator.{WindowAccumulator, ticks_per_millisecond}
use slotpilot.Audio.Resampler.Output.{Output, push_output, open_slot, add_sample}
use slotpilot.Audio.Resampler.Emit.{next_tick, emit}
use slotpilot.Audio.Resampler.Windows.{IsOpen, Holds}
use slotpilot.Audio.Resampler.Slots.{IsOpened, open_slot-IsOpened}
use slotpilot.Audio.Resampler.Publication.{
  with_sample, added_length, add_sample-published, complete_window-fields, next_tick-kept,
}

-- A slot that starts at or after the first output and ends with the output now added is the slot
-- of the accumulator, which began at its boundary.
whole :
    (t : ℕ) (values : List ℤ) (v : ℤ) (a : WindowAccumulator) (h : IsOpen t values a) (m : ℕ)
    → t + length values < 12 * h.millis + 180000
    → m % 15000 ≡ 0
    → t ≤ 12 * m
    → suc (t + length values) ≡ 12 * m + 180000
    → (h.millis ≡ m) × (length (a.samples ++ v ∷ []) ≡ 180000)
whole t values v a h m inside aligned after last =
    let same : h.millis ≡ m =
      omega (arith, inside, aligned, last, h.aligned, h.inside, h.reached) in
    let first : h.first ≡ 12 * m = omega (arith, same, h.begins, h.inside, after, h.not_before) in
    (same, omega (arith, added_length t values v a h, first, last))

pub record IsCompleted (m : ℕ) (o : Output) : Type 0 where
  pub before : List ReceiveTimelineEvent
  pub completed : Ft8ReceiveWindow
  pub events : o.events ≡ before ++ ReceiveTimelineEvent.window completed ∷ []
  pub slot : completed.slot_start_utc_millis ≡ pos m

add_sample-IsCompleted :
    (u : ℕ) (values : List ℤ) (v : ℤ) (o : Output) (m : ℕ)
    → IsOpened u values o
    → (add_sample v o).0 ≡ ok tt
    → m % 15000 ≡ 0
    → u * ticks_per_millisecond ≤ 12 * m
    → suc (u * ticks_per_millisecond + length values) ≡ 12 * m + 180000
    → IsCompleted m (add_sample v o).1
add_sample-IsCompleted u values v o m i h aligned after last =
    let t = u * ticks_per_millisecond in
    let a = i.accumulator in
    let (same, count) = whole t values v a i.open_now m i.inside aligned after last in
    let all : (length (a.samples ++ v ∷ []) == 180000) ≡ true = rw count refl in
    let (w, c, e) = add_sample-published v o a i.active all h in
    let fields = complete_window-fields o.resampler (with_sample a v) w c in
    rw e (record {
      before = o.events;
      completed = w;
      events = refl;
      slot = fields.0 ∙ i.open_now.slot ∙ ap pos same;
    })

-- In every state that the outputs `values` lead to: when the next output is the last one of a slot
-- that starts at or after the first output, an `emit` that succeeds publishes the window of that
-- slot, as its last event.
pub emit-IsCompleted :
    (u : ℕ) (values : List ℤ) (v : ℤ) (o : Output) (m : ℕ)
    → Holds u values o
    → (emit v o).0 ≡ ok tt
    → m % 15000 ≡ 0
    → u * ticks_per_millisecond ≤ 12 * m
    → suc (u * ticks_per_millisecond + length values) ≡ 12 * m + 180000
    → IsCompleted m (emit v o).1
unfolding emit push_output
emit-IsCompleted u values v o m h e aligned after last =
    let outer = also-eq_ok (push_output v o) next_tick e in
    let inner = also-eq_ok (open_slot o) (add_sample v) outer.0 in
    let opened = open_slot-IsOpened u values o h inner.0 in
    let added =
      add_sample-IsCompleted u values v (open_slot o).1 m opened inner.1 aligned after last in
    let kept = next_tick-kept (add_sample v (open_slot o).1).1 in
    rw (outer.2, inner.2)
      (record {
        before = added.before;
        completed = added.completed;
        events = kept.0 ∙ added.events;
        slot = added.slot;
      })
