-- ===== src/Audio/Resampler/Windows.antt =====
-- crates/audio/src/timeline.rs: what `RationalResampler::push_output` publishes, against the whole
-- list of outputs since the anchor.
use slotpilot.Prelude.{
  ℕ, ◌+◌, ◌-◌, ◌*◌, ◌%◌, ◌<◌, ◌≤◌, ◌≡◌, ◌⊎◌, sym, ◌∙◌, arith, List, ◌++◌, length, length-append,
  take, drop, All, Option, none, some, slice-append,
}
use slotpilot.Prelude.Int.{ℤ, pos}
use slotpilot.Audio.Batch.{Ft8ReceiveWindow}
use slotpilot.Audio.Slot.{ReceiveTimelineEvent, IncompleteFt8Slot, capture_started_late}
use slotpilot.Audio.Resampler.Accumulator.{WindowAccumulator, ticks_per_millisecond}
use slotpilot.Audio.Resampler.Output.{Output}
use slotpilot.Audio.Resampler.Loop.{IsAt}

-- Of the outputs `values`, whose first has tick `t`: the slot that starts at m milliseconds lies
-- within them, and the window holds its 180000 outputs in order.
pub record IsSlotWindow (t : ℕ) (values : List ℤ) (w : Ft8ReceiveWindow) : Type 0 where
  pub millis : ℕ
  pub slot : w.slot_start_utc_millis ≡ pos millis
  pub aligned : millis % 15000 ≡ 0
  pub starts : t ≤ 12 * millis
  pub ends : 12 * millis + 180000 ≤ t + length values
  pub outputs : w.samples ≡ take 180000 (drop (12 * millis - t) values)

-- The slot that was under way at the first output, once its end has passed.
pub record IsFirstSlot (t : ℕ) (values : List ℤ) (s : IncompleteFt8Slot) : Type 0 where
  pub millis : ℕ
  pub slot : s.slot ≡ pos millis
  pub aligned : millis % 15000 ≡ 0
  pub starts : 12 * millis < t
  pub under_way : t < 12 * millis + 180000
  pub ends : 12 * millis + 180000 ≤ t + length values
  pub reason : s.reason ≡ capture_started_late
  pub count : s.accumulated_samples ≡ 12 * millis + 180000 - t

abbrev pub IsPublished : ℕ → List ℤ → ReceiveTimelineEvent → Type 0
IsPublished t values (ReceiveTimelineEvent.window w) = IsSlotWindow t values w
IsPublished t values (ReceiveTimelineEvent.incomplete s) = IsFirstSlot t values s

pub IsPublished-append :
    (t : ℕ) (values more : List ℤ) (e : ReceiveTimelineEvent)
    → IsPublished t values e
    → IsPublished t (values ++ more) e
IsPublished-append t values more (ReceiveTimelineEvent.window w) h = record {
  millis = h.millis;
  slot = h.slot;
  aligned = h.aligned;
  starts = h.starts;
  ends = omega (arith, h.ends, length-append values more);
  outputs =
      h.outputs
      ∙ sym (slice-append (12 * h.millis - t) 180000 values more (omega (arith, h.ends, h.starts)));
}
IsPublished-append t values more (ReceiveTimelineEvent.incomplete s) h = record {
  millis = h.millis;
  slot = h.slot;
  aligned = h.aligned;
  starts = h.starts;
  under_way = h.under_way;
  ends = omega (arith, h.ends, length-append values more);
  reason = h.reason;
  count = h.count;
}

-- The accumulator holds the outputs of its slot from `first` on.
pub record IsOpen (t : ℕ) (values : List ℤ) (a : WindowAccumulator) : Type 0 where
  pub millis : ℕ
  pub first : ℕ
  pub slot : a.slot ≡ pos millis
  pub slot_tick : a.slot_tick ≡ pos (12 * millis)
  pub first_tick : a.first_tick ≡ pos first
  pub aligned : millis % 15000 ≡ 0
  pub inside : 12 * millis ≤ first
  pub begins : (first ≡ 12 * millis) ⊎ (first ≡ t)
  pub not_before : t ≤ first
  pub reached : first ≤ t + length values
  pub not_beyond : t + length values ≤ 12 * millis + 180000
  pub partial : t + length values < first + 180000
  pub samples : a.samples ≡ drop (first - t) values

abbrev pub ActiveIsOpen : ℕ → List ℤ → Option WindowAccumulator → Type 0
ActiveIsOpen t values none = (length values ≡ 0) ⊎ ((t + length values) % 180000 ≡ 0)
ActiveIsOpen t values (some a) = IsOpen t values a

pub record Holds (u : ℕ) (values : List ℤ) (o : Output) : Type 0 where
  pub at : IsAt o.resampler u (length values)
  pub active : ActiveIsOpen (u * ticks_per_millisecond) values o.resampler.active
  pub events : All (IsPublished (u * ticks_per_millisecond) values) o.events
