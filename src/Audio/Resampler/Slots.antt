-- ===== src/Audio/Resampler/Slots.antt =====
-- crates/audio/src/timeline.rs: the accumulator that `RationalResampler::push_output` adds to is
-- that of the output's slot.
use slotpilot.Prelude.{
  drop_all, not-eq_false, ap, length-drop, not-eq_true, Bool-cases, true, false, ℕ, ◌+◌, ◌-◌, ◌*◌,
  ◌/◌, ◌%◌, ◌<◌, ◌≡◌, ◌⊎◌, inl, inr, refl, sym, ◌∙◌, arith, List, [], ◌∷◌, length, All, Option,
  none, some, All-append,
}
use slotpilot.Prelude.Int.{ℤ, pos, eqb_ℤ}
use slotpilot.Prelude.Results.{ok, ok-injective}
use slotpilot.Audio.Batch.{CaptureTimeEvidence}
use slotpilot.Audio.Slot.{ReceiveTimelineEvent, IncompleteFt8Slot}
use slotpilot.Audio.Resampler.Accumulator.{
  WindowAccumulator, new_accumulator, ticks_per_millisecond,
}
use slotpilot.Audio.Resampler.Output.{Output, open_slot, leftover, is_due, push_event}
use slotpilot.Audio.Resampler.Loop.{IsAt}
use slotpilot.Audio.Resampler.Windows.{IsPublished, IsFirstSlot, IsOpen, ActiveIsOpen, Holds}
use slotpilot.Audio.Resampler.Opening.{
  slot_tick_of-pos, tick, open_slot-kept, open_slot-IsReopened, new_accumulator-fields, IsLate,
  incomplete_event-cases,
}

-- The accumulator is there, and the next output lies in its slot.
pub record IsOpened (u : ℕ) (values : List ℤ) (o : Output) : Type 0 where
  pub at : IsAt o.resampler u (length values)
  pub accumulator : WindowAccumulator
  pub active : o.resampler.active ≡ some accumulator
  pub open_now : IsOpen (u * ticks_per_millisecond) values accumulator
  pub inside : u * ticks_per_millisecond + length values < 12 * open_now.millis + 180000
  pub events : All (IsPublished (u * ticks_per_millisecond) values) o.events

-- The slot start of the next output.
abbrev millis_of : ℕ → ℕ
millis_of n = n / 180000 * 15000

-- An accumulator that the next output does not belong to is at the end of its slot.
at_end :
    (t : ℕ) (values : List ℤ) (a : WindowAccumulator) (h : IsOpen t values a)
    → eqb_ℤ a.slot_tick (pos (12 * millis_of (t + length values))) ≡ false
    → t + length values ≡ 12 * h.millis + 180000
at_end t values a h e =
    let f : eqb_ℤ (pos (12 * h.millis)) (pos (12 * millis_of (t + length values))) ≡ false =
      rw h.slot_tick at e in
    ground (arith, h.inside, h.reached, h.not_beyond, h.aligned, f)

inside_slot :
    (t : ℕ) (values : List ℤ) (a : WindowAccumulator) (h : IsOpen t values a)
    → eqb_ℤ a.slot_tick (pos (12 * millis_of (t + length values))) ≡ true
    → t + length values < 12 * h.millis + 180000
inside_slot t values a h e =
    let f : eqb_ℤ (pos (12 * h.millis)) (pos (12 * millis_of (t + length values))) ≡ true =
      rw h.slot_tick at e in
    ground (arith, h.inside, h.reached, h.not_beyond, h.aligned, f)

late_start :
    (t : ℕ) (values : List ℤ) (a : WindowAccumulator) (h : IsOpen t values a)
    → t + length values ≡ 12 * h.millis + 180000
    → (eqb_ℤ a.first_tick a.slot_tick ≡ false) × (h.first ≡ t) × (12 * h.millis < t)
late_start t values a h e =
    let late : 12 * h.millis < h.first = omega (arith, e, h.partial) in
    let first : h.first ≡ t = omega (arith, h.begins, late) in
    let f : eqb_ℤ (pos h.first) (pos (12 * h.millis)) ≡ false = ground (arith, late) in
    (rw (h.first_tick, h.slot_tick) f, first, omega (arith, first, late))

-- What a finished accumulator reports is the slot under way at the first output.
finished :
    (t : ℕ) (values : List ℤ) (a : WindowAccumulator) (h : IsOpen t values a)
    (s : IncompleteFt8Slot)
    → t + length values ≡ 12 * h.millis + 180000
    → IsLate a s
    → IsFirstSlot t values s
finished t values a h s e l =
    let late = late_start t values a h e in
    let held : length a.samples ≡ length values - (h.first - t) =
      ap length h.samples ∙ length-drop (h.first - t) values in
    record {
      millis = h.millis;
      slot = l.slot ∙ h.slot;
      aligned = h.aligned;
      starts = late.2;
      under_way = omega (arith, late.1, e, held, l.held);
      ends = omega (arith, e);
      reason = l.reason;
      count = l.count ∙ held ∙ omega (arith, late.1, e);
    }

-- The event of the old accumulator is right.
pushed :
    (t : ℕ) (values : List ℤ) (active : Option WindowAccumulator)
    (event : Option ReceiveTimelineEvent) (events : List ReceiveTimelineEvent)
    → ActiveIsOpen t values active
    → is_due active (pos (12 * millis_of (t + length values))) ≡ true
    → leftover active ≡ ok event
    → All (IsPublished t values) events
    → All (IsPublished t values) (push_event event events)
pushed t values none event events h due l all = rw (sym (ok-injective (leftover none) refl l)) all
pushed t values (some a) event events h due l all =
    let e = at_end t values a h (not-eq_true due) in
    elim (incomplete_event-cases a event (late_start t values a h e).0 l) [
      | inl none_there ↦ rw none_there all
      | inr (s, there, late) ↦ rw there (
          All-append (IsPublished t values) events (ReceiveTimelineEvent.incomplete s ∷ []) all
            (finished t values a h s e late, tt))
    ]

-- A new accumulator starts at its slot's boundary, or at the first output.
boundary :
    (t : ℕ) (values : List ℤ) (active : Option WindowAccumulator)
    → ActiveIsOpen t values active
    → is_due active (pos (12 * millis_of (t + length values))) ≡ true
    → (t + length values ≡ 12 * millis_of (t + length values)) ⊎ (t + length values ≡ t)
boundary t values none (inl h) due = inr (omega (arith, h))
boundary t values none (inr h) due = inl (omega (arith, h))
boundary t values (some a) h due =
    let e = at_end t values a h (not-eq_true due) in let m = h.aligned in inl (omega (arith, e, m))

kept-IsOpen :
    (t : ℕ) (values : List ℤ) (active : Option WindowAccumulator)
    → ActiveIsOpen t values active
    → is_due active (pos (12 * millis_of (t + length values))) ≡ false
    → (a : WindowAccumulator) × (active ≡ some a)
      × (h : IsOpen t values a) × (t + length values < 12 * h.millis + 180000)
kept-IsOpen t values none h due = cc
kept-IsOpen t values (some a) h due = (a, refl, h, inside_slot t values a h (not-eq_false due))

new-IsOpen :
    (t : ℕ) (values : List ℤ) (mapping : CaptureTimeEvidence) (a : WindowAccumulator)
    → new_accumulator (pos (12 * millis_of (t + length values))) (pos (t + length values)) mapping
      ≡ ok a
    → (t + length values ≡ 12 * millis_of (t + length values)) ⊎ (t + length values ≡ t)
    → (h : IsOpen t values a) × (t + length values < 12 * h.millis + 180000)
new-IsOpen t values mapping a e begins =
    let n = t + length values in
    let m = millis_of n in
    let aligned : m % 15000 ≡ 0 = omega arith in
    let f = new_accumulator-fields m (pos n) mapping a aligned e in
    rw f (
      record {
        millis = m;
        first = n;
        slot = refl;
        slot_tick = refl;
        first_tick = refl;
        aligned = aligned;
        inside = omega arith;
        begins = begins;
        not_before = omega arith;
        reached = omega arith;
        not_beyond = omega arith;
        partial = omega arith;
        samples = sym (drop_all (n - t) values (omega arith));
      },
      omega arith,
    )

pub open_slot-IsOpened :
    (u : ℕ) (values : List ℤ) (o : Output)
    → Holds u values o
    → (open_slot o).0 ≡ ok tt
    → IsOpened u values (open_slot o).1
open_slot-IsOpened u values o h e =
    let t = u * ticks_per_millisecond in
    let n = t + length values in
    let here : tick o ≡ pos (12 * millis_of n) = rw h.at.next (slot_tick_of-pos n) in
    elim (Bool-cases (is_due o.resampler.active (tick o))) [
      | inl due ↦
          let r = open_slot-IsReopened o due e in
          let due' = rw here at due in
          let opened = rw (here, h.at.next) at r.opened in
          let is_open =
            new-IsOpen t values r.mapping r.accumulator opened
              (boundary t values o.resampler.active h.active due') in
          rw r.result (record {
            at = record { start = h.at.start; next = h.at.next };
            accumulator = r.accumulator;
            active = refl;
            open_now = is_open.0;
            inside = is_open.1;
            events =
                pushed t values o.resampler.active r.event o.events h.active due' r.closed h.events;
          })
      | inr due ↦
          let (a, active, is_open, inside) =
            kept-IsOpen t values o.resampler.active h.active (rw here at due) in
          rw (open_slot-kept o due) (record {
            at = h.at;
            accumulator = a;
            active = active;
            open_now = is_open;
            inside = inside;
            events = h.events;
          })
    ]
