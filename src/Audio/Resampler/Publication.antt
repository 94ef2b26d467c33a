-- ===== src/Audio/Resampler/Publication.antt =====
-- crates/audio/src/timeline.rs: every event of `RationalResampler` is right about the outputs.
use slotpilot.Prelude.{
  ◌==◌, take_all, drop-append, ◌≢◌, ap, length-drop, Bool-cases, true, false, ℕ, suc, ◌+◌, ◌-◌, ◌*◌,
  ◌<◌, ◌≡◌, inl, inr, refl, sym, ◌∙◌, arith, List, [], ◌∷◌, ◌++◌, length, length-append, take, drop,
  All, none, some, All-map, All-append,
}
use slotpilot.Prelude.Int.{ℤ}
use slotpilot.Prelude.Results.{ok, also-eq_ok, Result-cases, ok-ne-err}
use slotpilot.Audio.Batch.{Ft8ReceiveWindow, new_window}
use slotpilot.Audio.Slot.{ReceiveTimelineEvent}
use slotpilot.Audio.Resampler.Accumulator.{WindowAccumulator, ticks_per_millisecond}
use slotpilot.Audio.Resampler.State.{RationalResampler}
use slotpilot.Audio.Resampler.Output.{Output, push_output, open_slot, add_sample, complete_window}
use slotpilot.Audio.Resampler.Emit.{next_tick, emit}
use slotpilot.Audio.Resampler.Loop.{next_tick-IsEmitted, IsAt}
use slotpilot.Audio.Resampler.Windows.{
  IsSlotWindow, IsPublished-append, IsPublished, IsOpen, ActiveIsOpen, Holds,
}
use slotpilot.Audio.Resampler.Slots.{IsOpened, open_slot-IsOpened}

pub complete_window-fields :
    (r : RationalResampler) (a : WindowAccumulator) (w : Ft8ReceiveWindow)
    → complete_window r a ≡ ok w
    → (w.slot_start_utc_millis ≡ a.slot) × (w.samples ≡ a.samples)
unfolding complete_window new_window
complete_window-fields r a w h = ground arith

abbrev pub with_sample : WindowAccumulator → ℤ → WindowAccumulator
with_sample a v = record a { samples = a.samples ++ v ∷ [] }

-- The tick has yet to advance over the output that was added.
pub record IsAdded (u : ℕ) (values : List ℤ) (v : ℤ) (o : Output) : Type 0 where
  at : IsAt o.resampler u (length values)
  active : ActiveIsOpen (u * ticks_per_millisecond) (values ++ v ∷ []) o.resampler.active
  events : All (IsPublished (u * ticks_per_millisecond) (values ++ v ∷ [])) o.events

module _ (t : ℕ) (values : List ℤ) (v : ℤ) (a : WindowAccumulator) (h : IsOpen t values a) where
  one_more : length (values ++ v ∷ []) ≡ suc (length values)
  one_more = omega (arith, length-append values (v ∷ []))

  added_samples : a.samples ++ v ∷ [] ≡ drop (h.first - t) (values ++ v ∷ [])
  added_samples =
      ap (λ xs. xs ++ v ∷ []) h.samples
      ∙ sym (drop-append (h.first - t) values (v ∷ []) (omega (arith, h.reached)))

  pub added_length : length (a.samples ++ v ∷ []) ≡ suc (t + length values) - h.first
  added_length =
      ap length added_samples
      ∙ length-drop (h.first - t) (values ++ v ∷ [])
      ∙ omega (arith, one_more, h.reached, h.not_before)

  still-IsOpen :
      t + length values < 12 * h.millis + 180000
      → length (a.samples ++ v ∷ []) ≢ 180000
      → IsOpen t (values ++ v ∷ []) (with_sample a v)
  still-IsOpen inside short = record {
    millis = h.millis;
    first = h.first;
    slot = h.slot;
    slot_tick = h.slot_tick;
    first_tick = h.first_tick;
    aligned = h.aligned;
    inside = h.inside;
    begins = h.begins;
    not_before = h.not_before;
    reached = omega (arith, one_more, h.reached);
    not_beyond = omega (arith, one_more, inside);
    partial = omega (arith, one_more, added_length, short, h.partial);
    samples = added_samples;
  }

  -- A full accumulator began at its slot's boundary and is now at its end.
  full :
      t + length values < 12 * h.millis + 180000
      → length (a.samples ++ v ∷ []) ≡ 180000
      → (h.first ≡ 12 * h.millis) × (t + length (values ++ v ∷ []) ≡ 12 * h.millis + 180000)
  full inside e =
      let f : h.first ≡ 12 * h.millis = omega (arith, added_length, e, inside, h.inside) in
      (f, omega (arith, added_length, e, f, one_more))

  full_window :
      (w : Ft8ReceiveWindow)
      → t + length values < 12 * h.millis + 180000
      → length (a.samples ++ v ∷ []) ≡ 180000
      → (w.slot_start_utc_millis ≡ a.slot) × (w.samples ≡ a.samples ++ v ∷ [])
      → IsSlotWindow t (values ++ v ∷ []) w
  full_window w inside e fields =
      let (begin, end) = full inside e in
      record {
        millis = h.millis;
        slot = fields.0 ∙ h.slot;
        aligned = h.aligned;
        starts = omega (arith, begin, h.not_before);
        ends = omega (arith, end);
        outputs =
            fields.1
            ∙ sym (take_all 180000 (a.samples ++ v ∷ []) e)
            ∙ ap (take 180000) (rw begin at added_samples);
      }

module _ (v : ℤ) (o : Output) (a : WindowAccumulator) (active : o.resampler.active ≡ some a) where
  add_sample-kept :
      (length (a.samples ++ v ∷ []) == 180000) ≡ false
      → add_sample v o
        ≡ (ok tt, record o { resampler = record o.resampler { active = some (with_sample a v) } })
  unfolding add_sample
  add_sample-kept b = rw (add_sample, active, b) refl

  pub add_sample-published :
      (length (a.samples ++ v ∷ []) == 180000) ≡ true
      → (add_sample v o).0 ≡ ok tt
      → (w : Ft8ReceiveWindow) × (complete_window o.resampler (with_sample a v) ≡ ok w)
        × ((add_sample v o).1 ≡ record {
          resampler = record o.resampler { active = none };
          events = o.events ++ ReceiveTimelineEvent.window w ∷ [];
        })
  unfolding add_sample
  add_sample-published b h = elim (Result-cases (complete_window o.resampler (with_sample a v))) [
    | inr (e, c) ↦ absurd (ok-ne-err {e = e} (sym h ∙ rw (add_sample, active, b, c) refl))
    | inl (w, c) ↦ (w, c, rw (add_sample, active, b, c) refl)
  ]

events_grow :
    (t : ℕ) (values : List ℤ) (v : ℤ) (events : List ReceiveTimelineEvent)
    → All (IsPublished t values) events
    → All (IsPublished t (values ++ v ∷ [])) events
events_grow t values v =
    All-map (IsPublished t values) (IsPublished t (values ++ v ∷ []))
      (IsPublished-append t values (v ∷ []))

pub add_sample-IsAdded :
    (u : ℕ) (values : List ℤ) (v : ℤ) (o : Output)
    → IsOpened u values o
    → (add_sample v o).0 ≡ ok tt
    → IsAdded u values v (add_sample v o).1
add_sample-IsAdded u values v o i h =
    let t = u * ticks_per_millisecond in
    let a = i.accumulator in
    let grown = events_grow t values v o.events i.events in
    elim (Bool-cases (length (a.samples ++ v ∷ []) == 180000)) [
      | inr short ↦ rw (add_sample-kept v o a i.active short) (record {
        at = record { start = i.at.start; next = i.at.next };
        active = still-IsOpen t values v a i.open_now i.inside (ground (arith, short));
        events = grown;
      })
      | inl all ↦
          let (w, c, e) = add_sample-published v o a i.active all h in
          let count : length (a.samples ++ v ∷ []) ≡ 180000 = ground (arith, all) in
          let is_window =
            full_window t values v a i.open_now w i.inside count
              (complete_window-fields o.resampler (with_sample a v) w c) in
          let end = (full t values v a i.open_now i.inside count).1 in
          rw e (record {
            at = record { start = i.at.start; next = i.at.next };
            active = inr (omega (arith, end, i.open_now.aligned));
            events =
                All-append (IsPublished t (values ++ v ∷ [])) o.events
                  (ReceiveTimelineEvent.window w ∷ []) grown (is_window, tt);
          })
    ]

pub next_tick-kept :
    (o : Output)
    → ((next_tick o).1.events ≡ o.events) × ((next_tick o).1.resampler.active ≡ o.resampler.active)
unfolding next_tick
next_tick-kept o = ground arith

next_tick-Holds :
    (u : ℕ) (values : List ℤ) (v : ℤ) (o : Output)
    → IsAdded u values v o
    → (next_tick o).0 ≡ ok tt
    → Holds u (values ++ v ∷ []) (next_tick o).1
next_tick-Holds u values v o a h =
    let (events, active) = next_tick-kept o in
    let moved = next_tick-IsEmitted o u (length values) a.at h in
    let count : length (values ++ v ∷ []) ≡ suc (length values) =
      omega (arith, length-append values (v ∷ [])) in
    record { at = rw count moved.at; active = rw active a.active; events = rw events a.events }

-- An output that succeeds joins the list of outputs.
pub emit-Holds :
    (u : ℕ) (values : List ℤ) (v : ℤ) (o : Output)
    → Holds u values o
    → (emit v o).0 ≡ ok tt
    → Holds u (values ++ v ∷ []) (emit v o).1
unfolding emit push_output
emit-Holds u values v o h e =
    let outer = also-eq_ok (push_output v o) next_tick e in
    let inner = also-eq_ok (open_slot o) (add_sample v) outer.0 in
    let opened = open_slot-IsOpened u values o h inner.0 in
    let added = add_sample-IsAdded u values v (open_slot o).1 opened inner.1 in
    rw (outer.2, inner.2)
      (next_tick-Holds u values v (add_sample v (open_slot o).1).1 added (rw inner.2 at outer.1))
