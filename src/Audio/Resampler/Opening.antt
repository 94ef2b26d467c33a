-- ===== src/Audio/Resampler/Opening.antt =====
-- crates/audio/src/timeline.rs: the first half of `RationalResampler::push_output` opens the
-- accumulator of the right slot.
use slotpilot.Prelude.{
  Bool-cases, Option-cases, true, false, ℕ, ◌*◌, ◌/◌, ◌%◌, ◌<◌, ◌≡◌, ◌⊎◌, inl, inr, refl, sym, ◌∙◌,
  arith, List, [], ◌∷◌, length, Option, none, some,
}
use slotpilot.Prelude.Int.{ℤ, pos, eqb_ℤ, ◌*ℤ◌, ◌/ℤ◌, ◌%ℤ◌, div_euclid}
use slotpilot.Prelude.Words.{try_unsigned, u32_max}
use slotpilot.Prelude.Results.{Result, ok, Result-cases, ok-ne-err}
use slotpilot.Audio.Batch.{CaptureTimeEvidence}
use slotpilot.Audio.Slot.{
  ReceiveTimelineError, arithmetic_overflow, ReceiveTimelineEvent, IncompleteFt8Slot,
  capture_started_late, new_slot,
}
use slotpilot.Audio.Resampler.Accumulator.{
  is_empty, WindowAccumulator, new_accumulator, incomplete_event,
}
use slotpilot.Audio.Resampler.State.{mapping_for_tick}
use slotpilot.Audio.Resampler.Output.{Output, open_slot, slot_tick_of, leftover, is_due, push_event}

pub slot_tick_of-pos : (n : ℕ) → slot_tick_of (pos n) ≡ pos (12 * (n / 180000 * 15000))
unfolding slot_tick_of div_euclid ◌*ℤ◌
slot_tick_of-pos n = ground arith

-- What a successful `open_slot` did when a new accumulator was due.
pub record IsReopened (o o' : Output) : Type 0 where
  pub event : Option ReceiveTimelineEvent
  pub closed : leftover o.resampler.active ≡ ok event
  pub mapping : CaptureTimeEvidence
  pub accumulator : WindowAccumulator
  pub opened :
      new_accumulator
        (slot_tick_of o.resampler.next_output_tick)
        o.resampler.next_output_tick
        mapping
      ≡ ok accumulator
  pub result : o' ≡ record {
    resampler = record o.resampler { active = some accumulator };
    events = push_event event o.events;
  }

module _ (o : Output) where
  abbrev pub tick : ℤ
  tick = slot_tick_of o.resampler.next_output_tick

  pub open_slot-kept : is_due o.resampler.active tick ≡ false → open_slot o ≡ (ok tt, o)
  unfolding open_slot
  open_slot-kept b = rw (open_slot, b) refl

  -- A reopening that succeeds succeeded in each of its calls.
  pub open_slot-IsReopened :
      is_due o.resampler.active tick ≡ true → (open_slot o).0 ≡ ok tt → IsReopened o (open_slot o).1
  unfolding open_slot
  open_slot-IsReopened b h = elim (Result-cases (leftover o.resampler.active)) [
    | inr (e, l) ↦ absurd (ok-ne-err {e = e} (sym h ∙ rw (open_slot, b, l) refl))
    | inl (event, l) ↦ elim (Result-cases (mapping_for_tick o.resampler tick)) [
      | inr (e, m) ↦ absurd (ok-ne-err {e = e} (sym h ∙ rw (open_slot, b, l, m) refl))
      | inl (mapping, m) ↦
          elim (Result-cases (new_accumulator tick o.resampler.next_output_tick mapping)) [
            | inr (e, a) ↦ absurd (ok-ne-err {e = e} (sym h ∙ rw (open_slot, b, l, m, a) refl))
            | inl (accumulator, a) ↦ record {
              event = event;
              closed = l;
              mapping = mapping;
              accumulator = accumulator;
              opened = a;
              result = rw (open_slot, b, l, m, a) refl;
            }
          ]
    ]
  ]

pub new_accumulator-fields :
    (m : ℕ) (first : ℤ) (mapping : CaptureTimeEvidence) (a : WindowAccumulator)
    → m % 15000 ≡ 0
    → new_accumulator (pos (12 * m)) first mapping ≡ ok a
    → a ≡ record {
      slot_tick = pos (12 * m);
      slot = pos m;
      first_tick = first;
      mapping = mapping;
      samples = [];
    }
unfolding new_accumulator new_slot ◌/ℤ◌ ◌%ℤ◌
new_accumulator-fields m first mapping a e h = ground arith

is_empty-length {ℓ} : {A : Type ℓ} (xs : List A) → is_empty xs ≡ false → 0 < length xs
is_empty-length [] h = cc
is_empty-length (x ∷ xs) h = omega arith

-- A partial slot that began after its boundary.
pub record IsLate (a : WindowAccumulator) (s : IncompleteFt8Slot) : Type 0 where
  pub slot : s.slot ≡ a.slot
  pub count : s.accumulated_samples ≡ length a.samples
  pub reason : s.reason ≡ capture_started_late
  pub held : 0 < length a.samples

abbrev late_event :
    WindowAccumulator → ℕ → Result ReceiveTimelineError (Option ReceiveTimelineEvent)
late_event a n = ok (
    some (
      ReceiveTimelineEvent.incomplete
        (record { slot = a.slot; reason = capture_started_late; accumulated_samples = n })))

IsLate-unique :
    (a : WindowAccumulator) (n : ℕ) (event : Option ReceiveTimelineEvent)
    → is_empty a.samples ≡ false
    → try_unsigned u32_max (pos (length a.samples)) ≡ some n
    → late_event a n ≡ ok event
    → (s : IncompleteFt8Slot) × (event ≡ some (ReceiveTimelineEvent.incomplete s)) × IsLate a s
IsLate-unique a n event e c h = (
  record { slot = a.slot; reason = capture_started_late; accumulated_samples = n },
  ground arith,
  record { slot = refl; count = ground arith; reason = refl; held = is_empty-length a.samples e },
)

pub incomplete_event-cases :
    (a : WindowAccumulator) (event : Option ReceiveTimelineEvent)
    → eqb_ℤ a.first_tick a.slot_tick ≡ false
    → incomplete_event a ≡ ok event
    → (event ≡ none)
      ⊎ ((s : IncompleteFt8Slot) × (event ≡ some (ReceiveTimelineEvent.incomplete s)) × IsLate a s)
unfolding incomplete_event
incomplete_event-cases a event late h = elim (Bool-cases (is_empty a.samples)) [
  | inl e ↦ inl (ground arith)
  | inr e ↦ elim (Option-cases (try_unsigned u32_max (pos (length a.samples)))) [
    | inl c ↦
        absurd (ok-ne-err {e = arithmetic_overflow} (sym h ∙ rw (incomplete_event, e, c) refl))
    | inr (n, c) ↦ inr (IsLate-unique a n event e c (rw (incomplete_event, e, c, late) at h))
  ]
]
