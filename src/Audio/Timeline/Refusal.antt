-- ===== src/Audio/Timeline/Refusal.antt =====
-- crates/audio/src/timeline.rs: what a batch that `Ft8ReceiveTimeline::push` refuses leaves behind.
use slotpilot.Prelude.{
  ℕ, ◌<◌, ◌≡◌, ◌≢◌, ◌⊎◌, inl, inr, refl, sym, subst, arith, false, none, some, List, ltb,
  Option-cases, Bool-cases,
}
use slotpilot.Prelude.Results.{Result, ok, err, Result-cases}
use slotpilot.Audio.Batch.{CaptureBatch, CaptureDiscontinuity, stream_restart, end_position}
use slotpilot.Audio.Slot.{ReceiveTimelineError, ReceiveTimelineEvent, arithmetic_overflow}
use slotpilot.Audio.Timeline.{
  Ft8ReceiveTimeline, TimelineAnchor, skip, advance_expected, invalidate_active, validate_identity,
  validate_position,
}
use slotpilot.Audio.Timeline.Mapping.{validate_mapping}
use slotpilot.Audio.Timeline.Push.{push, admit_at, refusal, misplaced}
use slotpilot.Audio.Timeline.Admission.{
  lateness, counted, push-late, push-misplaced, push-discontinuous, push-admitted,
  validate_position-ok, refusal-none,
}

-- The call failed, and neither a mapping nor an accumulated slot is left.
pub record IsDiscarded
    (p : Result ReceiveTimelineError (List ReceiveTimelineEvent) × Ft8ReceiveTimeline)
    : Type 0 where
  pub error : ReceiveTimelineError
  pub failed : p.0 ≡ err error
  pub anchor : p.1.anchor ≡ none
  pub resampler : p.1.resampler ≡ none

skip-IsDiscarded :
    (e : ReceiveTimelineError) (b : CaptureBatch) (t : Ft8ReceiveTimeline)
    → IsDiscarded (skip e b t)
unfolding skip advance_expected invalidate_active
skip-IsDiscarded e b t = elim (Result-cases (end_position b)) [
  | inl (p, x) ↦ record {
    error = e;
    failed = rw (skip, advance_expected, x) refl;
    anchor = rw (skip, advance_expected, x) refl;
    resampler = rw (skip, advance_expected, x) refl;
  }
  | inr (y, x) ↦ record {
    error = arithmetic_overflow;
    failed = rw (skip, advance_expected, x) refl;
    anchor = rw (skip, advance_expected, x) refl;
    resampler = rw (skip, advance_expected, x) refl;
  }
]

misplaced-IsDiscarded :
    (e : ReceiveTimelineError) (b : CaptureBatch) (t : Ft8ReceiveTimeline)
    → IsDiscarded (misplaced e b t)
unfolding misplaced invalidate_active
misplaced-IsDiscarded (ReceiveTimelineError.gap n) b t =
    skip-IsDiscarded (ReceiveTimelineError.gap n) b t
misplaced-IsDiscarded e b t = record { error = e; failed = refl; anchor = refl; resampler = refl }

-- Some check of the timeline refuses the batch.
pub data IsRefused (b : CaptureBatch) (observed : ℕ) (t : Ft8ReceiveTimeline) : Type 0 where
  is_late : 2000 < lateness b observed t → IsRefused b observed t
  is_misplaced :
      (p : ℕ) → t.expected_position ≡ some p → b.first_frame.position ≢ p → IsRefused b observed t
  is_discontinuous :
      (d : CaptureDiscontinuity)
      → b.discontinuity ≡ some d
      → (d.kind ≢ stream_restart) ⊎ (t.expected_position ≢ none)
      → IsRefused b observed t
  is_unmapped :
      (anchor : TimelineAnchor) (e : ReceiveTimelineError)
      → t.anchor ≡ some anchor
      → (validate_mapping anchor b t).0 ≡ err e
      → IsRefused b observed t

admit_at-IsDiscarded :
    (anchor : TimelineAnchor) (b : CaptureBatch) (t : Ft8ReceiveTimeline) (e : ReceiveTimelineError)
    → (validate_mapping anchor b t).0 ≡ err e
    → IsDiscarded (admit_at (some anchor) b t)
unfolding admit_at
admit_at-IsDiscarded anchor b t e v =
    let same : admit_at (some anchor) b t ≡ skip e b (validate_mapping anchor b t).1 =
      rw (admit_at, v) refl in
    rw same (skip-IsDiscarded e b (validate_mapping anchor b t).1)

-- When every check before the mapping passes, only the mapping can have refused the batch.
unmapped :
    (b : CaptureBatch) (observed : ℕ) (t : Ft8ReceiveTimeline)
    → ltb 2000 (lateness b observed t) ≡ false
    → validate_position t b ≡ ok tt
    → refusal t b ≡ none
    → IsRefused b observed t
    → IsDiscarded (admit_at t.anchor b t)
unmapped b observed t l p r (is_late h) = absurd (ground (arith, h, l))
unmapped b observed t l p r (is_misplaced q e ne) = absurd (ne (validate_position-ok t b p q e))
unmapped b observed t l p r (is_discontinuous d e ne) =
    let only = refusal-none t b r d e in absurd (elim ne [ inl k ↦ k only.0 | inr q ↦ q only.1 ])
unmapped b observed t l p r (is_unmapped anchor e a v) =
    let c = admit_at-IsDiscarded anchor b t e v in
    subst (λ o. IsDiscarded (admit_at o b t)) (sym a) c

-- A batch of this timeline that is more than two seconds late, or not at the expected position, or
-- with a discontinuity that is not the restart which opens the stream, or whose mapping does not
-- fit the anchor, makes `push` fail, and afterwards the timeline holds neither an anchor nor a
-- resampler.
pub push_refused :
    (b : CaptureBatch) (observed : ℕ) (t : Ft8ReceiveTimeline)
    → validate_identity t b ≡ ok tt
    → IsRefused b observed t
    → IsDiscarded (push b observed t)
push_refused b observed t i h = elim (Bool-cases (ltb 2000 (lateness b observed t))) [
  | inl l ↦
      rw (push-late b observed t i l)
        (skip-IsDiscarded (ReceiveTimelineError.late_data (lateness b observed t)) b (counted t))
  | inr l ↦ elim (Result-cases (validate_position t b)) [
    | inr (e, p) ↦ rw (push-misplaced b observed t e i l p) (misplaced-IsDiscarded e b t)
    | inl (x, p) ↦ elim (Option-cases (refusal t b)) [
      | inr (e, r) ↦ rw (push-discontinuous b observed t e i l p r) (skip-IsDiscarded e b t)
      | inl r ↦ rw (push-admitted b observed t i l p r) (unmapped b observed t l p r h)
    ]
  ]
]
