-- ===== src/Audio/Timeline/Failure.antt =====
-- crates/audio/src/timeline.rs: what a failure behind the checks of `Ft8ReceiveTimeline::push`
-- leaves behind.
use slotpilot.Prelude.{
  ℕ, ◌≡◌, ◌⊎◌, inl, inr, refl, ap, sym, subst, arith, ◌∙◌, false, Option, none, some, ltb,
  Option-cases,
}
use slotpilot.Prelude.Results.{ok, err, Result-cases, ok-ne-err}
use slotpilot.Audio.Batch.{CaptureBatch, CaptureDiscontinuity, stream_restart, end_position}
use slotpilot.Audio.Slot.{ReceiveTimelineError}
use slotpilot.Audio.Resampler.State.{RationalResampler}
use slotpilot.Audio.Resampler.Push.{push_batch}
use slotpilot.Audio.Timeline.{
  Ft8ReceiveTimeline, advance_expected, from_batch, validate_identity, validate_position,
}
use slotpilot.Audio.Timeline.Push.{push, admit_at, refusal, resample, open_resampler}
use slotpilot.Audio.Timeline.Admission.{IsAdmissible, lateness, push-admitted}

-- The resampler that a failure leaves: none was opened, or it is the one that was opened, as
-- far as it came with the batch.
abbrev pub Left : CaptureBatch → Ft8ReceiveTimeline → Option RationalResampler → Type 0
Left b t left =
    ((e : ReceiveTimelineError) × (open_resampler t b ≡ err e) × (left ≡ t.resampler))
    ⊎ ((r : RationalResampler) × (open_resampler t b ≡ ok r) × (left ≡ some (push_batch b r).1))

-- The mapping of this batch is kept, with the resampler that the failure leaves, and the expected
-- position is the one from before the call.
pub record IsKept (b : CaptureBatch) (t t' : Ft8ReceiveTimeline) : Type 0 where
  pub anchor : t'.anchor ≡ some (from_batch b)
  pub resampler : Left b (record t { anchor = some (from_batch b) }) t'.resampler
  pub expected : t'.expected_position ≡ t.expected_position

identity_passes :
    (t : Ft8ReceiveTimeline) (b : CaptureBatch)
    → b.process_generation ≡ t.process_generation
    → b.stream_generation ≡ t.stream_generation
    → b.configuration ≡ t.configuration
    → validate_identity t b ≡ ok tt
unfolding validate_identity
identity_passes t b p s c = ground arith

position_passes :
    (t : Ft8ReceiveTimeline) (b : CaptureBatch)
    → ((p : ℕ) → t.expected_position ≡ some p → b.first_frame.position ≡ p)
    → validate_position t b ≡ ok tt
unfolding validate_position
position_passes t b h = elim (Option-cases t.expected_position) [
  | inl e ↦ rw (validate_position, e) refl
  | inr (p, e) ↦ let q = h p e in ground arith
]

refusal_passes :
    (t : Ft8ReceiveTimeline) (b : CaptureBatch)
    → ((d : CaptureDiscontinuity)
        → b.discontinuity ≡ some d
        → (d.kind ≡ stream_restart) × (t.expected_position ≡ none))
    → refusal t b ≡ none
unfolding refusal
refusal_passes t b h = elim (Option-cases b.discontinuity) [
  | inl e ↦ rw (refusal, e) refl
  | inr (d, e) ↦ let q = h d e in ground arith
]

resample-IsKept :
    (b : CaptureBatch) (t : Ft8ReceiveTimeline) (e : ReceiveTimelineError)
    → (resample b (record t { anchor = some (from_batch b) })).0 ≡ err e
    → IsKept b t (resample b (record t { anchor = some (from_batch b) })).1
unfolding resample advance_expected
resample-IsKept b t e h =
    let t1 : Ft8ReceiveTimeline = record t { anchor = some (from_batch b) } in
    elim (Result-cases (open_resampler t1 b)) [
      | inr (x, o) ↦
          rw (resample, o) (record { anchor = refl; resampler = inl (x, o, refl); expected = refl })
      | inl (r, o) ↦ elim (Result-cases (push_batch b r).0) [
        | inr (x, f) ↦
            rw (resample, o, f)
              (record { anchor = refl; resampler = inr (r, o, refl); expected = refl })
        | inl (events, f) ↦ elim (Result-cases (end_position b)) [
          | inr (x, q) ↦
              rw (resample, o, f, advance_expected, q)
                (record { anchor = refl; resampler = inr (r, o, refl); expected = refl })
          | inl (p, q) ↦ absurd (
              ok-ne-err {a = events} {e = e}
                (sym (rw (resample, o, f, advance_expected, q) refl) ∙ h))
        ]
      ]
    ]

-- An admissible batch is of the timeline, on time, at the expected position, and a discontinuity
-- of it is the restart that opens the stream. When `push` fails on such a batch, and the timeline
-- has no mapping yet, the batch's mapping stays, the expected position does not advance, and the
-- resampler stays as the failure found it: as it was when none could be opened, and else with
-- all that it made of the batch.
pub admissible_failure_keeps :
    (b : CaptureBatch) (observed : ℕ) (t : Ft8ReceiveTimeline) (e : ReceiveTimelineError)
    → IsAdmissible t b observed
    → t.anchor ≡ none
    → (push b observed t).0 ≡ err e
    → IsKept b t (push b observed t).1
unfolding admit_at
admissible_failure_keeps b observed t e i a h =
    let late : ltb 2000 (lateness b observed t) ≡ false = ground (arith, i.on_time) in
    let admitted =
      push-admitted b observed t (identity_passes t b i.process i.stream i.configuration) late
        (position_passes t b i.contiguous) (refusal_passes t b i.continuous) in
    let same : push b observed t ≡ resample b (record t { anchor = some (from_batch b) }) =
      admitted ∙ ap (λ x. admit_at x b t) a in
    subst (λ p. IsKept b t p.1) (sym same) (resample-IsKept b t e (ap (λ p. p.0) (sym same) ∙ h))
