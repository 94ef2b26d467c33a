-- ===== src/Audio/Timeline/Admission.antt =====
-- crates/audio/src/timeline.rs: which batches `Ft8ReceiveTimeline::push` admits, and what a refused
-- batch leaves of the timeline.
use slotpilot.Prelude.{
  ℕ, ◌+◌, ◌-◌, ◌≤◌, ◌≡◌, inl, inr, refl, arith, true, false, Option, none, some, List, length,
  Option-cases, Bool-cases, ap, sym, ◌∙◌, ltb,
}
use slotpilot.Prelude.Results.{ok, err, Result-cases}
use slotpilot.Prelude.Words.{saturating_add, u64_max}
use slotpilot.Audio.Batch.{
  CaptureBatch, CaptureDiscontinuity, stream_restart, end_position, max_capture_batch_frames,
}
use slotpilot.Audio.Slot.{ReceiveTimelineError, ReceiveTimelineEvent}
use slotpilot.Audio.Timeline.{
  Ft8ReceiveTimeline, TimelineAnchor, from_batch, skip, advance_expected, validate_identity,
  validate_position,
}
use slotpilot.Audio.Timeline.Mapping.{validate_mapping}
use slotpilot.Audio.Timeline.Push.{push, admit, admit_at, refusal, resample, misplaced}

-- The next expected position is the end of this batch.
pub record IsAdvanced (b : CaptureBatch) (t : Ft8ReceiveTimeline) : Type 0 where
  pub expected : t.expected_position ≡ some (b.first_frame.position + length b.samples)
  pub batch_position : t.last_batch_position ≡ some b.first_frame.position
  pub monotonic : t.last_monotonic_millis ≡ some b.first_frame.monotonic_millis

advance_expected-IsAdvanced :
    (b : CaptureBatch) (t : Ft8ReceiveTimeline)
    → length b.samples ≤ max_capture_batch_frames
    → (advance_expected b t).0 ≡ ok tt
    → IsAdvanced b (advance_expected b t).1
unfolding advance_expected end_position
advance_expected-IsAdvanced b t fit h = ground arith

resample-IsAdvanced :
    (b : CaptureBatch) (t : Ft8ReceiveTimeline) (events : List ReceiveTimelineEvent)
    → length b.samples ≤ max_capture_batch_frames
    → (resample b t).0 ≡ ok events
    → IsAdvanced b (resample b t).1
unfolding resample advance_expected end_position
resample-IsAdvanced b t events fit h = ground arith

-- The batch is of this timeline, on time, at the expected position, and a discontinuity of it can
-- only be the restart that opens the stream.
pub record IsAdmissible (t : Ft8ReceiveTimeline) (b : CaptureBatch) (observed : ℕ) : Type 0 where
  pub process : b.process_generation ≡ t.process_generation
  pub stream : b.stream_generation ≡ t.stream_generation
  pub configuration : b.configuration ≡ t.configuration
  pub on_time : observed ≤ b.first_frame.monotonic_millis + 2000
  pub contiguous : (p : ℕ) → t.expected_position ≡ some p → b.first_frame.position ≡ p
  pub continuous :
      (d : CaptureDiscontinuity)
      → b.discontinuity ≡ some d
      → (d.kind ≡ stream_restart) × (t.expected_position ≡ none)

skip-never_ok {ℓ} :
    {A : Type ℓ} (e : ReceiveTimelineError) (b : CaptureBatch) (t : Ft8ReceiveTimeline) (a : A)
    → (skip {A = A} e b t).0 ≡ ok a
    → ⊥
unfolding skip advance_expected
skip-never_ok e b t a h = ground arith

misplaced-never_ok :
    (e : ReceiveTimelineError) (b : CaptureBatch) (t : Ft8ReceiveTimeline)
    (events : List ReceiveTimelineEvent)
    → (misplaced e b t).0 ≡ ok events
    → ⊥
unfolding misplaced skip advance_expected
misplaced-never_ok e b t events h = ground arith

validate_identity-ok :
    (t : Ft8ReceiveTimeline) (b : CaptureBatch)
    → validate_identity t b ≡ ok tt
    → (b.process_generation ≡ t.process_generation)
      × (b.stream_generation ≡ t.stream_generation)
      × (b.configuration ≡ t.configuration)
unfolding validate_identity
validate_identity-ok t b h = ground arith

pub validate_position-ok :
    (t : Ft8ReceiveTimeline) (b : CaptureBatch)
    → validate_position t b ≡ ok tt
    → (p : ℕ) → t.expected_position ≡ some p
    → b.first_frame.position ≡ p
unfolding validate_position
validate_position-ok t b h p e = ground arith

pub refusal-none :
    (t : Ft8ReceiveTimeline) (b : CaptureBatch)
    → refusal t b ≡ none
    → (d : CaptureDiscontinuity) → b.discontinuity ≡ some d
    → (d.kind ≡ stream_restart) × (t.expected_position ≡ none)
unfolding refusal
refusal-none t b h d e = ground arith

-- The timeline with a late batch counted.
abbrev pub counted : Ft8ReceiveTimeline → Ft8ReceiveTimeline
counted t = record t {
  health = record t.health {
    late_batch_count = saturating_add u64_max t.health.late_batch_count 1;
  };
}

-- How `push` computes, branch by branch.
module _ (b : CaptureBatch) (observed : ℕ) (t : Ft8ReceiveTimeline) where
  abbrev pub lateness : ℕ
  lateness = observed - b.first_frame.monotonic_millis

  pub push-foreign :
      (e : ReceiveTimelineError) → validate_identity t b ≡ err e → push b observed t ≡ (err e, t)
  unfolding push
  push-foreign e i = rw (push, i) refl

  pub push-late :
      validate_identity t b ≡ ok tt
      → ltb 2000 lateness ≡ true
      → push b observed t ≡ skip (ReceiveTimelineError.late_data lateness) b (counted t)
  unfolding push
  push-late i l = rw (push, i, l) refl

  pub push-misplaced :
      (e : ReceiveTimelineError)
      → validate_identity t b ≡ ok tt
      → ltb 2000 lateness ≡ false
      → validate_position t b ≡ err e
      → push b observed t ≡ misplaced e b t
  unfolding push
  push-misplaced e i l p = rw (push, i, l, p) refl

  pub push-discontinuous :
      (e : ReceiveTimelineError)
      → validate_identity t b ≡ ok tt
      → ltb 2000 lateness ≡ false
      → validate_position t b ≡ ok tt
      → refusal t b ≡ some e
      → push b observed t ≡ skip e b t
  unfolding push
  push-discontinuous e i l p r = rw (push, i, l, p, r) refl

  pub push-admitted :
      validate_identity t b ≡ ok tt
      → ltb 2000 lateness ≡ false
      → validate_position t b ≡ ok tt
      → refusal t b ≡ none
      → push b observed t ≡ admit b t
  unfolding push
  push-admitted i l p r = rw (push, i, l, p, r) refl

  -- A push that succeeds admitted the batch.
  push-admit :
      (events : List ReceiveTimelineEvent)
      → (push b observed t).0 ≡ ok events
      → IsAdmissible t b observed × (push b observed t ≡ admit b t)
  push-admit events h = elim (Result-cases (validate_identity t b)) [
    | inr (e, i) ↦ let f = push-foreign e i in cc
    | inl (x, i) ↦ elim (Bool-cases (ltb 2000 lateness)) [
      | inl l ↦ absurd (
          skip-never_ok (ReceiveTimelineError.late_data lateness) b (counted t) events
            (ap (λ p. p.0) (sym (push-late i l)) ∙ h))
      | inr l ↦ elim (Result-cases (validate_position t b)) [
        | inr (e, p) ↦
            absurd
              (misplaced-never_ok e b t events (ap (λ q. q.0) (sym (push-misplaced e i l p)) ∙ h))
        | inl (y, p) ↦ elim (Option-cases (refusal t b)) [
          | inr (e, r) ↦
              absurd (
                skip-never_ok e b t events (ap (λ q. q.0) (sym (push-discontinuous e i l p r)) ∙ h))
          | inl r ↦
              let same = validate_identity-ok t b i in
              (
                record {
                  process = same.0;
                  stream = same.1;
                  configuration = same.2;
                  on_time = ground (arith, l);
                  contiguous = validate_position-ok t b p;
                  continuous = refusal-none t b r;
                },
                push-admitted i l p r,
              )
        ]
      ]
    ]
  ]

admit_at-IsAdvanced :
    (anchor : Option TimelineAnchor) (b : CaptureBatch) (t : Ft8ReceiveTimeline)
    (events : List ReceiveTimelineEvent)
    → length b.samples ≤ max_capture_batch_frames
    → (admit_at anchor b t).0 ≡ ok events
    → IsAdvanced b (admit_at anchor b t).1
unfolding admit_at
admit_at-IsAdvanced none b t events fit h =
    resample-IsAdvanced b (record t { anchor = some (from_batch b) }) events fit h
admit_at-IsAdvanced (some anchor) b t events fit h =
    let from = (validate_mapping anchor b t).1 in
    elim (Result-cases (validate_mapping anchor b t).0) [
      | inr (x, v) ↦
          let e : admit_at (some anchor) b t ≡ skip x b from = rw (admit_at, v) refl in
          absurd (skip-never_ok x b from events (ap (λ p. p.0) (sym e) ∙ h))
      | inl (x, v) ↦
          let e : admit_at (some anchor) b t ≡ resample b from = rw (admit_at, v) refl in
          rw e (resample-IsAdvanced b from events fit (ap (λ p. p.0) (sym e) ∙ h))
    ]

-- When `push` accepts a batch of at most 8192 frames, the batch is of this timeline's generations
-- and configuration, at most two seconds late, at the expected position if there is one, and
-- without a discontinuity that is not the restart which opens the stream; and then the expected
-- position is the end of the batch.
pub push_admits :
    (b : CaptureBatch) (observed : ℕ) (t : Ft8ReceiveTimeline) (events : List ReceiveTimelineEvent)
    → length b.samples ≤ max_capture_batch_frames
    → (push b observed t).0 ≡ ok events
    → IsAdmissible t b observed × IsAdvanced b (push b observed t).1
push_admits b observed t events fit h =
    let (admissible, e) = push-admit b observed t events h in
    (admissible, rw e (admit_at-IsAdvanced t.anchor b t events fit (ap (λ p. p.0) (sym e) ∙ h)))
