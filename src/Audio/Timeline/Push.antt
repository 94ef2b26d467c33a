-- ===== src/Audio/Timeline/Push.antt =====
-- crates/audio/src/timeline.rs: `Ft8ReceiveTimeline::push`.
use slotpilot.Prelude.{
  ℕ, ◌+◌, ◌-◌, Bool, true, false, Option, none, some, List, [], ◌∷◌, if◌then◌else◌, ltb, ◌&&◌,
}
use slotpilot.Prelude.Words.{saturating_add, u64_max}
use slotpilot.Prelude.Results.{Result, ok, err, also}
use slotpilot.Audio.Batch.{CaptureBatch, CaptureDiscontinuityKind, stream_restart}
use slotpilot.Audio.Slot.{ReceiveTimelineError, ReceiveTimelineEvent}
use slotpilot.Audio.Resampler.State.{RationalResampler, new_resampler}
use slotpilot.Audio.Resampler.Push.{push_batch}
use slotpilot.Audio.Timeline.{
  TimelineAnchor, Ft8ReceiveTimeline, Method, from_batch, skip, advance_expected, invalidate_active,
  count_incomplete, validate_identity, validate_position, max_receive_batch_lateness_millis,
}
use slotpilot.Audio.Timeline.Mapping.{validate_mapping}

abbrev pub is_stream_restart : CaptureDiscontinuityKind → Bool
is_stream_restart stream_restart = true
is_stream_restart _ = false

abbrev pub is_first : Ft8ReceiveTimeline → Bool
is_first t = elim t.expected_position [ none ↦ true | some _ ↦ false ]

-- A discontinuity refuses the batch, unless it is the restart that opens the stream.
unfoldable pub refusal : Ft8ReceiveTimeline → CaptureBatch → Option ReceiveTimelineError
refusal t b = elim b.discontinuity [
  | none ↦ none
  | some d ↦
      if is_first t && is_stream_restart d.kind
      then none
      else some (ReceiveTimelineError.discontinuity d.kind)
]

abbrev is_incomplete : ReceiveTimelineEvent → Bool
is_incomplete (ReceiveTimelineEvent.window w) = false
is_incomplete (ReceiveTimelineEvent.incomplete s) = true

abbrev pub incomplete_count : List ReceiveTimelineEvent → ℕ
incomplete_count [] = 0
incomplete_count (e ∷ es) = let n = incomplete_count es in if is_incomplete e then 1 + n else n

-- The resampler of the timeline, or a new one that starts at this batch.
unfoldable pub open_resampler :
    Ft8ReceiveTimeline → CaptureBatch → Result ReceiveTimelineError RationalResampler
open_resampler t b = elim t.resampler [
  | some r ↦ ok r
  | none ↦
      new_resampler b.first_frame t.configuration.sample_rate_hz t.process_generation
        t.stream_generation
]

-- The samples of an admitted batch go to the resampler.
unfoldable pub resample : CaptureBatch → Method (List ReceiveTimelineEvent)
resample b t = elim (open_resampler t b) [
  | err e ↦ (err e, t)
  | ok r ↦
      let (result, r') = push_batch b r in
      let t' : Ft8ReceiveTimeline = record t { resampler = some r' } in
      elim result [
        | err e ↦ (err e, t')
        | ok events ↦
            also
              (advance_expected b
                (record t' { health = count_incomplete (incomplete_count events) t'.health }))
              (λ u. (ok events, u))
      ]
]

-- The mapping of the batch is checked against the anchor, or becomes the anchor.
unfoldable pub admit_at : Option TimelineAnchor → CaptureBatch → Method (List ReceiveTimelineEvent)
admit_at none b t = resample b (record t { anchor = some (from_batch b) })
admit_at (some anchor) b t =
    let (result, t') = validate_mapping anchor b t in
    elim result [ err e ↦ skip e b t' | ok _ ↦ resample b t' ]

abbrev pub admit : CaptureBatch → Method (List ReceiveTimelineEvent)
admit b t = admit_at t.anchor b t

-- What a batch at a wrong position does: only a gap moves the expected position.
unfoldable pub misplaced : ReceiveTimelineError → CaptureBatch → Method (List ReceiveTimelineEvent)
misplaced (ReceiveTimelineError.gap n) b t = skip (ReceiveTimelineError.gap n) b t
misplaced e b t = (err e, invalidate_active t)

unfoldable pub push : CaptureBatch → ℕ → Method (List ReceiveTimelineEvent)
push b observed t = elim (validate_identity t b) [
  | err e ↦ (err e, t)
  | ok _ ↦
      let lateness = observed - b.first_frame.monotonic_millis in
      if ltb max_receive_batch_lateness_millis lateness
      then skip (ReceiveTimelineError.late_data lateness) b (record t {
        health = record t.health {
          late_batch_count = saturating_add u64_max t.health.late_batch_count 1;
        };
      })
      else elim (validate_position t b) [
        | err e ↦ misplaced e b t
        | ok _ ↦ elim (refusal t b) [ some e ↦ skip e b t | none ↦ admit b t ]
      ]
]
