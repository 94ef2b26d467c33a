-- ===== src/Audio/Resampler/Stream.antt =====
-- crates/audio/src/timeline.rs: a stream of batches through one `RationalResampler`.
use slotpilot.Prelude.{
  ℕ, ◌+◌, ◌*◌, ◌<◌, ◌≡◌, inl, inr, refl, ap, sym, ◌∙◌, arith, List, [], ◌∷◌, ◌++◌, length,
  append_assoc, append-nil, none,
}
use slotpilot.Prelude.Int.{ℤ, pos, ◌*ℤ◌}
use slotpilot.Prelude.Results.{Result, ok, err, Result-cases, ok-ne-err, ok-injective}
use slotpilot.Audio.Batch.{CaptureBatch, CaptureTimeEvidence}
use slotpilot.Audio.Slot.{ReceiveTimelineError, ReceiveTimelineEvent}
use slotpilot.Audio.Resampler.Accumulator.{ticks_per_millisecond}
use slotpilot.Audio.Resampler.State.{RationalResampler, new_resampler}
use slotpilot.Audio.Resampler.Push.{push_batch}
use slotpilot.Audio.Resampler.Values.{fresh}
use slotpilot.Audio.Resampler.Step.{IsStreamed, push_batch-IsStreamed}

-- The batches go in one after the other until one fails; the events are collected.
unfoldable pub push_batches :
    List CaptureBatch
    → RationalResampler
    → Result ReceiveTimelineError (List ReceiveTimelineEvent) × RationalResampler
push_batches [] r = (ok [], r)
push_batches (b ∷ bs) r =
    let (result, r') = push_batch b r in
    let (rest, r'') = push_batches bs r' in
    elim result [
      | err e ↦ (err e, r')
      | ok events ↦ elim rest [ err e ↦ (err e, r'') | ok later ↦ (ok (events ++ later), r'') ]
    ]

-- The batches follow each other without a gap, the first at the given position.
abbrev pub AreContiguous : ℕ → List CaptureBatch → Type 0
AreContiguous position [] = Unit
AreContiguous position (b ∷ bs) =
    (b.first_frame.position ≡ position) × AreContiguous (position + length b.samples) bs

-- The number of samples in all.
abbrev pub frames_in : List CaptureBatch → ℕ
frames_in [] = 0
frames_in (b ∷ bs) = length b.samples + frames_in bs

-- The source samples of the batches, one behind the other.
abbrev pub samples_of : List CaptureBatch → List ℤ
samples_of [] = []
samples_of (b ∷ bs) = b.samples ++ samples_of bs

push_batches-cons :
    (b : CaptureBatch) (bs : List CaptureBatch) (r : RationalResampler)
    (events : List ReceiveTimelineEvent)
    → (push_batches (b ∷ bs) r).0 ≡ ok events
    → (now : List ReceiveTimelineEvent) × (later : List ReceiveTimelineEvent) × ((push_batch b r).0
        ≡ ok now)
      × ((push_batches bs (push_batch b r).1).0 ≡ ok later)
      × (events ≡ now ++ later)
      × ((push_batches (b ∷ bs) r).1 ≡ (push_batches bs (push_batch b r).1).1)
unfolding push_batches
push_batches-cons b bs r events h = elim (Result-cases (push_batch b r).0) [
  | inr (e, x) ↦ absurd (ok-ne-err {e = e} (sym h ∙ rw (push_batches, x) refl))
  | inl (now, x) ↦ elim (Result-cases (push_batches bs (push_batch b r).1).0) [
    | inr (e, y) ↦ absurd (ok-ne-err {e = e} (sym h ∙ rw (push_batches, x, y) refl))
    | inl (later, y) ↦ (
      now,
      later,
      x,
      y,
      ok-injective (push_batches (b ∷ bs) r).0 h (rw (push_batches, x, y) refl),
      rw (push_batches, x, y) refl,
    )
  ]
]

push_batches-nil : (r : RationalResampler) → push_batches [] r ≡ (ok [], r)
unfolding push_batches
push_batches-nil r = refl

push_batches-IsStreamed :
    (frames : List ℤ) (u d : ℕ) (anchor : CaptureTimeEvidence) (rate : ℕ) (values : List ℤ)
    (past : List ReceiveTimelineEvent) (r : RationalResampler) (bs : List CaptureBatch)
    (events : List ReceiveTimelineEvent)
    → IsStreamed frames u d anchor rate values past r
    → 0 < rate
    → AreContiguous (anchor.position + d) bs
    → (push_batches bs r).0 ≡ ok events
    → (more : List ℤ) × IsStreamed
        (frames ++ samples_of bs)
        u
        (d + frames_in bs)
        anchor
        rate
        (values ++ more)
        (past ++ events)
        (push_batches bs r).1
push_batches-IsStreamed frames u d anchor rate values past r [] events s h c e =
    let nothing = ok-injective (push_batches [] r).0 e (ap (λ p. p.0) (push_batches-nil r)) in
    let same : d + 0 ≡ d = omega arith in
    (
      [],
      rw (nothing, append-nil values, append-nil past, append-nil frames, same, push_batches-nil r)
          s,
    )
push_batches-IsStreamed frames u d anchor rate values past r (b ∷ bs) events s h c e =
    let (now, later, first, rest, split, final) = push_batches-cons b bs r events e in
    let (more, s') =
      push_batch-IsStreamed frames u d anchor rate values past r b now s h c.0 first in
    let shift : anchor.position + d + length b.samples ≡ anchor.position + (d + length b.samples) =
      omega arith in
    let (more', s'') =
      push_batches-IsStreamed (frames ++ b.samples) u (d + length b.samples) anchor rate
        (values ++ more) (past ++ now) (push_batch b r).1 bs later s' h (rw shift at c.1) rest in
    let total : d + (length b.samples + frames_in bs) ≡ d + length b.samples + frames_in bs =
      omega arith in
    (
      more ++ more',
      rw
          (
            final,
            split,
            total,
            sym (append_assoc values more more'),
            sym (append_assoc past now later),
            sym (append_assoc frames b.samples (samples_of bs)),
          )
          s'',
    )

new_resampler-fields :
    (u : ℕ) (first : CaptureTimeEvidence) (rate process stream : ℕ) (r : RationalResampler)
    → first.utc_unix_millis ≡ pos u
    → new_resampler first rate process stream ≡ ok r
    → r ≡ record {
      anchor = first;
      source_rate_hz = rate;
      process_generation = process;
      stream_generation = stream;
      next_output_tick = pos (u * ticks_per_millisecond);
      previous = none;
      active = none;
    }
unfolding new_resampler ◌*ℤ◌
new_resampler-fields u first rate process stream r e h = ground arith

new_resampler-IsStreamed :
    (u : ℕ) (first : CaptureTimeEvidence) (rate process stream : ℕ) (r : RationalResampler)
    → first.utc_unix_millis ≡ pos u
    → new_resampler first rate process stream ≡ ok r
    → IsStreamed [] u 0 first rate [] [] r
new_resampler-IsStreamed u first rate process stream r e h =
    rw (new_resampler-fields u first rate process stream r e h) (record {
      frame_count = refl;
      heard = tt;
      tracks = fresh refl refl;
      at = record { start = e; next = ap pos (omega arith) };
      active = inl refl;
      published = tt;
      total = refl;
      same_rate = refl;
      same_anchor = refl;
    })

-- Start a resampler at a first frame with UTC u, with a positive source rate, and push batches that
-- follow each other without a gap from that frame on. When all of them succeed, there is a list of
-- outputs, exactly ⌊(n - 1) * 12000 / rate⌋ + 1 of them for n > 0 source frames, in which output k
-- is the first source sample or what `interpolate` gives between the two neighbours of the source
-- position k * rate / 12000; each published window holds the 180000 outputs of its own slot, in
-- order and with none missing, and each partial slot that is reported is the one that was under
-- way at the first output.
pub push_batches_published :
    (u : ℕ) (first : CaptureTimeEvidence) (rate process stream : ℕ) (r : RationalResampler)
    (bs : List CaptureBatch) (events : List ReceiveTimelineEvent)
    → first.utc_unix_millis ≡ pos u
    → 0 < rate
    → new_resampler first rate process stream ≡ ok r
    → AreContiguous first.position bs
    → (push_batches bs r).0 ≡ ok events
    → (values : List ℤ) × IsStreamed
        (samples_of bs)
        u
        (frames_in bs)
        first
        rate
        values
        events
        (push_batches bs r).1
push_batches_published u first rate process stream r bs events e h new c all =
    let s = new_resampler-IsStreamed u first rate process stream r e new in
    let zero_off : first.position ≡ first.position + 0 = omega arith in
    let no_more : 0 + frames_in bs ≡ frames_in bs = omega arith in
    let streamed =
      push_batches-IsStreamed [] u 0 first rate [] [] r bs events s h (rw zero_off at c) all in
    (streamed.0, rw no_more at streamed.1)
