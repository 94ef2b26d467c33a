-- ===== src/Audio/Resampler/Step.antt =====
-- crates/audio/src/timeline.rs: one batch of a stream through `RationalResampler::push`.
use native.Mathlib.Nat.{div-mul-le_self}
use slotpilot.Prelude.{
  ℕ, zero, suc, ◌+◌, ◌*◌, ◌/◌, ◌<◌, ◌≡◌, inl, inr, refl, ap, sym, ◌∙◌, arith, List, [], ◌++◌,
  length, length-append, subst, All, All-append, All-map,
}
use slotpilot.Prelude.Int.{ℤ}
use slotpilot.Prelude.Results.{Result, ok, err}
use slotpilot.Audio.Batch.{CaptureBatch, CaptureTimeEvidence}
use slotpilot.Audio.Slot.{ReceiveTimelineError, ReceiveTimelineEvent}
use slotpilot.Audio.Resampler.Accumulator.{ticks_per_millisecond}
use slotpilot.Audio.Resampler.State.{RationalResampler}
use slotpilot.Audio.Resampler.Output.{Output}
use slotpilot.Audio.Resampler.Push.{push_samples, push_batch, events_of}
use slotpilot.Audio.Resampler.Loop.{IsAt}
use slotpilot.Audio.Resampler.Windows.{IsPublished, IsPublished-append, ActiveIsOpen}
use slotpilot.Audio.Resampler.Values.{
  AllFrom, AllFrom-append, AllFrom-map, IsOutput, IsOutput-append, Tracks,
}
use slotpilot.Audio.Resampler.Progress.{IsBehind, count_after, push_samples-Advances}

-- After the d source samples `frames`, `values` are the outputs, each with the value that the
-- frames give it, and the events tell what they make of the slots.
pub record IsStreamed (frames : List ℤ) (u d : ℕ) (anchor : CaptureTimeEvidence) (rate : ℕ)
    (values : List ℤ) (events : List ReceiveTimelineEvent) (r : RationalResampler) : Type 0 where
  pub frame_count : length frames ≡ d
  pub heard : AllFrom (IsOutput rate frames) 0 values
  pub tracks : Tracks frames r.previous
  pub at : IsAt r u (length values)
  pub active : ActiveIsOpen (u * ticks_per_millisecond) values r.active
  pub published : All (IsPublished (u * ticks_per_millisecond) values) events
  pub total : length values ≡ count_after d 0 rate 0
  pub same_rate : r.source_rate_hz ≡ rate
  pub same_anchor : r.anchor ≡ anchor

events_of-inverse :
    (p : Result ReceiveTimelineError (Unit {0}) × Output) (events : List ReceiveTimelineEvent)
    → (events_of p).0 ≡ ok events
    → (p.0 ≡ ok tt) × (p.1.events ≡ events) × (p.1.resampler ≡ (events_of p).1)
events_of-inverse (ok tt, o) events h = (refl, ground arith, refl)
events_of-inverse (err e, o) events h = cc

push_batch-inverse :
    (b : CaptureBatch) (r : RationalResampler) (events : List ReceiveTimelineEvent)
    → (push_batch b r).0 ≡ ok events
    → let result =
        push_samples b.first_frame.position 0 b.samples (record { resampler = r; events = [] }) in
      (result.0 ≡ ok tt) × (result.1.events ≡ events) × (result.1.resampler ≡ (push_batch b r).1)
unfolding push_batch
push_batch-inverse b r events h =
    events_of-inverse
      (push_samples b.first_frame.position 0 b.samples (record { resampler = r; events = [] }))
      events h

count-IsBehind : (d rate : ℕ) → IsBehind (count_after d 0 rate 0) rate (d * 12000)
count-IsBehind zero rate = inl refl
count-IsBehind (suc d) rate =
    let low = div-mul-le_self ((0 + d) * 12000) rate in
    inr ((0 + d) * 12000 / rate, refl, omega (arith, low))

count_after-append :
    (n d rate : ℕ) → count_after n d rate (count_after d 0 rate 0) ≡ count_after (d + n) 0 rate 0
count_after-append zero d rate = ap (λ x. count_after x 0 rate 0) (omega arith)
count_after-append (suc n) d rate =
    let e : d + suc n ≡ suc (d + n) = omega arith in
    rw e (ap (λ x. suc (x * 12000 / rate)) (omega arith))

pub push_batch-IsStreamed :
    (frames : List ℤ) (u d : ℕ) (anchor : CaptureTimeEvidence) (rate : ℕ) (values : List ℤ)
    (past : List ReceiveTimelineEvent) (r : RationalResampler) (b : CaptureBatch)
    (events : List ReceiveTimelineEvent)
    → IsStreamed frames u d anchor rate values past r
    → 0 < rate
    → b.first_frame.position ≡ anchor.position + d
    → (push_batch b r).0 ≡ ok events
    → (more : List ℤ) × IsStreamed
        (frames ++ b.samples)
        u
        (d + length b.samples)
        anchor
        rate
        (values ++ more)
        (past ++ events)
        (push_batch b r).1
push_batch-IsStreamed frames u d anchor rate values past r b events s h place e =
    let t = u * ticks_per_millisecond in
    let (taken, same_events, same_resampler) = push_batch-inverse b r events e in
    let start : Output = record { resampler = r; events = [] } in
    let behind : IsBehind (length values) r.source_rate_hz (d * 12000) =
      rw (s.total, s.same_rate) (count-IsBehind d rate) in
    let a =
      push_samples-Advances frames u values d b.first_frame.position 0 b.samples start
        (record { at = s.at; active = s.active; events = tt }) (rw s.same_rate h)
        (rw s.same_anchor (omega (arith, place))) behind s.frame_count s.tracks taken in
    let same_rate : (r.source_rate_hz ≡ rate) = s.same_rate in
    let V = IsOutput rate (frames ++ b.samples) in
    let heard_before : AllFrom V 0 values =
      AllFrom-map (IsOutput rate frames) V 0 values (IsOutput-append rate frames b.samples)
        s.heard in
    let from_zero : length values ≡ 0 + length values = omega arith in
    let heard_behind : AllFrom V (0 + length values) a.more =
      subst (λ k. AllFrom V k a.more) from_zero
        (subst (λ n. AllFrom (IsOutput n (frames ++ b.samples)) (length values) a.more) same_rate
          a.heard) in
    (
      a.more,
      rw (sym same_resampler) (record {
        frame_count = length-append frames b.samples ∙ ap (λ n. n + length b.samples) s.frame_count;
        heard = AllFrom-append V 0 values a.more heard_before heard_behind;
        tracks = a.tracks;
        at = a.holds.at;
        active = a.holds.active;
        published =
            All-append (IsPublished t (values ++ a.more)) past events
              (All-map (IsPublished t values) (IsPublished t (values ++ a.more))
                (IsPublished-append t values a.more) past s.published)
              (rw same_events at a.holds.events);
        total = a.total ∙ rw (s.total, s.same_rate) (count_after-append (length b.samples) d rate);
        same_rate = a.rate ∙ s.same_rate;
        same_anchor = a.anchor ∙ s.same_anchor;
      }),
    )
