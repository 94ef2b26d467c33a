-- ===== src/Audio/Sequence.antt =====
-- crates/audio/src/lib.rs: `CaptureSequence`, which checks the order of the batches of one stream.
use slotpilot.Prelude.{
  ℕ, ◌+◌, ◌≤◌, ◌≡◌, ◌↔◌, refl, arith, Bool, true, false, Option, none, some, List, [], ◌∷◌, length,
  All, if◌then◌else◌, ltb, ◌==◌, ◌&&◌,
}
use slotpilot.Prelude.Words.{u64_max}
use slotpilot.Prelude.Results.{Result, ok, err, map_err, ◌>>=◌, >>=-eq-ok}
use slotpilot.Audio.Batch.{CaptureBatch, end_position, max_capture_batch_frames}

pub data CaptureSequenceError : Type 0 where
  generation_changed position_regressed unmarked_gap : CaptureSequenceError
  monotonic_regressed position_overflow : CaptureSequenceError

pub record CaptureSequence : Type 0 where
  pub process_generation : ℕ
  pub stream_generation : ℕ
  pub next_position : ℕ
  pub last_monotonic_millis : ℕ

pub start : CaptureBatch → Result CaptureSequenceError CaptureSequence
unfolding end_position
start b = do
  next ← map_err (λ _. position_overflow) (end_position b)
  ok (record {
    process_generation = b.process_generation;
    stream_generation = b.stream_generation;
    next_position = next;
    last_monotonic_millis = b.first_frame.monotonic_millis;
  })

-- The sequence behind a first batch that fits.
pub start-fits :
    (b : CaptureBatch)
    → length b.samples ≤ max_capture_batch_frames
    → b.first_frame.position + length b.samples ≤ u64_max
    → start b
      ≡ ok (record {
        process_generation = b.process_generation;
        stream_generation = b.stream_generation;
        next_position = b.first_frame.position + length b.samples;
        last_monotonic_millis = b.first_frame.monotonic_millis;
      })
unfolding start end_position
start-fits b n h = ground arith

abbrev is_none {ℓ} : {A : Type ℓ} → Option A → Bool
is_none none = true
is_none (some a) = false

-- The position is written only when every check has passed.
advance_over : CaptureSequence → CaptureBatch → Result CaptureSequenceError CaptureSequence
unfolding end_position
advance_over s b = do
  next ← map_err (λ _. position_overflow) (end_position b)
  ok (record s { next_position = next; last_monotonic_millis = b.first_frame.monotonic_millis })

-- `observe`; on an error the sequence is left as it was.
pub observe : CaptureSequence → CaptureBatch → Result CaptureSequenceError CaptureSequence
unfolding advance_over
observe s b =
    let position = b.first_frame.position in
    if b.process_generation == s.process_generation && b.stream_generation == s.stream_generation
    then if ltb position s.next_position
      then err position_regressed
      else if ltb s.next_position position && is_none b.discontinuity
      then err unmarked_gap
      else if ltb b.first_frame.monotonic_millis s.last_monotonic_millis
      then err monotonic_regressed
      else advance_over s b
    else err generation_changed

-- A stream of batches that the sequence accepts one after the other.
pub observe_all : CaptureSequence → List CaptureBatch → Result CaptureSequenceError CaptureSequence
observe_all s [] = ok s
observe_all s (b ∷ bs) = do s' ← observe s b; observe_all s' bs

abbrev moved : CaptureSequence → CaptureBatch → CaptureSequence
moved s b = record s {
  next_position = b.first_frame.position + length b.samples;
  last_monotonic_millis = b.first_frame.monotonic_millis;
}

-- The batch continues the sequence: same stream, no frame twice, each gap marked, monotonic time
-- does not fall, and the position after it fits.
pub record Continues (s : CaptureSequence) (b : CaptureBatch) : Type 0 where
  pub same_process : b.process_generation ≡ s.process_generation
  pub same_stream : b.stream_generation ≡ s.stream_generation
  pub forward : s.next_position ≤ b.first_frame.position
  pub marked : b.discontinuity ≡ none → b.first_frame.position ≡ s.next_position
  pub monotonic : s.last_monotonic_millis ≤ b.first_frame.monotonic_millis
  pub room : b.first_frame.position + length b.samples ≤ u64_max

-- Each batch continues the sequence that the batches before it leave.
abbrev pub AllContinue : CaptureSequence → List CaptureBatch → Type 0
AllContinue s [] = Unit
AllContinue s (b ∷ bs) = Continues s b × AllContinue (moved s b) bs

observe-Continues :
    (s : CaptureSequence) (b : CaptureBatch) (s' : CaptureSequence)
    → length b.samples ≤ max_capture_batch_frames
    → observe s b ≡ ok s'
    → Continues s b × (s' ≡ moved s b)
unfolding observe
observe-Continues s b s' fit h = ground arith

Continues-observe :
    (s : CaptureSequence) (b : CaptureBatch)
    → length b.samples ≤ max_capture_batch_frames
    → Continues s b
    → observe s b ≡ ok (moved s b)
unfolding observe
Continues-observe s b fit c = ground arith

-- A stream of batches is accepted exactly when each batch continues the sequence that the batches
-- before it leave.
pub observe_all_iff :
    (s : CaptureSequence) (bs : List CaptureBatch)
    → All (λ b. length b.samples ≤ max_capture_batch_frames) bs
    → ((s' : CaptureSequence) × (observe_all s bs ≡ ok s')) ↔ AllContinue s bs
unfolding observe_all
observe_all_iff s [] fit = ((λ _. tt), (λ _. (s, refl)))
observe_all_iff s (b ∷ bs) fit =
    let (to, from) = observe_all_iff (moved s b) bs fit.1 in
    (
      (λ h.
          let r = >>=-eq-ok (observe s b) (λ s'. observe_all s' bs) h.1 in
          let c = observe-Continues s b r.0 fit.0 r.1 in (c.0, to (h.0, rw c.1 at r.2))),
      (λ c. let r = from c.1 in (r.0, rw (Continues-observe s b fit.0 c.0) r.1)),
    )
