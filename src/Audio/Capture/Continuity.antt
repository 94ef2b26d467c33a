-- ===== src/Audio/Capture/Continuity.antt =====
-- crates/audio/src/capture.rs with crates/audio/src/lib.rs: the capture sequence accepts what a
-- capture stream delivers.
use slotpilot.Prelude.{
  ℕ, ◌+◌, ◌≤◌, ◌<◌, ◌≡◌, sym, ap, subst, ◌∙◌, arith, Bool, true, false, none, some, Option, List,
  [], ◌∷◌, map, All, All-map, length, within,
}
use slotpilot.Prelude.Words.{u64_max}
use slotpilot.Prelude.Results.{ok, ok-injective}
use slotpilot.Audio.Batch.{CaptureBatch, CaptureDiscontinuity}
use slotpilot.Audio.Sequence.{
  start, start-fits, AllContinue, CaptureSequence, observe_all, observe_all_iff,
}
use slotpilot.Audio.Capture.Queues.{ArrayQueue}
use slotpilot.Audio.Capture.Worker.{SharedCapture, max_capture_queue_batches, new_shared}
use slotpilot.Audio.Capture.Fill.{NormalizeSample}
use slotpilot.Audio.Capture.Callback.{CallbackState, new_callback}
use slotpilot.Audio.Capture.Accounting.{Follows, Marks}
use slotpilot.Audio.Capture.Ledger.{Setup}
use slotpilot.Audio.Capture.Taking.{IsOf, piece_of}
use slotpilot.Audio.Capture.History.{Call, run, opened_stream_sound}

-- The monotonic times of the batches do not fall.
abbrev pub Rising : ℕ → List CaptureBatch → Type 0
Rising millis [] = Unit
Rising millis (b ∷ bs) =
    (millis ≤ b.first_frame.monotonic_millis) × Rising b.first_frame.monotonic_millis bs

abbrev pub FitsPosition : CaptureBatch → Type 0
FitsPosition b = b.first_frame.position + length b.samples ≤ u64_max

Marks-forward :
    (mark : Option CaptureDiscontinuity) (at e : ℕ) (o : Bool)
    → Marks mark at e o
    → (e ≤ at) × (mark ≡ none → at ≡ e)
Marks-forward none at e o m = (omega (arith, m.0), λ _. m.0)
Marks-forward (some d) at e o m = (ground arith, λ h. cc)

AllContinue-delivered :
    (u : Setup) (bs : List CaptureBatch) (s : CaptureSequence) (o : Bool)
    → s.process_generation ≡ u.process_generation
    → s.stream_generation ≡ u.stream_generation
    → All (IsOf u) bs
    → Follows s.next_position o (map piece_of bs)
    → Rising s.last_monotonic_millis bs
    → All FitsPosition bs
    → AllContinue s bs
AllContinue-delivered u [] s o p g i f r w = tt
AllContinue-delivered u (b ∷ bs) s o p g i f r w =
    let (forward, marked) =
      Marks-forward b.discontinuity b.first_frame.position s.next_position o f.0 in
    (
      record {
        same_process = i.0.process ∙ sym p;
        same_stream = i.0.stream ∙ sym g;
        forward = forward;
        marked = marked;
        monotonic = r.0;
        room = w.0;
      },
      AllContinue-delivered u bs _ false p g i.1 f.1 r.1 w.1,
    )

-- The first batch that a capture stream delivers starts a capture sequence, and the sequence then
-- accepts every later one, as long as the monotonic times of the batches do not fall and their
-- positions fit.
pub delivered_stream_accepted :
    (Q : ArrayQueue) (u : Setup) {T : Type 0} (normalize : NormalizeSample T) (cs : List (Call T))
    (shared : SharedCapture Q) (b : CaptureBatch) (bs : List CaptureBatch) (s : CallbackState Q)
    → within 2 max_capture_queue_batches u.queue_batches ≡ true
    → u.configuration.selected_channel < u.configuration.channels
    → new_shared Q u.configuration u.process_generation u.stream_generation u.queue_batches
      ≡ ok shared
    → run normalize (new_callback shared) cs ≡ ok (b ∷ bs, s)
    → Rising b.first_frame.monotonic_millis bs
    → All FitsPosition (b ∷ bs)
    → (q : CaptureSequence) × (q' : CaptureSequence) × (start b ≡ ok q) × (observe_all q bs ≡ ok q')
delivered_stream_accepted Q u normalize cs shared b bs s n room opens runs r w =
    let (shared', e, bs', s', h, i, f) = opened_stream_sound Q u normalize cs n room in
    let same_shared : shared' ≡ shared = ok-injective _ e opens in
    let h' = subst (λ x. run normalize (new_callback x) cs ≡ ok (bs', s')) same_shared h in
    let same : bs' ≡ b ∷ bs = ap (λ p. p.0) (ok-injective _ h' runs) in
    let i' = subst (All (IsOf u)) same i in
    let f' = subst (λ x. Follows 0 true (map piece_of x)) same f in
    let q : CaptureSequence = record {
      process_generation = b.process_generation;
      stream_generation = b.stream_generation;
      next_position = b.first_frame.position + length b.samples;
      last_monotonic_millis = b.first_frame.monotonic_millis;
    } in
    let accepted =
      (observe_all_iff q bs (All-map (IsOf u) _ (λ b x. x.fit) bs i'.1)).1
        (AllContinue-delivered u bs q false i'.0.process i'.0.stream i'.1 f'.1 r w.1) in
    (q, accepted.0, start-fits b i'.0.fit w.0, accepted.1)
