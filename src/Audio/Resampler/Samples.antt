-- ===== src/Audio/Resampler/Samples.antt =====
-- crates/audio/src/timeline.rs: what `RationalResampler::push` makes of the samples of a batch.
use slotpilot.Prelude.{
  ℕ, zero, suc, ◌*◌, ◌≡◌, inl, inr, refl, ap, sym, ◌∙◌, arith, List, [], ◌∷◌, ◌++◌, length,
  length-append, Option-cases, append_assoc, append-nil, some,
}
use slotpilot.Prelude.Int.{ℤ, pos, ◌*ℤ◌}
use slotpilot.Prelude.Words.{checked_sub}
use slotpilot.Prelude.Results.{Result, ok, also, also-eq_ok, Result-cases, ok-ne-err}
use slotpilot.Audio.Slot.{ReceiveTimelineError, out_of_order}
use slotpilot.Audio.Resampler.Accumulator.{wide}
use slotpilot.Audio.Resampler.Output.{Output}
use slotpilot.Audio.Resampler.Emit.{emit, emit_up_to}
use slotpilot.Audio.Resampler.Push.{push_sample, output_fuel, first_previous, keep_previous}
use slotpilot.Audio.Resampler.Loop.{emit_up_to-Round, emit-IsEmitted}
use slotpilot.Audio.Resampler.Values.{AllFrom, AllFrom-map, LoopValue, LoopValue-same}
use slotpilot.Audio.Resampler.Windows.{Holds}
use slotpilot.Audio.Resampler.Publication.{emit-Holds}

-- The outputs grow by `more`, and V holds of each with its number.
abbrev pub Grows : (ℕ → ℤ → Type 0) → ℕ → List ℤ → Output → Type 0
Grows V u values o = (more : List ℤ) × Holds u (values ++ more) o × AllFrom V (length values) more

Grows-step :
    (V : ℕ → ℤ → Type 0) (u : ℕ) (values : List ℤ) (v : ℤ) (o : Output)
    → V (length values) v
    → Grows V u (values ++ v ∷ []) o
    → Grows V u values o
Grows-step V u values v o computed (more, h, all) =
    let count : length (values ++ v ∷ []) ≡ suc (length values) =
      omega (arith, length-append values (v ∷ [])) in
    (v ∷ more, rw (sym (append_assoc values (v ∷ []) more)) h, (computed, rw count at all))

Grows-none :
    (V : ℕ → ℤ → Type 0) (u : ℕ) (values : List ℤ) (o : Output)
    → Holds u values o
    → Grows V u values o
Grows-none V u values o h = ([], rw (append-nil values) h, tt)

no_rounds :
    (position : ℕ) (sample : ℤ) (c : ℕ) (o : Output)
    → emit_up_to 0 position sample (pos c) o ≡ (ok tt, o)
unfolding emit_up_to
no_rounds position sample c o = refl

pub emit_up_to-Grows :
    (fuel position : ℕ) (sample : ℤ) (c u : ℕ) (values : List ℤ) (o : Output)
    → Holds u values o
    → (emit_up_to fuel position sample (pos c) o).0 ≡ ok tt
    → Grows
        (LoopValue o.resampler position sample c)
        u
        values
        (emit_up_to fuel position sample (pos c) o).1
emit_up_to-Grows zero position sample c u values o h e =
    rw (no_rounds position sample c o)
      (Grows-none (LoopValue o.resampler position sample c) u values o h)
emit_up_to-Grows (suc fuel) position sample c u values o h e =
    let V = LoopValue o.resampler position sample c in
    elim (emit_up_to-Round fuel position sample c u (length values) o h.at e) [
      | inl (behind, same) ↦ rw same (Grows-none V u values o h)
      | inr (low, v, computed, emitted, same) ↦
          let o' = (emit v o).1 in
          let moved = emit-IsEmitted v o u (length values) h.at emitted in
          let (more, held, all) =
            emit_up_to-Grows fuel position sample c u (values ++ v ∷ []) o'
              (emit-Holds u values v o h emitted) (ap (λ p. p.0) (sym same) ∙ e) in
          rw same (
            Grows-step V u values v (emit_up_to fuel position sample (pos c) o').1 (low, computed)
              (
                more,
                held,
                AllFrom-map (LoopValue o'.resampler position sample c) V (length (values ++ v ∷ []))
                    more
                    (λ k x.
                      LoopValue-same o.resampler o'.resampler position sample c k x moved.previous
                        moved.rate)
                    all,
              ))
    ]

-- The state in which the loop starts.
abbrev pub at_loop : ℕ → ℤ → Output → Output
at_loop delta sample o = record o {
  resampler = record o.resampler { previous = first_previous o.resampler.previous delta sample };
}

-- The loop for a sample at a distance of `delta` frames from the anchor.
abbrev pub sample_loop : ℕ → ℤ → Output → Result ReceiveTimelineError (Unit {0}) × Output
sample_loop delta sample o =
    emit_up_to (output_fuel (delta * 12000) o.resampler.source_rate_hz) delta sample
      (pos (delta * 12000)) (at_loop delta sample o)

-- What a successful `push_sample` did.
pub record IsPushed (position : ℕ) (sample : ℤ) (o o' : Output) : Type 0 where
  pub delta : ℕ
  pub distance : checked_sub position o.resampler.anchor.position ≡ some delta
  pub loop_ok : (sample_loop delta sample o).0 ≡ ok tt
  pub result : o' ≡ (keep_previous delta sample (sample_loop delta sample o).1).1

wide-product : (delta : ℕ) (z : ℤ) → wide (pos delta *ℤ pos 12000) ≡ ok z → z ≡ pos (delta * 12000)
unfolding ◌*ℤ◌
wide-product delta z h = ground arith

push_sample-loop :
    (position : ℕ) (sample : ℤ) (o : Output) (delta : ℕ)
    → checked_sub position o.resampler.anchor.position ≡ some delta
    → wide (pos delta *ℤ pos 12000) ≡ ok (pos (delta * 12000))
    → push_sample position sample o ≡ also (sample_loop delta sample o) (keep_previous delta sample)
unfolding push_sample
push_sample-loop position sample o delta d w = rw (push_sample, d, w) refl

pub push_sample-IsPushed :
    (position : ℕ) (sample : ℤ) (o : Output)
    → (push_sample position sample o).0 ≡ ok tt
    → IsPushed position sample o (push_sample position sample o).1
unfolding push_sample
push_sample-IsPushed position sample o h =
    elim (Option-cases (checked_sub position o.resampler.anchor.position)) [
      | inl d ↦ absurd (ok-ne-err {e = out_of_order} (sym h ∙ rw (push_sample, d) refl))
      | inr (delta, d) ↦ elim (Result-cases (wide (pos delta *ℤ pos 12000))) [
        | inr (e, w) ↦ absurd (ok-ne-err {e = e} (sym h ∙ rw (push_sample, d, w) refl))
        | inl (current, w) ↦
            let w' = rw (wide-product delta current w) at w in
            let loop = push_sample-loop position sample o delta d w' in
            let parts =
              also-eq_ok (sample_loop delta sample o) (keep_previous delta sample)
                (ap (λ p. p.0) (sym loop) ∙ h) in
            record {
              delta = delta;
              distance = d;
              loop_ok = parts.0;
              result = ap (λ p. p.1) (loop ∙ parts.2);
            }
      ]
    ]
