-- ===== src/Audio/Resampler/Termination.antt =====
-- crates/audio/src/timeline.rs: the loop of `RationalResampler::push_sample` ends within its fuel,
-- having emitted every output up to the sample.
use native.Mathlib.Nat.{lt-div-mul-add, suc-mul, mul-le-mul_right}
use slotpilot.Prelude.{
  ℕ, zero, suc, ◌+◌, ◌*◌, ◌/◌, ◌<◌, ◌≤◌, ◌≡◌, inl, inr, refl, ap, sym, ◌∙◌, lt-cases, arith,
}
use slotpilot.Prelude.Int.{ℤ, pos}
use slotpilot.Prelude.Results.{ok, also-ap, Result-cases}
use slotpilot.Audio.Resampler.Output.{Output}
use slotpilot.Audio.Resampler.Emit.{value_at, emit, emit_up_to}
use slotpilot.Audio.Resampler.Push.{output_fuel}
use slotpilot.Audio.Resampler.Loop.{
  IsAt, emit-IsEmitted, Covers, Covers-step, emit_up_to-Round, target_cases, step_ends, step_fails,
  step_emits, step_overflows,
}

stays :
    (position fuel : ℕ) (sample : ℤ) (c u k : ℕ) (o : Output)
    → IsAt o.resampler u k
    → c < k * o.resampler.source_rate_hz
    → emit_up_to (suc fuel) position sample (pos c) o ≡ (ok tt, o)
    → (k' : ℕ) × Covers o.resampler
        (emit_up_to (suc fuel) position sample (pos c) o).1.resampler
        u
        k
        c
        k'
stays position fuel sample c u k o at behind e = (
  k,
  rw e (record {
    at = at;
    rate = refl;
    anchor = refl;
    previous = refl;
    behind = behind;
    reached = inl refl;
  }),
)

pub emit_up_to-Covers :
    (fuel position : ℕ) (sample : ℤ) (c u k : ℕ) (o : Output)
    → IsAt o.resampler u k
    → c < (k + fuel) * o.resampler.source_rate_hz
    → (emit_up_to (suc fuel) position sample (pos c) o).0 ≡ ok tt
    → (k' : ℕ) × Covers o.resampler
        (emit_up_to (suc fuel) position sample (pos c) o).1.resampler
        u
        k
        c
        k'
emit_up_to-Covers zero position sample c u k o at room h =
    elim (emit_up_to-Round 0 position sample c u k o at h) [
      | inl (behind, e) ↦ stays position 0 sample c u k o at behind e
      | inr (low, v, computed, emitted, e) ↦ absurd (omega (arith, room, low))
    ]
emit_up_to-Covers (suc fuel) position sample c u k o at room h =
    elim (emit_up_to-Round (suc fuel) position sample c u k o at h) [
      | inl (behind, e) ↦ stays position (suc fuel) sample c u k o at behind e
      | inr (low, v, computed, emitted, e) ↦
          let step = emit-IsEmitted v o u k at emitted in
          let room' : c < (suc k + fuel) * (emit v o).1.resampler.source_rate_hz =
            rw step.rate (omega (arith, room)) in
          let rest =
            emit_up_to-Covers fuel position sample c u (suc k) (emit v o).1 step.at room'
              (ap (λ p. p.0) (sym e) ∙ h) in
          (
            rest.0,
            rw e (
                Covers-step o.resampler (emit v o).1.resampler
                  (emit_up_to (suc fuel) position sample (pos c) (emit v o).1).1.resampler u k c
                  rest.0 low step rest.1),
          )
    ]

pub enough : (k c : ℕ) {rate : ℕ} → 0 < rate → c < (k + suc (c / rate)) * rate
enough k c {rate} h =
    let a = lt-div-mul-add {a = c} h in
    let more : suc (c / rate) ≤ k + suc (c / rate) = omega arith in
    let b = mul-le-mul_right rate more in let s = suc-mul (c / rate) rate in omega arith

-- One round gives the same for two amounts of fuel when the rounds after it do.
same_round :
    (m n position : ℕ) (sample : ℤ) (c u k : ℕ) (o : Output)
    → IsAt o.resampler u k
    → ((x : ℤ)
        → k * o.resampler.source_rate_hz ≤ c
        → (emit x o).0 ≡ ok tt
        → emit_up_to m position sample (pos c) (emit x o).1
          ≡ emit_up_to n position sample (pos c) (emit x o).1)
    → emit_up_to (suc m) position sample (pos c) o ≡ emit_up_to (suc n) position sample (pos c) o
same_round m n position sample c u k o at next =
    let t = k * o.resampler.source_rate_hz in
    elim (target_cases o.resampler u k at) [
      | inl e ↦
          step_overflows m position sample c t o e ∙ sym (step_overflows n position sample c t o e)
      | inr e ↦ elim (lt-cases c t) [
        | inl b ↦
            step_ends m position sample c t o e b ∙ sym (step_ends n position sample c t o e b)
        | inr b ↦ elim (Result-cases (value_at o.resampler position sample (pos c) (pos t))) [
          | inr (x, v) ↦
              step_fails m position sample c t o e b x v
              ∙ sym (step_fails n position sample c t o e b x v)
          | inl (x, v) ↦
              step_emits m position sample c t o e b x v
              ∙ also-ap (emit x o) (emit_up_to m position sample (pos c))
                  (emit_up_to n position sample (pos c)) (next x b)
              ∙ sym (step_emits n position sample c t o e b x v)
        ]
      ]
    ]

emit_up_to-more :
    (n m position : ℕ) (sample : ℤ) (c u k : ℕ) (o : Output)
    → n ≤ m
    → IsAt o.resampler u k
    → c < (k + n) * o.resampler.source_rate_hz
    → emit_up_to (suc m) position sample (pos c) o ≡ emit_up_to (suc n) position sample (pos c) o
emit_up_to-more zero m position sample c u k o le at room =
    same_round m 0 position sample c u k o at (λ x low e. absurd (omega (arith, room, low)))
emit_up_to-more (suc n) zero position sample c u k o le at room = absurd (omega (arith, le))
emit_up_to-more (suc n) (suc m) position sample c u k o le at room =
    same_round (suc m) (suc n) position sample c u k o at (λ x low e.
      let step = emit-IsEmitted x o u k at e in
      let room' : c < (suc k + n) * (emit x o).1.resampler.source_rate_hz =
        rw step.rate (omega (arith, room)) in
      emit_up_to-more n m position sample c u (suc k) (emit x o).1 (omega (arith, le)) step.at
        room')

-- With a positive rate, the loop of `push_sample` ends within `output_fuel` rounds: with any more
-- fuel it gives the same result, errors included, and leaves the same state.
pub output_fuel_suffices :
    (fuel position : ℕ) (sample : ℤ) (c u k : ℕ) (o : Output)
    → IsAt o.resampler u k
    → 0 < o.resampler.source_rate_hz
    → output_fuel c o.resampler.source_rate_hz ≤ fuel
    → emit_up_to fuel position sample (pos c) o
      ≡ emit_up_to (output_fuel c o.resampler.source_rate_hz) position sample (pos c) o
output_fuel_suffices zero position sample c u k o at rate le = absurd (omega (arith, le))
output_fuel_suffices (suc fuel) position sample c u k o at rate le =
    emit_up_to-more (suc (c / o.resampler.source_rate_hz)) fuel position sample c u k o
      (omega (arith, le)) at (enough k c rate)
