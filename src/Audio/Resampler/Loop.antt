-- ===== src/Audio/Resampler/Loop.antt =====
-- crates/audio/src/timeline.rs: the loop of `RationalResampler::push_sample` ends, and what it has
-- produced when it ends.
use slotpilot.Prelude.{
  ℕ, suc, ◌+◌, ◌*◌, ◌<◌, ◌≤◌, ◌≡◌, ◌⊎◌, inl, inr, refl, ap, sym, ◌∙◌, lt-cases, arith, true, false,
}
use slotpilot.Prelude.Int.{ℤ, pos, ltb_ℤ, ◌+ℤ◌, ◌-ℤ◌, ◌*ℤ◌, +ℤ_parts}
use slotpilot.Prelude.Results.{ok, err, also, also-eq_ok, Result-cases}
use slotpilot.Audio.Slot.{ReceiveTimelineError, arithmetic_overflow}
use slotpilot.Audio.Resampler.Accumulator.{wide, ticks_per_millisecond}
use slotpilot.Audio.Resampler.State.{RationalResampler}
use slotpilot.Audio.Resampler.Output.{Output, push_output, open_slot, add_sample}
use slotpilot.Audio.Resampler.Emit.{target_source_tick, value_at, next_tick, emit, emit_up_to}

-- The anchor lies at u milliseconds, and k outputs have been produced from it on.
pub record IsAt (r : RationalResampler) (u k : ℕ) : Type 0 where
  pub start : r.anchor.utc_unix_millis ≡ pos u
  pub next : r.next_output_tick ≡ pos (u * ticks_per_millisecond + k)

pub target_cases :
    (r : RationalResampler) (u k : ℕ)
    → IsAt r u k
    → (target_source_tick r ≡ err arithmetic_overflow)
      ⊎ (target_source_tick r ≡ ok (pos (k * r.source_rate_hz)))
unfolding target_source_tick ◌*ℤ◌ ◌-ℤ◌
target_cases r u k at = ground arith

-- Adding a sample to the accumulator leaves the clock of the resampler alone.
pub record SameClock (r s : RationalResampler) : Type 0 where
  pub anchor : s.anchor ≡ r.anchor
  pub rate : s.source_rate_hz ≡ r.source_rate_hz
  pub tick : s.next_output_tick ≡ r.next_output_tick
  pub previous : s.previous ≡ r.previous

open_slot-SameClock : (o : Output) → SameClock o.resampler (open_slot o).1.resampler
unfolding open_slot
open_slot-SameClock o = ground arith

add_sample-SameClock : (v : ℤ) (o : Output) → SameClock o.resampler (add_sample v o).1.resampler
unfolding add_sample
add_sample-SameClock v o = ground arith

push_output-SameClock : (v : ℤ) (o : Output) → SameClock o.resampler (push_output v o).1.resampler
unfolding push_output
push_output-SameClock v o =
    let a = open_slot-SameClock o in let b = add_sample-SameClock v (open_slot o).1 in ground arith

tick_after :
    (z : ℤ) (u k : ℕ) (t : ℤ)
    → z ≡ pos (u * ticks_per_millisecond + k)
    → wide (z +ℤ pos 1) ≡ ok t
    → t ≡ pos (u * ticks_per_millisecond + suc k)
tick_after z u k t e h = ground (arith, +ℤ_parts z (pos 1))

-- An output that succeeds leaves anchor and rate alone and moves the clock on by one output.
pub record IsEmitted (r s : RationalResampler) (u k : ℕ) : Type 0 where
  pub at : IsAt s u (suc k)
  pub rate : s.source_rate_hz ≡ r.source_rate_hz
  pub anchor : s.anchor ≡ r.anchor
  pub previous : s.previous ≡ r.previous

pub next_tick-IsEmitted :
    (o : Output) (u k : ℕ)
    → IsAt o.resampler u k
    → (next_tick o).0 ≡ ok tt
    → IsEmitted o.resampler (next_tick o).1.resampler u k
unfolding next_tick
next_tick-IsEmitted o u k at h =
    let sum = +ℤ_parts o.resampler.next_output_tick (pos 1) in ground arith

IsEmitted-SameClock :
    (r s t : RationalResampler) (u k : ℕ) → SameClock r s → IsEmitted s t u k → IsEmitted r t u k
IsEmitted-SameClock r s t u k c e = ground arith

IsAt-SameClock : (r s : RationalResampler) (u k : ℕ) → SameClock r s → IsAt r u k → IsAt s u k
IsAt-SameClock r s u k c at = ground arith

pub emit-IsEmitted :
    (v : ℤ) (o : Output) (u k : ℕ)
    → IsAt o.resampler u k
    → (emit v o).0 ≡ ok tt
    → IsEmitted o.resampler (emit v o).1.resampler u k
unfolding emit
emit-IsEmitted v o u k at h =
    let c = push_output-SameClock v o in
    let parts = also-eq_ok (push_output v o) next_tick h in
    let o' = (push_output v o).1 in
    let at' = IsAt-SameClock o.resampler o'.resampler u k c at in
    rw parts.2 (
      IsEmitted-SameClock o.resampler o'.resampler (next_tick o').1.resampler u k c
        (next_tick-IsEmitted o' u k at' parts.1))

-- From k outputs to k', where output k' is the first that lies behind the source tick c.
pub record Covers (r s : RationalResampler) (u k c k' : ℕ) : Type 0 where
  pub at : IsAt s u k'
  pub rate : s.source_rate_hz ≡ r.source_rate_hz
  pub anchor : s.anchor ≡ r.anchor
  pub previous : s.previous ≡ r.previous
  pub behind : c < k' * r.source_rate_hz
  pub reached : (k' ≡ k) ⊎ ((j : ℕ) × (k' ≡ suc j) × (k ≤ j) × (j * r.source_rate_hz ≤ c))

pub Covers-step :
    (r s t : RationalResampler) (u k c k' : ℕ)
    → k * r.source_rate_hz ≤ c
    → IsEmitted r s u k
    → Covers s t u (suc k) c k'
    → Covers r t u k c k'
Covers-step r s t u k c k' low e v = record {
  at = v.at;
  rate = v.rate ∙ e.rate;
  anchor = v.anchor ∙ e.anchor;
  previous = v.previous ∙ e.previous;
  behind = rw e.rate at v.behind;
  reached = elim v.reached [
    | inl h ↦ inr (k, h, omega arith, low)
    | inr h ↦ inr (h.0, h.1, omega (arith, h.2), rw e.rate at h.3)
  ];
}

-- One round of the loop: the next output lies behind the source tick, or it is emitted.
abbrev pub Round : ℕ → ℕ → ℤ → ℕ → ℕ → Output → Type 0
Round fuel position sample c k o =
    ((c < k * o.resampler.source_rate_hz)
      × (emit_up_to (suc fuel) position sample (pos c) o ≡ (ok tt, o)))
    ⊎ ((k * o.resampler.source_rate_hz ≤ c)
        × (v : ℤ) × (value_at o.resampler position sample (pos c)
              (pos (k * o.resampler.source_rate_hz))
            ≡ ok v)
        × ((emit v o).0 ≡ ok tt)
        × (emit_up_to (suc fuel) position sample (pos c) o
            ≡ emit_up_to fuel position sample (pos c) (emit v o).1))

module _ (fuel position : ℕ) (sample : ℤ) (c t : ℕ) (o : Output) where
  pub step_ends :
      target_source_tick o.resampler ≡ ok (pos t)
      → c < t
      → emit_up_to (suc fuel) position sample (pos c) o ≡ (ok tt, o)
  unfolding emit_up_to
  step_ends e h = let b : ltb_ℤ (pos c) (pos t) ≡ true = ground arith in rw (e, emit_up_to, b) refl

  pub step_fails :
      target_source_tick o.resampler ≡ ok (pos t)
      → t ≤ c
      → (x : ReceiveTimelineError) → value_at o.resampler position sample (pos c) (pos t) ≡ err x
      → emit_up_to (suc fuel) position sample (pos c) o ≡ (err x, o)
  unfolding emit_up_to
  step_fails e h x v =
      let b : ltb_ℤ (pos c) (pos t) ≡ false = ground arith in rw (e, emit_up_to, b, v) refl

  pub step_emits :
      target_source_tick o.resampler ≡ ok (pos t)
      → t ≤ c
      → (x : ℤ) → value_at o.resampler position sample (pos c) (pos t) ≡ ok x
      → emit_up_to (suc fuel) position sample (pos c) o
        ≡ also (emit x o) (emit_up_to fuel position sample (pos c))
  unfolding emit_up_to
  step_emits e h x v =
      let b : ltb_ℤ (pos c) (pos t) ≡ false = ground arith in rw (e, emit_up_to, b, v) refl

  pub step_overflows :
      target_source_tick o.resampler ≡ err arithmetic_overflow
      → emit_up_to (suc fuel) position sample (pos c) o ≡ (err arithmetic_overflow, o)
  unfolding emit_up_to
  step_overflows e = rw (e, emit_up_to) refl

pub emit_up_to-Round :
    (fuel position : ℕ) (sample : ℤ) (c u k : ℕ) (o : Output)
    → IsAt o.resampler u k
    → (emit_up_to (suc fuel) position sample (pos c) o).0 ≡ ok tt
    → Round fuel position sample c k o
emit_up_to-Round fuel position sample c u k o at h =
    let t = k * o.resampler.source_rate_hz in
    elim (target_cases o.resampler u k at) [
      | inl e ↦ let f = step_overflows fuel position sample c t o e in cc
      | inr e ↦ elim (lt-cases c t) [
        | inl b ↦ inl (b, step_ends fuel position sample c t o e b)
        | inr b ↦ elim (Result-cases (value_at o.resampler position sample (pos c) (pos t))) [
          | inl (x, v) ↦
              let f = step_emits fuel position sample c t o e b x v in
              let parts =
                also-eq_ok (emit x o) (emit_up_to fuel position sample (pos c))
                  (ap (λ p. p.0) (sym f) ∙ h) in
              inr (b, x, v, parts.0, f ∙ parts.2)
          | inr (x, v) ↦ let f = step_fails fuel position sample c t o e b x v in cc
        ]
      ]
    ]
