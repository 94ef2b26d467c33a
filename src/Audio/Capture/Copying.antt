-- ===== src/Audio/Capture/Copying.antt =====
-- crates/audio/src/capture.rs: the inner loop of `CallbackState::process` reads and writes in range.
use native.Mathlib.Nat.{add-mul, suc-mul}
use slotpilot.Prelude.{
  ℕ, zero, suc, ◌+◌, ◌*◌, ◌≤◌, ◌<◌, ◌≡◌, inl, inr, refl, subst, arith, Bool, List, [], ◌∷◌, length,
  Option-cases, get_elem?_of_lt, if◌then◌else◌,
}
use slotpilot.Prelude.Int.{ℤ}
use slotpilot.Prelude.Words.{saturating_add, u32_max}
use slotpilot.Audio.Capture.Fill.{NormalizeSample, Filled, filled, refused, panicked, fill, keep}

-- The loop ended without a panic, left a buffer of the given length, and counted at most so many
-- clipped samples.
abbrev pub Keeps : ℕ → ℕ → Filled → Type 0
Keeps size most (filled buffer clipped) = (length buffer ≡ size) × (clipped ≤ most)
Keeps size most (refused buffer) = length buffer ≡ size
Keeps size most panicked = ⊥

keep-Keeps :
    (x : ℤ) (size most : ℕ) (r : Filled) → Keeps size most r → Keeps (suc size) most (keep x r)
keep-Keeps x size most (filled b c) h = (omega (arith, h.0), h.1)
keep-Keeps x size most (refused b) h = omega (arith, h)
keep-Keeps x size most panicked h = h

Keeps-weaken :
    (size most more : ℕ) (r : Filled) → most ≤ more → Keeps size most r → Keeps size more r
Keeps-weaken size most more (filled b c) l h = (h.0, omega (arith, h.1, l))
Keeps-weaken size most more (refused b) l h = h
Keeps-weaken size most more panicked l h = h

count_le :
    (n clipped : ℕ) (c : Bool)
    → saturating_add u32_max clipped (if c then 1 else 0) + n ≤ clipped + suc n
count_le n clipped c = ground arith

module _ {T : Type 0} (normalize : NormalizeSample T) (items : List T) (channels selected : ℕ) where
  pub fill-Keeps :
      (n frame : ℕ) (buffer : List ℤ) (clipped : ℕ)
      → selected < channels
      → (frame + n) * channels ≤ length items
      → n ≤ length buffer
      → Keeps
          (length buffer)
          (clipped + n)
          (fill normalize items channels selected n frame buffer clipped)
  unfolding fill
  fill-Keeps zero frame buffer clipped s r w = (refl, omega arith)
  fill-Keeps (suc n) frame [] clipped s r w = absurd (omega (arith, w))
  fill-Keeps (suc n) frame (old ∷ buffer) clipped s r w =
      let (raw, e) =
        get_elem?_of_lt items (frame * channels + selected)
          (omega (arith, s, r, add-mul frame (suc n) channels, suc-mul n channels)) in
      elim (Option-cases (normalize raw)) [
        | inl f ↦ rw (fill, e, f) refl
        | inr ((x, c), f) ↦
            rw (fill, e, f)
              (keep-Keeps x (length buffer) (clipped + suc n) _ (
                Keeps-weaken (length buffer) _ (clipped + suc n) _ (count_le n clipped c) (
                  fill-Keeps n (suc frame) buffer _ s
                    (subst (λ k. k * channels ≤ length items) (omega arith) r) (omega (arith, w)))))
      ]
