-- ===== src/Audio/Capture/Fill.antt =====
-- crates/audio/src/capture.rs: the inner loop of `CallbackState::process`, which copies the selected
-- channel of a run of frames into a buffer.
use slotpilot.Prelude.{
  ℕ, zero, suc, ◌+◌, ◌*◌, Bool, Option, none, some, List, [], ◌∷◌, get_elem?, if◌then◌else◌,
}
use slotpilot.Prelude.Int.{ℤ}
use slotpilot.Prelude.Words.{saturating_add, u32_max}

-- `NormalizeSample`: the sample as an `i16` and whether it is clipped, or nothing.
abbrev pub NormalizeSample : Type 0 → Type 0
NormalizeSample T = T → Option (ℤ × Bool)

-- The buffer as the loop leaves it and the number of clipped samples; a sample that has no value
-- ends the call, and an index out of range is a panic.
pub data Filled : Type 0 where
  filled : List ℤ → ℕ → Filled
  refused : List ℤ → Filled
  panicked : Filled

abbrev pub keep : ℤ → Filled → Filled
keep x (filled xs clipped) = filled (x ∷ xs) clipped
keep x (refused xs) = refused (x ∷ xs)
keep x panicked = panicked

module _ {T : Type 0} (normalize : NormalizeSample T) (data_in : List T)
    (channels selected : ℕ) where
  -- The frames from this one on, written to the rest of the buffer.
  unfoldable pub fill : ℕ → ℕ → List ℤ → ℕ → Filled
  fill zero frame buffer clipped = filled buffer clipped
  fill (suc n) frame [] clipped = panicked
  fill (suc n) frame (old ∷ buffer) clipped =
      elim (get_elem? data_in (frame * channels + selected)) [
        | none ↦ panicked
        | some raw ↦ elim (normalize raw) [
          | none ↦ refused (old ∷ buffer)
          | some (x, c) ↦
              keep x
                (fill n (suc frame) buffer (saturating_add u32_max clipped (if c then 1 else 0)))
        ]
      ]
