-- ===== src/Audio/Capture/Normalize.antt =====
-- crates/audio/src/capture.rs: the integer formats of `NormalizeSample`, scaled to 16 bits.
use native.Mathlib.Nat.{
  div-mul-le_self, lt-div-mul-add, le_of_mul-le-mul_right, mul-le-mul_right, mul-le-mul, mul_comm,
}
use slotpilot.Prelude.{
  ℕ, suc, ◌+◌, ◌-◌, ◌*◌, ◌/◌, ◌≤◌, ◌<◌, ◌≡◌, ◌⊎◌, ◌↔◌, refl, arith, Bool, true, none, some,
  if◌then◌else◌, leb, ◌==◌, ◌||◌,
}
use slotpilot.Prelude.Int.{ℤ, pos, negsuc, sub_ℕ, eqb_ℤ}
use slotpilot.Audio.Capture.Fill.{NormalizeSample}
use slotpilot.Prelude.Words.{
  fits, try_signed, try_unsigned, i64_max, saturating_mul, i16_max, i128_max,
}

abbrev pub u128_max : ℕ
u128_max = 340282366920938463463374607431768211455

-- The truncated quotient of `signed_sample!`, by the magnitude of the value; the type has the
-- greatest value m and the least value -(m + 1).
abbrev pub scale_signed : ℕ → ℤ → ℤ
scale_signed m (pos n) = pos (saturating_mul i128_max n i16_max / m)
scale_signed m (negsuc n) = sub_ℕ 0 (saturating_mul (suc i128_max) (suc n) (suc i16_max) / suc m)

-- `signed_sample!`.
unfoldable pub normalize_signed : ℕ → NormalizeSample ℤ
normalize_signed m value = elim (try_signed i16_max (scale_signed m value)) [
  | none ↦ none
  | some x ↦ some (x, eqb_ℤ value (negsuc m) || eqb_ℤ value (pos m))
]

-- The quotient of `unsigned_sample!` as a magnitude, and with the sign that it is given.
abbrev pub scale_unsigned : ℕ → ℕ → ℕ → ℕ
scale_unsigned greatest midpoint value =
    if leb midpoint value
    then saturating_mul u128_max (value - midpoint) i16_max / (greatest - midpoint)
    else saturating_mul u128_max (midpoint - value) (suc i16_max) / midpoint

abbrev pub sign_unsigned : ℕ → ℕ → ℕ → ℤ
sign_unsigned midpoint value z = if leb midpoint value then pos z else sub_ℕ 0 z

-- `unsigned_sample!`.
unfoldable pub normalize_unsigned : ℕ → ℕ → NormalizeSample ℕ
normalize_unsigned greatest midpoint value =
    let z = scale_unsigned greatest midpoint value in
    elim (try_unsigned i128_max (pos z)) [
      | none ↦ none
      | some _ ↦ elim (try_signed i16_max (sign_unsigned midpoint value z)) [
        | none ↦ none
        | some x ↦ some (x, value == 0 || value == greatest)
      ]
    ]

-- The 16-bit sample is the scaled value, rounded towards zero: a positive one in parts of 32767, a
-- negative one in parts of 32768.
abbrev pub IsScaled : ℕ → ℤ → ℤ → Type 0
IsScaled m (pos n) x =
    (k : ℕ) × (x ≡ pos k) × (k * m ≤ n * i16_max) × (n * i16_max < k * m + m) × (k ≤ i16_max)
IsScaled m (negsuc n) x =
    (k : ℕ) × (x ≡ sub_ℕ 0 k)
    × (k * suc m ≤ suc n * suc i16_max)
    × (suc n * suc i16_max < k * suc m + suc m)
    × (k ≤ suc i16_max)

-- A value of the signed type with greatest value m.
abbrev pub IsValue : ℕ → ℤ → Type 0
IsValue m (pos n) = n ≤ m
IsValue m (negsuc n) = n ≤ m

pub quotient :
    (n m c : ℕ)
    → 0 < m
    → n ≤ m
    → (k : ℕ) × (n * c / m ≡ k) × (k * m ≤ n * c) × (n * c < k * m + m) × (k ≤ c)
quotient n m c z h =
    let low = div-mul-le_self (n * c) m in
    (
      n * c / m,
      refl,
      low,
      lt-div-mul-add {a = n * c} {b = m} z,
      le_of_mul-le-mul_right {m = n * c / m} {n = c} {k = m}
          (omega (arith, low, mul-le-mul_right c h, mul_comm m c)) z,
    )

pub unsaturated :
    (most n c : ℕ)
    → n ≤ 9223372036854775808
    → c ≤ 32768
    → i128_max ≤ most
    → saturating_mul most n c ≡ n * c
unsaturated most n c h w g =
    ground (arith, mul-le-mul {n₁ = n} {m₁ = c} {n₂ = 9223372036854775808} {m₂ = 32768} h w)

pub normalize_signed-at :
    (m : ℕ) (value x : ℤ)
    → scale_signed m value ≡ x
    → fits i16_max x ≡ true
    → normalize_signed m value ≡ some (x, eqb_ℤ value (negsuc m) || eqb_ℤ value (pos m))
unfolding normalize_signed
normalize_signed-at m value x e f = rw (normalize_signed, e, f) refl

clipped_iff :
    (m : ℕ) (value : ℤ)
    → ((eqb_ℤ value (negsuc m) || eqb_ℤ value (pos m)) ≡ true)
      ↔ ((value ≡ negsuc m) ⊎ (value ≡ pos m))
clipped_iff m (pos n) = ((λ h. ground arith), (λ h. ground arith))
clipped_iff m (negsuc n) = ((λ h. ground arith), (λ h. ground arith))

-- Each value of a signed type of at most 64 bits has a 16-bit sample, which is the scaled value,
-- and it is clipped exactly at the two ends of the type.
pub normalize_signed-IsScaled :
    (m : ℕ) (value : ℤ)
    → 0 < m
    → m ≤ i64_max
    → IsValue m value
    → (x : ℤ) × (c : Bool) × (normalize_signed m value ≡ some (x, c))
      × IsScaled m value x
      × ((c ≡ true) ↔ ((value ≡ negsuc m) ⊎ (value ≡ pos m)))
normalize_signed-IsScaled m (pos n) z w v =
    let (k, e, low, high, top) = quotient n m i16_max z v in
    let t : scale_signed m (pos n) ≡ pos k =
      rw (unsaturated i128_max n i16_max (omega (arith, v, w)) (omega arith) (omega arith), e)
        refl in
    (
      pos k,
      _,
      normalize_signed-at m (pos n) (pos k) t (ground arith),
      (k, refl, low, high, top),
      clipped_iff m (pos n),
    )
normalize_signed-IsScaled m (negsuc n) z w v =
    let (k, e, low, high, top) =
      quotient (suc n) (suc m) (suc i16_max) (omega arith) (omega (arith, v)) in
    let t : scale_signed m (negsuc n) ≡ sub_ℕ 0 k =
      rw
        (
          unsaturated (suc i128_max) (suc n) (suc i16_max) (omega (arith, v, w)) (omega arith)
              (omega arith),
          e,
        )
        refl in
    (
      sub_ℕ 0 k,
      _,
      normalize_signed-at m (negsuc n) (sub_ℕ 0 k) t (ground arith),
      (k, refl, low, high, top),
      clipped_iff m (negsuc n),
    )
