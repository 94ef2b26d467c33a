-- ===== src/Audio/Capture/Unsigned.antt =====
-- crates/audio/src/capture.rs: the unsigned sample formats agree with the signed ones.
use slotpilot.Prelude.{
  ℕ, suc, ◌+◌, ◌-◌, ◌/◌, ◌≤◌, ◌<◌, ◌≡◌, inl, inr, refl, sym, ap, ◌∙◌, subst, lt-cases, arith, true,
  false, some, leb, ◌==◌, ◌||◌,
}
use slotpilot.Prelude.Int.{ℤ, pos, negsuc, sub_ℕ, eqb_ℤ}
use slotpilot.Prelude.Words.{fits, i64_max, saturating_mul, i16_max, i128_max}
use slotpilot.Audio.Capture.Normalize.{
  normalize_signed, normalize_unsigned, normalize_signed-at, quotient, scale_unsigned,
  sign_unsigned, unsaturated, u128_max,
}

normalize_unsigned-at :
    (greatest midpoint value k : ℕ) (x : ℤ)
    → scale_unsigned greatest midpoint value ≡ k
    → leb k i128_max ≡ true
    → sign_unsigned midpoint value k ≡ x
    → fits i16_max x ≡ true
    → normalize_unsigned greatest midpoint value ≡ some (x, value == 0 || value == greatest)
unfolding normalize_unsigned
normalize_unsigned-at greatest midpoint value k x e l g f =
    rw (normalize_unsigned, e, l, e, g, f) refl

above : (m n : ℕ) → n ≤ m → sub_ℕ (n + suc m) (suc m) ≡ pos n
above m n h = ground arith

below : (m n : ℕ) → n ≤ m → sub_ℕ (m - n) (suc m) ≡ negsuc n
below m n h = ground arith

above_scale :
    (m n : ℕ)
    → n ≤ m
    → scale_unsigned (m + suc m) (suc m) (n + suc m) ≡ saturating_mul u128_max n i16_max / m
above_scale m n h =
    let d : n + suc m - suc m ≡ n = omega arith in
    let g : m + suc m - suc m ≡ m = omega arith in
    let l : leb (suc m) (n + suc m) ≡ true = ground arith in rw (l, d, g) refl

below_scale :
    (m n : ℕ)
    → n ≤ m
    → scale_unsigned (m + suc m) (suc m) (m - n)
      ≡ saturating_mul u128_max (suc n) (suc i16_max) / suc m
below_scale m n h =
    let d : suc m - (m - n) ≡ suc n = omega (arith, h) in
    let l : leb (suc m) (m - n) ≡ false = ground arith in rw (l, d) refl

unsigned_above :
    (m n : ℕ)
    → 0 < m
    → m ≤ i64_max
    → n ≤ m
    → normalize_unsigned (m + suc m) (suc m) (n + suc m) ≡ normalize_signed m (pos n)
unsigned_above m n z w v =
    let (k, e, low, high, top) = quotient n m i16_max z v in
    let u = unsaturated u128_max n i16_max (omega (arith, v, w)) (omega arith) (omega arith) in
    let s = unsaturated i128_max n i16_max (omega (arith, v, w)) (omega arith) (omega arith) in
    let clip : (n + suc m == 0 || n + suc m == m + suc m)
        ≡ (eqb_ℤ (pos n) (negsuc m) || eqb_ℤ (pos n) (pos m)) =
      ground arith in
    normalize_unsigned-at (m + suc m) (suc m) (n + suc m) k (pos k)
      (above_scale m n v ∙ rw (u, e) refl) (ground arith) (ground arith) (ground arith)
    ∙ ap (λ c. some (pos k, c)) clip
    ∙ sym (normalize_signed-at m (pos n) (pos k) (rw (s, e) refl) (ground arith))

unsigned_below :
    (m n : ℕ)
    → m ≤ i64_max
    → n ≤ m
    → normalize_unsigned (m + suc m) (suc m) (m - n) ≡ normalize_signed m (negsuc n)
unsigned_below m n w v =
    let (k, e, low, high, top) =
      quotient (suc n) (suc m) (suc i16_max) (omega arith) (omega (arith, v)) in
    let u =
      unsaturated u128_max (suc n) (suc i16_max) (omega (arith, v, w)) (omega arith)
        (omega arith) in
    let s =
      unsaturated (suc i128_max) (suc n) (suc i16_max) (omega (arith, v, w)) (omega arith)
        (omega arith) in
    let clip : (m - n == 0 || m - n == m + suc m)
        ≡ (eqb_ℤ (negsuc n) (negsuc m) || eqb_ℤ (negsuc n) (pos m)) =
      ground arith in
    normalize_unsigned-at (m + suc m) (suc m) (m - n) k (sub_ℕ 0 k)
      (below_scale m n v ∙ rw (u, e) refl) (ground arith) (ground arith) (ground arith)
    ∙ ap (λ c. some (sub_ℕ 0 k, c)) clip
    ∙ sym (normalize_signed-at m (negsuc n) (sub_ℕ 0 k) (rw (s, e) refl) (ground arith))

-- An unsigned format gives the sample of the signed format of the same width at the value less the
-- midpoint.
pub unsigned_as_signed :
    (m value : ℕ)
    → 0 < m
    → m ≤ i64_max
    → value ≤ m + suc m
    → normalize_unsigned (m + suc m) (suc m) value ≡ normalize_signed m (sub_ℕ value (suc m))
unsigned_as_signed m value z w v = elim (lt-cases value (suc m)) [
  | inl h ↦
      let n = m - value in
      let b : m - n ≡ value = omega (arith, h) in
      subst (λ x. normalize_unsigned (m + suc m) (suc m) x ≡ normalize_signed m (sub_ℕ x (suc m))) b
        (unsigned_below m n w (omega (arith, h))
          ∙ ap (normalize_signed m) (sym (below m n (omega (arith, h)))))
  | inr h ↦
      let n = value - suc m in
      let b : n + suc m ≡ value = omega (arith, h) in
      subst (λ x. normalize_unsigned (m + suc m) (suc m) x ≡ normalize_signed m (sub_ℕ x (suc m))) b
        (unsigned_above m n z w (omega (arith, v, h))
          ∙ ap (normalize_signed m) (sym (above m n (omega (arith, v, h)))))
]
