-- ===== src/Audio/Resampler/Interpolate.antt =====
-- crates/audio/src/timeline.rs: `interpolate`.
use native.Mathlib.Nat.{
  div-eq_of_lt, div-mul-le_self, lt-div-mul-add, div-lt_iff_lt-mul, mul-le-mul_left, mul-le-mul,
  suc-mul,
}
use slotpilot.Prelude.{
  ◌⊎◌, inl, inr, ℕ, zero, suc, ◌+◌, ◌*◌, ◌/◌, ◌<◌, ◌≤◌, ◌≡◌, refl, arith, true, false, some,
  if◌then◌else◌,
}
use slotpilot.Prelude.Int.{
  sign_cases, ℤ, pos, pos_part, ◌+ℤ◌, ◌-ℤ◌, ◌*ℤ◌, ◌/ℤ◌, is_negative, ltb_ℤ, leb_ℤ, abs, negsuc,
  sub_ℕ, -ℤ_parts, +ℤ_parts, ◌≤ℤ◌,
}
use slotpilot.Prelude.Words.{try_signed, abs_diff, fits, i16_max, u64_max}
use slotpilot.Prelude.Results.{Result, ok, err, ok_or, ◌>>=◌}
use slotpilot.Audio.Slot.{ReceiveTimelineError, arithmetic_overflow}
use slotpilot.Audio.Resampler.Accumulator.{wide}

unfoldable pub interpolate : ℤ → ℤ → ℤ → ℤ → Result ReceiveTimelineError ℤ
interpolate previous current numerator denominator =
    if leb_ℤ denominator (pos 0)
    then err arithmetic_overflow
    else if is_negative numerator
    then err arithmetic_overflow
    else if ltb_ℤ denominator numerator
    then err arithmetic_overflow
    else do
      adjustment ← wide ((current -ℤ previous) *ℤ numerator)
      let d = pos_part denominator
      let rounded =
          (if is_negative adjustment then adjustment -ℤ pos (d / 2) else adjustment +ℤ pos (d / 2))
          /ℤ d
      ok_or (try_signed i16_max (previous +ℤ rounded)) arithmetic_overflow

-- The quotient rounded half up.
abbrev round : ℕ → ℕ → ℕ
round x d = (x + d / 2) / d

round_bounds :
    (x : ℕ) {d : ℕ} → 0 < d → (round x d * d ≤ x + d / 2) × (x + d / 2 < round x d * d + d)
round_bounds x {d} h = (div-mul-le_self (x + d / 2) d, lt-div-mul-add h)

-- A part n of d of D rounds to at most D.
round-le : (D n : ℕ) {d : ℕ} → 0 < d → n ≤ d → round (D * n) d ≤ D
round-le D n {d} h le =
    let b = (div-lt_iff_lt-mul {x = D * n + d / 2} {y = suc D} h).1 in
    let m = mul-le-mul_left D le in
    let s : suc D * d ≡ D * d + d = suc-mul D d in omega (arith, b (omega (arith, m, s)))

mul_up : (D n : ℕ) → pos D *ℤ pos n ≡ pos (D * n)
unfolding ◌*ℤ◌
mul_up D n = ground arith

mul_down : (E n : ℕ) → negsuc E *ℤ pos n ≡ sub_ℕ 0 (suc E * n)
unfolding ◌*ℤ◌
mul_down E n = ground arith

add_up : (a b : ℕ) → pos a +ℤ pos b ≡ pos (a + b)
unfolding ◌+ℤ◌
add_up a b = ground arith

fits_between :
    (m : ℕ) (p c v : ℤ) → fits m p ≡ true → fits m c ≡ true → (p ≤ℤ v) × (v ≤ℤ c) → fits m v ≡ true
fits_between m p c v hp hc h = ground arith

div_up : (a d : ℕ) → pos a /ℤ d ≡ pos (a / d)
unfolding ◌/ℤ◌
div_up a d = refl

abbrev i16_span : ℕ
i16_span = 65535

product_small : (D n d : ℕ) → D ≤ i16_span → n ≤ d → d ≤ u64_max → D * n ≤ i16_span * u64_max
product_small D n d hD hn hd = mul-le-mul {m₂ = u64_max} hD (omega arith)

interpolate_up :
    (p c : ℤ) (n d D : ℕ)
    → fits i16_max p ≡ true
    → fits i16_max c ≡ true
    → 0 < d
    → n ≤ d
    → d ≤ u64_max
    → c -ℤ p ≡ pos D
    → interpolate p c (pos n) (pos d) ≡ ok (p +ℤ pos (round (D * n) d))
unfolding interpolate
interpolate_up p c n d D hp hc h0 hn hd e =
    let fact = -ℤ_parts c p in
    let D_small : D ≤ i16_span = ground (arith, fact) in
    let product = product_small D n d D_small hn hd in
    let quotient = round-le D n h0 hn in
    let bound : (p ≤ℤ p +ℤ pos (round (D * n) d)) × (p +ℤ pos (round (D * n) d) ≤ℤ c) =
      ground (arith, +ℤ_parts p (pos (round (D * n) d)), fact) in
    let small = fits_between i16_max p c (p +ℤ pos (round (D * n) d)) hp hc bound in
    let sum = add_up (D * n) (d / 2) in
    let divided = div_up (D * n + d / 2) d in rw (e, mul_up) (ground arith)

-- Rounding a negative adjustment away from zero, as the two branches of `rounded` do.
rounded_down :
    (x d : ℕ)
    → 0 < d
    → (if is_negative (sub_ℕ 0 x) then sub_ℕ 0 x -ℤ pos (d / 2) else sub_ℕ 0 x +ℤ pos (d / 2)) /ℤ d
      ≡ sub_ℕ 0 (round x d)
unfolding ◌+ℤ◌ ◌-ℤ◌ ◌/ℤ◌
rounded_down zero d h0 = let z : (d / 2) / d ≡ 0 = div-eq_of_lt (omega (arith, h0)) in ground arith
rounded_down (suc y) d h0 = ground arith

wide_down : (x : ℕ) → x ≤ i16_span * u64_max → wide (sub_ℕ 0 x) ≡ ok (sub_ℕ 0 x)
wide_down x h = ground arith

interpolate_down :
    (p c : ℤ) (n d E : ℕ)
    → fits i16_max p ≡ true
    → fits i16_max c ≡ true
    → 0 < d
    → n ≤ d
    → d ≤ u64_max
    → c -ℤ p ≡ negsuc E
    → interpolate p c (pos n) (pos d) ≡ ok (p +ℤ sub_ℕ 0 (round (suc E * n) d))
unfolding interpolate
interpolate_down p c n d E hp hc h0 hn hd e =
    let fact = -ℤ_parts c p in
    let E_small : suc E ≤ i16_span = ground (arith, fact) in
    let product = product_small (suc E) n d E_small hn hd in
    let quotient = round-le (suc E) n h0 hn in
    let bound : (c ≤ℤ p +ℤ sub_ℕ 0 (round (suc E * n) d))
        × (p +ℤ sub_ℕ 0 (round (suc E * n) d) ≤ℤ p) =
      ground (arith, +ℤ_parts p (sub_ℕ 0 (round (suc E * n) d)), fact) in
    let small = fits_between i16_max c p (p +ℤ sub_ℕ 0 (round (suc E * n) d)) hc hp bound in
    let divided = rounded_down (suc E * n) d h0 in
    let kept : try_signed i16_max (p +ℤ sub_ℕ 0 (round (suc E * n) d))
        ≡ some (p +ℤ sub_ℕ 0 (round (suc E * n) d)) =
      rw small refl in
    let denominator_ok : leb_ℤ (pos d) (pos 0) ≡ false = ground arith in
    let numerator_ok : ltb_ℤ (pos d) (pos n) ≡ false = ground arith in
    rw (e, mul_down, denominator_ok, numerator_ok, wide_down (suc E * n) product, divided, kept)
      refl

-- The output lies between the two samples, and off the straight line by at most half a unit.
pub record IsNearest (p c : ℤ) (n d : ℕ) (v : ℤ) : Type 0 where
  pub between : ((p ≤ℤ v) × (v ≤ℤ c)) ⊎ ((c ≤ℤ v) × (v ≤ℤ p))
  pub near : 2 * abs_diff (abs (v -ℤ p) * d) (abs (c -ℤ p) * n) ≤ d

round_near : (x d : ℕ) → 0 < d → 2 * abs_diff (round x d * d) x ≤ d
round_near x d h =
    let b = round_bounds x h in let half : 2 * (d / 2) ≤ d = omega arith in ground arith

IsNearest-up :
    (p c : ℤ) (n d D : ℕ)
    → 0 < d
    → n ≤ d
    → c -ℤ p ≡ pos D
    → IsNearest p c n d (p +ℤ pos (round (D * n) d))
IsNearest-up p c n d D h0 hn e =
    let q = round (D * n) d in
    let le : q ≤ D = round-le D n h0 hn in
    let near = round_near (D * n) d h0 in
    let fact = -ℤ_parts c p in
    let sum = +ℤ_parts p (pos q) in
    let diff = -ℤ_parts (p +ℤ pos q) p in
    let moved : abs ((p +ℤ pos q) -ℤ p) ≡ q = ground arith in
    record { between = inl (ground arith); near = rw (e, moved) near }

IsNearest-down :
    (p c : ℤ) (n d E : ℕ)
    → 0 < d
    → n ≤ d
    → c -ℤ p ≡ negsuc E
    → IsNearest p c n d (p +ℤ sub_ℕ 0 (round (suc E * n) d))
IsNearest-down p c n d E h0 hn e =
    let q = round (suc E * n) d in
    let le : q ≤ suc E = round-le (suc E) n h0 hn in
    let near = round_near (suc E * n) d h0 in
    let fact = -ℤ_parts c p in
    let sum = +ℤ_parts p (sub_ℕ 0 q) in
    let diff = -ℤ_parts (p +ℤ sub_ℕ 0 q) p in
    let moved : abs ((p +ℤ sub_ℕ 0 q) -ℤ p) ≡ q = ground arith in
    record { between = inr (ground arith); near = rw (e, moved) near }

-- Between two 16-bit samples, for a point n of d with n ≤ d and 0 < d ≤ u64::MAX, `interpolate`
-- never fails, and its value lies between the two samples and within half a unit of the straight
-- line through them.
pub interpolate-IsNearest :
    (p c : ℤ) (n d : ℕ)
    → fits i16_max p ≡ true
    → fits i16_max c ≡ true
    → 0 < d
    → n ≤ d
    → d ≤ u64_max
    → (v : ℤ) × (interpolate p c (pos n) (pos d) ≡ ok v) × IsNearest p c n d v
interpolate-IsNearest p c n d hp hc h0 hn hd = elim (sign_cases (c -ℤ p)) [
  | inl h ↦ (_, interpolate_up p c n d h.0 hp hc h0 hn hd h.1, IsNearest-up p c n d h.0 h0 hn h.1)
  | inr h ↦
      (_, interpolate_down p c n d h.0 hp hc h0 hn hd h.1, IsNearest-down p c n d h.0 h0 hn h.1)
]
