-- ===== src/Audio/Resampler/Values.antt =====
-- crates/audio/src/timeline.rs: the value of each output of `RationalResampler`, from the source
-- samples.
use slotpilot.Prelude.{
  ℕ, suc, ◌+◌, ◌-◌, ◌*◌, ◌≤◌, ◌≡◌, inl, inr, refl, ap, sym, ◌∙◌, arith, List, [], ◌∷◌, ◌++◌, length,
  append_assoc, Option, none, some, false, Bool-cases, ◌==◌, length-append,
}
use slotpilot.Prelude.Int.{ℤ, pos, ◌*ℤ◌, ◌-ℤ◌, ltb_ℤ}
use slotpilot.Prelude.Results.{ok, Result-cases, ok-ne-err}
use slotpilot.Audio.Slot.{out_of_order}
use slotpilot.Audio.Resampler.Accumulator.{wide}
use slotpilot.Audio.Resampler.Interpolate.{interpolate}
use slotpilot.Audio.Resampler.State.{RationalResampler}
use slotpilot.Audio.Resampler.Emit.{value_at}
use slotpilot.Audio.Resampler.Push.{first_previous}

-- A predicate holds of each value and its number, from k on.
abbrev pub AllFrom : (ℕ → ℤ → Type 0) → ℕ → List ℤ → Type 0
AllFrom V k [] = Unit
AllFrom V k (v ∷ vs) = V k v × AllFrom V (suc k) vs

pub AllFrom-map :
    (V W : ℕ → ℤ → Type 0) (k : ℕ) (vs : List ℤ)
    → ((i : ℕ) (v : ℤ) → V i v → W i v)
    → AllFrom V k vs
    → AllFrom W k vs
AllFrom-map V W k [] f h = tt
AllFrom-map V W k (v ∷ vs) f h = (f k v h.0, AllFrom-map V W (suc k) vs f h.1)

pub AllFrom-append :
    (V : ℕ → ℤ → Type 0) (k : ℕ) (vs ws : List ℤ)
    → AllFrom V k vs
    → AllFrom V (k + length vs) ws
    → AllFrom V k (vs ++ ws)
AllFrom-append V k [] ws h i = let e : k + 0 ≡ k = omega arith in rw e at i
AllFrom-append V k (v ∷ vs) ws h i =
    let e : k + suc (length vs) ≡ suc k + length vs = omega arith in
    (h.0, AllFrom-append V (suc k) vs ws h.1 (rw e at i))

-- The source samples from the anchor on are `frames`, and output k lies at k * rate / 12000 of
-- them: on the first of them, or between two neighbours, where its value is interpolated.
pub data IsOutput (rate : ℕ) (frames : List ℤ) (k : ℕ) (v : ℤ) : Type 0 where
  on_first : (rest : List ℤ) → frames ≡ v ∷ rest → k * rate ≡ 0 → IsOutput rate frames k v
  between :
      (before after : List ℤ) (a b : ℤ)
      → frames ≡ before ++ a ∷ b ∷ after
      → length before * 12000 ≤ k * rate
      → k * rate ≤ length before * 12000 + 12000
      → interpolate a b (pos (k * rate - length before * 12000)) (pos 12000) ≡ ok v
      → IsOutput rate frames k v

pub IsOutput-append :
    (rate : ℕ) (frames more : List ℤ) (k : ℕ) (v : ℤ)
    → IsOutput rate frames k v
    → IsOutput rate (frames ++ more) k v
IsOutput-append rate frames more k v (on_first rest e z) =
    on_first (rest ++ more) (ap (λ xs. xs ++ more) e) z
IsOutput-append rate frames more k v (between before after a b e low high i) =
    between before (after ++ more) a b
      (ap (λ xs. xs ++ more) e ∙ append_assoc before (a ∷ b ∷ after) more) low high i

-- The resampler remembers the last of the frames with its distance from the anchor.
pub data Tracks (frames : List ℤ) (previous : Option (ℕ × ℤ)) : Type 0 where
  fresh : frames ≡ [] → previous ≡ none → Tracks frames previous
  later :
      (before : List ℤ) (a : ℤ)
      → frames ≡ before ++ a ∷ []
      → previous ≡ some (length before, a)
      → Tracks frames previous

pub value_at-previous :
    (r s : RationalResampler) (position : ℕ) (sample current target : ℤ)
    → s.previous ≡ r.previous
    → value_at s position sample current target ≡ value_at r position sample current target
unfolding value_at
value_at-previous r s position sample current target h = rw h refl

tick-product : (n : ℕ) (z : ℤ) → wide (pos n *ℤ pos 12000) ≡ ok z → z ≡ pos (n * 12000)
unfolding ◌*ℤ◌
tick-product n z h = ground arith

minus : (t p : ℕ) → p ≤ t → pos t -ℤ pos p ≡ pos (t - p)
unfolding ◌-ℤ◌
minus t p h = ground arith

-- What the loop computes for an output at or before the sample, which is at the tick c.
abbrev pub LoopValue : RationalResampler → ℕ → ℤ → ℕ → ℕ → ℤ → Type 0
LoopValue r d sample c k v =
    (k * r.source_rate_hz ≤ c) × (value_at r d sample (pos c) (pos (k * r.source_rate_hz)) ≡ ok v)

pub LoopValue-same :
    (r s : RationalResampler) (d : ℕ) (sample : ℤ) (c k : ℕ) (v : ℤ)
    → s.previous ≡ r.previous
    → s.source_rate_hz ≡ r.source_rate_hz
    → LoopValue s d sample c k v
    → LoopValue r d sample c k v
unfolding value_at
LoopValue-same r s d sample c k v p q h = (
  rw q at h.0,
  sym (value_at-previous r s d sample (pos c) (pos (k * r.source_rate_hz)) p) ∙ rw q at h.1,
)

module _ (r : RationalResampler) (sample v : ℤ) (t : ℕ) where
  value_first :
      value_at (record r { previous = some (0, sample) }) 0 sample (pos 0) (pos t) ≡ ok v
      → v ≡ sample
  unfolding value_at ◌*ℤ◌
  value_first h = ground arith

  value_between :
      (n : ℕ) (a : ℤ)
      → value_at (record r { previous = some (n, a) }) (suc n) sample (pos (suc n * 12000)) (pos t)
        ≡ ok v
      → (n * 12000 ≤ t) × (interpolate a sample (pos (t - n * 12000)) (pos 12000) ≡ ok v)
  unfolding value_at
  value_between n a h = elim (Result-cases (wide (pos n *ℤ pos 12000))) [
    | inr (e, w) ↦ absurd (ok-ne-err {e = e} (sym h ∙ rw (value_at, w) refl))
    | inl (z, w) ↦
        let w' = rw (tick-product n z w) at w in
        elim (Bool-cases (ltb_ℤ (pos t) (pos (n * 12000)))) [
          | inl b ↦ absurd (ok-ne-err {e = out_of_order} (sym h ∙ rw (value_at, w', b) refl))
          | inr b ↦
              let low : n * 12000 ≤ t = ground (arith, b) in
              let other : (suc n == n) ≡ false = ground arith in
              let rest : suc n * 12000 - n * 12000 ≡ 12000 = omega arith in
              let whole : n * 12000 ≤ suc n * 12000 = omega arith in
              let part = minus t (n * 12000) low in
              let width : pos (suc n * 12000) -ℤ pos (n * 12000) ≡ pos 12000 =
                minus (suc n * 12000) (n * 12000) whole ∙ ap pos rest in
              let computed : value_at (record r { previous = some (n, a) }) (suc n) sample
                    (pos (suc n * 12000)) (pos t)
                  ≡ interpolate a sample (pos t -ℤ pos (n * 12000))
                      (pos (suc n * 12000) -ℤ pos (n * 12000)) =
                rw (value_at, w', b, other) refl in
              (
                low,
                ap (λ x. interpolate a sample x (pos 12000)) (sym part)
                    ∙ ap (λ x. interpolate a sample (pos t -ℤ pos (n * 12000)) x) (sym width)
                    ∙ sym computed
                    ∙ h,
              )
        ]
  ]

-- With the frames before it remembered, the loop for the next sample computes outputs of the
-- frames with it.
pub LoopValue-IsOutput :
    (r : RationalResampler) (frames : List ℤ) (d : ℕ) (sample : ℤ) (k : ℕ) (v : ℤ)
    (previous : Option (ℕ × ℤ))
    → length frames ≡ d
    → Tracks frames previous
    → LoopValue (record r { previous = first_previous previous d sample }) d sample (d * 12000) k v
    → IsOutput r.source_rate_hz (frames ++ sample ∷ []) k v
LoopValue-IsOutput r frames d sample k v previous n (fresh e p) h =
    let zero_d : d ≡ 0 = sym n ∙ ap length e in
    let h0 = rw (zero_d, p) at h in
    let same = value_first r sample v (k * r.source_rate_hz) h0.1 in
    on_first [] (ap (λ xs. xs ++ sample ∷ []) e ∙ ap (λ x. x ∷ []) (sym same)) (omega (arith, h0.0))
LoopValue-IsOutput r frames d sample k v previous n (later before a e p) h =
    let count : d ≡ suc (length before) =
      sym n ∙ ap length e ∙ length-append before (a ∷ []) ∙ omega arith in
    let h1 = rw (count, p) at h in
    let inner = value_between r sample v (k * r.source_rate_hz) (length before) a h1.1 in
    between before [] a sample
      (ap (λ xs. xs ++ sample ∷ []) e ∙ append_assoc before (a ∷ []) (sample ∷ [])) inner.0
      (omega (arith, h1.0)) inner.1
