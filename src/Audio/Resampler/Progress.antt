-- ===== src/Audio/Resampler/Progress.antt =====
-- crates/audio/src/timeline.rs: how many outputs `RationalResampler::push` makes of a batch, and
-- what it publishes of them.
use native.Mathlib.Nat.{div-eq_of_lt-le, div-mul-le_self}
use slotpilot.Prelude.{
  ℕ, zero, suc, ◌+◌, ◌*◌, ◌/◌, ◌<◌, ◌≤◌, ◌≡◌, ◌⊎◌, inl, inr, refl, ap, sym, ◌∙◌, subst, arith, List,
  [], ◌∷◌, ◌++◌, length, length-append, some, append_assoc, append-nil, Bool-cases, leb, true,
  false,
}
use slotpilot.Prelude.Int.{ℤ}
use slotpilot.Prelude.Words.{u64_max}
use slotpilot.Prelude.Results.{ok, err, also, also-eq_ok, ok-ne-err}
use slotpilot.Audio.Slot.{arithmetic_overflow}
use slotpilot.Audio.Resampler.State.{RationalResampler}
use slotpilot.Audio.Resampler.Output.{Output}
use slotpilot.Audio.Resampler.Push.{push_sample, push_samples, output_fuel, keep_previous}
use slotpilot.Audio.Resampler.Loop.{IsAt, Covers}
use slotpilot.Audio.Resampler.Termination.{enough, emit_up_to-Covers}
use slotpilot.Audio.Resampler.Windows.{Holds}
use slotpilot.Audio.Resampler.Values.{
  AllFrom, AllFrom-append, AllFrom-map, IsOutput, IsOutput-append, LoopValue, LoopValue-IsOutput,
  Tracks, later,
}
use slotpilot.Audio.Resampler.Samples.{emit_up_to-Grows, at_loop, sample_loop, push_sample-IsPushed}

-- Of k outputs, the last is not behind the source tick c.
abbrev pub IsBehind : ℕ → ℕ → ℕ → Type 0
IsBehind k rate c = (k ≡ 0) ⊎ ((j : ℕ) × (k ≡ suc j) × (j * rate ≤ c))

quotient : (j c rate : ℕ) → j * rate ≤ c → c < suc j * rate → suc j ≡ suc (c / rate)
quotient j c rate low high = ap suc (sym (div-eq_of_lt-le rate low (omega (arith, high))))

count_exact :
    (r s : RationalResampler) (u k c k' : ℕ)
    → IsBehind k r.source_rate_hz c
    → Covers r s u k c k'
    → k' ≡ suc (c / r.source_rate_hz)
count_exact r s u k c k' behind v = elim v.reached [
  | inr (j, e, le, low) ↦ e ∙ quotient j c r.source_rate_hz low (rw e at v.behind)
  | inl same ↦ elim behind [
    | inl z ↦ absurd (omega (arith, rw (same, z) at v.behind))
    | inr (j, e, low) ↦ same ∙ e ∙ quotient j c r.source_rate_hz low (rw (same, e) at v.behind)
  ]
]

-- From the outputs `values` to more of them, of the given number in all; the new ones are outputs
-- of the source samples `frames`, the last of which is remembered.
pub record Advances (frames : List ℤ) (u : ℕ) (values : List ℤ) (count : ℕ) (o o' : Output)
    : Type 0 where
  pub more : List ℤ
  pub holds : Holds u (values ++ more) o'
  pub total : length (values ++ more) ≡ count
  pub rate : o'.resampler.source_rate_hz ≡ o.resampler.source_rate_hz
  pub anchor : o'.resampler.anchor ≡ o.resampler.anchor
  pub heard : AllFrom (IsOutput o.resampler.source_rate_hz frames) (length values) more
  pub tracks : Tracks frames o'.resampler.previous

IsAt-unique : (r : RationalResampler) (u k l : ℕ) → IsAt r u k → IsAt r u l → k ≡ l
IsAt-unique r u k l a b = ground arith

Holds-at_loop :
    (u : ℕ) (values : List ℤ) (delta : ℕ) (sample : ℤ) (o : Output)
    → Holds u values o
    → Holds u values (at_loop delta sample o)
Holds-at_loop u values delta sample o h = record {
  at = record { start = h.at.start; next = h.at.next };
  active = h.active;
  events = h.events;
}

Holds-kept :
    (u : ℕ) (values : List ℤ) (delta : ℕ) (sample : ℤ) (o : Output)
    → Holds u values o
    → Holds u values (keep_previous delta sample o).1
Holds-kept u values delta sample o h = record {
  at = record { start = h.at.start; next = h.at.next };
  active = h.active;
  events = h.events;
}

push_sample-Advances :
    (frames : List ℤ) (u : ℕ) (values : List ℤ) (d : ℕ) (position : ℕ) (sample : ℤ) (o : Output)
    → Holds u values o
    → 0 < o.resampler.source_rate_hz
    → position ≡ o.resampler.anchor.position + d
    → IsBehind (length values) o.resampler.source_rate_hz (d * 12000)
    → length frames ≡ d
    → Tracks frames o.resampler.previous
    → (push_sample position sample o).0 ≡ ok tt
    → Advances
        (frames ++ sample ∷ [])
        u
        values
        (suc (d * 12000 / o.resampler.source_rate_hz))
        o
        (push_sample position sample o).1
push_sample-Advances frames u values d position sample o h rate place behind n tracked e =
    let p = push_sample-IsPushed position sample o e in
    let same : p.delta ≡ d = ground (arith, p.distance, place) in
    let from = at_loop d sample o in
    let k = length values in
    let c = d * 12000 in
    let loop_ok : (sample_loop d sample o).0 ≡ ok tt = rw same at p.loop_ok in
    let start = Holds-at_loop u values d sample o h in
    let (k', covers) =
      emit_up_to-Covers (suc (c / o.resampler.source_rate_hz)) d sample c u k from start.at
        (enough k c rate) loop_ok in
    let (more, grown, all) =
      emit_up_to-Grows (output_fuel c o.resampler.source_rate_hz) d sample c u values from start
        loop_ok in
    let result = rw same at p.result in
    rw result (record {
      more = more;
      holds = Holds-kept u (values ++ more) d sample (sample_loop d sample o).1 grown;
      total =
          IsAt-unique (sample_loop d sample o).1.resampler u (length (values ++ more)) k' grown.at
            covers.at
          ∙ count_exact from.resampler (sample_loop d sample o).1.resampler u k c k' behind covers;
      rate = covers.rate;
      anchor = covers.anchor;
      heard =
          AllFrom-map (LoopValue from.resampler d sample c)
            (IsOutput o.resampler.source_rate_hz (frames ++ sample ∷ [])) k more
            (λ i v.
              LoopValue-IsOutput o.resampler frames d sample i v o.resampler.previous n tracked)
            all;
      tracks = later frames sample refl (ap (λ i. some (i, sample)) (sym n));
    })

-- The outputs that exist once the samples at distances d, …, d + n - 1 have been taken.
abbrev pub count_after : ℕ → ℕ → ℕ → ℕ → ℕ
count_after zero d rate k = k
count_after (suc n) d rate k = suc ((d + n) * 12000 / rate)

count_after-suc :
    (n d rate : ℕ)
    → count_after n (suc d) rate (suc (d * 12000 / rate)) ≡ suc ((d + n) * 12000 / rate)
count_after-suc zero d rate = ap (λ x. suc (x * 12000 / rate)) (omega arith)
count_after-suc (suc n) d rate = ap (λ x. suc (x * 12000 / rate)) (omega arith)

module _ (first index : ℕ) (sample : ℤ) (rest : List ℤ) (o : Output) where
  push_samples-too_far :
      leb (first + index) u64_max ≡ false
      → push_samples first index (sample ∷ rest) o ≡ (err arithmetic_overflow, o)
  unfolding push_samples
  push_samples-too_far b = rw (push_samples, b) refl

  push_samples-step :
      leb (first + index) u64_max ≡ true
      → push_samples first index (sample ∷ rest) o
        ≡ also (push_sample (first + index) sample o) (push_samples first (suc index) rest)
  unfolding push_samples
  push_samples-step b = rw (push_samples, b) refl

  -- A list of samples that is taken was taken one by one.
  push_samples-cons :
      (push_samples first index (sample ∷ rest) o).0 ≡ ok tt
      → ((push_sample (first + index) sample o).0 ≡ ok tt)
        × (push_samples first index (sample ∷ rest) o
            ≡ push_samples first (suc index) rest (push_sample (first + index) sample o).1)
  push_samples-cons h = elim (Bool-cases (leb (first + index) u64_max)) [
    | inr b ↦
        absurd
          (ok-ne-err {e = arithmetic_overflow} (sym h ∙ ap (λ p. p.0) (push_samples-too_far b)))
    | inl b ↦
        let parts =
          also-eq_ok (push_sample (first + index) sample o) (push_samples first (suc index) rest)
            (ap (λ p. p.0) (sym (push_samples-step b)) ∙ h) in
        (parts.0, push_samples-step b ∙ parts.2)
  ]

push_samples-nil : (first index : ℕ) (o : Output) → push_samples first index [] o ≡ (ok tt, o)
unfolding push_samples
push_samples-nil first index o = refl

pub push_samples-Advances :
    (frames : List ℤ) (u : ℕ) (values : List ℤ) (d first index : ℕ) (samples : List ℤ) (o : Output)
    → Holds u values o
    → 0 < o.resampler.source_rate_hz
    → first + index ≡ o.resampler.anchor.position + d
    → IsBehind (length values) o.resampler.source_rate_hz (d * 12000)
    → length frames ≡ d
    → Tracks frames o.resampler.previous
    → (push_samples first index samples o).0 ≡ ok tt
    → Advances
        (frames ++ samples)
        u
        values
        (count_after (length samples) d o.resampler.source_rate_hz (length values))
        o
        (push_samples first index samples o).1
push_samples-Advances frames u values d first index [] o h rate place behind n tracked e =
    rw (push_samples-nil first index o) (record {
      more = [];
      holds = rw (append-nil values) h;
      total = ap length (append-nil values);
      rate = refl;
      anchor = refl;
      heard = tt;
      tracks = rw (append-nil frames) tracked;
    })
push_samples-Advances frames u values d first index (sample ∷ rest) o h rate place behind n tracked
      e =
    let (sample_ok, same) = push_samples-cons first index sample rest o e in
    let next = (push_sample (first + index) sample o).1 in
    let a =
      push_sample-Advances frames u values d (first + index) sample o h rate place behind n tracked
        sample_ok in
    let longer = append_assoc frames (sample ∷ []) rest in
    let n' : length (frames ++ sample ∷ []) ≡ suc d =
      omega (arith, n, length-append frames (sample ∷ [])) in
    let place' : first + suc index ≡ next.resampler.anchor.position + suc d =
      rw a.anchor (omega (arith, place)) in
    let low = div-mul-le_self (d * 12000) o.resampler.source_rate_hz in
    let behind' : IsBehind (length (values ++ a.more)) next.resampler.source_rate_hz
        (suc d * 12000) =
      inr (d * 12000 / o.resampler.source_rate_hz, a.total, rw a.rate (omega (arith, low))) in
    let b =
      push_samples-Advances (frames ++ sample ∷ []) u (values ++ a.more) (suc d) first (suc index)
        rest next a.holds (rw a.rate rate) place' behind' n' a.tracks
        (ap (λ p. p.0) (sym same) ∙ e) in
    let V = IsOutput o.resampler.source_rate_hz (frames ++ sample ∷ rest) in
    let all_before : AllFrom V (length values) a.more =
      subst (λ xs. AllFrom (IsOutput o.resampler.source_rate_hz xs) (length values) a.more) longer
        (AllFrom-map (IsOutput o.resampler.source_rate_hz (frames ++ sample ∷ []))
          (IsOutput o.resampler.source_rate_hz ((frames ++ sample ∷ []) ++ rest)) (length values)
          a.more (IsOutput-append o.resampler.source_rate_hz (frames ++ sample ∷ []) rest)
          a.heard) in
    let all_behind : AllFrom V (length values + length a.more) b.more =
      subst
        (λ xs.
          AllFrom (IsOutput o.resampler.source_rate_hz xs) (length values + length a.more) b.more)
        longer
        (subst
          (λ n.
            AllFrom (IsOutput o.resampler.source_rate_hz ((frames ++ sample ∷ []) ++ rest)) n
              b.more)
          (length-append values a.more)
          (subst
            (λ r.
              AllFrom (IsOutput r ((frames ++ sample ∷ []) ++ rest)) (length (values ++ a.more))
                b.more)
            a.rate b.heard)) in
    rw same (record {
      more = a.more ++ b.more;
      holds = rw (sym (append_assoc values a.more b.more)) b.holds;
      total =
          ap length (sym (append_assoc values a.more b.more))
          ∙ b.total
          ∙ rw (a.total, a.rate) (count_after-suc (length rest) d o.resampler.source_rate_hz);
      rate = b.rate ∙ a.rate;
      anchor = b.anchor ∙ a.anchor;
      heard = AllFrom-append V (length values) a.more b.more all_before all_behind;
      tracks =
          subst (λ xs. Tracks xs (push_samples first (suc index) rest next).1.resampler.previous)
            longer b.tracks;
    })
