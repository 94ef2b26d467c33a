-- ===== src/Prelude/Results.antt =====
-- The `Result` of Rust with its `?`, and calls on `&mut self` that may fail.
use mathlib.Core.Path.{◌≡◌, refl}
use mathlib.Core.Logic.{◌≢◌, ◌⊎◌, inl, inr}
use mathlib.Core.Bool.{Bool, true, false}
use mathlib.Core.Option.{Option, none, some}
use native.Mathlib.Omega.{arith}

pub data Result {ℓ κ} (E : Type ℓ) (A : Type κ) : Type (ℓ ⊔ κ) where
  ok : A → Result E A
  err : E → Result E A

-- `if !test { return Err(e) }`.
abbrev pub guard {ℓ} : {E : Type ℓ} → Bool → E → Result E (Unit {0})
guard false problem = err problem
guard true _ = ok tt

infixl 5 ◌>>=◌ ◌>>◌
abbrev pub ◌>>=◌ {ℓ κ μ} :
    {E : Type ℓ} {A : Type κ} {B : Type μ} → Result E A → (A → Result E B) → Result E B
err problem >>= next = err problem
ok value >>= next = next value

abbrev pub ◌>>◌ {ℓ κ} : {E : Type ℓ} {B : Type κ} → Result E (Unit {0}) → Result E B → Result E B
first >> second = first >>= λ _. second

abbrev pub ok_or {ℓ κ} : {E : Type ℓ} {A : Type κ} → Option A → E → Result E A
ok_or none e = err e
ok_or (some a) e = ok a

abbrev pub map_err {ℓ κ μ} :
    {E : Type ℓ} {F : Type κ} {A : Type μ} → (E → F) → Result E A → Result F A
map_err f (ok a) = ok a
map_err f (err e) = err (f e)

-- A method on `&mut self`: the result, and the object as the method leaves it, also on an error.
abbrev pub Exec : Type 0 → Type 0 → Type 0 → Type 0
Exec S E A = S → Result E A × S

-- The rest of a method after a call on the same object that may fail with `?`.
abbrev pub also {ℓ κ μ} :
    {S : Type ℓ} {E : Type κ} {B : Type μ}
    → Result E (Unit {0}) × S
    → (S → Result E B × S)
    → Result E B × S
also (ok _, s) f = f s
also (err e, s) f = (err e, s)

-- `Option::and_then`.
abbrev pub and_then {ℓ κ} : {A : Type ℓ} {B : Type κ} → Option A → (A → Option B) → Option B
and_then none f = none
and_then (some a) f = f a

pub ok_or-eq_ok {ℓ κ} :
    {E : Type ℓ} {A : Type κ} (o : Option A) (e : E) {a : A} → ok_or o e ≡ ok a → o ≡ some a
ok_or-eq_ok none e h = cc
ok_or-eq_ok (some b) e h = ground arith

-- A chain that succeeds has a first part that succeeds, and the rest succeeds on its value.
pub >>=-eq-ok {ℓ κ μ} :
    {E : Type ℓ} {A : Type κ} {B : Type μ} (first : Result E A) (next : A → Result E B) {last : B}
    → (first >>= next) ≡ ok last
    → (value : A) × (first ≡ ok value) × (next value ≡ ok last)
>>=-eq-ok (err problem) next h = cc
>>=-eq-ok (ok value) next h = (value, refl, h)

-- A method that succeeds did so in both parts, and the second gave the result.
pub also-eq_ok {ℓ κ μ} :
    {S : Type ℓ} {E : Type κ} {B : Type μ} (p : Result E (Unit {0}) × S) (f : S → Result E B × S)
    {b : B}
    → (also p f).0 ≡ ok b
    → (p.0 ≡ ok tt) × ((f p.1).0 ≡ ok b) × (also p f ≡ f p.1)
also-eq_ok (ok tt, s) f h = (refl, h, refl)
also-eq_ok (err e, s) f h = cc

pub Result-cases {ℓ κ} :
    {E : Type ℓ} {A : Type κ} (r : Result E A) → ((a : A) × (r ≡ ok a)) ⊎ ((e : E) × (r ≡ err e))
Result-cases (ok a) = inl (a, refl)
Result-cases (err e) = inr (e, refl)

pub also-ap {ℓ κ μ} :
    {S : Type ℓ} {E : Type κ} {B : Type μ} (p : Result E (Unit {0}) × S) (f g : S → Result E B × S)
    → (p.0 ≡ ok tt → f p.1 ≡ g p.1)
    → also p f ≡ also p g
also-ap (ok tt, s) f g h = h refl
also-ap (err e, s) f g h = refl

pub ok-ne-err {ℓ κ} : {E : Type ℓ} {A : Type κ} {a : A} {e : E} → ok a ≢ err e
ok-ne-err h = cc

pub ok-injective {ℓ κ} :
    {E : Type ℓ} {A : Type κ} (r : Result E A) {a b : A} → r ≡ ok a → r ≡ ok b → a ≡ b
ok-injective r h k = cc

pub err-injective {ℓ κ} :
    {E : Type ℓ} {A : Type κ} {e f : E} → Path (Result E A) (err e) (err f) → e ≡ f
err-injective h = cc

-- A chain avoids an error that none of its parts has.
pub >>=-ne-err {ℓ κ μ} :
    {E : Type ℓ} {A : Type κ} {B : Type μ} (first : Result E A) (next : A → Result E B) {e : E}
    → first ≢ err e
    → ((a : A) → next a ≢ err e)
    → (first >>= next) ≢ err e
>>=-ne-err (err problem) next f n h = f (rw (err-injective h) refl)
>>=-ne-err (ok value) next f n h = n value h

pub ok_or-ne-err {ℓ κ} :
    {E : Type ℓ} {A : Type κ} (o : Option A) {e f : E} → e ≢ f → ok_or o e ≢ err f
ok_or-ne-err none n h = n (err-injective h)
ok_or-ne-err (some a) n h = cc

pub also-ok {ℓ κ μ} :
    {S : Type ℓ} {E : Type κ} {B : Type μ} (p : Result E (Unit {0}) × S) (f : S → Result E B × S)
    → p.0 ≡ ok tt
    → also p f ≡ f p.1
also-ok (ok tt, s) f h = refl
also-ok (err e, s) f h = cc
