-- ===== src/Prelude/Words.antt =====
-- The machine integers of Rust as numbers with their bounds written out: checked, saturating and
-- converting operations.
use Prim.Native.Nat.{ℕ, ◌+◌, ◌-◌, ◌*◌, ◌≤◌}
use mathlib.Core.Path.{◌≡◌}
use mathlib.Core.Bool.{Bool, true}
use mathlib.Core.Option.{Option, none, some}
use slotpilot.Prelude.Tests.{leb, if◌then◌else◌}
use slotpilot.Prelude.Int.{ℤ, pos, negsuc, ◌+ℤ◌, ◌-ℤ◌}

abbrev pub u8_max : ℕ
u8_max = 255

abbrev pub u32_max : ℕ
u32_max = 4294967295

abbrev pub u64_max : ℕ
u64_max = 18446744073709551615

abbrev pub i16_max : ℕ
i16_max = 32767

abbrev pub i32_max : ℕ
i32_max = 2147483647

abbrev pub i64_max : ℕ
i64_max = 9223372036854775807

abbrev pub i128_max : ℕ
i128_max = 170141183460469231731687303715884105727

-- The value lies between -(m + 1) and m: the range of the signed type with that maximum.
abbrev pub fits : ℕ → ℤ → Bool
fits m (pos n) = leb n m
fits m (negsuc n) = leb n m

-- `try_from` into the signed type whose maximum is `m`; also what a checked operation on that
-- type keeps of its exact result.
abbrev pub try_signed : ℕ → ℤ → Option ℤ
try_signed m z = if fits m z then some z else none

abbrev pub try_i64 : ℤ → Option ℤ
try_i64 = try_signed i64_max

-- `try_from` into an unsigned type with maximum `m`.
abbrev pub try_unsigned : ℕ → ℤ → Option ℕ
try_unsigned m (pos n) = if leb n m then some n else none
try_unsigned m (negsuc n) = none

-- The nearest value of the signed type with maximum `m`.
abbrev pub saturate : ℕ → ℤ → ℤ
saturate m (pos n) = if leb n m then pos n else pos m
saturate m (negsuc n) = if leb n m then negsuc n else negsuc m

abbrev pub checked_add : ℕ → ℕ → ℕ → Option ℕ
checked_add m a b = if leb (a + b) m then some (a + b) else none

abbrev pub checked_mul : ℕ → ℕ → ℕ → Option ℕ
checked_mul m a b = if leb (a * b) m then some (a * b) else none

abbrev pub checked_sub : ℕ → ℕ → Option ℕ
checked_sub a b = if leb b a then some (a - b) else none

abbrev pub saturating_add : ℕ → ℕ → ℕ → ℕ
saturating_add m a b = if leb (a + b) m then a + b else m

abbrev pub saturating_mul : ℕ → ℕ → ℕ → ℕ
saturating_mul m a b = if leb (a * b) m then a * b else m

abbrev pub abs_diff : ℕ → ℕ → ℕ
abs_diff a b = if leb b a then a - b else b - a

abbrev pub checked_add_i64 : ℤ → ℤ → Option ℤ
checked_add_i64 a b = try_i64 (a +ℤ b)

abbrev pub checked_sub_i64 : ℤ → ℤ → Option ℤ
checked_sub_i64 a b = try_i64 (a -ℤ b)

-- A value of `i64`, and one that is also not negative.
abbrev pub IsI64 : ℤ → Type 0
IsI64 z = fits i64_max z ≡ true

abbrev pub IsInstant : ℤ → Type 0
IsInstant (pos n) = n ≤ i64_max
IsInstant (negsuc n) = ⊥
