-- ===== src/Base/Int.antt =====
-- Signed integers over the native numbers, for the code that works on `std::int32_t`.
use Prim.Native.Nat.{ℕ, suc, ◌+◌, ◌-◌, ◌*◌, ◌/◌, ◌^◌}
use mathlib.Core.Bool.{Bool}
use hh_cpp.Base.{ltb, leb, if◌then◌else◌}

-- `negsuc n` is -(n + 1).
pub data ℤ : Type 0 where
  pos negsuc : ℕ → ℤ

abbrev pub plus_part : ℤ → ℕ
plus_part (pos n) = n
plus_part (negsuc n) = 0

abbrev pub minus_part : ℤ → ℕ
minus_part (pos n) = 0
minus_part (negsuc n) = suc n

-- `a - b` of two natural numbers.
abbrev pub difference : ℕ → ℕ → ℤ
difference a b = if leb b a then pos (a - b) else negsuc (b - a - 1)

infixl 65 ◌+ℤ◌ ◌-ℤ◌
infixl 70 ◌*ℤ◌ ◌/ℤ◌
infix 50 ◌<ℤ◌ ◌≤ℤ◌
abbrev pub ◌+ℤ◌ : ℤ → ℤ → ℤ
x +ℤ y = difference (plus_part x + plus_part y) (minus_part x + minus_part y)

abbrev pub ◌-ℤ◌ : ℤ → ℤ → ℤ
x -ℤ y = difference (plus_part x + minus_part y) (minus_part x + plus_part y)

abbrev pub ◌*ℤ◌ : ℤ → ℤ → ℤ
x *ℤ y =
    difference (plus_part x * plus_part y + minus_part x * minus_part y)
      (plus_part x * minus_part y + minus_part x * plus_part y)

-- Division by a positive constant, towards zero.
abbrev pub ◌/ℤ◌ : ℤ → ℕ → ℤ
pos n /ℤ k = pos (n / k)
negsuc n /ℤ k = difference 0 (suc n / k)

abbrev pub ◌<ℤ◌ : ℤ → ℤ → Bool
x <ℤ y = ltb (plus_part x + minus_part y) (plus_part y + minus_part x)

abbrev pub ◌≤ℤ◌ : ℤ → ℤ → Bool
x ≤ℤ y = leb (plus_part x + minus_part y) (plus_part y + minus_part x)

abbrev pub min_ℤ : ℤ → ℤ → ℤ
min_ℤ x y = if y <ℤ x then y else x

abbrev pub max_ℤ : ℤ → ℤ → ℤ
max_ℤ x y = if x <ℤ y then y else x

-- `static_cast<std::size_t>`.
abbrev pub size_of : ℤ → ℕ
size_of (pos n) = n
size_of (negsuc n) = 2 ^ 64 - 1 - n
