-- ===== src/Base/Xor.antt =====
-- Laws of `^` at variables.
use Prim.Native.Nat.{
  ℕ, zero, suc, ◌+◌, ◌*◌, ◌/◌, ◌%◌, ◌^◌, ◌≤◌, ◌<◌, bit_xor, differ, bit_xor-bitwise,
}
use mathlib.Core.Path.{◌≡◌, refl, ap, sym, ◌∙◌}
use mathlib.Core.Logic.{◌⊎◌, inl, inr}
use native.Mathlib.Nat.{le_refl, pow-suc, div-one, div-div-eq-div-mul}
use native.Mathlib.Omega.{arith}
use hh_cpp.Base.Bits.{bit_xor_step, differ_digits}

-- The halves and the last digit.
pub bit_xor-half : (a b : ℕ) → bit_xor a b / 2 ≡ bit_xor (a / 2) (b / 2)
bit_xor-half a b = omega (arith, bit_xor_step a b, differ_digits a b)

bit_xor-digit : (a b : ℕ) → bit_xor a b % 2 ≡ differ (a % 2) (b % 2)
bit_xor-digit a b = omega (arith, bit_xor_step a b, differ_digits a b)

digit : (a : ℕ) → (a % 2 ≡ 0) ⊎ (a % 2 ≡ 1)
digit a = omega arith

differ_assoc :
    (x y z : ℕ)
    → (x ≡ 0) ⊎ (x ≡ 1)
    → (y ≡ 0) ⊎ (y ≡ 1)
    → (z ≡ 0) ⊎ (z ≡ 1)
    → differ (differ x y) z ≡ differ x (differ y z)
differ_assoc x y z (inl p) (inl q) (inl r) = rw (p, q, r) refl
differ_assoc x y z (inl p) (inl q) (inr r) = rw (p, q, r) refl
differ_assoc x y z (inl p) (inr q) (inl r) = rw (p, q, r) refl
differ_assoc x y z (inl p) (inr q) (inr r) = rw (p, q, r) refl
differ_assoc x y z (inr p) (inl q) (inl r) = rw (p, q, r) refl
differ_assoc x y z (inr p) (inl q) (inr r) = rw (p, q, r) refl
differ_assoc x y z (inr p) (inr q) (inl r) = rw (p, q, r) refl
differ_assoc x y z (inr p) (inr q) (inr r) = rw (p, q, r) refl

pub zero-bit_xor : (b : ℕ) → bit_xor 0 b ≡ b
zero-bit_xor b = bit_xor-bitwise 0 b

bit_xor-zero_fuel : (n a : ℕ) → a ≤ n → bit_xor a 0 ≡ a
bit_xor-zero_fuel n zero h = refl
bit_xor-zero_fuel zero (suc a) h = absurd (omega arith)
bit_xor-zero_fuel (suc n) (suc a) h = elim (digit (suc a)) [
  | inl p ↦
      bit_xor_step (suc a) 0 ∙ rw (p, bit_xor-zero_fuel n (suc a / 2) (omega arith)) (omega arith)
  | inr p ↦
      bit_xor_step (suc a) 0 ∙ rw (p, bit_xor-zero_fuel n (suc a / 2) (omega arith)) (omega arith)
]

pub bit_xor-zero : (a : ℕ) → bit_xor a 0 ≡ a
bit_xor-zero a = bit_xor-zero_fuel a a (le_refl a)

bit_xor_assoc_fuel : (n a b c : ℕ) → a ≤ n → bit_xor (bit_xor a b) c ≡ bit_xor a (bit_xor b c)
bit_xor_assoc_fuel n zero b c h = rw (zero-bit_xor, zero-bit_xor) refl
bit_xor_assoc_fuel zero (suc a) b c h = absurd (omega arith)
bit_xor_assoc_fuel (suc n) (suc a) b c h =
    bit_xor_step (bit_xor (suc a) b) c
    ∙ rw
        (
          bit_xor-half (suc a) b,
          bit_xor-digit (suc a) b,
          bit_xor_assoc_fuel n (suc a / 2) (b / 2) (c / 2) (omega arith),
          differ_assoc (suc a % 2) (b % 2) (c % 2) (digit (suc a)) (digit b) (digit c),
          ← bit_xor-half b c,
          ← bit_xor-digit b c,
        )
        (sym (bit_xor_step (suc a) (bit_xor b c)))

pub bit_xor_assoc : (a b c : ℕ) → bit_xor (bit_xor a b) c ≡ bit_xor a (bit_xor b c)
bit_xor_assoc a b c = bit_xor_assoc_fuel a a b c (le_refl a)

-- An even number does not touch the last digit.
pub bit_xor-even :
    (c m : ℕ) → (bit_xor c (2 * m) / 2 ≡ bit_xor (c / 2) m) × (bit_xor c (2 * m) % 2 ≡ c % 2)
bit_xor-even c m =
    let half : 2 * m / 2 ≡ m = omega arith in
    let even : 2 * m % 2 ≡ 0 = omega arith in
    (
      bit_xor-half c (2 * m) ∙ rw half refl,
      bit_xor-digit c (2 * m) ∙ rw even (last (c % 2) (digit c)),
    )
  where
    last : (x : ℕ) → (x ≡ 0) ⊎ (x ≡ 1) → differ x 0 ≡ x
    last x (inl p) = rw p refl
    last x (inr p) = rw p refl

-- Fields that do not overlap.
pub bit_xor_shifted : (k q r : ℕ) → r < 2 ^ k → bit_xor r (q * 2 ^ k) ≡ q * 2 ^ k + r
bit_xor_shifted zero q r h = let z : r ≡ 0 = omega arith in rw (z, zero-bit_xor) (omega arith)
bit_xor_shifted (suc k) q r h =
    let d : q * 2 ^ suc k ≡ 2 * (q * 2 ^ k) = omega (arith, ap (λ (t : ℕ). q * t) (pow-suc 2 k)) in
    let (e, f) = bit_xor-even r (q * 2 ^ k) in
    rw d (omega (arith, e, f, bit_xor_shifted k q (r / 2) (omega (arith, pow-suc 2 k))))

-- A shift to the right goes inside.
pub bit_xor-shift : (k a b : ℕ) → bit_xor a b / 2 ^ k ≡ bit_xor (a / 2 ^ k) (b / 2 ^ k)
bit_xor-shift zero a b = rw (div-one, div-one, div-one) refl
bit_xor-shift (suc k) a b =
    let e : 2 ^ suc k ≡ 2 * 2 ^ k = omega (arith, pow-suc 2 k) in
    rw (e, ← div-div-eq-div-mul, ← div-div-eq-div-mul, ← div-div-eq-div-mul, bit_xor-half a b)
      (bit_xor-shift k (a / 2) (b / 2))
