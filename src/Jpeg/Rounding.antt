-- ===== src/Jpeg/Rounding.antt =====
-- The rounding shift of the transform: descale of src/jpeg.cpp.
use hh_cpp.Base.{ℕ, zero, suc, subst, ◌+◌, ◌-◌, ◌*◌, ◌/◌, ◌^◌, ◌≤◌, ◌<◌, ◌≡◌, refl, arith, true}
use native.Mathlib.Nat.{mul-div-le, mul-le-mul, lt-mul-div-succ, pow-suc}
use Prim.Native.Nat.mul
use hh_cpp.Base.Int.{ℤ, pos, negsuc, ◌+ℤ◌, ◌*ℤ◌, ◌≤ℤ◌, ◌<ℤ◌, difference}
use hh_cpp.Jpeg.Dct.{descale, shift_down}

-- The floor of `v / p`.
abbrev pub IsFloor : ℕ → ℤ → ℤ → Type 0
IsFloor p v d = ((pos p *ℤ d ≤ℤ v) ≡ true) × ((v <ℤ pos p *ℤ (d +ℤ pos 1)) ≡ true)

mul_pos : (p r : ℕ) → pos p *ℤ pos r ≡ pos (p * r)
mul_pos p r = ground (arith, mul.zero r)

mul_neg : (p r : ℕ) → 0 < p → pos p *ℤ negsuc r ≡ negsuc (p * suc r - 1)
mul_neg p r h =
    let back : 1 ≤ suc r = omega arith in
    let more : 1 * 1 ≤ p * suc r = mul-le-mul h back in ground (arith, mul.zero (suc r), more)

next_pos : (q : ℕ) → pos q +ℤ pos 1 ≡ pos (q + 1)
next_pos q = ground arith

IsFloor-pos : (p v : ℕ) → 0 < p → IsFloor p (pos v) (pos (v / p))
IsFloor-pos p v h =
    let a : p * (v / p) ≤ v = mul-div-le v p in
    let b : v < p * (v / p + 1) = lt-mul-div-succ v h in
    rw (next_pos (v / p))
      (rw (mul_pos p (v / p), mul_pos p (v / p + 1)) (ground (arith, a), ground (arith, b)))

next_neg : (r : ℕ) → negsuc (suc r) +ℤ pos 1 ≡ negsuc r
next_neg r = ground arith

below_zero :
    (p r v : ℕ)
    → 0 < p
    → p * suc r ≤ v + p
    → v + p < p * (suc r + 1)
    → IsFloor p (negsuc v) (negsuc r)
below_zero p zero v h a b =
    (rw (mul_neg p 0 h) (ground (arith, a, b)), rw (mul_pos p 0) (ground (arith, a, b)))
below_zero p (suc r) v h a b =
    let more : p * suc (suc r) ≡ p * suc r + p = grind arith in
    let last : p * (suc (suc r) + 1) ≡ p * suc (suc r) + p = grind arith in
    (
      rw (mul_neg p (suc r) h) (ground (arith, a, b, last)),
      rw (next_neg r) (rw (mul_neg p r h) (ground (arith, a, more))),
    )

IsFloor-neg : (p v q : ℕ) → 0 < p → (suc v + p - 1) / p ≡ q → IsFloor p (negsuc v) (difference 0 q)
IsFloor-neg p v zero h e =
    let b : suc v + p - 1 < p * ((suc v + p - 1) / p + 1) = lt-mul-div-succ (suc v + p - 1) h in
    let b' : suc v + p - 1 < p * (0 + 1) = subst (λ (k : ℕ). suc v + p - 1 < p * (k + 1)) e b in
    absurd (omega (arith, b'))
IsFloor-neg p v (suc r) h e =
    let a : p * ((suc v + p - 1) / p) ≤ suc v + p - 1 = mul-div-le (suc v + p - 1) p in
    let b : suc v + p - 1 < p * ((suc v + p - 1) / p + 1) = lt-mul-div-succ (suc v + p - 1) h in
    let a' : p * suc r ≤ suc v + p - 1 = subst (λ (k : ℕ). p * k ≤ suc v + p - 1) e a in
    let b' : suc v + p - 1 < p * (suc r + 1) = subst (λ (k : ℕ). suc v + p - 1 < p * (k + 1)) e b in
    let neg : difference 0 (suc r) ≡ negsuc r = ground arith in
    rw neg (below_zero p r v h (omega (arith, a')) (omega (arith, b')))

power_pos : (n : ℕ) → 0 < 2 ^ n
power_pos zero = omega arith
power_pos (suc n) = omega (arith, pow-suc 2 n, power_pos n)

shift_down-IsFloor : (n : ℕ) (v : ℤ) → IsFloor (2 ^ n) v (shift_down n v)
unfolding shift_down
shift_down-IsFloor n (pos v) = IsFloor-pos (2 ^ n) v (power_pos n)
shift_down-IsFloor n (negsuc v) = IsFloor-neg (2 ^ n) v _ (power_pos n) refl

-- `descale` rounds to nearest, halves up, for every number, also below zero: the result is the
-- floor of the number and half a unit over the unit.
pub descale-IsFloor : (x : ℤ) (n : ℕ) → IsFloor (2 ^ n) (x +ℤ pos (2 ^ (n - 1))) (descale x n)
unfolding descale
descale-IsFloor x n = shift_down-IsFloor n (x +ℤ pos (2 ^ (n - 1)))
