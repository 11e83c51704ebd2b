-- ===== src/Jpeg/Stream.antt =====
-- The bits that scan_writer of src/jpeg.cpp has written: put and finish.
use hh_cpp.Base.{
  ℕ, zero, suc, ◌+◌, ◌-◌, ◌*◌, ◌/◌, ◌%◌, ◌^◌, ◌≤◌, ◌<◌, ◌≡◌, refl, sym, subst, ap, ap₂, ◌∙◌, arith,
}
use hh_cpp.Base.{[], ◌∷◌, ◌++◌, append_assoc, append-nil, u32, ◌<<<◌}
use hh_cpp.Base.{bit_and, bit_or}
use native.Mathlib.Nat.{
  pow-suc, div-div-eq-div-mul, div-add-mod', mod-lt, div-eq_of_lt, mul-add-div_right,
}
use native.Mathlib.Nat.{add-mul, mul_assoc, mul-lt-mul_of_pos_right}
use hh_cpp.Base.Bits.{bit_and_step, masked_out, bit_or_shifted, doubled}
use hh_cpp.Base.Streams.{code_bits}

pow-pos : (k : ℕ) → 0 < 2 ^ k
pow-pos zero = omega arith
pow-pos (suc k) = omega (arith, pow-suc 2 k, pow-pos k)

-- The upper and the lower part of a field.
pub code_bits-split : (j k v : ℕ) → code_bits (j + k) v ≡ code_bits j (v / 2 ^ k) ++ code_bits k v
unfolding code_bits
code_bits-split j zero v =
    ap₂ code_bits (let e : j + 0 ≡ j = omega arith in e) (let e : v ≡ v / 2 ^ 0 = omega arith in e)
    ∙ sym (append-nil (code_bits j (v / 2 ^ 0)))
code_bits-split j (suc k) v =
    let half : v / 2 / 2 ^ k ≡ v / 2 ^ suc k =
      div-div-eq-div-mul v 2 (2 ^ k)
      ∙ ap (λ n. v / n) (let e : 2 * 2 ^ k ≡ 2 ^ suc k = omega (arith, pow-suc 2 k) in e) in
    ap (λ n. code_bits n v) (let e : j + suc k ≡ suc (j + k) = omega arith in e)
    ∙ ap (λ r. r ++ (v % 2 ∷ [])) (code_bits-split j k (v / 2))
    ∙ append_assoc (code_bits j (v / 2 / 2 ^ k)) (code_bits k (v / 2)) (v % 2 ∷ [])
    ∙ ap (λ n. code_bits j n ++ code_bits (suc k) v) half

-- The bits above a field do not show in it.
code_bits-above : (k m q r : ℕ) → k ≤ m → code_bits k (q * 2 ^ m + r) ≡ code_bits k r
unfolding code_bits
code_bits-above zero m q r h = refl
code_bits-above (suc k) zero q r h = absurd (omega arith)
code_bits-above (suc k) (suc m) q r h =
    let rest : (q * 2 ^ suc m + r) / 2 ≡ q * 2 ^ m + r / 2 = omega (arith, doubled q m) in
    let last : (q * 2 ^ suc m + r) % 2 ≡ r % 2 = omega (arith, doubled q m) in
    ap₂ (λ bits b. bits ++ (b ∷ []))
      (ap (code_bits k) rest ∙ code_bits-above k m q (r / 2) (omega arith)) last

pub code_bits-lower : (k m v : ℕ) → k ≤ m → code_bits k (v % 2 ^ m) ≡ code_bits k v
code_bits-lower k m v h =
    sym (code_bits-above k m (v / 2 ^ m) (v % 2 ^ m) h) ∙ ap (code_bits k) (div-add-mod' v (2 ^ m))

-- Masking keeps the bits of the mask.
code_bits-mask : (k v : ℕ) → code_bits k (bit_and v (2 ^ k - 1)) ≡ code_bits k v
unfolding code_bits
code_bits-mask zero v = refl
code_bits-mask (suc k) v =
    let m = 2 ^ suc k - 1 in
    let half : m / 2 ≡ 2 ^ k - 1 = omega (arith, pow-suc 2 k, pow-pos k) in
    let odd : m % 2 ≡ 1 = omega (arith, pow-suc 2 k, pow-pos k) in
    let step = bit_and_step v m in
    let last : bit_and v m % 2 ≡ v % 2 = omega (arith, step, odd) in
    let rest : bit_and v m / 2 ≡ bit_and (v / 2) (m / 2) = omega (arith, step) in
    ap₂ (λ bits b. bits ++ (b ∷ []))
      (ap (code_bits k) (rest ∙ ap (bit_and (v / 2)) half) ∙ code_bits-mask k (v / 2)) last

mask-lt : (k v : ℕ) → bit_and v (2 ^ k - 1) < 2 ^ k
mask-lt zero v = omega (arith, masked_out v v (omega arith))
mask-lt (suc k) v =
    let m = 2 ^ suc k - 1 in
    let half : m / 2 ≡ 2 ^ k - 1 = omega (arith, pow-suc 2 k, pow-pos k) in
    omega (arith, bit_and_step v m, ap (bit_and (v / 2)) half, mask-lt k (v / 2), pow-suc 2 k)

-- A field below others.
code_bits-join :
    (j k q r : ℕ) → r < 2 ^ k → code_bits (j + k) (q * 2 ^ k + r) ≡ code_bits j q ++ code_bits k r
code_bits-join j k q r h =
    code_bits-split j k (q * 2 ^ k + r)
    ∙ ap₂ (λ n bits. code_bits j n ++ bits)
        (mul-add-div_right (pow-pos k) q r ∙ omega (arith, div-eq_of_lt h))
        (code_bits-above k k q r (omega arith))

pow_join : (a b : ℕ) → 2 ^ (a + b) ≡ 2 ^ a * 2 ^ b
pow_join a zero = ap (λ n. 2 ^ n) (let e : a + 0 ≡ a = omega arith in e) ∙ omega arith
pow_join a (suc b) =
    ap (λ n. 2 ^ n) (let e : a + suc b ≡ suc (a + b) = omega arith in e)
    ∙ omega (arith, pow-suc 2 (a + b), pow_join a b, doubled (2 ^ a) b)

-- The shift of `put` before the cut to 32 bits.
shifted : (acc count : ℕ) → count ≤ 32 → u32 (acc <<< count) ≡ (acc % 2 ^ (32 - count)) * 2 ^ count
shifted acc count h =
    let p = 2 ^ (32 - count) in
    let q = acc / p in
    let r = acc % p in
    let width : p * 2 ^ count ≡ 2 ^ 32 =
      sym (pow_join (32 - count) count)
      ∙ ap (λ n. 2 ^ n) (let e : 32 - count + count ≡ 32 = omega arith in e) in
    let parts : acc * 2 ^ count ≡ q * 2 ^ 32 + r * 2 ^ count =
      ap (λ n. n * 2 ^ count) (sym (div-add-mod' acc p))
      ∙ add-mul (q * p) r (2 ^ count)
      ∙ ap (λ n. n + r * 2 ^ count) (mul_assoc q p (2 ^ count) ∙ ap (λ n. q * n) width) in
    let small : r * 2 ^ count < 2 ^ 32 =
      subst (λ n. r * 2 ^ count < n) width
        (mul-lt-mul_of_pos_right (mod-lt acc (pow-pos (32 - count))) (pow-pos count)) in
    omega (arith, parts, small)

-- The accumulator after `put` has taken a field.
pub put_acc :
    (bits count acc used : ℕ)
    → used < 8
    → count ≤ 16
    → code_bits (used + count) (bit_or (u32 (acc <<< count)) (bit_and bits (2 ^ count - 1)))
      ≡ code_bits used acc ++ code_bits count bits
put_acc bits count acc used hu hc =
    let field = bit_and bits (2 ^ count - 1) in
    let small = mask-lt count bits in
    let high = acc % 2 ^ (32 - count) in
    ap (λ n. code_bits (used + count) (bit_or n field)) (shifted acc count (omega arith))
    ∙ ap (code_bits (used + count)) (bit_or_shifted count high field small)
    ∙ code_bits-join used count high field small
    ∙ ap₂ ◌++◌ (code_bits-lower used (32 - count) acc (omega arith)) (code_bits-mask count bits)
