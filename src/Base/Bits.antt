-- ===== src/Base/Bits.antt =====
-- Laws of the bit operations at variables, from the recursion on binary digits for which the
-- native operations stand.
use Prim.Native.Nat.{ℕ, zero, suc, ◌+◌, ◌*◌, ◌/◌, ◌%◌, ◌^◌, ◌≤◌, ◌<◌, min, max}
use Prim.Native.Nat.{bit_and, bit_or, bit_xor, digits, bitwise, differ}
use Prim.Native.Nat.{bit_and-bitwise, bit_or-bitwise, bit_xor-bitwise}
use mathlib.Core.Path.{◌≡◌, refl, ap, sym, ◌∙◌}
use mathlib.Core.Bool.{Bool, true, ◌&&◌}
use mathlib.Core.Logic.{◌⊎◌, inl, inr}
use native.Mathlib.Nat.{le_refl, pow-suc, add-zero}
use native.Mathlib.Omega.{arith}

zero_or_more : (x : ℕ) → (x ≡ 0) ⊎ (0 < x)
zero_or_more x = omega arith

-- Fuel beyond the first number is never used.
spare_fuel :
    (stop : ℕ → ℕ) (op : ℕ → ℕ → ℕ) (least more x y : ℕ)
    → x ≤ least
    → least ≤ more
    → digits stop op more x y ≡ digits stop op least x y
spare_fuel stop op zero more (suc x) y small le = absurd (omega arith)
spare_fuel stop op (suc least) zero x y small le = absurd (omega arith)
spare_fuel stop op zero zero zero y small le = refl
spare_fuel stop op zero (suc more) zero y small le = refl
spare_fuel stop op (suc least) (suc more) zero y small le = refl
spare_fuel stop op (suc least) (suc more) (suc x) y small le =
    let shorter = spare_fuel stop op least more (suc x / 2) (y / 2) (omega arith) (omega arith) in
    ap (λ (high : ℕ). high * 2 + op (suc x % 2) (y % 2)) shorter

-- The last digit of the result comes from the last digits.
last_digit :
    (stop : ℕ → ℕ) (op : ℕ → ℕ → ℕ) (x y : ℕ)
    → 0 < x
    → bitwise stop op x y ≡ bitwise stop op (x / 2) (y / 2) * 2 + op (x % 2) (y % 2)
last_digit stop op zero y pos = absurd (omega arith)
last_digit stop op (suc x) y pos =
    let half = suc x / 2 in
    let enough = spare_fuel stop op half x half (y / 2) (le_refl half) (omega arith) in
    ap (λ (high : ℕ). high * 2 + op (suc x % 2) (y % 2)) enough

pub bit_or_step : (x y : ℕ) → bit_or x y ≡ bit_or (x / 2) (y / 2) * 2 + max (x % 2) (y % 2)
bit_or_step x y = elim (zero_or_more x) [
  | inl none ↦ simp (none, bit_or-bitwise) (omega arith)
  | inr some ↦ simp bit_or-bitwise (last_digit (λ rest. rest) max x y some)
]

pub bit_and_step : (x y : ℕ) → bit_and x y ≡ bit_and (x / 2) (y / 2) * 2 + min (x % 2) (y % 2)
bit_and_step x y = elim (zero_or_more x) [
  | inl none ↦ simp (none, bit_and-bitwise) (omega arith)
  | inr some ↦ simp bit_and-bitwise (last_digit (λ rest. 0) min x y some)
]

pub bit_xor_step : (x y : ℕ) → bit_xor x y ≡ bit_xor (x / 2) (y / 2) * 2 + differ (x % 2) (y % 2)
bit_xor_step x y = elim (zero_or_more x) [
  | inl none ↦ simp (none, bit_xor-bitwise) (omega arith)
  | inr some ↦ simp bit_xor-bitwise (last_digit (λ rest. rest) differ x y some)
]

digit : (a : ℕ) → (a % 2 ≡ 0) ⊎ (a % 2 ≡ 1)
digit a = omega arith

pub differ_digits : (a b : ℕ) → differ (a % 2) (b % 2) < 2
differ_digits a b = go (digit a) (digit b)
  where
    go : (a % 2 ≡ 0) ⊎ (a % 2 ≡ 1) → (b % 2 ≡ 0) ⊎ (b % 2 ≡ 1) → differ (a % 2) (b % 2) < 2
    go (inl p) (inl q) = rw (p, q) (omega arith)
    go (inl p) (inr q) = rw (p, q) (omega arith)
    go (inr p) (inl q) = rw (p, q) (omega arith)
    go (inr p) (inr q) = rw (p, q) (omega arith)

below_one : (a : ℕ) → a < 2 ^ 0 → a ≡ 0
below_one a h = omega arith

-- A bit operation stays within the width of its arguments.
pub bit_xor-lt : (k a b : ℕ) → a < 2 ^ k → b < 2 ^ k → bit_xor a b < 2 ^ k
bit_xor-lt zero a b ha hb = rw (below_one a ha, below_one b hb) (omega arith)
bit_xor-lt (suc k) a b ha hb =
    ground (arith, bit_xor_step a b, differ_digits a b, pow-suc 2 k, bit_xor-lt k (a / 2) (b / 2))

pub bit_or-lt : (k a b : ℕ) → a < 2 ^ k → b < 2 ^ k → bit_or a b < 2 ^ k
bit_or-lt zero a b ha hb = rw (below_one a ha, below_one b hb) (omega arith)
bit_or-lt (suc k) a b ha hb =
    ground (arith, bit_or_step a b, pow-suc 2 k, bit_or-lt k (a / 2) (b / 2))

pub bit_and-lt : (k a b : ℕ) → a < 2 ^ k → bit_and a b < 2 ^ k
bit_and-lt zero a b ha = rw (below_one a ha, bit_and-bitwise) (omega arith)
bit_and-lt (suc k) a b ha =
    ground (arith, bit_and_step a b, pow-suc 2 k, bit_and-lt k (a / 2) (b / 2))

-- `|` clears no bit.
bit_or-ge_fuel : (n a b : ℕ) → a ≤ n → (a ≤ bit_or a b) × (b ≤ bit_or a b)
bit_or-ge_fuel n zero b h = omega (arith, bit_or-bitwise 0 b)
bit_or-ge_fuel zero (suc a) b h = absurd (omega arith)
bit_or-ge_fuel (suc n) (suc a) b h =
    omega (arith, bit_or_step (suc a) b, bit_or-ge_fuel n (suc a / 2) (b / 2) (omega arith))

pub bit_or-ge : (a b : ℕ) → (a ≤ bit_or a b) × (b ≤ bit_or a b)
bit_or-ge a b = bit_or-ge_fuel a a b (le_refl a)

-- The mask 0 leaves nothing, by recursion on a bound of the number.
pub masked_out : (bound x : ℕ) → x ≤ bound → bit_and x 0 ≡ 0
masked_out zero x le = let none : x ≡ 0 = omega arith in rw none refl
masked_out (suc bound) x le = elim (zero_or_more x) [
  | inl none ↦ rw none refl
  | inr some ↦
      let rest = masked_out bound (x / 2) (omega arith) in bit_and_step x 0 ∙ rw rest (omega arith)
]

-- Masks of low bits, each from the one before.
pub bit_and-1 : (a : ℕ) → bit_and a 1 ≡ a % 2
bit_and-1 a = omega (arith, bit_and_step a 1, masked_out (a / 2) (a / 2) (le_refl (a / 2)))

pub bit_and-3 : (a : ℕ) → bit_and a 3 ≡ a % 4
bit_and-3 a = omega (arith, bit_and_step a 3, bit_and-1 (a / 2))

bit_and-7 : (a : ℕ) → bit_and a 7 ≡ a % 8
bit_and-7 a = omega (arith, bit_and_step a 7, bit_and-3 (a / 2))

pub bit_and-15 : (a : ℕ) → bit_and a 15 ≡ a % 16
bit_and-15 a = omega (arith, bit_and_step a 15, bit_and-7 (a / 2))

pub bit_and-31 : (a : ℕ) → bit_and a 31 ≡ a % 32
bit_and-31 a = omega (arith, bit_and_step a 31, bit_and-15 (a / 2))

bit_and-63 : (a : ℕ) → bit_and a 63 ≡ a % 64
bit_and-63 a = omega (arith, bit_and_step a 63, bit_and-31 (a / 2))

bit_and-127 : (a : ℕ) → bit_and a 127 ≡ a % 128
bit_and-127 a = omega (arith, bit_and_step a 127, bit_and-63 (a / 2))

pub bit_and-255 : (a : ℕ) → bit_and a 255 ≡ a % 256
bit_and-255 a = omega (arith, bit_and_step a 255, bit_and-127 (a / 2))

bit_and-511 : (a : ℕ) → bit_and a 511 ≡ a % 512
bit_and-511 a = omega (arith, bit_and_step a 511, bit_and-255 (a / 2))

bit_and-1023 : (a : ℕ) → bit_and a 1023 ≡ a % 1024
bit_and-1023 a = omega (arith, bit_and_step a 1023, bit_and-511 (a / 2))

bit_and-2047 : (a : ℕ) → bit_and a 2047 ≡ a % 2048
bit_and-2047 a = omega (arith, bit_and_step a 2047, bit_and-1023 (a / 2))

bit_and-4095 : (a : ℕ) → bit_and a 4095 ≡ a % 4096
bit_and-4095 a = omega (arith, bit_and_step a 4095, bit_and-2047 (a / 2))

bit_and-8191 : (a : ℕ) → bit_and a 8191 ≡ a % 8192
bit_and-8191 a = omega (arith, bit_and_step a 8191, bit_and-4095 (a / 2))

bit_and-16383 : (a : ℕ) → bit_and a 16383 ≡ a % 16384
bit_and-16383 a = omega (arith, bit_and_step a 16383, bit_and-8191 (a / 2))

bit_and-32767 : (a : ℕ) → bit_and a 32767 ≡ a % 32768
bit_and-32767 a = omega (arith, bit_and_step a 32767, bit_and-16383 (a / 2))

pub bit_and-65535 : (a : ℕ) → bit_and a 65535 ≡ a % 65536
bit_and-65535 a = omega (arith, bit_and_step a 65535, bit_and-32767 (a / 2))

bit_or-zero_fuel : (n a : ℕ) → a ≤ n → bit_or a 0 ≡ a
bit_or-zero_fuel n zero h = refl
bit_or-zero_fuel zero (suc a) h = absurd (omega arith)
bit_or-zero_fuel (suc n) (suc a) h =
    omega (arith, bit_or_step (suc a) 0, bit_or-zero_fuel n (suc a / 2) (omega arith))

pub doubled : (q k : ℕ) → q * 2 ^ suc k ≡ 2 * (q * 2 ^ k)
doubled q k = omega (arith, ap (λ (t : ℕ). q * t) (pow-suc 2 k))

-- A field that is shifted above another is joined to it by a sum.
pub bit_or_shifted : (k q r : ℕ) → r < 2 ^ k → bit_or (q * 2 ^ k) r ≡ q * 2 ^ k + r
bit_or_shifted zero q r h =
    rw (below_one r h) (bit_or-zero_fuel (q * 1) (q * 1) (le_refl (q * 1)) ∙ sym (add-zero _))
bit_or_shifted (suc k) q r h = ground (
  arith,
  bit_or_step (q * 2 ^ suc k) r,
  doubled q k,
  pow-suc 2 k,
  bit_or_shifted k q (r / 2) (omega (arith, pow-suc 2 k)),
)

-- Four bytes, most significant first, as one word.
pub bit_or_word :
    (a b c d : ℕ)
    → a < 2 ^ 8
    → b < 2 ^ 8
    → c < 2 ^ 8
    → d < 2 ^ 8
    → bit_or (bit_or (bit_or (a * 2 ^ 24) (b * 2 ^ 16)) (c * 2 ^ 8)) d
      ≡ a * 2 ^ 24 + b * 2 ^ 16 + c * 2 ^ 8 + d
bit_or_word a b c d ha hb hc hd =
    let x : a * 2 ^ 24 + b * 2 ^ 16 ≡ (a * 256 + b) * 2 ^ 16 = omega arith in
    let y : (a * 256 + b) * 2 ^ 16 + c * 2 ^ 8 ≡ ((a * 256 + b) * 256 + c) * 2 ^ 8 = omega arith in
    rw
      (
        bit_or_shifted 24 a (b * 2 ^ 16) (omega arith),
        x,
        bit_or_shifted 16 (a * 256 + b) (c * 2 ^ 8) (omega arith),
        y,
        bit_or_shifted 8 ((a * 256 + b) * 256 + c) d (omega arith),
      )
      (omega arith)

-- Over a small range a test is checked at every value.
unfoldable pub passes_below : (ℕ → Bool) → ℕ → Bool
passes_below test zero = true
passes_below test (suc bound) = passes_below test bound && test bound

pub passes_below_lem :
    (test : ℕ → Bool) (bound i : ℕ) → i < bound → passes_below test bound ≡ true → test i ≡ true
unfolding passes_below
passes_below_lem test zero i below all = absurd (omega arith)
passes_below_lem test (suc bound) i below all = ground (arith, passes_below_lem test bound i)

bit_or_comm_fuel : (n x y : ℕ) → x + y ≤ n → bit_or x y ≡ bit_or y x
bit_or_comm_fuel zero x y h =
    let ex : x ≡ 0 = omega arith in let ey : y ≡ 0 = omega arith in rw (ex, ey) refl
bit_or_comm_fuel (suc n) x y h =
    omega
      (arith, bit_or_step x y, bit_or_step y x, bit_or_comm_fuel n (x / 2) (y / 2) (omega arith))

bit_or_comm : (x y : ℕ) → bit_or x y ≡ bit_or y x
bit_or_comm x y = bit_or_comm_fuel (x + y) x y (le_refl (x + y))

-- The same with the lower field first.
pub bit_or_above : (k q r : ℕ) → r < 2 ^ k → bit_or r (q * 2 ^ k) ≡ q * 2 ^ k + r
bit_or_above k q r h = bit_or_comm r (q * 2 ^ k) ∙ bit_or_shifted k q r h
