-- ===== src/Checksum/Crc.antt =====
-- `crc32` of src/checksum.cpp: the table against the division bit by bit, and the continuation.
use hh_cpp.Base.{ℕ, zero, suc, ◌+◌, ◌*◌, ◌/◌, ◌%◌, ◌^◌, ◌<◌, ◌≡◌, refl, sym, ap, ◌∙◌, arith}
use hh_cpp.Base.{List, [], ◌∷◌, ◌++◌, All, IsByte, get_or, not32, ◌>>>◌, ◌==◌}
use hh_cpp.Base.{bit_and, bit_xor, Bool-cases, inl, inr}
use hh_cpp.Base.Bits.{bit_and-1, bit_and-255, bit_xor-lt}
use hh_cpp.Base.Xor.{bit_xor-even, bit_xor_assoc, bit_xor_shifted, bit_xor-shift, bit_xor-zero}
use native.Mathlib.Nat.{pow-suc}
use hh_cpp.Checksum.{crc_bit, crc_bits, table_from, crc_table, crc_loop, crc32}

-- The register after a byte, by eight rounds of the division and with no table.
pub crc_step : ℕ → ℕ → ℕ
crc_step crc b = crc_bits 8 (bit_xor crc b)

-- The register after an input.
pub crc_register : List ℕ → ℕ → ℕ
crc_register [] crc = crc
crc_register (b ∷ rest) crc = crc_register rest (crc_step crc b)

-- A round divides what lies above the last digit by two.
crc_bit-xor : (c m : ℕ) → crc_bit (bit_xor c (2 * m)) ≡ bit_xor (crc_bit c) m
unfolding crc_bit
crc_bit-xor c m =
    let (e, f) = bit_xor-even c m in
    let g : bit_and (bit_xor c (2 * m)) 1 ≡ bit_and c 1 = bit_and-1 _ ∙ f ∙ sym (bit_and-1 c) in
    elim (Bool-cases (bit_and c 1 == 0)) [
      | inl z ↦ rw (g, z) e
      | inr z ↦ rw (g, z) (ap (bit_xor 0xedb88320) e ∙ sym (bit_xor_assoc 0xedb88320 (c / 2) m))
    ]

crc_bits-xor : (k c h : ℕ) → crc_bits k (bit_xor c (h * 2 ^ k)) ≡ bit_xor (crc_bits k c) h
unfolding crc_bits
crc_bits-xor zero c h = ap (bit_xor c) (omega arith)
crc_bits-xor (suc k) c h =
    let e : h * 2 ^ suc k ≡ 2 * (h * 2 ^ k) = omega (arith, ap (λ (t : ℕ). h * t) (pow-suc 2 k)) in
    rw (e, crc_bit-xor c (h * 2 ^ k)) (crc_bits-xor k (crc_bit c) h)

-- Eight rounds on a register: the rounds on the last byte, and the rest moved down.
crc_bits-split : (x : ℕ) → crc_bits 8 x ≡ bit_xor (crc_bits 8 (x % 256)) (x / 256)
crc_bits-split x =
    let e : x ≡ bit_xor (x % 256) (x / 256 * 2 ^ 8) =
      sym (bit_xor_shifted 8 (x / 256) (x % 256) (omega arith) ∙ omega arith) in
    ap (crc_bits 8) e ∙ crc_bits-xor 8 (x % 256) (x / 256)

get_or-table_from : (left n i : ℕ) → i < left → get_or (table_from left n) i 0 ≡ crc_bits 8 (n + i)
unfolding table_from
get_or-table_from zero n i h = absurd (omega arith)
get_or-table_from (suc left) n zero h = ap (crc_bits 8) (omega arith)
get_or-table_from (suc left) n (suc i) h =
    get_or-table_from left (n + 1) i (omega arith) ∙ ap (crc_bits 8) (omega arith)

-- Every entry of the table is what the division makes of its index.
get_or-crc_table : (i : ℕ) → i < 256 → get_or crc_table i 0 ≡ crc_bits 8 i
unfolding crc_table
get_or-crc_table i h = get_or-table_from 256 0 i h ∙ ap (crc_bits 8) (omega arith)

bit_xor-shift8 : (c b : ℕ) → b < 256 → bit_xor c b / 256 ≡ c / 256
bit_xor-shift8 c b h =
    let z : b / 2 ^ 8 ≡ 0 = omega arith in bit_xor-shift 8 c b ∙ rw (z, bit_xor-zero) refl

-- The table step is eight rounds of the division.
table_step :
    (crc b : ℕ)
    → b < 256
    → bit_xor (get_or crc_table (bit_and (bit_xor crc b) 0xff) 0) (crc >>> 8) ≡ crc_step crc b
unfolding crc_step
table_step crc b h =
    rw (bit_and-255, get_or-crc_table (bit_xor crc b % 256) (omega arith), ← bit_xor-shift8 crc b h)
      (sym (crc_bits-split (bit_xor crc b)))

crc_loop-register : (xs : List ℕ) (crc : ℕ) → All IsByte xs → crc_loop xs crc ≡ crc_register xs crc
unfolding crc_loop crc_register
crc_loop-register [] crc h = refl
crc_loop-register (b ∷ xs) crc (hb, h) =
    rw (table_step crc b hb) (crc_loop-register xs (crc_step crc b) h)

-- On bytes the table-driven checksum is the one of the division bit by bit.
pub crc32_lem :
    (xs : List ℕ) (crc : ℕ) → All IsByte xs → crc32 xs crc ≡ not32 (crc_register xs (not32 crc))
unfolding crc32
crc32_lem xs crc h = ap not32 (crc_loop-register xs (not32 crc) h)

crc_loop-append :
    (xs ys : List ℕ) (crc : ℕ) → crc_loop (xs ++ ys) crc ≡ crc_loop ys (crc_loop xs crc)
unfolding crc_loop
crc_loop-append [] ys crc = refl
crc_loop-append (b ∷ xs) ys crc = crc_loop-append xs ys _

crc_bit-lt : (c : ℕ) → c < 2 ^ 32 → crc_bit c < 2 ^ 32
unfolding crc_bit
crc_bit-lt c h = elim (Bool-cases (bit_and c 1 == 0)) [
  | inl z ↦ rw z (omega arith)
  | inr z ↦ rw z (bit_xor-lt 32 0xedb88320 (c / 2) (omega arith) (omega arith))
]

crc_bits-lt : (k c : ℕ) → c < 2 ^ 32 → crc_bits k c < 2 ^ 32
unfolding crc_bits
crc_bits-lt zero c h = h
crc_bits-lt (suc k) c h = crc_bits-lt k (crc_bit c) (crc_bit-lt c h)

-- The register stays a 32-bit word.
crc_register-lt :
    (xs : List ℕ) (crc : ℕ) → All IsByte xs → crc < 2 ^ 32 → crc_register xs crc < 2 ^ 32
unfolding crc_register crc_step
crc_register-lt [] crc bytes h = h
crc_register-lt (b ∷ xs) crc (hb, bytes) h =
    crc_register-lt xs (crc_bits 8 (bit_xor crc b)) bytes
      (crc_bits-lt 8 (bit_xor crc b) (bit_xor-lt 32 crc b h (omega arith)))

-- A checksum that is continued over a second part is the checksum of the whole.
pub crc32-append :
    (xs ys : List ℕ) (crc : ℕ)
    → All IsByte xs
    → crc < 2 ^ 32
    → crc32 ys (crc32 xs crc) ≡ crc32 (xs ++ ys) crc
unfolding crc32
crc32-append xs ys crc bytes h =
    let r = crc_loop-register xs (not32 crc) bytes in
    let small = crc_register-lt xs (not32 crc) bytes (omega arith) in
    let twice : not32 (not32 (crc_loop xs (not32 crc))) ≡ crc_loop xs (not32 crc) =
      omega (arith, r, small) in
    ap (λ c. not32 (crc_loop ys c)) twice ∙ ap not32 (sym (crc_loop-append xs ys (not32 crc)))
