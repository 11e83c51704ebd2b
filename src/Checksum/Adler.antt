-- ===== src/Checksum/Adler.antt =====
-- `adler32` of src/checksum.cpp: the deferred remainders against RFC 1950, which takes one after
-- every byte.
use native.Mathlib.Nat.{mul-le-mul, mul-le-mul_left}
use hh_cpp.Base.{
  ℕ, zero, suc, ◌+◌, ◌*◌, ◌/◌, ◌%◌, ◌^◌, ◌<◌, ◌≤◌, ◌≡◌, refl, sym, ap, ap₂, ◌∙◌, arith, min,
}
use hh_cpp.Base.{List, [], ◌∷◌, ◌++◌, length, take, drop, All, IsByte, u32, ◌==◌}
use hh_cpp.Base.{
  bit_and, bit_or, Bool-cases, inl, inr, take-append-drop, length-take, length-drop, ==→eq,
  ==-false→ne, length-zero,
}
use hh_cpp.Base.Bits.{bit_and-65535, bit_or_shifted}
use hh_cpp.Checksum.{Sums, add_block, adler_loop, adler32}

-- One byte of RFC 1950.
pub adler_step : ℕ → Sums → Sums
adler_step d s = let a' = (s.a + d) % 65521 in record { a = a'; b = (s.b + a') % 65521 }

pub adler_sums : List ℕ → Sums → Sums
adler_sums [] s = s
adler_sums (d ∷ rest) s = adler_sums rest (adler_step d s)

pub adler_word : Sums → ℕ
adler_word s = s.b * 65536 + s.a

abbrev reduce : Sums → Sums
reduce s = record { a = s.a % 65521; b = s.b % 65521 }

-- 1 + 2 + ... + n.
triangle : ℕ → ℕ
triangle zero = 0
triangle (suc n) = triangle n + suc n

triangle-twice : (n : ℕ) → 2 * triangle n ≡ n * suc n
unfolding triangle
triangle-twice zero = refl
triangle-twice (suc n) = ground (arith, triangle-twice n)

-- What the second sum can reach in a block.
abbrev Fits : List ℕ → Sums → Type 0
Fits xs s =
    (s.a + 255 * length xs < 2 ^ 32) × (s.b + length xs * s.a + 255 * triangle (length xs) < 2 ^ 32)

Fits-step :
    (d : ℕ) (xs : List ℕ) (s : Sums)
    → d < 2 ^ 8
    → Fits (d ∷ xs) s
    → (u32 (s.a + d) ≡ s.a + d)
      × (u32 (s.b + (s.a + d)) ≡ s.b + (s.a + d))
      × Fits xs (record { a = s.a + d; b = s.b + (s.a + d) })
unfolding triangle
Fits-step d xs s hd (ha, hb) =
    let m : length xs * (s.a + d) ≤ length xs * (s.a + 255) =
      mul-le-mul_left (length xs) (omega arith) in
    (omega arith, omega (arith, hb), (omega (arith, m, ha), omega (arith, m, hb)))

-- The steps see only the remainders.
adler_step-reduce :
    (d : ℕ) (s : Sums)
    → adler_step d (reduce s) ≡ reduce (record { a = s.a + d; b = s.b + (s.a + d) })
unfolding adler_step
adler_step-reduce d s = ground arith

add_block_lem :
    (xs : List ℕ) (s : Sums)
    → All IsByte xs
    → Fits xs s
    → reduce (add_block xs s) ≡ adler_sums xs (reduce s)
unfolding add_block adler_sums
add_block_lem [] s bytes fits = refl
add_block_lem (d ∷ xs) s (hd, bytes) fits =
    let (ea, eb, rest) = Fits-step d xs s hd fits in
    ap₂ (λ p q. reduce (add_block xs (record { a = p; b = q }))) ea
      (ap (λ t. u32 (s.b + t)) ea ∙ eb)
    ∙ rw (adler_step-reduce d s)
        (add_block_lem xs (record { a = s.a + d; b = s.b + (s.a + d) }) bytes rest)

-- 5552 bytes cannot overflow the sums.
block-Fits : (xs : List ℕ) (s : Sums) → length xs ≤ 5552 → s.a < 65521 → s.b < 65521 → Fits xs s
block-Fits xs s size ha hb =
    let m : length xs * s.a ≤ 5552 * 65520 = mul-le-mul {m₂ = 65520} size (omega arith) in
    let n : length xs * suc (length xs) ≤ 5552 * 5553 = mul-le-mul {m₂ = 5553} size (omega arith) in
    (omega (arith, size), omega (arith, m, n, triangle-twice (length xs)))

-- The remainders of a pair of sums, and of an input in pieces.
abbrev IsReduced : Sums → Type 0
IsReduced s = (s.a < 65521) × (s.b < 65521)

adler_sums-IsReduced : (xs : List ℕ) (s : Sums) → IsReduced s → IsReduced (adler_sums xs s)
unfolding adler_sums adler_step
adler_sums-IsReduced [] s r = r
adler_sums-IsReduced (d ∷ xs) s r = adler_sums-IsReduced xs (adler_step d s) (omega arith)

pub adler_sums-append :
    (xs ys : List ℕ) (s : Sums) → adler_sums (xs ++ ys) s ≡ adler_sums ys (adler_sums xs s)
unfolding adler_sums
adler_sums-append [] ys s = refl
adler_sums-append (d ∷ xs) ys s = adler_sums-append xs ys (adler_step d s)

reduce_lem : (s : Sums) → IsReduced s → reduce s ≡ s
reduce_lem s r = ground arith

pub All-take : (n : ℕ) (xs : List ℕ) → All IsByte xs → All IsByte (take n xs)
unfolding take
All-take zero xs h = tt
All-take (suc n) [] h = tt
All-take (suc n) (x ∷ xs) (hx, h) = (hx, All-take n xs h)

pub All-drop : (n : ℕ) (xs : List ℕ) → All IsByte xs → All IsByte (drop n xs)
unfolding drop
All-drop zero xs h = h
All-drop (suc n) [] h = h
All-drop (suc n) (x ∷ xs) (hx, h) = All-drop n xs h

adler_loop_lem :
    (fuel : ℕ) (xs : List ℕ) (s : Sums)
    → length xs ≤ fuel
    → All IsByte xs
    → IsReduced s
    → adler_loop fuel xs s ≡ adler_sums xs s
unfolding adler_loop
adler_loop_lem zero [] s le bytes r = unfold adler_sums in refl
adler_loop_lem zero (x ∷ xs) s le bytes r = absurd (omega arith)
adler_loop_lem (suc fuel) xs s le bytes r = elim (Bool-cases (length xs == 0)) [
  | inl z ↦ rw (z, length-zero xs (==→eq _ _ z)) (unfold adler_sums in refl)
  | inr nz ↦
      let n = min (length xs) 5552 in
      let pos = ==-false→ne _ _ nz in
      let size = length-take n xs (omega arith) in
      let front : reduce (add_block (take n xs) s) ≡ adler_sums (take n xs) s =
        add_block_lem (take n xs) s (All-take n xs bytes)
          (block-Fits (take n xs) s (omega (arith, size)) r.0 r.1)
        ∙ ap (adler_sums (take n xs)) (reduce_lem s r) in
      let ih =
        adler_loop_lem fuel (drop n xs) (adler_sums (take n xs) s) (omega (arith, length-drop n xs))
          (All-drop n xs bytes) (adler_sums-IsReduced (take n xs) s r) in
      rw (nz, front, ih)
        (sym (adler_sums-append (take n xs) (drop n xs) s)
          ∙ ap (λ t. adler_sums t s) (take-append-drop n xs))
]

-- With remainders as the starting value, `adler32` is the word of the sums of RFC 1950: the sums
-- of a block do not overflow 32 bits, and one remainder a block is enough.
pub adler32_lem :
    (xs : List ℕ) (a b : ℕ)
    → All IsByte xs
    → a < 65521
    → b < 65521
    → adler32 xs (b * 65536 + a) ≡ adler_word (adler_sums xs (record { a = a; b = b }))
unfolding adler32 adler_word
adler32_lem xs a b bytes ha hb =
    let lo : bit_and (b * 65536 + a) 65535 ≡ a = bit_and-65535 _ ∙ omega arith in
    let hi : (b * 65536 + a) / 2 ^ 16 ≡ b = omega arith in
    let s = adler_sums xs (record { a = a; b = b }) in
    let r = adler_sums-IsReduced xs (record { a = a; b = b }) (ha, hb) in
    rw
      (lo, hi, adler_loop_lem (length xs) xs (record { a = a; b = b }) (omega arith) bytes (ha, hb))
      (ap (λ t. bit_or t s.a) (omega arith) ∙ bit_or_shifted 16 s.b s.a (omega (arith, r)))

-- A checksum that is continued over a second part is the checksum of the whole.
pub adler32-append :
    (xs ys : List ℕ)
    → All IsByte xs
    → All IsByte ys
    → adler32 ys (adler32 xs 1) ≡ adler_word (adler_sums (xs ++ ys) (record { a = 1; b = 0 }))
adler32-append xs ys hx hy =
    let start : Sums = record { a = 1; b = 0 } in
    let r = adler_sums-IsReduced xs start (omega arith, omega arith) in
    ap (adler32 ys) (adler32_lem xs 1 0 hx (omega arith) (omega arith))
    ∙ unfold adler_word in
      adler32_lem ys (adler_sums xs start).a (adler_sums xs start).b hy r.0 r.1
      ∙ ap adler_word (sym (adler_sums-append xs ys start))

-- The word of the sums has 32 bits.
pub adler_word-lt : (xs : List ℕ) → adler_word (adler_sums xs (record { a = 1; b = 0 })) < 2 ^ 32
unfolding adler_word
adler_word-lt xs =
    omega (arith, adler_sums-IsReduced xs (record { a = 1; b = 0 }) (omega arith, omega arith))
