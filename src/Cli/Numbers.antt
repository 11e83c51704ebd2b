-- ===== src/Cli/Numbers.antt =====
-- Decimal numbers: parse_number of examples/hh_cli.cpp against std::to_string.
use hh_cpp.Base.{
  ℕ, zero, suc, ◌+◌, ◌-◌, ◌*◌, ◌/◌, ◌%◌, ◌^◌, min, ◌≤◌, ◌<◌, ◌≡◌, refl, ap, ◌∙◌, arith,
}
use hh_cpp.Base.{
  true, false, ◌||◌, ltb, ltb→lt, ltb-false→le, ◌==◌, Bool-cases, inl, inr, none, some, List, [],
  ◌∷◌, ◌++◌, length, length-append,
}
use native.Mathlib.Nat.{pow-suc}
use hh_cpp.Base.Streams.{after}
use hh_cpp.Cli.{number_loop, clamped, parse_number}
use hh_cpp.Cli.Batch.{decimal, to_string}

-- One digit more.
number_loop-digit :
    (v d n : ℕ) (text : List ℕ)
    → d < 10
    → number_loop v text ≡ some n
    → number_loop v (text ++ ((b'0' + d) ∷ [])) ≡ some (n * 10 + d)
unfolding number_loop
number_loop-digit v d n [] h e =
    let low : ltb (b'0' + d) b'0' ≡ false = ground arith in
    let high : ltb b'9' (b'0' + d) ≡ false = ground arith in
    let digit : b'0' + d - b'0' ≡ d = omega arith in
    let same : some v ≡ some n = e in
    rw low (rw high (rw digit (ap (λ o. after o (λ m. some (m * 10 + d))) same)))
number_loop-digit v d n (c ∷ text) h e = elim (Bool-cases (ltb c b'0' || ltb b'9' c)) [
  | inl t ↦ absurd (let wrong : none ≡ some n = rw t at e in cc wrong)
  | inr t ↦ rw t (number_loop-digit (v * 10 + (c - b'0')) d n text h (rw t at e))
]

decimal_lem : (fuel n : ℕ) → n < fuel → number_loop 0 (decimal fuel n) ≡ some n
unfolding decimal
decimal_lem zero n h = absurd (omega arith)
decimal_lem (suc fuel) n h = elim (Bool-cases (ltb n 10)) [
  | inl e ↦
      let small = ltb→lt n 10 e in
      rw e (
        number_loop-digit 0 (n % 10) 0 [] (omega arith) (unfold number_loop in refl)
        ∙ ap some (let same : 0 * 10 + n % 10 ≡ n = omega arith in same))
  | inr e ↦
      let large = ltb-false→le n 10 e in
      rw e (
        number_loop-digit 0 (n % 10) (n / 10) (decimal fuel (n / 10)) (omega arith)
          (decimal_lem fuel (n / 10) (omega arith))
        ∙ ap some (let same : n / 10 * 10 + n % 10 ≡ n = omega arith in same))
]

below_ten : (k n : ℕ) → n < 10 ^ suc (suc k) → n / 10 < 10 ^ suc k
below_ten k n h = omega (arith, pow-suc 10 (suc k), h)

decimal_length :
    (fuel n k : ℕ)
    → n < fuel
    → n < 10 ^ suc k
    → (1 ≤ length (decimal fuel n)) × (length (decimal fuel n) ≤ suc k)
unfolding decimal
decimal_length zero n k h few = absurd (omega arith)
decimal_length (suc fuel) n zero h few =
    let small : ltb n 10 ≡ true = ground (arith, pow-suc 10 0) in
    rw small (omega arith, omega arith)
decimal_length (suc fuel) n (suc k) h few = elim (Bool-cases (ltb n 10)) [
  | inl e ↦ rw e (omega arith, omega arith)
  | inr e ↦
      let higher = decimal fuel (n / 10) in
      let large = ltb-false→le n 10 e in
      let shorter = decimal_length fuel (n / 10) k (omega arith) (below_ten k n few) in
      let total = length-append higher ((b'0' + n % 10) ∷ []) in
      rw e (omega (arith, shorter, total), omega (arith, shorter, total))
]

clamped_lem : (v : ℕ) → clamped v ≡ min v 0x7fffffff
clamped_lem v = ground arith

-- A number below ten to the tenth that is written in decimal is accepted and read back, and one
-- that is larger than 2^31 - 1 as that.
pub parse_number-to_string :
    (n : ℕ) → n < 10 ^ 10 → parse_number (to_string n) ≡ some (min n 0x7fffffff)
unfolding parse_number
parse_number-to_string n h =
    let (some_, few) = decimal_length (suc n) n 9 (omega arith) h in
    let not_empty : (length (to_string n) == 0) ≡ false = ground arith in
    let not_long : ltb 10 (length (to_string n)) ≡ false = ground arith in
    rw not_empty (rw not_long (rw (decimal_lem (suc n) n (omega arith)) (ap some (clamped_lem n))))
