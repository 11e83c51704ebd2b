-- ===== src/Png/Symbols.antt =====
-- Every symbol of put_symbol of src/png.cpp is read back, and so are its fields.
use hh_cpp.Base.Streams.{after, code_bits, length-code_bits, read_code-code_bits}
use hh_cpp.Base.{ℕ, suc, ◌+◌, ◌-◌, ◌*◌, ◌/◌, ◌%◌, ◌^◌, ◌≤◌, ◌<◌, ◌≡◌, refl, ap, ◌∙◌, arith}
use hh_cpp.Base.{false, ltb, ltb→lt, ltb-false→le, Bool-cases, inl, inr}
use hh_cpp.Base.{some, List, [], ◌∷◌, ◌++◌, append_assoc, length, lt→ltb}
use hh_cpp.Png.Bits.{BitWriter, put_symbol}
use hh_cpp.Png.Stream.{stream, IsTidy}
use hh_cpp.Png.Codes.{put_code-stream}
use hh_cpp.Png.Inflate.{read_symbol, after_seven, after_eight}

-- `after` writes some bits behind those of `before`.
abbrev pub Writes : BitWriter → BitWriter → List ℕ → Type 0
Writes before after_ bits = (stream after_ ≡ stream before ++ bits) × IsTidy after_

pub Writes-trans :
    (w1 w2 w3 : BitWriter) (a b : List ℕ) → Writes w1 w2 a → Writes w2 w3 b → Writes w1 w3 (a ++ b)
Writes-trans w1 w2 w3 a b (p, t) (q, u) = (q ∙ ap (λ r. r ++ b) p ∙ append_assoc (stream w1) a b, u)

code_bits-suc :
    (n v : ℕ) (rest : List ℕ) → code_bits (suc n) v ++ rest ≡ code_bits n (v / 2) ++ (v % 2 ∷ rest)
unfolding code_bits
code_bits-suc n v rest = append_assoc (code_bits n (v / 2)) (v % 2 ∷ []) rest

-- The fixed codes of seven, eight and nine bits.
first_seven :
    (v : ℕ) (rest : List ℕ)
    → v < 2 ^ 7
    → read_symbol (code_bits 7 v ++ rest) ≡ after_seven (v, rest)
unfolding read_symbol
first_seven v rest h = ap (λ o. after o after_seven) (read_code-code_bits 7 v rest h)

first_eight :
    (v : ℕ) (rest : List ℕ)
    → 48 ≤ v
    → v < 2 ^ 8
    → read_symbol (code_bits 8 v ++ rest) ≡ after_eight (v, rest)
unfolding after_seven
first_eight v rest lo hi =
    let more : ltb (v / 2) 24 ≡ false = ground arith in
    let bit : after_seven (v / 2, v % 2 ∷ rest) ≡ after_eight (2 * (v / 2) + v % 2, rest) =
      rw more refl in
    ap read_symbol (code_bits-suc 7 v rest)
    ∙ first_seven (v / 2) (v % 2 ∷ rest) (omega arith)
    ∙ bit
    ∙ ap (λ n. after_eight (n, rest)) (let e : 2 * (v / 2) + v % 2 ≡ v = omega arith in e)

seven_bits :
    (v : ℕ) (rest : List ℕ) → v < 24 → read_symbol (code_bits 7 v ++ rest) ≡ some (256 + v, rest)
unfolding after_seven
seven_bits v rest h = first_seven v rest (omega arith) ∙ rw (lt→ltb v 24 h) refl

eight_bits :
    (v : ℕ) (rest : List ℕ)
    → 48 ≤ v
    → v < 192
    → read_symbol (code_bits 8 v ++ rest) ≡ some (v - 48, rest)
unfolding after_eight
eight_bits v rest lo hi = first_eight v rest lo (omega arith) ∙ rw (lt→ltb v 192 hi) refl

eight_high :
    (v : ℕ) (rest : List ℕ)
    → 192 ≤ v
    → v < 200
    → read_symbol (code_bits 8 v ++ rest) ≡ some (280 + (v - 192), rest)
unfolding after_eight
eight_high v rest lo hi =
    let over : ltb v 192 ≡ false = ground arith in
    first_eight v rest (omega arith) (omega arith) ∙ rw (over, lt→ltb v 200 hi) refl

nine_bits :
    (v : ℕ) (rest : List ℕ)
    → 400 ≤ v
    → v < 512
    → read_symbol (code_bits 9 v ++ rest) ≡ some (144 + (v - 400), rest)
unfolding after_eight
nine_bits v rest lo hi =
    let over : ltb (v / 2) 192 ≡ false = ground arith in
    let more : ltb (v / 2) 200 ≡ false = ground arith in
    let bit : after_eight (v / 2, v % 2 ∷ rest) ≡ some (144 + (2 * (v / 2) + v % 2 - 400), rest) =
      rw (over, more) refl in
    ap read_symbol (code_bits-suc 8 v rest)
    ∙ first_eight (v / 2) (v % 2 ∷ rest) (omega arith) (omega arith)
    ∙ bit
    ∙ ap (λ n. some (144 + (n - 400), rest)) (omega arith)

-- What a written symbol is: some bits that give the symbol back, whatever stands behind them.
abbrev pub SymbolWritten : ℕ → BitWriter → Type 0
SymbolWritten s w =
    (bits : List ℕ) × ((0 < length bits) × (length bits ≤ 9))
    × Writes w (put_symbol s w) bits
    × ((rest : List ℕ) → read_symbol (bits ++ rest) ≡ some (s, rest))

-- A symbol of the fixed code is read back, whatever stands behind it.
pub put_symbol-read_symbol : (s : ℕ) (w : BitWriter) → IsTidy w → s < 288 → SymbolWritten s w
unfolding put_symbol
put_symbol-read_symbol s w tidy h = elim (Bool-cases (ltb s 144)) [
  | inl a ↦
      let low = ltb→lt s 144 a in
      rw a (
        code_bits 8 (0x30 + s),
        (
          omega (arith, length-code_bits 8 (0x30 + s)),
          omega (arith, length-code_bits 8 (0x30 + s)),
        ),
        put_code-stream (0x30 + s) 8 w tidy (omega arith),
        λ rest.
            eight_bits (0x30 + s) rest (omega arith) (omega arith)
            ∙ ap (λ n. some (n, rest)) (omega arith),
      )
  | inr a ↦ elim (Bool-cases (ltb s 256)) [
    | inl b ↦
        let low = ltb→lt s 256 b in
        let high = ltb-false→le s 144 a in
        let code = 0x190 + (s - 144) in
        rw (a, b)
          (
            code_bits 9 code,
            (omega (arith, length-code_bits 9 code), omega (arith, length-code_bits 9 code)),
            put_code-stream code 9 w tidy (omega arith),
            λ rest.
                nine_bits code rest (omega arith) (omega arith)
                ∙ ap (λ n. some (n, rest)) (omega arith),
          )
    | inr b ↦ elim (Bool-cases (ltb s 280)) [
      | inl c ↦
          let low = ltb→lt s 280 c in
          let high = ltb-false→le s 256 b in
          rw (a, b, c)
            (
              code_bits 7 (s - 256),
              (
                omega (arith, length-code_bits 7 (s - 256)),
                omega (arith, length-code_bits 7 (s - 256)),
              ),
              put_code-stream (s - 256) 7 w tidy (omega arith),
              λ rest.
                  seven_bits (s - 256) rest (omega arith) ∙ ap (λ n. some (n, rest)) (omega arith),
            )
      | inr c ↦
          let high = ltb-false→le s 280 c in
          let code = 0xc0 + (s - 280) in
          rw (a, b, c)
            (
              code_bits 8 code,
              (omega (arith, length-code_bits 8 code), omega (arith, length-code_bits 8 code)),
              put_code-stream code 8 w tidy (omega arith),
              λ rest.
                  eight_high code rest (omega arith) (omega arith)
                  ∙ ap (λ n. some (n, rest)) (omega arith),
            )
    ]
  ]
]
