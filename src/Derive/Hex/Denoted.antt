-- ===== src/Derive/Hex/Denoted.antt =====
-- The bytes that a hexadecimal string denotes, as docs/SPEC.md section 3 says it, and the digits and
-- the prefix of src/derive.cpp against it.
use mathlib.Core.Option
use hh_cpp.Base.{ℕ, suc, ◌+◌, ◌*◌, ◌<◌, ◌≤◌, ◌≡◌, refl, sym, ap, ap₂, ◌∙◌, arith}
use hh_cpp.Base.{
  Bool, true, false, ◌&&◌, ◌||◌, ltb, ltb→lt, ltb-false→le, ◌==◌, ==→eq, and_both, if◌then◌else◌,
  Bool-cases, inl, inr, Option-cases,
}
use hh_cpp.Base.{Option, none, some, List, [], ◌∷◌, take, drop, codes, All}
use hh_cpp.Base.Bits.{passes_below, passes_below_lem}
use hh_cpp.Types.{bytes_equal}
use hh_cpp.Derive.{hex_value, strip_prefix}
use hh_cpp.Derive.Hex.{hex_pairs, hex_pairs-some, hex_pairs-none_left, hex_pairs-none_right}

-- The position of a character in a text.
position : ℕ → List ℕ → ℕ → Option ℕ
position c [] n = none
position c (x ∷ xs) n = let rest = position c xs (suc n) in if c == x then some n else rest

lower : List ℕ
lower = codes "0123456789abcdef"

upper : List ℕ
upper = codes "0123456789ABCDEF"

first_of : Option ℕ → Option ℕ → Option ℕ
first_of none second = second
first_of (some v) second = some v

-- The value of a character, of either case.
digit_value : ℕ → Option ℕ
digit_value c = first_of (position c lower 0) (position c upper 0)

-- The bytes of pairs of characters, the most significant digit first.
octets : Option ℕ → Option ℕ → Option (List ℕ) → Option (List ℕ)
octets (some hi) (some lo) rest = Option.map (λ bytes. (hi * 16 + lo) ∷ bytes) rest
octets _ _ rest = none

pub denoted : List ℕ → Option (List ℕ)
denoted [] = some []
denoted (a ∷ []) = none
denoted (a ∷ b ∷ rest) = octets (digit_value a) (digit_value b) (denoted rest)

-- An optional 0x or 0X is left out.
pub without_prefix : List ℕ → List ℕ
unfolding bytes_equal take drop
without_prefix input =
    if bytes_equal (take 2 input) (codes "0x") || bytes_equal (take 2 input) (codes "0X")
    then drop 2 input
    else input

same_value : Option ℕ → Option ℕ → Bool
same_value none none = true
same_value (some a) (some b) = a == b
same_value _ _ = false

same_value→eq : (o p : Option ℕ) → same_value o p ≡ true → o ≡ p
unfolding same_value
same_value→eq none none e = refl
same_value→eq none (some b) e = absurd cc
same_value→eq (some a) none e = absurd cc
same_value→eq (some a) (some b) e = ap some (==→eq a b e)

ascii_table : passes_below (λ c. same_value (hex_value c) (digit_value c)) 128 ≡ true
unfolding passes_below same_value digit_value position first_of lower upper hex_value
ascii_table = refl

position-none :
    (c : ℕ) (xs : List ℕ) (n : ℕ) → 128 ≤ c → All (λ x. x < 128) xs → position c xs n ≡ none
unfolding position
position-none c [] n h all = refl
position-none c (x ∷ xs) n h (small, all) =
    let other : (c == x) ≡ false = ground arith in rw other (position-none c xs (suc n) h all)

all_ascii : List ℕ → Bool
all_ascii [] = true
all_ascii (x ∷ xs) = ltb x 128 && all_ascii xs

all_ascii→All : (xs : List ℕ) → all_ascii xs ≡ true → All (λ x. x < 128) xs
unfolding all_ascii
all_ascii→All [] e = tt
all_ascii→All (x ∷ xs) e =
    let (here, rest) = and_both (ltb x 128) (all_ascii xs) e in
    (ltb→lt x 128 here, all_ascii→All xs rest)

outside_ascii : (c : ℕ) → 128 ≤ c → hex_value c ≡ none
unfolding hex_value
outside_ascii c h = ground arith

digit_outside : (c : ℕ) → 128 ≤ c → digit_value c ≡ none
unfolding digit_value first_of all_ascii lower upper
digit_outside c h =
    ap₂ first_of (position-none c lower 0 h (all_ascii→All lower refl))
      (position-none c upper 0 h (all_ascii→All upper refl))

hex_value-digit_value : (c : ℕ) → hex_value c ≡ digit_value c
hex_value-digit_value c = elim (Bool-cases (ltb c 128)) [
  | inl e ↦
      same_value→eq (hex_value c) (digit_value c)
        (passes_below_lem _ 128 c (ltb→lt c 128 e) ascii_table)
  | inr e ↦ let far = ltb-false→le c 128 e in outside_ascii c far ∙ sym (digit_outside c far)
]

hex_pairs-octets :
    (a b : ℕ) (rest : List ℕ)
    → hex_pairs (a ∷ b ∷ rest) ≡ octets (hex_value a) (hex_value b) (hex_pairs rest)
unfolding octets
hex_pairs-octets a b rest = elim (Option-cases (hex_value a)) [
  | inl na ↦ rw (hex_pairs-none_left a b rest na, na) refl
  | inr (x, va) ↦ elim (Option-cases (hex_value b)) [
    | inl nb ↦ rw (hex_pairs-none_right a b x rest va nb, va, nb) refl
    | inr (y, vb) ↦ rw (hex_pairs-some a b x y rest va vb, va, vb) refl
  ]
]

pub hex_pairs-denoted : (hex : List ℕ) → hex_pairs hex ≡ denoted hex
unfolding denoted
hex_pairs-denoted [] = unfold hex_pairs in refl
hex_pairs-denoted (a ∷ []) = unfold hex_pairs in refl
hex_pairs-denoted (a ∷ b ∷ rest) =
    hex_pairs-octets a b rest
    ∙ ap₂ (λ hi lo. octets hi lo (hex_pairs rest)) (hex_value-digit_value a)
        (hex_value-digit_value b)
    ∙ ap (octets (digit_value a) (digit_value b)) (hex_pairs-denoted rest)

prefix_cases :
    (z x u : Bool) (rest all : List ℕ)
    → (if z && (x || u) then rest else all)
      ≡ (if (z && (x && true)) || (z && (u && true)) then rest else all)
prefix_cases false x u rest all = refl
prefix_cases true false false rest all = refl
prefix_cases true false true rest all = refl
prefix_cases true true u rest all = refl

pub strip_prefix-without_prefix : (input : List ℕ) → strip_prefix input ≡ without_prefix input
unfolding strip_prefix without_prefix
strip_prefix-without_prefix [] = refl
strip_prefix-without_prefix (a ∷ []) = elim (Bool-cases (a == b'0')) [
  | inl e ↦ rw e refl
  | inr e ↦ rw e refl
]
strip_prefix-without_prefix (a ∷ b ∷ rest) =
    prefix_cases (a == b'0') (b == b'x') (b == b'X') rest (a ∷ b ∷ rest)
