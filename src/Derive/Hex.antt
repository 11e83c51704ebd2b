-- ===== src/Derive/Hex.antt =====
-- The hexadecimal digits of src/derive.cpp: the chunks against the decoding of the whole string.
pub mod Denoted
use Prim.Native.Nat.add
use native.Mathlib.Nat.{add-zero}
use mathlib.Core.Option
use hh_cpp.Base.{ℕ, zero, suc, ◌+◌, ◌*◌, ◌/◌, ◌%◌, ◌<◌, ◌≡◌, ◌≢◌, refl, sym, ap, ◌∙◌, arith}
use hh_cpp.Base.{true, false, Option, none, some, List, [], ◌∷◌, ◌++◌}
use hh_cpp.Base.{Option-cases, ◌⊎◌, inl, inr, length, get_or}
use hh_cpp.Derive.{hex_value, all_digits, hex_byte, fill_chunk}

-- The bytes of an even number of hexadecimal digits.
pub hex_pairs : List ℕ → Option (List ℕ)
hex_pairs [] = some []
hex_pairs (a ∷ []) = none
hex_pairs (a ∷ b ∷ rest) = elim (hex_value a) [
  | none ↦ none
  | some hi ↦ elim (hex_value b) [
    | none ↦ none
    | some lo ↦ Option.map (λ bytes. (hi * 16 + lo) ∷ bytes) (hex_pairs rest)
  ]
]

pub hex_value-lt : (c d : ℕ) → hex_value c ≡ some d → d < 16
unfolding hex_value
hex_value-lt c d e = ground arith

get_or-shift :
    (a b : ℕ) (s : List ℕ) (n : ℕ)
    → (get_or (a ∷ b ∷ s) (2 * (n + 1)) 0 ≡ get_or s (2 * n) 0)
      × (get_or (a ∷ b ∷ s) (2 * (n + 1) + 1) 0 ≡ get_or s (2 * n + 1) 0)
get_or-shift a b s n =
    let e : 2 * (n + 1) ≡ suc (suc (2 * n)) = omega arith in
    let e' : 2 * (n + 1) + 1 ≡ suc (suc (2 * n + 1)) = omega arith in (rw e refl, rw e' refl)

fill_chunk-shift :
    (n pos a b : ℕ) (s : List ℕ) → fill_chunk n (pos + 1) (a ∷ b ∷ s) ≡ fill_chunk n pos s
unfolding fill_chunk hex_byte
fill_chunk-shift zero pos a b s = refl
fill_chunk-shift (suc n) pos a b s =
    let (hi, lo) = get_or-shift a b s pos in rw (hi, lo, fill_chunk-shift n (pos + 1) a b s) refl

all_digits-some : (c d : ℕ) (s : List ℕ) → hex_value c ≡ some d → all_digits (c ∷ s) ≡ all_digits s
unfolding all_digits
all_digits-some c d s e = rw (e, all_digits) refl

all_digits-none : (c : ℕ) (s : List ℕ) → hex_value c ≡ none → all_digits (c ∷ s) ≡ false
unfolding all_digits
all_digits-none c s e = rw (e, all_digits) refl

pub hex_pairs-some :
    (a b x y : ℕ) (s : List ℕ)
    → hex_value a ≡ some x
    → hex_value b ≡ some y
    → hex_pairs (a ∷ b ∷ s) ≡ Option.map (λ bytes. (x * 16 + y) ∷ bytes) (hex_pairs s)
unfolding hex_pairs
hex_pairs-some a b x y s ea eb = rw (ea, eb, hex_pairs) refl

pub hex_pairs-none_left : (a b : ℕ) (s : List ℕ) → hex_value a ≡ none → hex_pairs (a ∷ b ∷ s) ≡ none
unfolding hex_pairs
hex_pairs-none_left a b s e = rw (e, hex_pairs) refl

pub hex_pairs-none_right :
    (a b x : ℕ) (s : List ℕ)
    → hex_value a ≡ some x
    → hex_value b ≡ none
    → hex_pairs (a ∷ b ∷ s) ≡ none
unfolding hex_pairs
hex_pairs-none_right a b x s ea e = rw (ea, e, hex_pairs) refl

hex_byte-digits :
    (a b x y : ℕ) (s : List ℕ)
    → hex_value a ≡ some x
    → hex_value b ≡ some y
    → hex_byte (a ∷ b ∷ s) 0 ≡ x * 16 + y
unfolding hex_byte
hex_byte-digits a b x y s ea eb =
    rw (ea, eb) (omega (arith, hex_value-lt a x ea, hex_value-lt b y eb))

fill_chunk-digits :
    (n a b x y : ℕ) (s : List ℕ)
    → hex_value a ≡ some x
    → hex_value b ≡ some y
    → fill_chunk (suc n) 0 (a ∷ b ∷ s) ≡ (x * 16 + y) ∷ fill_chunk n 0 s
unfolding fill_chunk
fill_chunk-digits n a b x y s va vb =
    rw (hex_byte-digits a b x y s va vb, fill_chunk-shift n 0 a b s) refl

-- What `hex_pairs` does, by the first two characters.
data Pairs (a b : ℕ) (s : List ℕ) : Type 0 where
  bad : hex_pairs (a ∷ b ∷ s) ≡ none → all_digits (a ∷ b ∷ s) ≡ false → Pairs a b s
  good :
      (x y : ℕ)
      → hex_value a ≡ some x
      → hex_value b ≡ some y
      → all_digits (a ∷ b ∷ s) ≡ all_digits s
      → Pairs a b s

pairs : (a b : ℕ) (s : List ℕ) → Pairs a b s
pairs a b s = elim (Option-cases (hex_value a)) [
  | inl na ↦ bad (hex_pairs-none_left a b s na) (all_digits-none a (b ∷ s) na)
  | inr (x, va) ↦ elim (Option-cases (hex_value b)) [
    | inl nb ↦
        bad (hex_pairs-none_right a b x s va nb)
          (all_digits-some a x (b ∷ s) va ∙ all_digits-none b s nb)
    | inr (y, vb) ↦ good x y va vb (all_digits-some a x (b ∷ s) va ∙ all_digits-some b y s vb)
  ]
]

-- Digits in an even number are decoded to what the chunks hold.
pub hex_pairs-digits :
    (s : List ℕ)
    → all_digits s ≡ true
    → length s % 2 ≡ 0
    → hex_pairs s ≡ some (fill_chunk (length s / 2) 0 s)
hex_pairs-digits [] d e = unfold fill_chunk hex_pairs in refl
hex_pairs-digits (a ∷ []) d e = absurd (omega arith)
hex_pairs-digits (a ∷ b ∷ s) d e = go (pairs a b s) (hex_pairs-digits s)
  where
    go :
        Pairs a b s
        → (all_digits s ≡ true
            → length s % 2 ≡ 0
            → hex_pairs s ≡ some (fill_chunk (length s / 2) 0 s))
        → hex_pairs (a ∷ b ∷ s) ≡ some (fill_chunk (suc (suc (length s)) / 2) 0 (a ∷ b ∷ s))
    go (bad _ f) ih = cc
    go (good x y va vb f) ih =
        let n : suc (suc (length s)) / 2 ≡ suc (length s / 2) = omega arith in
        hex_pairs-some a b x y s va vb
        ∙ rw (ih (sym f ∙ d) (omega arith), n, fill_chunk-digits (length s / 2) a b x y s va vb)
            refl

-- A character that is no digit, or an odd number of characters, is not decoded.
pub hex_pairs-none : (s : List ℕ) → (all_digits s ≡ false) ⊎ (length s % 2 ≢ 0) → hex_pairs s ≡ none
hex_pairs-none [] (inl d) = unfold all_digits in cc
hex_pairs-none [] (inr d) = absurd (omega arith)
hex_pairs-none (a ∷ []) d = unfold hex_pairs in refl
hex_pairs-none (a ∷ b ∷ s) d = go (pairs a b s) (hex_pairs-none s) d
  where
    go :
        Pairs a b s
        → ((all_digits s ≡ false) ⊎ (length s % 2 ≢ 0) → hex_pairs s ≡ none)
        → (all_digits (a ∷ b ∷ s) ≡ false) ⊎ (suc (suc (length s)) % 2 ≢ 0)
        → hex_pairs (a ∷ b ∷ s) ≡ none
    go (bad e _) ih d = e
    go (good x y va vb f) ih (inl d) =
        hex_pairs-some a b x y s va vb ∙ rw (ih (inl (sym f ∙ d))) refl
    go (good x y va vb f) ih (inr d) =
        hex_pairs-some a b x y s va vb ∙ rw (ih (inr (omega arith))) refl

pub length-fill_chunk : (n pos : ℕ) (hex : List ℕ) → length (fill_chunk n pos hex) ≡ n
unfolding fill_chunk
length-fill_chunk zero pos hex = refl
length-fill_chunk (suc n) pos hex = ap suc (length-fill_chunk n (pos + 1) hex)

pub fill_chunk-append :
    (n m pos : ℕ) (hex : List ℕ)
    → fill_chunk n pos hex ++ fill_chunk m (pos + n) hex ≡ fill_chunk (n + m) pos hex
unfolding fill_chunk
fill_chunk-append zero m pos hex = rw (add.zero, add-zero) refl
fill_chunk-append (suc n) m pos hex =
    let e : pos + suc n ≡ pos + 1 + n = omega arith in
    rw (add.suc, e) (ap (λ r. hex_byte hex pos ∷ r) (fill_chunk-append n m (pos + 1) hex))
