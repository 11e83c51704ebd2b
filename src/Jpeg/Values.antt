-- ===== src/Jpeg/Values.antt =====
-- Values and their categories: category and put_value of src/jpeg.cpp, read by the rules of T.81.
use hh_cpp.Base.{ℕ, zero, suc, ◌+◌, ◌-◌, ◌*◌, ◌^◌, ◌≤◌, ◌<◌, ◌≡◌, refl, sym, subst, ap, ◌∙◌, arith}
use hh_cpp.Base.{
  ◌⊎◌, inl, inr, true, false, ltb, lt→ltb, leb, ◌==◌, ==→eq, ==-false→ne, if◌then◌else◌,
}
use hh_cpp.Base.{Bool-cases, suc-==-zero, Option, some, List, [], ◌++◌, append-nil, ◌>>>◌}
use hh_cpp.Base.Int.{ℤ, pos, negsuc, ◌-ℤ◌, difference, plus_part, minus_part}
use native.Mathlib.Nat.{pow-suc}
use hh_cpp.Base.Streams.{code_bits, after, read_code, read_code-code_bits}
use hh_cpp.Jpeg.Scan.{ScanWriter, put, category_loop, category, word_of, encoded_value, put_value}
use hh_cpp.Jpeg.Stream.{code_bits-lower}
use hh_cpp.Jpeg.Written.{Wrote, put-Wrote}

-- The absolute value.
abbrev pub size_of_value : ℤ → ℕ
size_of_value v = plus_part v + minus_part v

-- Section F.2.2.1: EXTEND.
unfoldable pub extend : ℕ → ℕ → ℤ
extend v t = if ltb v (2 ^ (t - 1)) then difference (v + 1) (2 ^ t) else pos v

-- RECEIVE and EXTEND; a category of 0 has no bits.
unfoldable pub read_value : ℕ → List ℕ → Option (ℤ × List ℕ)
read_value t bits =
    if t == 0
    then some (pos 0, bits)
    else after (read_code t 0 bits) (λ r. some (extend r.0 t, r.1))

-- The loop counts the bits of a number.
category_loop_lem :
    (fuel a n : ℕ)
    → a < 2 ^ fuel
    → (k : ℕ) × (category_loop fuel a n ≡ n + k) × (a < 2 ^ k) × ((k ≡ 0) ⊎ (2 ^ k ≤ 2 * a))
unfolding category_loop
category_loop_lem zero a n h = (0, omega arith, h, inl refl)
category_loop_lem (suc fuel) a n h = elim (Bool-cases (a == 0)) [
  | inl e ↦ rw e (0, omega arith, omega (arith, ==→eq a 0 e), inl refl)
  | inr e ↦
      let some_ = ==-false→ne a 0 e in
      let (k, count, small, large) =
        category_loop_lem fuel (a >>> 1) (suc n) (omega (arith, pow-suc 2 fuel)) in
      rw e (
        suc k,
        count ∙ omega arith,
        omega (arith, small, pow-suc 2 k),
        inr (elim large [
          | inl z ↦ omega (arith, pow-suc 2 k, ap (λ m. 2 ^ m) z, some_)
          | inr l ↦ omega (arith, pow-suc 2 k, l)
        ]),
      )
]

-- The category of a value: the number of bits of its absolute value.
abbrev pub IsCategory : ℤ → ℕ → Type 0
IsCategory v t = (size_of_value v < 2 ^ t) × ((t ≡ 0) ⊎ (2 ^ t ≤ 2 * size_of_value v))

IsCategory-category_loop :
    (v : ℤ) → size_of_value v < 2 ^ 32 → IsCategory v (category_loop 32 (size_of_value v) 0)
IsCategory-category_loop v h =
    let (k, count, small, large) = category_loop_lem 32 (size_of_value v) 0 h in
    subst (IsCategory v)
      (let e : k ≡ category_loop 32 (size_of_value v) 0 = omega (arith, count) in e) (small, large)

category_size : (v : ℤ) → category_loop 32 (size_of_value v) 0 ≡ category v
unfolding category
category_size (pos v) = ap (λ a. category_loop 32 a 0) (let e : v + 0 ≡ v = omega arith in e)
category_size (negsuc v) =
    ap (λ a. category_loop 32 a 0) (let e : 0 + suc v ≡ suc v = omega arith in e)

pub category-IsCategory : (v : ℤ) → size_of_value v < 2 ^ 32 → IsCategory v (category v)
category-IsCategory v h = subst (IsCategory v) (category_size v) (IsCategory-category_loop v h)

-- The bits of a value in its category, as a number, and what EXTEND makes of it.
abbrev ValueCode : ℤ → ℕ → Type 0
ValueCode v t =
    (m : ℕ) × (m < 2 ^ t)
    × (code_bits t (word_of (encoded_value v t)) ≡ code_bits t m)
    × (extend m t ≡ v)

difference-pos : (a b k : ℕ) → a ≡ b + k → difference a b ≡ pos k
difference-pos a b k e =
    rw (let t : leb b a ≡ true = ground arith in t)
      (ap pos (let same : a - b ≡ k = omega arith in same))

difference-negsuc : (a b k : ℕ) → b ≡ a + suc k → difference a b ≡ negsuc k
difference-negsuc a b k e =
    rw (let f : leb b a ≡ false = ground arith in f)
      (ap negsuc (let same : b - a - 1 ≡ k = omega arith in same))

-- The number that stands for a negative value.
negative_word : (v t : ℕ) → suc v < 2 ^ t → encoded_value (negsuc v) t ≡ pos (2 ^ t - 2 - v)
unfolding encoded_value
negative_word v t h =
    ap (λ x. x -ℤ pos 1)
      (difference-pos (plus_part (negsuc v) + 2 ^ t) (minus_part (negsuc v) + 0) (2 ^ t - suc v)
        (omega arith))
    ∙ difference-pos (2 ^ t - suc v + 0) (0 + 1) (2 ^ t - 2 - v) (omega arith)

extend-upper : (m t : ℕ) → 2 ^ t ≤ m → extend m (suc t) ≡ pos m
unfolding extend
extend-upper m t h =
    let half : 2 ^ t ≡ 2 ^ (suc t - 1) =
      ap (λ n. 2 ^ n) (let s : t ≡ suc t - 1 = omega arith in s) in
    let over : 2 ^ (suc t - 1) ≤ m = omega (arith, half, h) in
    rw (let f : ltb m (2 ^ (suc t - 1)) ≡ false = ground arith in f) refl

extend-lower : (m v t : ℕ) → m < 2 ^ t → m + suc (suc v) ≡ 2 ^ suc t → extend m (suc t) ≡ negsuc v
unfolding extend
extend-lower m v t h e =
    let half : 2 ^ t ≡ 2 ^ (suc t - 1) =
      ap (λ n. 2 ^ n) (let s : t ≡ suc t - 1 = omega arith in s) in
    rw (lt→ltb m (2 ^ (suc t - 1)) (omega (arith, half, h)))
      (difference-negsuc (m + 1) (2 ^ suc t) v (omega (arith, e)))

value_code : (v : ℤ) (t : ℕ) → IsCategory v (suc t) → suc t ≤ 32 → ValueCode v (suc t)
value_code v t (small, inl z) few = absurd (omega arith)
value_code (pos v) t (small, inr large) few = (
  v,
  omega arith,
  unfold encoded_value in code_bits-lower (suc t) 32 v few,
  extend-upper v t (omega (arith, pow-suc 2 t)),
)
value_code (negsuc v) t (small, inr large) few =
    let m = 2 ^ suc t - 2 - v in
    (
      m,
      omega arith,
      ap (λ x. code_bits (suc t) (word_of x)) (negative_word v (suc t) (omega arith))
          ∙ code_bits-lower (suc t) 32 m few,
      extend-lower m v t (omega (arith, pow-suc 2 t)) (omega arith),
    )

-- Nothing is written for a value of no bits, which is 0.
put_value-none : (v : ℤ) (w : ScanWriter) → put_value v 0 w ≡ w
unfolding put_value
put_value-none v w = refl

put_value-some :
    (v : ℤ) (t : ℕ) (w : ScanWriter)
    → put_value v (suc t) w ≡ put (word_of (encoded_value v (suc t))) (suc t) w
unfolding put_value
put_value-some v t w = rw (suc-==-zero t) refl

read_value-some :
    (t : ℕ) (bits : List ℕ)
    → read_value (suc t) bits
      ≡ after (read_code (suc t) 0 bits) (λ r. some (extend r.0 (suc t), r.1))
unfolding read_value
read_value-some t bits = rw (suc-==-zero t) refl

no_value : (v : ℤ) → size_of_value v < 2 ^ 0 → pos 0 ≡ v
no_value (pos v) h = ap pos (let e : 0 ≡ v = omega arith in e)
no_value (negsuc v) h = absurd (omega arith)

read_value-none : (bits : List ℕ) → read_value 0 bits ≡ some (pos 0, bits)
unfolding read_value
read_value-none bits = refl

-- A value is written so that it is read back, and nothing behind it is read.
abbrev pub ValueBits : ℤ → ℕ → List ℕ → Type 0
ValueBits v t bits = (more : List ℕ) → read_value t (bits ++ more) ≡ some (v, more)

pub put_value-Wrote :
    (v : ℤ) (t : ℕ) (before s : List ℕ) (w : ScanWriter)
    → IsCategory v t
    → t ≤ 16
    → Wrote before w s
    → (bits : List ℕ) × Wrote before (put_value v t w) (s ++ bits) × ValueBits v t bits
put_value-Wrote v zero before s w h few wrote = (
  [],
  subst (λ x. Wrote before x (s ++ [])) (sym (put_value-none v w))
      (subst (Wrote before w) (sym (append-nil s)) wrote),
  λ more. read_value-none more ∙ ap (λ x. some (x, more)) (no_value v h.0),
)
put_value-Wrote v (suc t) before s w h few wrote =
    let (m, small, same, back) = value_code v t h (omega arith) in
    let word = word_of (encoded_value v (suc t)) in
    let put_word : Wrote before (put word (suc t) w) (s ++ code_bits (suc t) m) =
      subst (λ bits. Wrote before (put word (suc t) w) (s ++ bits)) same
        (put-Wrote word (suc t) before s w few wrote) in
    let written : Wrote before (put_value v (suc t) w) (s ++ code_bits (suc t) m) =
      subst (λ x. Wrote before x (s ++ code_bits (suc t) m)) (sym (put_value-some v t w))
        put_word in
    let read : ValueBits v (suc t) (code_bits (suc t) m) = (λ more.
      read_value-some t (code_bits (suc t) m ++ more)
      ∙ ap (λ o. after o (λ r. some (extend r.0 (suc t), r.1)))
          (read_code-code_bits (suc t) m more small)
      ∙ ap (λ x. some (x, more)) back) in
    (code_bits (suc t) m, written, read)
