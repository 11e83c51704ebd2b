-- ===== src/Base/Lists.antt =====
-- Lists over the native numbers: arrays read by index, buffers cut and pasted by length.
use Prim.Native.Nat.{ℕ, zero, suc, ◌+◌, ◌-◌, ◌≤◌, ◌<◌, min}
use mathlib.Core.Path.{◌≡◌, refl, ap, sym, ◌∙◌}
use Prim.Native.Nat.add
use native.Mathlib.Nat.{sub-zero}
use native.Mathlib.Decide.{dec_le}
use mathlib.Core.List.{List, [], ◌∷◌, ◌++◌, append_assoc, append-nil}
use mathlib.Core.Option.{Option, none, some}
use mathlib.Core.Option
use native.Mathlib.Omega.{arith}

module _ {ℓ} {A : Type ℓ} where
  abbrev pub length : List A → ℕ
  length [] = 0
  length (x ∷ xs) = suc (length xs)

  abbrev pub get_elem? : List A → ℕ → Option A
  get_elem? [] i = none
  get_elem? (x ∷ xs) zero = some x
  get_elem? (x ∷ xs) (suc i) = get_elem? xs i

  abbrev pub get_or : List A → ℕ → A → A
  get_or xs i d = Option.get_or (get_elem? xs i) d

  abbrev pub set : List A → ℕ → A → List A
  set [] i v = []
  set (x ∷ xs) zero v = v ∷ xs
  set (x ∷ xs) (suc i) v = x ∷ set xs i v

  unfoldable pub take : ℕ → List A → List A
  take zero xs = []
  take (suc n) [] = []
  take (suc n) (x ∷ xs) = x ∷ take n xs

  unfoldable pub drop : ℕ → List A → List A
  drop zero xs = xs
  drop (suc n) [] = []
  drop (suc n) (x ∷ xs) = drop n xs

  unfoldable pub replicate : ℕ → A → List A
  replicate zero x = []
  replicate (suc n) x = x ∷ replicate n x

  -- `std::memcpy(dst + at, src, size of src)`.
  unfoldable pub write_at : List A → ℕ → List A → List A
  write_at dst at src = take at dst ++ (src ++ drop (at + length src) dst)

  abbrev pub All {κ} : (A → Type κ) → List A → Type κ
  All P [] = Unit {κ}
  All P (x ∷ xs) = P x × All P xs

  pub All-append {κ} : (P : A → Type κ) (xs ys : List A) → All P xs → All P ys → All P (xs ++ ys)
  All-append P [] ys hx hy = hy
  All-append P (x ∷ xs) ys (h, hx) hy = (h, All-append P xs ys hx hy)

  pub length-append : (xs ys : List A) → length (xs ++ ys) ≡ length xs + length ys
  length-append [] ys = omega arith
  length-append (x ∷ xs) ys = omega (arith, length-append xs ys)

  pub length-replicate : (n : ℕ) (x : A) → length (replicate n x) ≡ n
  unfolding replicate
  length-replicate zero x = refl
  length-replicate (suc n) x = ap suc (length-replicate n x)

  pub length-take : (n : ℕ) (xs : List A) → n ≤ length xs → length (take n xs) ≡ n
  unfolding take
  length-take zero xs h = refl
  length-take (suc n) [] h = absurd (omega arith)
  length-take (suc n) (x ∷ xs) h = ap suc (length-take n xs (omega arith))

  pub length-drop : (n : ℕ) (xs : List A) → length (drop n xs) ≡ length xs - n
  unfolding drop
  length-drop zero xs = omega arith
  length-drop (suc n) [] = omega arith
  length-drop (suc n) (x ∷ xs) = omega (arith, length-drop n xs)

  pub take-append-drop : (n : ℕ) (xs : List A) → take n xs ++ drop n xs ≡ xs
  unfolding take drop
  take-append-drop zero xs = refl
  take-append-drop (suc n) [] = refl
  take-append-drop (suc n) (x ∷ xs) = ap (λ r. x ∷ r) (take-append-drop n xs)

  pub take-append : (xs ys : List A) → take (length xs) (xs ++ ys) ≡ xs
  unfolding take
  take-append [] ys = refl
  take-append (x ∷ xs) ys = ap (λ r. x ∷ r) (take-append xs ys)

  pub drop-append : (xs ys : List A) → drop (length xs) (xs ++ ys) ≡ ys
  unfolding drop
  drop-append [] ys = refl
  drop-append (x ∷ xs) ys = drop-append xs ys

  pub take-append_eq : (n : ℕ) (xs ys : List A) → length xs ≡ n → take n (xs ++ ys) ≡ xs
  take-append_eq n xs ys e = rw (← e) (take-append xs ys)

  pub drop-append_eq : (n : ℕ) (xs ys : List A) → length xs ≡ n → drop n (xs ++ ys) ≡ ys
  drop-append_eq n xs ys e = rw (← e) (drop-append xs ys)

  pub take-all : (n : ℕ) (xs : List A) → length xs ≤ n → take n xs ≡ xs
  unfolding take
  take-all zero [] h = refl
  take-all zero (x ∷ xs) h = absurd (omega arith)
  take-all (suc n) [] h = refl
  take-all (suc n) (x ∷ xs) h = ap (λ r. x ∷ r) (take-all n xs (omega arith))

  pub drop-all : (n : ℕ) (xs : List A) → length xs ≤ n → drop n xs ≡ []
  unfolding drop
  drop-all zero [] h = refl
  drop-all zero (x ∷ xs) h = absurd (omega arith)
  drop-all (suc n) [] h = refl
  drop-all (suc n) (x ∷ xs) h = drop-all n xs (omega arith)

  pub take-nil : (n : ℕ) → take n [] ≡ []
  take-nil n = take-all n [] (omega arith)

  pub drop-nil : (n : ℕ) → drop n [] ≡ []
  drop-nil n = drop-all n [] (omega arith)

  pub take-append_le : (n : ℕ) (xs ys : List A) → n ≤ length xs → take n (xs ++ ys) ≡ take n xs
  unfolding take
  take-append_le zero xs ys h = refl
  take-append_le (suc n) [] ys h = absurd (omega arith)
  take-append_le (suc n) (x ∷ xs) ys h = ap (λ r. x ∷ r) (take-append_le n xs ys (omega arith))

  pub drop-append_le :
      (n : ℕ) (xs ys : List A) → n ≤ length xs → drop n (xs ++ ys) ≡ drop n xs ++ ys
  unfolding drop
  drop-append_le zero xs ys h = refl
  drop-append_le (suc n) [] ys h = absurd (omega arith)
  drop-append_le (suc n) (x ∷ xs) ys h = drop-append_le n xs ys (omega arith)

  pub drop-drop : (n m : ℕ) (xs : List A) → drop m (drop n xs) ≡ drop (n + m) xs
  unfolding drop
  drop-drop zero m xs = rw add.zero
  drop-drop (suc n) m [] = drop-nil m ∙ sym (drop-nil (suc n + m))
  drop-drop (suc n) m (x ∷ xs) = rw add.suc (drop-drop n m xs)

  pub take-take-append : (n m : ℕ) (xs : List A) → take n xs ++ take m (drop n xs) ≡ take (n + m) xs
  unfolding take drop
  take-take-append zero m xs = rw add.zero
  take-take-append (suc n) m [] = take-nil m ∙ sym (take-nil (suc n + m))
  take-take-append (suc n) m (x ∷ xs) = rw add.suc (ap (λ r. x ∷ r) (take-take-append n m xs))

  pub length-write_at :
      (dst : List A) (at : ℕ) (src : List A)
      → at + length src ≤ length dst
      → length (write_at dst at src) ≡ length dst
  unfolding write_at
  length-write_at dst at src h = omega (
    arith,
    length-append (take at dst) (src ++ drop (at + length src) dst),
    length-append src (drop (at + length src) dst),
    length-take at dst (omega arith),
    length-drop (at + length src) dst,
  )

  pub take-write_at :
      (dst : List A) (at n : ℕ) (src : List A)
      → length src ≡ n
      → at ≤ length dst
      → take (at + n) (write_at dst at src) ≡ take at dst ++ src
  unfolding write_at
  take-write_at dst at n src e h =
      rw (← append_assoc (take at dst) src (drop (at + length src) dst)) (
        take-append_eq _ (take at dst ++ src) _
          (omega (arith, length-append (take at dst) src, length-take at dst h)))

  pub take-zero : (xs : List A) → take 0 xs ≡ []
  unfolding take
  take-zero xs = refl

  -- A write at the front of the buffer.
  pub take-write_at_front : (dst src : List A) → take (length src) (write_at dst 0 src) ≡ src
  take-write_at_front dst src = unfold write_at take in take-append src (drop (0 + length src) dst)

  pub length-zero : (xs : List A) → length xs ≡ 0 → xs ≡ []
  length-zero [] h = refl
  length-zero (x ∷ xs) h = absurd (omega arith)

  pub length-set : (xs : List A) (i : ℕ) (v : A) → length (set xs i v) ≡ length xs
  length-set [] i v = refl
  length-set (x ∷ xs) zero v = refl
  length-set (x ∷ xs) (suc i) v = ap suc (length-set xs i v)

  pub set-append :
      (p q : List A) (i j : ℕ) (v : A) → i ≡ length p + j → set (p ++ q) i v ≡ p ++ set q j v
  set-append [] q i j v e = ap (λ n. set q n v) (e ∙ add.zero j)
  set-append (x ∷ p) q zero j v e = absurd (omega arith)
  set-append (x ∷ p) q (suc i) j v e = ap (λ r. x ∷ r) (set-append p q i j v (omega arith))

  pub take-set :
      (xs : List A) (i : ℕ) (v : A)
      → i < length xs
      → take (i + 1) (set xs i v) ≡ take i xs ++ (v ∷ [])
  unfolding take
  take-set [] i v h = absurd (omega arith)
  take-set (x ∷ xs) zero v h = refl
  take-set (x ∷ xs) (suc i) v h = rw add.suc (ap (λ r. x ∷ r) (take-set xs i v (omega arith)))

  -- A write up to the end of the buffer.
  pub write_at_end :
      (dst : List A) (at : ℕ) (src : List A)
      → at + length src ≡ length dst
      → write_at dst at src ≡ take at dst ++ src
  unfolding write_at
  write_at_end dst at src e = rw (drop-all (at + length src) dst (omega arith), append-nil)

  pub replicate-append : (n m : ℕ) (x : A) → replicate n x ++ replicate m x ≡ replicate (n + m) x
  unfolding replicate
  replicate-append zero m x = rw add.zero
  replicate-append (suc n) m x = rw add.suc (ap (λ r. x ∷ r) (replicate-append n m x))

  pub drop-replicate : (n k : ℕ) (x : A) → drop k (replicate n x) ≡ replicate (n - k) x
  unfolding drop replicate
  drop-replicate n zero x = rw sub-zero
  drop-replicate zero (suc k) x = ap (λ j. replicate j x) (let e : 0 ≡ 0 - suc k = omega arith in e)
  drop-replicate (suc n) (suc k) x =
      drop-replicate n k x
      ∙ ap (λ j. replicate j x) (let e : n - k ≡ suc n - suc k = omega arith in e)

  -- A write at the front of a constant buffer.
  pub write_at-replicate :
      (n : ℕ) (x : A) (src : List A)
      → write_at (replicate n x) 0 src ≡ src ++ replicate (n - length src) x
  unfolding write_at take
  write_at-replicate n x src = rw (add.zero, drop-replicate n (length src) x)

  pub write_at_over : (u r v : List A) → length v ≡ length u → write_at (u ++ r) 0 v ≡ v ++ r
  unfolding write_at take
  write_at_over u r v e = rw (add.zero, drop-append_eq (length v) u r (sym e))

  take-append_long :
      (m n : ℕ) (xs ys : List A) → length xs ≡ n → n ≤ m → take m (xs ++ ys) ≡ xs ++ take (m - n) ys
  take-append_long m n xs ys e h =
      ap (λ k. take k (xs ++ ys)) (let q : m ≡ n + (m - n) = omega arith in q)
      ∙ sym (take-take-append n (m - n) (xs ++ ys))
      ∙ rw (take-append_eq n xs ys e, drop-append_eq n xs ys e) refl

  pub take-append_min :
      (m n : ℕ) (xs ys : List A)
      → length xs ≡ n
      → take m (xs ++ ys) ≡ take (min n m) xs ++ take (m - n) ys
  take-append_min m n xs ys e = elim (dec_le n m) [
    | yes h ↦
        let q : min n m ≡ n = omega arith in
        rw (q, take-all n xs (omega arith)) (take-append_long m n xs ys e h)
    | no h ↦
        let q : min n m ≡ m = omega arith in
        let z : m - n ≡ 0 = omega arith in
        rw (q, z, take-zero, append-nil) (take-append_le m xs ys (omega arith))
  ]

  pub take-take : (n : ℕ) (xs : List A) → take n (take n xs) ≡ take n xs
  unfolding take
  take-take zero xs = refl
  take-take (suc n) [] = refl
  take-take (suc n) (x ∷ xs) = ap (λ r. x ∷ r) (take-take n xs)

  pub length-take-le : (n : ℕ) (xs : List A) → length (take n xs) ≤ n
  unfolding take
  length-take-le zero xs = omega arith
  length-take-le (suc n) [] = omega arith
  length-take-le (suc n) (x ∷ xs) = omega (arith, length-take-le n xs)
