-- ===== src/Base/Streams.antt =====
-- Bits as lists: the fields of a number in both orders, and how a reader takes them.
use Prim.Native.Nat.{ℕ, zero, suc, ◌+◌, ◌*◌, ◌/◌, ◌%◌, ◌^◌, ◌<◌}
use mathlib.Core.Path.{◌≡◌, refl, ap, ◌∙◌}
use mathlib.Core.List.{List, [], ◌∷◌, ◌++◌, append_assoc}
use mathlib.Core.Option.{Option, none, some}
use native.Mathlib.Nat.{pow-suc}
use native.Mathlib.Omega.{arith}
use hh_cpp.Base.Lists.{length, length-append}

-- The lowest `count` bits of a number, the least significant first.
unfoldable pub low_bits : ℕ → ℕ → List ℕ
low_bits zero v = []
low_bits (suc count) v = v % 2 ∷ low_bits count (v / 2)

-- The lowest `count` bits of a number, the most significant first.
unfoldable pub code_bits : ℕ → ℕ → List ℕ
code_bits zero v = []
code_bits (suc count) v = code_bits count (v / 2) ++ (v % 2 ∷ [])

abbrev pub after {ℓ κ} : {A : Type ℓ} {B : Type κ} → Option A → (A → Option B) → Option B
after none next = none
after (some a) next = next a

-- Some bits as a number, the least significant first, and the bits behind them.
unfoldable pub read_bits : ℕ → List ℕ → Option (ℕ × List ℕ)
read_bits zero bits = some (0, bits)
read_bits (suc n) [] = none
read_bits (suc n) (b ∷ bits) = after (read_bits n bits) (λ r. some (b + 2 * r.0, r.1))

-- The same with the most significant first, below the bits `v` that are already read.
unfoldable pub read_code : ℕ → ℕ → List ℕ → Option (ℕ × List ℕ)
read_code zero v bits = some (v, bits)
read_code (suc n) v [] = none
read_code (suc n) v (b ∷ bits) = read_code n (2 * v + b) bits

pub length-low_bits : (count v : ℕ) → length (low_bits count v) ≡ count
unfolding low_bits
length-low_bits zero v = refl
length-low_bits (suc count) v = ap suc (length-low_bits count (v / 2))

pub read_bits-low_bits :
    (n v : ℕ) (rest : List ℕ) → v < 2 ^ n → read_bits n (low_bits n v ++ rest) ≡ some (v, rest)
unfolding read_bits low_bits
read_bits-low_bits zero v rest h = ap (λ n. some (n, rest)) (omega arith)
read_bits-low_bits (suc n) v rest h =
    ap (λ o. after o (λ r. some (v % 2 + 2 * r.0, r.1)))
      (read_bits-low_bits n (v / 2) rest (omega (arith, pow-suc 2 n)))
    ∙ ap (λ m. some (m, rest)) (omega arith)

-- Reading one bit more is reading a bit behind the others.
pub read_code-suc :
    (n v : ℕ) (bits : List ℕ)
    → read_code (suc n) v bits ≡ after (read_code n v bits) (λ r. read_code 1 r.0 r.1)
unfolding read_code
read_code-suc zero v bits = refl
read_code-suc (suc n) v [] = refl
read_code-suc (suc n) v (b ∷ bits) = read_code-suc n (2 * v + b) bits

pub read_code-one : (v b : ℕ) (rest : List ℕ) → read_code 1 v (b ∷ rest) ≡ some (2 * v + b, rest)
unfolding read_code
read_code-one v b rest = refl

pub read_code-zero : (rest : List ℕ) → read_code 0 0 rest ≡ some (0, rest)
unfolding read_code
read_code-zero rest = refl

pub read_code-code_bits :
    (n v : ℕ) (rest : List ℕ) → v < 2 ^ n → read_code n 0 (code_bits n v ++ rest) ≡ some (v, rest)
unfolding code_bits
read_code-code_bits zero v rest h =
    read_code-zero rest ∙ ap (λ n. some (n, rest)) (let e : 0 ≡ v = omega arith in e)
read_code-code_bits (suc n) v rest h =
    read_code-suc n 0 ((code_bits n (v / 2) ++ (v % 2 ∷ [])) ++ rest)
    ∙ ap (λ bits. after (read_code n 0 bits) (λ r. read_code 1 r.0 r.1))
        (append_assoc (code_bits n (v / 2)) (v % 2 ∷ []) rest)
    ∙ ap (λ o. after o (λ r. read_code 1 r.0 r.1))
        (read_code-code_bits n (v / 2) (v % 2 ∷ rest) (omega (arith, pow-suc 2 n)))
    ∙ read_code-one (v / 2) (v % 2) rest
    ∙ ap (λ m. some (m, rest)) (omega arith)

pub length-code_bits : (n v : ℕ) → length (code_bits n v) ≡ n
unfolding code_bits
length-code_bits zero v = refl
length-code_bits (suc n) v =
    omega (arith, length-append (code_bits n (v / 2)) (v % 2 ∷ []), length-code_bits n (v / 2))
