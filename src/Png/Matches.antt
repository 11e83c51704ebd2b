-- ===== src/Png/Matches.antt =====
-- The search for matches of deflate_fixed of src/png.cpp, and what copying one gives.
use hh_cpp.Base.{ℕ, zero, suc, ◌+◌, ◌-◌, ◌≤◌, ◌<◌, ◌≡◌, refl, sym, ap, ◌∙◌, ◌⊎◌, inl, inr, arith}
use hh_cpp.Base.{true, false, ltb, ltb-false→le, leb, ◌==◌, ==→eq, Bool-cases}
use hh_cpp.Base.{if◌then◌else◌, List, [], ◌∷◌, ◌++◌, length, get_or, take, All, length-take, some}
use hh_cpp.Png.{match_length, Match, find_match}
use hh_cpp.Png.Inflate.{copied, copy}

-- `n` bytes from `i` on are those that stand `d` before them.
abbrev pub Repeats : List ℕ → ℕ → ℕ → ℕ → Type 0
Repeats raw i d n = (k : ℕ) → k < n → get_or raw (i + k) 0 ≡ get_or raw (i - d + k) 0

match_length_lem :
    (raw : List ℕ) (i d left len : ℕ)
    → Repeats raw i d len
    → (match_length raw i d left len ≤ len + left) × Repeats raw i d (match_length raw i d left len)
unfolding match_length
match_length_lem raw i d zero len same = (omega arith, same)
match_length_lem raw i d (suc left) len same =
    elim (Bool-cases (get_or raw (i + len) 0 == get_or raw (i - d + len) 0)) [
      | inr e ↦ rw e (omega arith, same)
      | inl e ↦
          let longer : Repeats raw i d (suc len) = λ k h. elim (last k len h) [
            | inl below ↦ same k below
            | inr top ↦ rw top (==→eq _ _ e)
          ] in
          let r = match_length_lem raw i d left (suc len) longer in rw e (omega (arith, r.0), r.1)
    ]
  where
    last : (k len : ℕ) → k < suc len → (k < len) ⊎ (k ≡ len)
    last k len h = omega arith

-- What the search gives: nothing, or a match that is not longer than the limit, at a distance
-- that is in the window and not before the first byte.
abbrev pub IsMatch : List ℕ → ℕ → ℕ → Match → Type 0
IsMatch raw i limit m =
    (m.best ≡ 0)
    ⊎ ((m.best ≤ limit)
        × (1 ≤ m.dist)
        × (m.dist ≤ i)
        × (m.dist ≤ 32768)
        × Repeats raw i m.dist m.best)

abbrev pub InWindow : ℕ → Type 0
InWindow d = (1 ≤ d) × (d ≤ 32768)

pub find_match-IsMatch :
    (raw : List ℕ) (i limit : ℕ) (distances : List ℕ) (m : Match)
    → All InWindow distances
    → IsMatch raw i limit m
    → IsMatch raw i limit (find_match raw i limit distances m)
unfolding find_match
find_match-IsMatch raw i limit [] m all found = found
find_match-IsMatch raw i limit (d ∷ rest) m (window, all) found =
    find_match-IsMatch raw i limit rest _ all
      (better (Bool-cases (ltb i d)) (Bool-cases (ltb m.best (match_length raw i d limit 0))))
  where
    len : ℕ
    len = match_length raw i d limit 0

    better :
        (ltb i d ≡ true) ⊎ (ltb i d ≡ false)
        → (ltb m.best len ≡ true) ⊎ (ltb m.best len ≡ false)
        → IsMatch raw i limit
            (if ltb i d then m else if ltb m.best len then record { best = len; dist = d } else m)
    better (inl before) longer = rw before found
    better (inr inside) (inr shorter) = rw (inside, shorter) found
    better (inr inside) (inl longer) =
        let r = match_length_lem raw i d limit 0 (λ k h. absurd (omega arith)) in
        rw (inside, longer)
          (inr (omega (arith, r.0), window.0, ltb-false→le i d inside, window.1, r.1))

-- Lists of bytes up to a position.
pub take-suc :
    (raw : List ℕ) (i : ℕ) → i < length raw → take i raw ++ (get_or raw i 0 ∷ []) ≡ take (suc i) raw
unfolding take
take-suc [] i h = absurd (omega arith)
take-suc (x ∷ raw) zero h = refl
take-suc (x ∷ raw) (suc i) h = ap (λ r. x ∷ r) (take-suc raw i (omega arith))

get_or-take : (raw : List ℕ) (n i : ℕ) → i < n → get_or (take n raw) i 0 ≡ get_or raw i 0
unfolding take
get_or-take raw zero i h = absurd (omega arith)
get_or-take [] (suc n) i h = refl
get_or-take (x ∷ raw) (suc n) zero h = refl
get_or-take (x ∷ raw) (suc n) (suc i) h = get_or-take raw n i (omega arith)

-- Copying a match that repeats gives the next bytes.
copied-take :
    (raw : List ℕ) (i d n : ℕ)
    → 1 ≤ d
    → d ≤ i
    → i + n ≤ length raw
    → Repeats raw i d n
    → copied n d (take i raw) ≡ take (i + n) raw
unfolding copied
copied-take raw i d zero lo hi le same = ap (λ j. take j raw) (omega arith)
copied-take raw i d (suc n) lo hi le same =
    let size : length (take i raw) ≡ i = length-take i raw (omega arith) in
    let byte : get_or (take i raw) (length (take i raw) - d) 0 ≡ get_or raw i 0 =
      ap (λ j. get_or (take i raw) (j - d) 0) size
      ∙ get_or-take raw i (i - d) (omega arith)
      ∙ ap (λ j. get_or raw j 0) (let e : i - d ≡ i - d + 0 = omega arith in e)
      ∙ sym (same 0 (omega arith))
      ∙ ap (λ j. get_or raw j 0) (let e : i + 0 ≡ i = omega arith in e) in
    let next : Repeats raw (suc i) d n = λ k h.
      ap (λ j. get_or raw j 0) (let e : suc i + k ≡ i + suc k = omega arith in e)
      ∙ same (suc k) (omega arith)
      ∙ ap (λ j. get_or raw j 0) (let e : i - d + suc k ≡ suc i - d + k = omega arith in e) in
    ap (λ b. copied n d (take i raw ++ (b ∷ []))) byte
    ∙ ap (copied n d) (take-suc raw i (omega arith))
    ∙ copied-take raw (suc i) d n lo (omega arith) (omega arith) next
    ∙ ap (λ j. take j raw) (let e : suc i + n ≡ i + suc n = omega arith in e)

pub copy-take :
    (raw : List ℕ) (i d n : ℕ)
    → 1 ≤ d
    → d ≤ i
    → i + n ≤ length raw
    → Repeats raw i d n
    → copy n d (take i raw) ≡ some (take (i + n) raw)
unfolding copy
copy-take raw i d n lo hi le same =
    let size : length (take i raw) ≡ i = length-take i raw (omega arith) in
    let first : leb 1 d ≡ true = ground arith in
    let second : leb d (length (take i raw)) ≡ true = ground (arith, size) in
    rw (first, second) (ap some (copied-take raw i d n lo hi le same))
