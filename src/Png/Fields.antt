-- ===== src/Png/Fields.antt =====
-- Every match of put_match of src/png.cpp is read back: the tables of lengths and distances.
use hh_cpp.Base.Streams.{code_bits, low_bits, read_bits-low_bits, read_code-code_bits}
use hh_cpp.Base.{ℕ, zero, suc, ◌+◌, ◌-◌, ◌^◌, ◌≤◌, ◌<◌, ◌≡◌, refl, sym, subst, arith}
use hh_cpp.Base.{Bool, true, false, ◌&&◌, ltb, leb, ltb→lt, ltb-false→le, Bool-cases, inl, inr}
use hh_cpp.Base.{◌==◌, ◌⊎◌}
use hh_cpp.Base.{some, List, ◌++◌, get_or}
use hh_cpp.Base.Bits.{passes_below, passes_below_lem}
use hh_cpp.Png.Bits.{base_index}
use hh_cpp.Png.Bits.{length_base, length_extra, dist_base, dist_extra}
use hh_cpp.Png.Inflate.{read_match, base_of_length, extra_of_length}
use hh_cpp.Png.Inflate.{base_of_distance, extra_of_distance}

-- The search ends at the last entry, or below an entry that is too large; where it does not end
-- at the first one, it ends at one that is not too large.
base_index_lem :
    (base : List ℕ) (v n : ℕ)
    → (base_index base v n ≤ n)
      × ((base_index base v n ≡ 0) ⊎ (get_or base (base_index base v n) 0 ≤ v))
      × ((base_index base v n ≡ n) ⊎ (v < get_or base (suc (base_index base v n)) 0))
unfolding base_index
base_index_lem base v zero = (omega arith, inl refl, inl refl)
base_index_lem base v (suc n) = elim (Bool-cases (ltb v (get_or base (suc n) 0))) [
  | inr e ↦ rw e (omega arith, inr (ltb-false→le v _ e), inl refl)
  | inl e ↦
      let rest = base_index_lem base v n in
      rw e (
        omega (arith, rest.0),
        rest.1,
        elim rest.2 [
          | inr small ↦ inr small
          | inl last ↦ inr (subst (λ m. v < get_or base (suc m) 0) (sym last) (ltb→lt v _ e))
        ],
      )
]

-- One entry of a table against the rules, and the gap to the next entry.
length_row : ℕ → Bool
length_row c =
    get_or length_base c 0 == base_of_length c
    && get_or length_extra c 0 == extra_of_length c
    && leb (get_or length_base (suc c) 0) (get_or length_base c 0 + 2 ^ get_or length_extra c 0)
    && leb (get_or length_extra c 0) 13

dist_row : ℕ → Bool
dist_row d =
    get_or dist_base d 0 == base_of_distance d
    && get_or dist_extra d 0 == extra_of_distance d
    && leb (get_or dist_base (suc d) 0) (get_or dist_base d 0 + 2 ^ get_or dist_extra d 0)
    && leb (get_or dist_extra d 0) 13

length_rows : passes_below length_row 29 ≡ true
unfolding passes_below length_row base_of_length extra_of_length
length_rows = refl

dist_rows : passes_below dist_row 30 ≡ true
unfolding passes_below dist_row base_of_distance extra_of_distance
dist_rows = refl

-- What a row says of a table.
abbrev pub Row : List ℕ → List ℕ → ℕ → ℕ → ℕ → Type 0
Row bases extras c base extra =
    (get_or bases c 0 ≡ base)
    × (get_or extras c 0 ≡ extra)
    × (get_or bases (suc c) 0 ≤ get_or bases c 0 + 2 ^ get_or extras c 0)
    × (get_or extras c 0 ≤ 13)

four_tests :
    (a b c d e f g h : ℕ)
    → ((a == b) && (c == d) && leb e f && leb g h) ≡ true
    → (a ≡ b) × (c ≡ d) × (e ≤ f) × (g ≤ h)
four_tests a b c d e f g h all = ground arith

pub length_row_lem :
    (c : ℕ) → c < 29 → Row length_base length_extra c (base_of_length c) (extra_of_length c)
length_row_lem c h =
    four_tests _ _ _ _ _ _ _ _ (unfold length_row in passes_below_lem length_row 29 c h length_rows)

pub dist_row_lem :
    (d : ℕ) → d < 30 → Row dist_base dist_extra d (base_of_distance d) (extra_of_distance d)
dist_row_lem d h =
    four_tests _ _ _ _ _ _ _ _ (unfold dist_row in passes_below_lem dist_row 30 d h dist_rows)

-- Where the search ends, the rest above the entry fits its extra bits.
abbrev pub IsField : List ℕ → List ℕ → ℕ → ℕ → Type 0
IsField bases extras v c = (get_or bases c 0 ≤ v) × (v - get_or bases c 0 < 2 ^ get_or extras c 0)

pub search_lem :
    (bases extras : List ℕ) (v n : ℕ)
    → ((c : ℕ) → c ≤ n → get_or bases (suc c) 0 ≤ get_or bases c 0 + 2 ^ get_or extras c 0)
    → get_or bases 0 0 ≤ v
    → v < get_or bases n 0 + 2 ^ get_or extras n 0
    → (base_index bases v n ≤ n) × IsField bases extras v (base_index bases v n)
search_lem bases extras v n gaps first last =
    let c = base_index bases v n in
    let found = base_index_lem bases v n in
    let low : get_or bases c 0 ≤ v = elim found.1 [
      | inl zero_ ↦ subst (λ m. get_or bases m 0 ≤ v) (sym zero_) first
      | inr small ↦ small
    ] in
    let high : v < get_or bases c 0 + 2 ^ get_or extras c 0 = elim found.2 [
      | inl end ↦ subst (λ m. v < get_or bases m 0 + 2 ^ get_or extras m 0) (sym end) last
      | inr next ↦ omega (arith, gaps c found.0)
    ] in
    (found.0, (low, omega arith))

pub read_match_lem :
    (c x d y : ℕ) (rest : List ℕ)
    → x < 2 ^ extra_of_length c
    → d < 30
    → y < 2 ^ extra_of_distance d
    → read_match c (
        low_bits (extra_of_length c) x
        ++ (code_bits 5 d ++ (low_bits (extra_of_distance d) y ++ rest)))
      ≡ some ((base_of_length c + x, base_of_distance d + y), rest)
unfolding read_match
read_match_lem c x d y rest hx hd hy =
    let admitted : ltb 29 d ≡ false = ground arith in
    rw
      (
        read_bits-low_bits (extra_of_length c) x
            (code_bits 5 d ++ (low_bits (extra_of_distance d) y ++ rest)) hx,
        read_code-code_bits 5 d (low_bits (extra_of_distance d) y ++ rest) (omega arith),
        admitted,
        read_bits-low_bits (extra_of_distance d) y rest hy,
      )
      refl
