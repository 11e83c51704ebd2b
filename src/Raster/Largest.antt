-- ===== src/Raster/Largest.antt =====
-- The loop of the round shape finds the largest cell: make_geometry of src/raster.cpp.
use hh_cpp.Base.{
  ℕ, zero, suc, ◌+◌, ◌≡◌, ◌⊎◌, inl, inr, refl, ◌≤◌, Bool, true, false, not, ◌||◌, ltb, arith,
}
use hh_cpp.Base.{Bool-cases, ltb→lt, ltb-false→le, subst}
use hh_cpp.Base.Bits.{passes_below, passes_below_lem}
use hh_cpp.Raster.Fits.{not-true, or_right, le→ltb-false}
use hh_cpp.Base.Int.{ℤ, pos, ◌/ℤ◌, max_ℤ, plus_part}
use hh_cpp.Raster.Sizing.{FrameStyle, automatic, no_frame, plain, rounded, chamfered, double_line}
use hh_cpp.Raster.Sizing.{thick, brackets, ticks, gaps, other_style, round, make_geometry}
use hh_cpp.Raster.Sizing.{round_cell, round_limit, cell_loop, cell_fits}

-- With fuel up to a cell that does not fit, the loop stops at one that does not.
cell_loop-Stops :
    (fuel : ℕ) (gutter limit : ℤ) (t : ℕ)
    → cell_fits gutter limit (t + fuel) ≡ false
    → cell_fits gutter limit (cell_loop fuel gutter limit t) ≡ false
unfolding cell_loop
cell_loop-Stops zero gutter limit t h =
    let q : t + 0 ≡ t = omega arith in subst (λ (n : ℕ). cell_fits gutter limit n ≡ false) q h
cell_loop-Stops (suc fuel) gutter limit t h = elim (Bool-cases (cell_fits gutter limit t)) [
  | inl fit ↦
      let q : t + suc fuel ≡ suc t + fuel = omega arith in
      rw (fit) (
        cell_loop-Stops fuel gutter limit (suc t)
          (subst (λ (n : ℕ). cell_fits gutter limit n ≡ false) q h))
  | inr over ↦ rw (over) over
]

-- And every cell before it fits.
cell_loop-Before :
    (fuel : ℕ) (gutter limit : ℤ) (t k : ℕ)
    → t ≤ k
    → (cell_fits gutter limit k ≡ true) ⊎ (cell_loop fuel gutter limit t ≤ k)
unfolding cell_loop
cell_loop-Before zero gutter limit t k le = inr le
cell_loop-Before (suc fuel) gutter limit t k le = elim (Bool-cases (cell_fits gutter limit t)) [
  | inl fit ↦ elim (Bool-cases (ltb t k)) [
    | inl more ↦ rw (fit) (cell_loop-Before fuel gutter limit (suc t) k (ltb→lt t k more))
    | inr last ↦
        let q : t ≡ k = omega (arith, ltb-false→le t k last) in
        inl (subst (λ (n : ℕ). cell_fits gutter limit n ≡ true) q fit)
  ]
  | inr over ↦ rw (over) (inr le)
]

abbrev pub gutter_of : ℕ → ℤ
gutter_of size = max_ℤ (pos 1) (pos size /ℤ 48)

abbrev pub limit_of : ℕ → FrameStyle → ℤ
limit_of size resolved = round_limit (pos size) (gutter_of size) (gutter_of size) resolved

-- A cell as wide as the picture does not fit.
abbrev too_wide : FrameStyle → ℕ → Bool
too_wide resolved size =
    ltb size 16 || not (cell_fits (gutter_of size) (limit_of size resolved) size)

thin_table : passes_below (too_wide plain) 1025 ≡ true
unfolding passes_below cell_fits
thin_table = refl

wide_table : passes_below (too_wide thick) 1025 ≡ true
unfolding passes_below cell_fits
wide_table = refl

stops :
    (resolved : FrameStyle) (size : ℕ)
    → passes_below (too_wide resolved) 1025 ≡ true
    → 16 ≤ size
    → size ≤ 1024
    → cell_fits (gutter_of size) (limit_of size resolved) (0 + size) ≡ false
stops resolved size table low high =
    let here = not-true (cell_fits (gutter_of size) (limit_of size resolved) size) (
      or_right (ltb size 16) _ (le→ltb-false 16 size low)
        (passes_below_lem (too_wide resolved) 1025 size (omega arith) table)) in
    let q : size ≡ 0 + size = omega arith in
    subst (λ (n : ℕ). cell_fits (gutter_of size) (limit_of size resolved) n ≡ false) q here

enough : (resolved : FrameStyle) → passes_below (too_wide resolved) 1025 ≡ true
enough double_line = wide_table
enough thick = wide_table
enough automatic = thin_table
enough no_frame = thin_table
enough plain = thin_table
enough rounded = thin_table
enough chamfered = thin_table
enough brackets = thin_table
enough ticks = thin_table
enough gaps = thin_table
enough (other_style n) = thin_table

-- For every size from 16 to 1024 the cell of the round shape is the first whose successor does
-- not fit: the loop has fuel enough to stop there, and each smaller one passes the test.
pub round_cell-Largest :
    (size : ℕ) (resolved : FrameStyle) (k : ℕ)
    → 16 ≤ size
    → size ≤ 1024
    → (cell_fits
          (gutter_of size)
          (limit_of size resolved)
          (plus_part (make_geometry size round resolved).0.cell)
        ≡ false)
      × ((cell_fits (gutter_of size) (limit_of size resolved) k ≡ true)
          ⊎ (plus_part (make_geometry size round resolved).0.cell ≤ k))
unfolding make_geometry round_cell
round_cell-Largest size resolved k low high = (
  cell_loop-Stops size (gutter_of size) (limit_of size resolved) 0
      (stops resolved size (enough resolved) low high),
  cell_loop-Before size (gutter_of size) (limit_of size resolved) 0 k (omega arith),
)
