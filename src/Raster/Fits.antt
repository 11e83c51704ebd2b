-- ===== src/Raster/Fits.antt =====
-- The geometry of every size: make_geometry of src/raster.cpp. The sizes are few, so that tables
-- over all of them decide.
use hh_cpp.Base.{ℕ, ◌≡◌, inl, inr, refl, ◌≤◌, Bool, true, false, ◌&&◌, ◌||◌, not, ltb, arith}
use hh_cpp.Base.{Bool-cases, ltb→lt, ltb-false→le}
use hh_cpp.Base.Bits.{passes_below, passes_below_lem}
use hh_cpp.Base.Int.{pos, ◌+ℤ◌, ◌≤ℤ◌}
use hh_cpp.Raster.Sizing.{Geometry, ImageShape, square, round, other_shape, make_geometry}
use hh_cpp.Raster.Sizing.{FrameStyle, automatic, no_frame, plain, rounded, chamfered, double_line}
use hh_cpp.Raster.Sizing.{thick, brackets, ticks, gaps, other_style}
use hh_cpp.Raster.Sizing.{round_cell, square_cell, cell_loop, cell_fits}

-- There is room for the cells, and the grid lies inside the picture.
abbrev pub fits : Geometry × Bool → Bool
fits made = made.1 && ((pos 0 ≤ℤ made.0.offset) && (made.0.offset +ℤ made.0.grid ≤ℤ made.0.size))

abbrev fits_at : ℕ → ImageShape → FrameStyle → ℕ → Bool
fits_at least shape resolved size = ltb size least || fits (make_geometry size shape resolved)

square_table : passes_below (fits_at 16 square plain) 1025 ≡ true
unfolding passes_below make_geometry square_cell
square_table = refl

thin_table : passes_below (fits_at 16 round plain) 1025 ≡ true
unfolding passes_below make_geometry round_cell cell_loop cell_fits
thin_table = refl

thick_table : passes_below (fits_at 18 round thick) 1025 ≡ true
unfolding passes_below make_geometry round_cell cell_loop cell_fits
thick_table = refl

small_table : passes_below (λ size. ltb size 16 || not (make_geometry size round thick).1) 18 ≡ true
unfolding passes_below make_geometry round_cell cell_loop cell_fits
small_table = refl

pub not-true : (a : Bool) → not a ≡ true → a ≡ false
not-true a h = ground arith

pub le→ltb-false : (a b : ℕ) → a ≤ b → ltb b a ≡ false
le→ltb-false a b h = ground arith

pub or_right : (a b : Bool) → a ≡ false → (a || b) ≡ true → b ≡ true
or_right a b e h = ground arith

found :
    (least : ℕ) (shape : ImageShape) (resolved : FrameStyle) (size : ℕ)
    → passes_below (fits_at least shape resolved) 1025 ≡ true
    → least ≤ size
    → size ≤ 1024
    → fits (make_geometry size shape resolved) ≡ true
found least shape resolved size table low high =
    or_right (ltb size least) _ (le→ltb-false least size low)
      (passes_below_lem (fits_at least shape resolved) 1025 size (omega arith) table)

-- The styles that stand in from the edge by three lines, and the pictures that are too small for
-- them.
unfoldable pub is_wide : FrameStyle → Bool
is_wide double_line = true
is_wide thick = true
is_wide _ = false

unfoldable pub is_too_small : ℕ → ImageShape → FrameStyle → Bool
unfolding is_wide
is_too_small size round resolved = is_wide resolved && ltb size 18
is_too_small size _ resolved = false

-- Room for the cells, and a grid inside the picture, exactly where it is not too small.
abbrev pub FitsExactly : ℕ → ImageShape → FrameStyle → Type 0
FitsExactly size shape resolved =
    ((make_geometry size shape resolved).1 ≡ not (is_too_small size shape resolved))
    × (fits (make_geometry size shape resolved) ≡ not (is_too_small size shape resolved))

both_true : (made : Geometry × Bool) → fits made ≡ true → (made.1 ≡ true) × (fits made ≡ true)
both_true made e = (and_left made.1 _ e, e)
  where
    and_left : (a b : Bool) → (a && b) ≡ true → a ≡ true
    and_left true b e = refl
    and_left false b e = absurd cc

both_false : (made : Geometry × Bool) → made.1 ≡ false → (made.1 ≡ false) × (fits made ≡ false)
both_false made e = (e, rw e refl)

wide : (size : ℕ) → 16 ≤ size → size ≤ 1024 → FitsExactly size round thick
unfolding is_too_small
wide size low high = elim (Bool-cases (ltb size 18)) [
  | inl small ↦ rw small (
      both_false (make_geometry size round thick) (
        not-true _ (
          or_right (ltb size 16) _ (le→ltb-false 16 size low)
            (passes_below_lem _ 18 size (ltb→lt size 18 small) small_table))))
  | inr large ↦ rw large (
      both_true (make_geometry size round thick)
        (found 18 round thick size thick_table (ltb-false→le size 18 large) high))
]

thin : (size : ℕ) → 16 ≤ size → size ≤ 1024 → FitsExactly size round plain
unfolding is_too_small
thin size low high =
    both_true (make_geometry size round plain) (found 16 round plain size thin_table low high)

-- For every size from 16 to 1024 there is room for the cells and the grid lies inside the
-- picture, except with the round shape, the double or the thick frame and the size 16 or 17, where
-- make_geometry fails.
pub make_geometry-FitsExactly :
    (size : ℕ) (shape : ImageShape) (resolved : FrameStyle)
    → 16 ≤ size
    → size ≤ 1024
    → FitsExactly size shape resolved
unfolding make_geometry square_cell round_cell is_too_small
make_geometry-FitsExactly size square resolved low high =
    both_true (make_geometry size square plain) (found 16 square plain size square_table low high)
make_geometry-FitsExactly size (other_shape n) resolved low high =
    both_true (make_geometry size square plain) (found 16 square plain size square_table low high)
make_geometry-FitsExactly size round double_line low high = wide size low high
make_geometry-FitsExactly size round thick low high = wide size low high
make_geometry-FitsExactly size round automatic low high = thin size low high
make_geometry-FitsExactly size round no_frame low high = thin size low high
make_geometry-FitsExactly size round plain low high = thin size low high
make_geometry-FitsExactly size round rounded low high = thin size low high
make_geometry-FitsExactly size round chamfered low high = thin size low high
make_geometry-FitsExactly size round brackets low high = thin size low high
make_geometry-FitsExactly size round ticks low high = thin size low high
make_geometry-FitsExactly size round gaps low high = thin size low high
make_geometry-FitsExactly size round (other_style n) low high = thin size low high
