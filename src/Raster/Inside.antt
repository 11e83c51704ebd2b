-- ===== src/Raster/Inside.antt =====
-- Where the cells lie: make_geometry of src/raster.cpp over all sizes.
use hh_cpp.Base.{
  ℕ, ◌+◌, ◌*◌, ◌≡◌, refl, sym, subst, ◌≤◌, Bool, true, false, ◌&&◌, ◌||◌, not, ltb, leb, ◌==◌,
  ==→eq, and_both, arith,
}
use hh_cpp.Base.Bits.{passes_below, passes_below_lem}
use hh_cpp.Base.Int.{ℤ, pos, negsuc}
use hh_cpp.Raster.Fits.{le→ltb-false}
use hh_cpp.Raster.Sizing.{Geometry, ImageShape, square, round, other_shape, make_geometry}
use hh_cpp.Raster.Sizing.{FrameStyle, automatic, no_frame, plain, rounded, chamfered, double_line}
use hh_cpp.Raster.Sizing.{thick, brackets, ticks, gaps, other_style}
use hh_cpp.Raster.Sizing.{round_cell, square_cell, cell_loop, cell_fits}

-- A geometry whose cells lie inside a picture of the size.
pub data Inside (size : ℕ) : Geometry → Type 0 where
  inside :
      (line grid : ℤ) (offset cell gutter : ℕ)
      → offset + (4 * cell + 3 * gutter) ≤ size
      → Inside size (record {
        size = pos size;
        line = line;
        gutter = pos gutter;
        cell = pos cell;
        grid = grid;
        offset = pos offset;
      })

is_inside : ℕ → ℤ → ℤ → ℤ → ℤ → Bool
is_inside n (pos s) (pos gutter) (pos cell) (pos offset) =
    (s == n) && leb (offset + (4 * cell + 3 * gutter)) n
is_inside n _ _ _ _ = false

leb→le : (a b : ℕ) → leb a b ≡ true → a ≤ b
leb→le a b e = ground arith

is_inside→Inside :
    (n : ℕ) (line grid s gutter cell offset : ℤ)
    → is_inside n s gutter cell offset ≡ true
    → Inside n (record {
      size = s;
      line = line;
      gutter = gutter;
      cell = cell;
      grid = grid;
      offset = offset;
    })
unfolding is_inside
is_inside→Inside n line grid (negsuc s) gutter cell offset e = absurd cc
is_inside→Inside n line grid (pos s) (negsuc gutter) cell offset e = absurd cc
is_inside→Inside n line grid (pos s) (pos gutter) (negsuc cell) offset e = absurd cc
is_inside→Inside n line grid (pos s) (pos gutter) (pos cell) (negsuc offset) e = absurd cc
is_inside→Inside n line grid (pos s) (pos gutter) (pos cell) (pos offset) e =
    let (same, room) = and_both (s == n) _ e in
    subst
      (λ k. Inside n (record {
        size = pos k;
        line = line;
        gutter = pos gutter;
        cell = pos cell;
        grid = grid;
        offset = pos offset;
      }))
      (sym (==→eq s n same)) (inside line grid offset cell gutter (leb→le _ n room))

abbrev made_inside : ℕ → Geometry × Bool → Bool
made_inside n made = not made.1 || is_inside n made.0.size made.0.gutter made.0.cell made.0.offset

abbrev inside_at : ImageShape → FrameStyle → ℕ → Bool
inside_at shape resolved n = ltb n 16 || made_inside n (make_geometry n shape resolved)

square_inside : passes_below (inside_at square plain) 1025 ≡ true
unfolding passes_below make_geometry square_cell is_inside
square_inside = refl

thin_inside : passes_below (inside_at round plain) 1025 ≡ true
unfolding passes_below make_geometry round_cell cell_loop cell_fits is_inside
thin_inside = refl

thick_inside : passes_below (inside_at round thick) 1025 ≡ true
unfolding passes_below make_geometry round_cell cell_loop cell_fits is_inside
thick_inside = refl

behind_or : (a b c : Bool) → a ≡ false → (a || (not b || c)) ≡ true → b ≡ true → c ≡ true
behind_or a b c ea e eb = ground arith

found :
    (shape : ImageShape) (resolved : FrameStyle) (size : ℕ)
    → passes_below (inside_at shape resolved) 1025 ≡ true
    → 16 ≤ size
    → size ≤ 1024
    → (make_geometry size shape resolved).1 ≡ true
    → Inside size (make_geometry size shape resolved).0
found shape resolved size table low high room =
    let made = make_geometry size shape resolved in
    let g = made.0 in
    is_inside→Inside size g.line g.grid g.size g.gutter g.cell g.offset (
      behind_or (ltb size 16) made.1 _ (le→ltb-false 16 size low)
        (passes_below_lem (inside_at shape resolved) 1025 size (omega arith) table) room)

-- The cells of every geometry that make_geometry accepts lie inside the picture.
pub make_geometry-Inside :
    (size : ℕ) (shape : ImageShape) (resolved : FrameStyle)
    → 16 ≤ size
    → size ≤ 1024
    → (make_geometry size shape resolved).1 ≡ true
    → Inside size (make_geometry size shape resolved).0
unfolding make_geometry square_cell round_cell
make_geometry-Inside size square resolved low high = found square plain size square_inside low high
make_geometry-Inside size (other_shape n) resolved low high =
    found square plain size square_inside low high
make_geometry-Inside size round double_line low high = found round thick size thick_inside low high
make_geometry-Inside size round thick low high = found round thick size thick_inside low high
make_geometry-Inside size round automatic low high = found round plain size thin_inside low high
make_geometry-Inside size round no_frame low high = found round plain size thin_inside low high
make_geometry-Inside size round plain low high = found round plain size thin_inside low high
make_geometry-Inside size round rounded low high = found round plain size thin_inside low high
make_geometry-Inside size round chamfered low high = found round plain size thin_inside low high
make_geometry-Inside size round brackets low high = found round plain size thin_inside low high
make_geometry-Inside size round ticks low high = found round plain size thin_inside low high
make_geometry-Inside size round gaps low high = found round plain size thin_inside low high
make_geometry-Inside size round (other_style n) low high =
    found round plain size thin_inside low high
