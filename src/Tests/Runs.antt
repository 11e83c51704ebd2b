-- ===== src/Tests/Runs.antt =====
-- The definitions run on concrete inputs.
use hh_cpp.Base.{◌≡◌, refl, [], ◌∷◌, true}
use hh_cpp.Base.Int.{pos, negsuc}
use hh_cpp.Raster.Sizing.{make_geometry, square, round, no_frame, thick, cell_loop, cell_fits}
use hh_cpp.Raster.Sizing.{round_cell, square_cell}
use hh_cpp.Jpeg.Dct.{descale}
use hh_cpp.Jpeg.Scan.{category, category_loop}
use hh_cpp.Png.Bits.{reverse_bits}

-- `descale` rounds to the nearest, also below zero.
descale_run :
    descale (negsuc 6) 2 ∷ descale (negsuc 5) 2 ∷ descale (pos 6) 2 ∷ []
    ≡ negsuc 1 ∷ negsuc 0 ∷ pos 2 ∷ []
unfolding descale
descale_run = refl

square_run : make_geometry 64 square no_frame ≡ (
  record {
    size = pos 64;
    line = pos 1;
    gutter = pos 1;
    cell = pos 12;
    grid = pos 51;
    offset = pos 6;
  },
  true,
)
unfolding make_geometry round_cell square_cell cell_loop cell_fits
square_run = refl

round_run : make_geometry 64 round thick ≡ (
  record {
    size = pos 64;
    line = pos 1;
    gutter = pos 1;
    cell = pos 9;
    grid = pos 39;
    offset = pos 12;
  },
  true,
)
unfolding make_geometry round_cell square_cell cell_loop cell_fits
round_run = refl

category_run :
    category (negsuc 254) ∷ category (negsuc 255) ∷ category (pos 0) ∷ [] ≡ 8 ∷ 9 ∷ 0 ∷ []
unfolding category category_loop
category_run = refl

reverse_bits_run : reverse_bits 6 4 0 0 ≡ 6
unfolding reverse_bits
reverse_bits_run = refl
