-- ===== src/Palette.antt =====
-- The fixed colours: src/palette.hpp.
use hh_cpp.Base.{ℕ, List, [], ◌∷◌}
use hh_cpp.Types.{Rgb}

abbrev pub rgb : ℕ → ℕ → ℕ → Rgb
rgb r g b = record { r = r; g = g; b = b }

abbrev pub palette : List Rgb
palette = rgb 0x7a 0x96 0xc5 ∷ rgb 0x89 0x0a 0xf0 ∷ rgb 0xc1 0x04 0x45 ∷ rgb 0xd4 0x82 0x00 ∷ []

abbrev pub frame_colour : Rgb
frame_colour = rgb 0x80 0x80 0x80
