-- ===== src/Tests/Files.antt =====
-- The theorems on encoded files at concrete inputs.
use hh_cpp.Base.{◌≡◌, refl, some, [], ◌∷◌, arith}
use hh_cpp.Encode.{PixelView, valid_dimensions}
use hh_cpp.Png.{png_bytes, deflate_fixed}
use hh_cpp.Png.Decode.{decode_png}
use hh_cpp.Png.RoundTrip.{Deflated, deflate_fixed-Deflated}
use hh_cpp.Png.Lossless.{decode_png-png_bytes}

abbrev two_pixels : PixelView
two_pixels = record { rgba = 1 ∷ 2 ∷ 3 ∷ 255 ∷ 1 ∷ 2 ∷ 3 ∷ 254 ∷ []; width = 2; height = 1 }

decode_png-png_bytes_example :
    decode_png (png_bytes two_pixels)
    ≡ some (record { width = 2; height = 1; rgba = 1 ∷ 2 ∷ 3 ∷ 255 ∷ 1 ∷ 2 ∷ 3 ∷ 254 ∷ [] })
unfolding valid_dimensions
decode_png-png_bytes_example = decode_png-png_bytes two_pixels (
  refl,
  refl,
  (
    omega arith,
    (
      omega arith,
      (omega arith, (omega arith, (omega arith, (omega arith, (omega arith, (omega arith, tt)))))),
    ),
  ),
)

deflate_fixed-Deflated_example :
    Deflated (7 ∷ 7 ∷ 7 ∷ 7 ∷ []) [] (deflate_fixed (7 ∷ 7 ∷ 7 ∷ 7 ∷ []) 1 5 [])
deflate_fixed-Deflated_example =
    deflate_fixed-Deflated (7 ∷ 7 ∷ 7 ∷ 7 ∷ []) 1 5 []
      (omega arith, (omega arith, (omega arith, (omega arith, tt)))) (omega arith, omega arith)
      (omega arith, omega arith)
