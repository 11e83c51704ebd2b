-- ===== src/Tests/Pictures.antt =====
-- The theorems on contrast, features, rendering and encoding at concrete inputs.
use hh_cpp.Base.{false}
use hh_cpp.Base.{
  ℕ, ◌+◌, ◌*◌, ◌/◌, ◌^◌, ◌≤◌, ◌<◌, ◌≡◌, ◌⊎◌, ◌↔◌, true, some, List, [], ◌∷◌, ◌++◌, length,
  replicate, get_or, arith,
}
use hh_cpp.Types.{Rgb, Fingerprint, keyed}
use hh_cpp.Palette.{rgb}
use hh_cpp.Contrast.{contrast_x100}
use hh_cpp.Contrast.Bounds.{contrast_x100-bounds}
use hh_cpp.Features.{cell_of, tag_of}
use hh_cpp.Features.Laws.{cell_of-equal, decode_tag, decode_tag-tag_of}
use hh_cpp.Raster.Sizing.{RenderOptions, square, round, automatic}
use hh_cpp.Base.Int.{plus_part}
use hh_cpp.Raster.{RasterJob, draw, draw_cells}
use hh_cpp.Raster.Sizing.{Geometry, make_geometry, cell_fits, no_frame, thick, double_line}
use hh_cpp.Raster.Cache.{plain_rows, draw-plain}
use hh_cpp.Raster.Fits.{FitsExactly, make_geometry-FitsExactly}
use hh_cpp.Raster.Largest.{gutter_of, limit_of, round_cell-Largest}
use hh_cpp.Raster.Mix.{mix, mix_weight}
use hh_cpp.Raster.Between.{Between, mix-Between}
use hh_cpp.Raster.Blend.{background_pixel, mix-surface}
use hh_cpp.Raster.Render.{render, render_into, rendered, buffer_size, job_of}
use hh_cpp.Raster.Outcomes.{IsRendered, render-render_into, render-IsRendered}
use hh_cpp.Encode.{PixelView}
use hh_cpp.Error.{ErrorCode, ok}
use hh_cpp.Png.Bits.{BitWriter}
use hh_cpp.Jpeg.{jpeg_bytes, jpeg_header}
use hh_cpp.Jpeg.Markers.{IsStuffed, jpeg_bytes-IsStuffed}
use hh_cpp.Base.{◌^◌}

abbrev white : Rgb
white = rgb 255 255 255

abbrev grey : Rgb
grey = rgb 9 99 199

abbrev options : RenderOptions
options = record {
  shape = round;
  frame = automatic;
  background = white;
  background_alpha = 255;
  frame_alpha = 128;
}

abbrev picture : Fingerprint
picture = record { bytes = 0x80 ∷ replicate 31 0xc5; mode = keyed; set_ = true }

abbrev two_pixels : PixelView
two_pixels = record { rgba = 1 ∷ 2 ∷ 3 ∷ 255 ∷ 4 ∷ 5 ∷ 6 ∷ 0 ∷ []; width = 2; height = 1 }

abbrev half_byte : BitWriter
half_byte = record { out = 7 ∷ []; acc = 5; used = 4 }

contrast_x100-bounds_example : (100 ≤ contrast_x100 white grey) × (contrast_x100 white grey ≤ 2100)
contrast_x100-bounds_example = contrast_x100-bounds white grey

decode_tag-tag_of_example :
    (length (tag_of picture.bytes) ≡ 7)
    × (decode_tag (tag_of picture.bytes)
        ≡ (get_or picture.bytes 16 0 * 2 ^ 24
            + get_or picture.bytes 17 0 * 2 ^ 16
            + get_or picture.bytes 18 0 * 2 ^ 8
            + get_or picture.bytes 19 0)
          / 4)
unfolding replicate
decode_tag-tag_of_example =
    decode_tag-tag_of picture.bytes (omega arith) (omega arith) (omega arith) (omega arith)

render-render_into_example :
    render picture 32 options true
    ≡ rendered 32
        (render_into picture 32 options (some (replicate (buffer_size 32) 0)) (buffer_size 32))
render-render_into_example = render-render_into picture 32 options

render-IsRendered_example : IsRendered 32 (render picture 32 options true)
render-IsRendered_example = render-IsRendered picture 32 options true

jpeg_bytes-IsStuffed_example :
    (scan : List ℕ) × IsStuffed scan
    × (jpeg_bytes two_pixels 90 white ≡ jpeg_header two_pixels 90 ++ (scan ++ (0xff ∷ 0xd9 ∷ [])))
jpeg_bytes-IsStuffed_example = jpeg_bytes-IsStuffed two_pixels 90 white

abbrev job : RasterJob
job = job_of picture options

abbrev places : Geometry
places = (make_geometry 32 square no_frame).0

draw-plain_example :
    draw job places false (replicate 4096 0)
    ≡ draw_cells job places job.cells 0
        (plain_rows job places false (plus_part places.size) 0 (replicate 4096 0))
draw-plain_example = draw-plain job places false (replicate 4096 0)

round_cell-Largest_example :
    (cell_fits (gutter_of 64) (limit_of 64 thick) (plus_part (make_geometry 64 round thick).0.cell)
      ≡ false)
    × ((cell_fits (gutter_of 64) (limit_of 64 thick) 7 ≡ true)
        ⊎ (plus_part (make_geometry 64 round thick).0.cell ≤ 7))
round_cell-Largest_example = round_cell-Largest 64 thick 7 (omega arith) (omega arith)

abbrev two_bytes : PixelView → ErrorCode × List ℕ
two_bytes img = (ok, 8 ∷ 9 ∷ [])

cell_of-equal_example :
    (cell_of 200 ≡ cell_of 207) ↔ ((200 / 8 ≡ 207 / 8) ⊎ ((200 < 64) × (207 < 64)))
cell_of-equal_example = cell_of-equal 200 207 (omega arith) (omega arith)

mix-surface_example : mix white 255 0 grey 77 16 ≡ background_pixel grey 77
mix-surface_example =
    mix-surface white 255 grey 77 (omega arith, omega arith, omega arith) (omega arith)

make_geometry-FitsExactly_example : FitsExactly 17 round double_line
make_geometry-FitsExactly_example =
    make_geometry-FitsExactly 17 round double_line (omega arith) (omega arith)

visible : 0 < (mix white 128 5 grey 90 6).a
unfolding mix mix_weight
visible = omega arith

mix-Between_example :
    Between white.r grey.r (mix white 128 5 grey 90 6).r
    × Between white.g grey.g (mix white 128 5 grey 90 6).g
    × Between white.b grey.b (mix white 128 5 grey 90 6).b
mix-Between_example =
    mix-Between white 128 5 grey 90 6 (omega arith, omega arith, omega arith)
      (omega arith, omega arith, omega arith) (omega arith) (omega arith) (omega arith) visible
