-- ===== src/Jpeg/Picture/Tests.antt =====
-- The scan of a JPEG file at a concrete picture.
use hh_cpp.Base.{refl, arith, [], ◌∷◌, ltb→lt}
use hh_cpp.Palette.{rgb}
use hh_cpp.Encode.{PixelView}
use hh_cpp.Jpeg.Scans.{no_previous}
use hh_cpp.Jpeg.Picture.File.{FileRead, jpeg_bytes-read_file}
use hh_cpp.Jpeg.Picture.{unit_at, image_units, SmallSteps, no_step, next_step}
use hh_cpp.Jpeg.Picture.{row_units, column_units, block_at, block_from}
use hh_cpp.Jpeg.{
  component_block, zigzag, block_rows, block_sample, colour_value, quantise, scale_quantiser,
}
use hh_cpp.Jpeg.Dct.{forward_dct}
use hh_cpp.Encode.{flatten}

abbrev one_pixel : PixelView
one_pixel = record { rgba = 200 ∷ 30 ∷ 90 ∷ 255 ∷ []; width = 1; height = 1 }

small_steps : SmallSteps no_previous (image_units one_pixel (rgb 255 255 255) 92)
unfolding image_units row_units column_units unit_at block_at block_from component_block zigzag
    forward_dct scale_quantiser quantise block_rows block_sample colour_value flatten
small_steps = next_step _ _ (ltb→lt _ _ refl, ltb→lt _ _ refl, ltb→lt _ _ refl) no_step

jpeg_bytes-read_file_example : FileRead one_pixel 92 (rgb 255 255 255)
jpeg_bytes-read_file_example =
    jpeg_bytes-read_file one_pixel 92 (rgb 255 255 255) (omega arith) (omega arith) small_steps
