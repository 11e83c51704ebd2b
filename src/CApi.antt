-- ===== src/CApi.antt =====
-- The encoders, the renderer and the sizes of the C interface: src/c_api.cpp. The code is the
-- number of the C++ code. A pointer that may be null is an Option; what it points to is given
-- back as it is after the call.
pub mod Digests
pub mod Buffers
pub mod Keyed
pub mod Pipeline
pub mod Drawing
pub mod Pictures
use hh_cpp.Base.{ℕ, ◌*◌, Bool, true, false, not, ◌||◌, ltb, ◌==◌, if◌then◌else◌, u64}
use hh_cpp.Base.{Option, none, some, List, [], ◌∷◌, get_or, length, write_at}
use hh_cpp.Base.Int.{ℤ}
use hh_cpp.Error.{ErrorCode, ok, to_int, invalid_argument, invalid_image, buffer_too_small}
use hh_cpp.Error.{invalid_fingerprint}
use hh_cpp.Types.{Rgb, Fingerprint, Mode, universal, keyed, other_mode, fingerprint_clear}
use hh_cpp.Palette.{rgb}
use hh_cpp.Derive.{import_fingerprint}
use hh_cpp.Encode.{PixelView, valid_dimensions}
use hh_cpp.Bmp.{encode_bmp_view}
use hh_cpp.Png.{encode_png_view}
use hh_cpp.Jpeg.{encode_jpeg_view}
use hh_cpp.Raster.Sizing.{min_image_size, max_image_size}

pub record Encoded : Type 0 where
  pub code : ℕ
  pub out : Option (List ℕ)
  pub out_size : Option ℕ

-- `encoder` is what the callers pass: a view of the pixels to a code and the encoded bytes.
unfoldable pub encode_with :
    Option (List ℕ)
    → ℕ
    → ℕ
    → Option (List ℕ)
    → ℕ
    → Option ℕ
    → (PixelView → ErrorCode × List ℕ)
    → Encoded
encode_with none width height out capacity out_size encoder = record {
  code = to_int invalid_argument;
  out = out;
  out_size = out_size;
}
encode_with (some rgba) width height out capacity none encoder = record {
  code = to_int invalid_argument;
  out = out;
  out_size = none;
}
encode_with (some rgba) width height out capacity (some before) encoder =
    if not (valid_dimensions width height)
    then record { code = to_int invalid_image; out = out; out_size = some 0 }
    else let done : ErrorCode × List ℕ =
        encoder (record { rgba = rgba; width = width; height = height }) in
      if not (to_int done.0 == to_int ok)
      then record { code = to_int done.0; out = out; out_size = some 0 }
      else copy_out out capacity done.1
  where
    copy_out : Option (List ℕ) → ℕ → List ℕ → Encoded
    copy_out none capacity encoded = record {
      code = to_int buffer_too_small;
      out = none;
      out_size = some (length encoded);
    }
    copy_out (some buffer) capacity encoded =
        if ltb capacity (length encoded)
        then record {
          code = to_int buffer_too_small;
          out = some buffer;
          out_size = some (length encoded);
        }
        else record {
          code = to_int ok;
          out = some (write_at buffer 0 encoded);
          out_size = some (length encoded);
        }

unfoldable pub colour_or_white : Option (List ℕ) → Rgb
colour_or_white none = rgb 255 255 255
colour_or_white (some c) = rgb (get_or c 0 0) (get_or c 1 0) (get_or c 2 0)

-- `allocated` says whether the encoder finds its memory.
unfoldable pub hh_encode_png :
    Option (List ℕ) → ℕ → ℕ → Option (List ℕ) → ℕ → Option ℕ → Bool → Encoded
hh_encode_png rgba width height out capacity out_size allocated =
    encode_with rgba width height out capacity out_size (λ img. encode_png_view img allocated)

unfoldable pub hh_encode_bmp :
    Option (List ℕ) → ℕ → ℕ → Option (List ℕ) → Option (List ℕ) → ℕ → Option ℕ → Bool → Encoded
unfolding colour_or_white
hh_encode_bmp rgba width height matte out capacity out_size allocated =
    let m = colour_or_white matte in
    encode_with rgba width height out capacity out_size (λ img. encode_bmp_view img m allocated)

unfoldable pub hh_encode_jpeg :
    Option (List ℕ) → ℕ → ℕ → ℤ → Option (List ℕ) → Option (List ℕ) → ℕ → Option ℕ → Bool → Encoded
unfolding colour_or_white
hh_encode_jpeg rgba width height quality matte out capacity out_size allocated =
    let m = colour_or_white matte in
    encode_with rgba width height out capacity out_size
      (λ img. encode_jpeg_view img quality m allocated)

unfoldable pub hh_render_bytes : ℕ → ℕ
hh_render_bytes size =
    if ltb size min_image_size || ltb max_image_size size then 0 else u64 (u64 (size * size) * 4)
