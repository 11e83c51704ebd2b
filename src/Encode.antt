-- ===== src/Encode.antt =====
-- What the encoders share: src/encode_util.hpp. Each encoder appends to a byte vector; the models
-- of its put functions give the bytes that are appended.
use hh_cpp.Base.{ℕ, ◌+◌, ◌-◌, ◌*◌, ◌/◌, Bool, ◌&&◌, not, leb, ◌==◌, u8, u32, u64}
use hh_cpp.Base.{List, length, get_or}
use hh_cpp.Raster.Render.{Image}

pub record PixelView : Type 0 where
  pub rgba : List ℕ
  pub width : ℕ
  pub height : ℕ

abbrev pub max_encoded_dimension : ℕ
max_encoded_dimension = 4096

unfoldable pub valid_dimensions : ℕ → ℕ → Bool
valid_dimensions width height =
    ((not (width == 0) && not (height == 0)) && leb width max_encoded_dimension)
    && leb height max_encoded_dimension

unfoldable pub valid_image : Image → Bool
unfolding valid_dimensions
valid_image img =
    valid_dimensions img.width img.height
    && (length img.rgba == u64 (u64 (img.width * img.height) * 4))

abbrev pub view_of : Image → PixelView
view_of img = record { rgba = img.rgba; width = img.width; height = img.height }

unfoldable pub flatten : ℕ → ℕ → ℕ → ℕ
flatten value a matte = u8 (u32 (a * value + (255 - a) * matte + 127) / 255)

-- The byte `k` of the pixel that starts at `p`.
abbrev pub byte_at : PixelView → ℕ → ℕ → ℕ
byte_at img p k = get_or img.rgba (p + k) 0
