-- ===== src/Bmp.antt =====
-- The BMP encoder: src/bmp.cpp.
pub mod Layout
use hh_cpp.Base.{ℕ, zero, suc, ◌+◌, ◌-◌, ◌*◌, ◌/◌, bit_and, Bool, true, false, if◌then◌else◌}
use hh_cpp.Base.{List, [], ◌∷◌, ◌++◌, replicate, u8, u32, ◌>>>◌}
use hh_cpp.Types.{Rgb}
use hh_cpp.Error.{ErrorCode, ok, invalid_image, out_of_memory}
use hh_cpp.Raster.Render.{Image}
use hh_cpp.Encode.{PixelView, valid_image, view_of, flatten, byte_at}

unfoldable pub put_le16 : ℕ → List ℕ
put_le16 v = u8 v ∷ u8 (v >>> 8) ∷ []

unfoldable pub put_le32 : ℕ → List ℕ
unfolding put_le16
put_le32 v = put_le16 (bit_and v 0xffff) ++ put_le16 (v >>> 16)

-- `row`: a row of pixels with its padding.
unfoldable pub row_size : PixelView → ℕ
row_size img = u32 (4 * (u32 (3 * img.width + 3) / 4))

unfoldable pub bmp_header : PixelView → List ℕ
unfolding put_le16 put_le32 row_size
bmp_header img =
    let data_size = u32 (row_size img * img.height) in
    (0x42 ∷ 0x4d ∷ [])
    ++ put_le32 (u32 (54 + data_size))
    ++ put_le16 0
    ++ put_le16 0
    ++ put_le32 54
    ++ put_le32 40
    ++ put_le32 img.width
    ++ put_le32 img.height
    ++ put_le16 1
    ++ put_le16 24
    ++ put_le32 0
    ++ put_le32 data_size
    ++ put_le32 2835
    ++ put_le32 2835
    ++ put_le32 0
    ++ put_le32 0

-- The loop over `x`, where `p` is the index of the pixel.
unfoldable pub bmp_pixels : PixelView → Rgb → ℕ → ℕ → List ℕ
bmp_pixels img matte zero p = []
bmp_pixels img matte (suc left) p =
    flatten (byte_at img p 2) (byte_at img p 3) matte.b
    ∷ flatten (byte_at img p 1) (byte_at img p 3) matte.g
    ∷ flatten (byte_at img p 0) (byte_at img p 3) matte.r
    ∷ bmp_pixels img matte left (p + 4)

unfoldable pub bmp_row : PixelView → Rgb → ℕ → List ℕ
unfolding bmp_pixels row_size
bmp_row img matte y =
    bmp_pixels img matte img.width (y * img.width * 4) ++ replicate (row_size img - 3 * img.width) 0

-- `for (y = height; y-- > 0;)`: the last row comes first.
unfoldable pub bmp_rows : PixelView → Rgb → ℕ → List ℕ
unfolding bmp_row
bmp_rows img matte zero = []
bmp_rows img matte (suc y) = bmp_row img matte y ++ bmp_rows img matte y

unfoldable pub bmp_bytes : PixelView → Rgb → List ℕ
unfolding bmp_header bmp_rows
bmp_bytes img matte = bmp_header img ++ bmp_rows img matte img.height

-- `allocated` says whether the vector finds its memory.
unfoldable pub encode_bmp_view : PixelView → Rgb → Bool → ErrorCode × List ℕ
encode_bmp_view img matte allocated =
    if allocated then (ok, bmp_bytes img matte) else (out_of_memory, [])

unfoldable pub encode_bmp : Image → Rgb → Bool → ErrorCode × List ℕ
encode_bmp img matte allocated =
    if valid_image img then encode_bmp_view (view_of img) matte allocated else (invalid_image, [])
