-- ===== src/Bmp/Layout.antt =====
-- The layout of the BMP file: src/bmp.cpp.
use hh_cpp.Base.{ℕ, zero, suc, ◌+◌, ◌-◌, ◌*◌, ◌≤◌, ◌≡◌, refl, ◌∙◌, arith}
use hh_cpp.Base.{List, length, length-append, length-replicate, replicate, get_or}
use hh_cpp.Types.{Rgb}
use Prim.Native.Nat.mul
use Prim.Native.Nat.{◌^◌}
use hh_cpp.Encode.{PixelView}
use hh_cpp.Bmp.{put_le16, put_le32, row_size, bmp_header, bmp_pixels, bmp_row, bmp_rows, bmp_bytes}

row_size-bounds :
    (img : PixelView)
    → img.width ≤ 4096
    → (3 * img.width ≤ row_size img) × (row_size img ≤ 3 * img.width + 3)
unfolding row_size
row_size-bounds img h = (omega arith, omega arith)

length-bmp_pixels :
    (img : PixelView) (matte : Rgb) (n p : ℕ) → length (bmp_pixels img matte n p) ≡ 3 * n
unfolding bmp_pixels
length-bmp_pixels img matte zero p = refl
length-bmp_pixels img matte (suc n) p = omega (arith, length-bmp_pixels img matte n (p + 4))

length-bmp_row :
    (img : PixelView) (matte : Rgb) (y : ℕ)
    → img.width ≤ 4096
    → length (bmp_row img matte y) ≡ row_size img
unfolding bmp_row
length-bmp_row img matte y h =
    let b = row_size-bounds img h in
    length-append (bmp_pixels img matte img.width (y * img.width * 4))
      (replicate (row_size img - 3 * img.width) 0)
    ∙ (rw
        (
          length-bmp_pixels img matte img.width (y * img.width * 4),
          length-replicate {A = ℕ} (row_size img - 3 * img.width) 0,
        )
        (omega (arith, b.0)))

length-bmp_rows :
    (img : PixelView) (matte : Rgb) (n : ℕ)
    → img.width ≤ 4096
    → length (bmp_rows img matte n) ≡ n * row_size img
unfolding bmp_rows
length-bmp_rows img matte zero h = omega (arith, mul.zero (row_size img))
length-bmp_rows img matte (suc y) h =
    length-append (bmp_row img matte y) (bmp_rows img matte y)
    ∙ (rw (length-bmp_row img matte y h, length-bmp_rows img matte y h)
        (omega (arith, mul.suc y (row_size img))))

length-bmp_header : (img : PixelView) → length (bmp_header img) ≡ 54
unfolding bmp_header put_le32 put_le16
length-bmp_header img = refl

-- The file of a picture that is at most 4096 pixels wide is a header of 54 bytes and then one row
-- of the stored size for each line.
pub length-bmp_bytes :
    (img : PixelView) (matte : Rgb)
    → img.width ≤ 4096
    → length (bmp_bytes img matte) ≡ 54 + img.height * row_size img
unfolding bmp_bytes
length-bmp_bytes img matte h =
    length-append (bmp_header img) (bmp_rows img matte img.height)
    ∙ (rw (length-bmp_header img, length-bmp_rows img matte img.height h) refl)

-- The little-endian word at `i`.
abbrev pub le32_at : List ℕ → ℕ → ℕ
le32_at bytes i =
    get_or bytes i 0
    + get_or bytes (i + 1) 0 * 2 ^ 8
    + get_or bytes (i + 2) 0 * 2 ^ 16
    + get_or bytes (i + 3) 0 * 2 ^ 24
