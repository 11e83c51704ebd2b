-- ===== src/Png/Parts.antt =====
-- The chunks, the header and the pixel rows of encode of src/png.cpp, each read back.
use hh_cpp.Base.{
  ℕ, zero, suc, ◌+◌, ◌*◌, ◌≤◌, ◌<◌, ◌≡◌, refl, sym, ap, ◌∙◌, arith, Bool, true, false,
}
use hh_cpp.Base.{if◌then◌else◌, some, List, [], ◌∷◌, ◌++◌, append_assoc}
use hh_cpp.Base.{append-nil, length, length-append, take, drop, take-all, All, IsByte, codes}
use hh_cpp.Base.{if_both, ◌^◌}
use hh_cpp.Types.{bytes_equal}
use native.Mathlib.Nat.{suc-mul, mul_comm}
use hh_cpp.Checksum.Adler.{All-take, All-drop}
use hh_cpp.Encode.{PixelView, byte_at}
use hh_cpp.Png.{raw_row, raw_rows, put_be32, put_chunk, all_opaque}
use hh_cpp.Base.{All-append}
use hh_cpp.Png.Chunks.{length-put_be32, read_be32-put_be32, read_chunk-put_chunk}
use hh_cpp.Png.Written.{put_be32-All}
use hh_cpp.Png.Rows.{pixel_rows, unfilter-raw_rows, pixel_rows-four, pixel_rows-three, RowsInside}
use hh_cpp.Png.Rows.{length-raw_row, all_opaque→alpha, next_row, more_rows}
use hh_cpp.Png.Decode.{read_chunks, read_header, read_colour, read_pixels, with_alpha}

pub read_chunks_lem :
    (ihdr zlib : List ℕ)
    → All IsByte ihdr
    → All IsByte zlib
    → length ihdr < 2 ^ 32
    → length zlib < 2 ^ 32
    → read_chunks (
        put_chunk (codes "IHDR") ihdr
        ++ put_chunk (codes "sRGB") (0 ∷ [])
        ++ put_chunk (codes "IDAT") zlib
        ++ put_chunk (codes "IEND") [])
      ≡ some (ihdr, zlib)
unfolding read_chunks
read_chunks_lem ihdr zlib hi hz small large =
    let a = put_chunk (codes "IHDR") ihdr in
    let b = put_chunk (codes "sRGB") (0 ∷ []) in
    let c = put_chunk (codes "IDAT") zlib in
    let d = put_chunk (codes "IEND") [] in
    let grouped : ((a ++ b) ++ c) ++ d ≡ a ++ (b ++ (c ++ (d ++ []))) =
      append_assoc (a ++ b) c d
      ∙ append_assoc a b (c ++ d)
      ∙ ap (λ r. a ++ (b ++ (c ++ r))) (sym (append-nil d)) in
    rw grouped (
      rw
        (read_chunk-put_chunk (codes "IHDR") ihdr (b ++ (c ++ (d ++ []))) refl
          (omega arith, (omega arith, (omega arith, (omega arith, tt)))) hi small)
        (rw
          (read_chunk-put_chunk (codes "sRGB") (0 ∷ []) (c ++ (d ++ [])) refl
            (omega arith, (omega arith, (omega arith, (omega arith, tt)))) (omega arith, tt)
            (omega arith))
          (rw
            (read_chunk-put_chunk (codes "IDAT") zlib (d ++ []) refl
              (omega arith, (omega arith, (omega arith, (omega arith, tt)))) hz large)
            (rw
              (read_chunk-put_chunk (codes "IEND") [] [] refl
                (omega arith, (omega arith, (omega arith, (omega arith, tt)))) tt (omega arith))
              refl))))

unfoldable pub header_of : ℕ → ℕ → Bool → List ℕ
header_of width height opaque =
    put_be32 width ++ put_be32 height ++ (8 ∷ (if opaque then 2 else 6) ∷ 0 ∷ 0 ∷ 0 ∷ [])

read_colour_lem :
    (opaque : Bool) → read_colour (8 ∷ (if opaque then 2 else 6) ∷ 0 ∷ 0 ∷ 0 ∷ []) ≡ some opaque
unfolding read_colour bytes_equal
read_colour_lem true = refl
read_colour_lem false = refl

pub read_header_lem :
    (width height : ℕ) (opaque : Bool)
    → width < 2 ^ 32
    → height < 2 ^ 32
    → read_header (header_of width height opaque) ≡ some ((width, height), opaque)
unfolding read_header header_of
read_header_lem width height opaque hw hh =
    let last : List ℕ = 8 ∷ (if opaque then 2 else 6) ∷ 0 ∷ 0 ∷ 0 ∷ [] in
    rw (append_assoc (put_be32 width) (put_be32 height) last) (
      rw (read_be32-put_be32 width (put_be32 height ++ last) hw)
        (rw (read_be32-put_be32 height last hh) (rw (read_colour_lem opaque) refl)))

pub header-All : (width height : ℕ) (opaque : Bool) → All IsByte (header_of width height opaque)
unfolding header_of
header-All width height opaque =
    All-append _ (put_be32 width ++ put_be32 height) _
      (All-append _ (put_be32 width) (put_be32 height) (put_be32-All width) (put_be32-All height))
      (
        omega arith,
        (
          if_both (λ c. c < 256) opaque 2 6 (omega arith) (omega arith),
          (omega arith, (omega arith, (omega arith, tt))),
        ),
      )

pub length-header : (width height : ℕ) (opaque : Bool) → length (header_of width height opaque) ≡ 13
unfolding header_of
length-header width height opaque =
    let last : List ℕ = 8 ∷ (if opaque then 2 else 6) ∷ 0 ∷ 0 ∷ 0 ∷ [] in
    omega (
      arith,
      length-append (put_be32 width ++ put_be32 height) last,
      length-append (put_be32 width) (put_be32 height),
      length-put_be32 width,
      length-put_be32 height,
    )

raw_row-All :
    (img : PixelView) (bpp left at : ℕ) → All IsByte img.rgba → All IsByte (raw_row img bpp left at)
unfolding raw_row
raw_row-All img bpp zero at h = tt
raw_row-All img bpp (suc left) at h =
    All-append _ (take bpp (drop at img.rgba)) (raw_row img bpp left (at + 4))
      (All-take bpp (drop at img.rgba) (All-drop at img.rgba h))
      (raw_row-All img bpp left (at + 4) h)

pub raw_rows-All :
    (img : PixelView) (bpp left y : ℕ) → All IsByte img.rgba → All IsByte (raw_rows img bpp left y)
unfolding raw_rows
raw_rows-All img bpp zero y h = tt
raw_rows-All img bpp (suc left) y h =
    All-append _ (0 ∷ raw_row img bpp img.width (y * img.width * 4)) (raw_rows img bpp left (suc y))
      (omega arith, raw_row-All img bpp img.width (y * img.width * 4) h)
      (raw_rows-All img bpp left (suc y) h)

pub length-raw_rows :
    (img : PixelView) (bpp left y : ℕ)
    → bpp ≤ 4
    → RowsInside img left y
    → length (raw_rows img bpp left y) ≡ left * (1 + img.width * bpp)
unfolding raw_rows
length-raw_rows img bpp zero y h inside = omega arith
length-raw_rows img bpp (suc left) y h inside =
    let row = raw_row img bpp img.width (y * img.width * 4) in
    omega (
      arith,
      length-append (0 ∷ row) (raw_rows img bpp left (suc y)),
      length-raw_row img bpp img.width (y * img.width * 4) h
          (omega (arith, more_rows left img.width)),
      length-raw_rows img bpp left (suc y) h
          (omega (arith, more_rows left img.width, next_row y img.width)),
      suc-mul left (1 + img.width * bpp),
    )

-- The bytes that the pixels of an image take in the rows: three where all are opaque.
abbrev pub depth_of : Bool → ℕ
depth_of opaque = if opaque then 3 else 4

whole :
    (img : PixelView)
    → length img.rgba ≡ img.height * (img.width * 4)
    → take (img.height * (img.width * 4)) (drop (0 * img.width * 4) img.rgba) ≡ img.rgba
unfolding drop
whole img size =
    ap (λ n. take (img.height * (img.width * 4)) (drop n img.rgba))
      (let e : 0 * img.width * 4 ≡ 0 = omega arith in e)
    ∙ take-all (img.height * (img.width * 4)) img.rgba (omega (arith, size))

opaque_pixels :
    (img : PixelView) (q : ℕ)
    → all_opaque img (img.width * img.height) 0 ≡ true
    → q < 0 * img.width + img.height * img.width
    → byte_at img (4 * q) 3 ≡ 255
opaque_pixels img q e h =
    ap (λ n. byte_at img (4 * n) 3) (let z : q ≡ 0 + q = omega arith in z)
    ∙ all_opaque→alpha img (img.width * img.height) 0 q e
        (omega (arith, h, mul_comm img.width img.height))

pub read_pixels_lem :
    (img : PixelView) (opaque : Bool)
    → all_opaque img (img.width * img.height) 0 ≡ opaque
    → length img.rgba ≡ img.height * (img.width * 4)
    → read_pixels img.width img.height opaque (raw_rows img (depth_of opaque) img.height 0)
      ≡ some (record { width = img.width; height = img.height; rgba = img.rgba })
unfolding read_pixels
read_pixels_lem img true e size =
    let inside : RowsInside img img.height 0 = omega (arith, size) in
    let pixels : with_alpha (pixel_rows img 3 img.height 0) ≡ img.rgba =
      pixel_rows-three img img.height 0 inside (λ q lo hi. opaque_pixels img q e hi)
      ∙ whole img size in
    rw (unfilter-raw_rows img 3 img.height 0 (omega arith) inside) (rw pixels refl)
read_pixels_lem img false e size =
    let inside : RowsInside img img.height 0 = omega (arith, size) in
    let pixels : pixel_rows img 4 img.height 0 ≡ img.rgba =
      pixel_rows-four img img.height 0 ∙ whole img size in
    rw (unfilter-raw_rows img 4 img.height 0 (omega arith) inside) (rw pixels refl)
