-- ===== src/Png/Lossless.antt =====
-- The whole file of encode of src/png.cpp, read by a reader of the PNG specification.
use hh_cpp.Base.{ℕ, ◌+◌, ◌*◌, ◌≤◌, ◌<◌, ◌≡◌, refl, ap, ◌∙◌, arith, Bool, true}
use hh_cpp.Base.{some, List, [], ◌∷◌, ◌++◌}
use hh_cpp.Base.{length, length-append, take, drop, All, IsByte, codes}
use hh_cpp.Base.{if_both, ◌^◌}
use hh_cpp.Types.{bytes_equal}
use native.Mathlib.Nat.{mul-le-mul}
use hh_cpp.Checksum.{adler32}
use hh_cpp.Encode.{PixelView, valid_dimensions}
use hh_cpp.Png.{raw_rows, deflate_fixed, put_be32, put_chunk, all_opaque, png_bytes, signature}
use hh_cpp.Png.Stream.{bytes_bits}
use hh_cpp.Png.Matches.{InWindow}
use hh_cpp.Png.RoundTrip.{Deflated, deflate_fixed-Deflated}
use hh_cpp.Png.Zlib.{unzlib-deflate_fixed, length-bytes_bits}
use hh_cpp.Base.{All-append}
use hh_cpp.Png.Chunks.{length-put_be32}
use hh_cpp.Png.Written.{deflate_fixed-All, put_be32-All}
use hh_cpp.Png.Decode.{unzlib, decode_png, decode_chunks}
use hh_cpp.Png.Parts.{
  read_chunks_lem, header_of, read_header_lem, header-All, length-header, raw_rows-All,
  length-raw_rows, read_pixels_lem, depth_of,
}

zlib_of : PixelView → ℕ → List ℕ
zlib_of img bpp =
    let raw = raw_rows img bpp img.height 0 in
    deflate_fixed raw bpp (1 + img.width * bpp) (0x78 ∷ 0x01 ∷ []) ++ put_be32 (adler32 raw 1)

-- The file for a choice of the colour type.
file_of : PixelView → Bool → List ℕ
file_of img opaque =
    signature
    ++ put_chunk (codes "IHDR") (header_of img.width img.height opaque)
    ++ put_chunk (codes "sRGB") (0 ∷ [])
    ++ put_chunk (codes "IDAT") (zlib_of img (depth_of opaque))
    ++ put_chunk (codes "IEND") []

png_bytes-file_of :
    (img : PixelView) → png_bytes img ≡ file_of img (all_opaque img (img.width * img.height) 0)
unfolding png_bytes file_of header_of zlib_of
png_bytes-file_of img = refl

-- What an image that is admitted satisfies.
abbrev pub IsImage : PixelView → Type 0
IsImage img =
    (valid_dimensions img.width img.height ≡ true)
    × (length img.rgba ≡ img.height * (img.width * 4))
    × All IsByte img.rgba

dimensions : (w h : ℕ) → valid_dimensions w h ≡ true → (1 ≤ w) × (w ≤ 4096) × (1 ≤ h) × (h ≤ 4096)
unfolding valid_dimensions
dimensions w h e = ground arith

stride-InWindow :
    (w bpp : ℕ) → 1 ≤ w → w ≤ 4096 → 1 ≤ bpp → bpp ≤ 4 → InWindow bpp × InWindow (1 + w * bpp)
stride-InWindow w bpp lo hi b1 b4 =
    let q : w * bpp ≤ 4096 * 4 = mul-le-mul hi b4 in
    ((omega arith, omega arith), (omega arith, omega arith))

rows-small : (w h bpp : ℕ) → w ≤ 4096 → h ≤ 4096 → bpp ≤ 4 → h * (1 + w * bpp) ≤ 4096 * 16385
rows-small w h bpp hw hh hb =
    let q : w * bpp ≤ 4096 * 4 = mul-le-mul hw hb in
    mul-le-mul {n₂ = 4096} {m₂ = 16385} hh (omega arith)

zlib_of-small :
    (img : PixelView) (bpp : ℕ)
    → IsImage img
    → 1 ≤ bpp
    → bpp ≤ 4
    → length (zlib_of img bpp) < 2 ^ 32
unfolding zlib_of
zlib_of-small img bpp (valid, size, bytes) b1 b4 =
    let (w1, w2, h1, h2) = dimensions img.width img.height valid in
    let raw = raw_rows img bpp img.height 0 in
    let window = stride-InWindow img.width bpp w1 w2 b1 b4 in
    let front = deflate_fixed raw bpp (1 + img.width * bpp) (0x78 ∷ 0x01 ∷ []) in
    let (body, pad, short, few, all, reads) : Deflated raw (0x78 ∷ 0x01 ∷ []) front =
      deflate_fixed-Deflated raw bpp (1 + img.width * bpp) (0x78 ∷ 0x01 ∷ [])
        (raw_rows-All img bpp img.height 0 bytes) window.0 window.1 in
    let rows : length raw ≡ img.height * (1 + img.width * bpp) =
      length-raw_rows img bpp img.height 0 b4 (omega (arith, size)) in
    omega (
      arith,
      few,
      rows,
      rows-small img.width img.height bpp w2 h2 b4,
      ap length all,
      length-bytes_bits front,
      length-append (bytes_bits (0x78 ∷ 0x01 ∷ [])) body,
      length-bytes_bits (0x78 ∷ 0x01 ∷ []),
      length-append front (put_be32 (adler32 raw 1)),
      length-put_be32 (adler32 raw 1),
    )

zlib_of-All : (img : PixelView) (bpp : ℕ) → All IsByte (zlib_of img bpp)
unfolding zlib_of
zlib_of-All img bpp =
    All-append _ _ _
      (deflate_fixed-All (raw_rows img bpp img.height 0) bpp (1 + img.width * bpp)
        (0x78 ∷ 0x01 ∷ []) (omega arith, (omega arith, tt)))
      (put_be32-All (adler32 (raw_rows img bpp img.height 0) 1))

unzlib-zlib_of :
    (img : PixelView) (bpp : ℕ)
    → IsImage img
    → 1 ≤ bpp
    → bpp ≤ 4
    → unzlib (zlib_of img bpp) ≡ some (raw_rows img bpp img.height 0)
unfolding zlib_of
unzlib-zlib_of img bpp (valid, size, bytes) b1 b4 =
    let (w1, w2, h1, h2) = dimensions img.width img.height valid in
    let window = stride-InWindow img.width bpp w1 w2 b1 b4 in
    unzlib-deflate_fixed (raw_rows img bpp img.height 0) bpp (1 + img.width * bpp)
      (raw_rows-All img bpp img.height 0 bytes) window.0 window.1

signed :
    (a b c d : List ℕ)
    → decode_png (signature ++ a ++ b ++ c ++ d) ≡ decode_chunks (a ++ b ++ c ++ d)
unfolding decode_png take drop bytes_equal
signed a b c d = refl

decode-file_of :
    (img : PixelView) (opaque : Bool)
    → all_opaque img (img.width * img.height) 0 ≡ opaque
    → IsImage img
    → decode_png (file_of img opaque)
      ≡ some (record { width = img.width; height = img.height; rgba = img.rgba })
unfolding file_of decode_chunks
decode-file_of img opaque e (valid, size, bytes) =
    let image : IsImage img = (valid, size, bytes) in
    let (w1, w2, h1, h2) = dimensions img.width img.height valid in
    let b1 : 1 ≤ depth_of opaque = if_both (λ n. 1 ≤ n) opaque 3 4 (omega arith) (omega arith) in
    let b4 : depth_of opaque ≤ 4 = if_both (λ n. n ≤ 4) opaque 3 4 (omega arith) (omega arith) in
    let ihdr = header_of img.width img.height opaque in
    let zlib = zlib_of img (depth_of opaque) in
    signed (put_chunk (codes "IHDR") ihdr) (put_chunk (codes "sRGB") (0 ∷ []))
      (put_chunk (codes "IDAT") zlib) (put_chunk (codes "IEND") [])
    ∙ rw
        (read_chunks_lem ihdr zlib (header-All img.width img.height opaque)
          (zlib_of-All img (depth_of opaque))
          (omega (arith, length-header img.width img.height opaque))
          (zlib_of-small img (depth_of opaque) image b1 b4))
        (rw (read_header_lem img.width img.height opaque (omega arith) (omega arith)) (
          rw (unzlib-zlib_of img (depth_of opaque) image b1 b4)
            (read_pixels_lem img opaque e size)))

-- The PNG encoder loses nothing: for an image of admitted dimensions with four bytes for each
-- pixel, a reader who checks the signature, the chunk types, every CRC and the Adler checksum,
-- decompresses the data and expands opaque pixels gets the dimensions and the pixels back.
pub decode_png-png_bytes :
    (img : PixelView)
    → IsImage img
    → decode_png (png_bytes img)
      ≡ some (record { width = img.width; height = img.height; rgba = img.rgba })
decode_png-png_bytes img image =
    ap decode_png (png_bytes-file_of img)
    ∙ decode-file_of img (all_opaque img (img.width * img.height) 0) refl image
