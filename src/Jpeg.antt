-- ===== src/Jpeg.antt =====
-- The JPEG encoder: headers, blocks and entry points of src/jpeg.cpp.
pub mod Decoded
pub mod Header
pub mod Scans
pub mod Picture
pub mod Units
pub mod Blocks
pub mod Runs
pub mod Values
pub mod Huffman
pub mod Written
pub mod Stream
pub mod Tables
pub mod Dct
pub mod Scan
pub mod Markers
pub mod Quantiser
pub mod Rounding
use hh_cpp.Base.{
  ℕ, zero, suc, ◌+◌, ◌-◌, ◌*◌, ◌/◌, min, max, Bool, true, false, ◌&&◌, ◌||◌, ltb, leb,
}
use hh_cpp.Base.{if◌then◌else◌, List, [], ◌∷◌, ◌++◌, map, get_or, u8, ◌>>>◌}
use hh_cpp.Base.Int.{ℤ, pos, negsuc, ◌+ℤ◌, ◌-ℤ◌, ◌/ℤ◌, ◌<ℤ◌, difference, min_ℤ, max_ℤ}
use hh_cpp.Types.{Rgb}
use hh_cpp.Error.{ErrorCode, ok, invalid_image, invalid_quality, out_of_memory}
use hh_cpp.Raster.Render.{Image}
use hh_cpp.Encode.{PixelView, valid_image, view_of, byte_at, flatten}
use hh_cpp.Jpeg.Tables.{JpegHuffmanSpec, jpeg_zigzag}
use hh_cpp.Jpeg.Tables.{jpeg_luminance_quantiser, jpeg_chrominance_quantiser}
use hh_cpp.Jpeg.Tables.{jpeg_dc_luminance, jpeg_dc_chrominance}
use hh_cpp.Jpeg.Tables.{jpeg_ac_luminance, jpeg_ac_chrominance}
use hh_cpp.Jpeg.Dct.{forward_dct}
use hh_cpp.Jpeg.Scan.{HuffmanEncoder, build, ScanWriter, finish, encode_block}

unfoldable pub put_be16 : ℕ → List ℕ
put_be16 v = u8 (v >>> 8) ∷ u8 v ∷ []

unfoldable pub put_quantiser : ℕ → List ℕ → List ℕ
unfolding put_be16
put_quantiser id table =
    (0xff ∷ 0xdb ∷ []) ++ put_be16 67 ++ (id ∷ map (λ k. get_or table k 0) jpeg_zigzag)

unfoldable pub put_huffman : ℕ → JpegHuffmanSpec → List ℕ
unfolding put_be16
put_huffman id spec =
    (0xff ∷ 0xc4 ∷ [])
    ++ put_be16 (2 + 1 + 16 + spec.symbol_count)
    ++ (id ∷ spec.counts)
    ++ spec.symbols

abbrev pub clamp : ℕ → ℕ → ℕ → ℕ
clamp v lo hi = if ltb v lo then lo else if ltb hi v then hi else v

-- The quality is between 50 and 100, so that the scale is not negative.
unfoldable pub scale_quantiser : List ℕ → ℕ → List ℕ
scale_quantiser base quality =
    let scale = 200 - 2 * quality in map (λ q. u8 (clamp ((q * scale + 50) / 100) 1 255)) base

abbrev luminance_table : ℕ → List ℕ
luminance_table quality = scale_quantiser jpeg_luminance_quantiser quality

abbrev chrominance_table : ℕ → List ℕ
chrominance_table quality = scale_quantiser jpeg_chrominance_quantiser quality

unfoldable pub jpeg_header : PixelView → ℕ → List ℕ
unfolding put_quantiser put_huffman scale_quantiser
jpeg_header img quality =
    (0xff ∷ 0xd8 ∷ 0xff ∷ 0xe0 ∷ 0x00 ∷ 0x10 ∷ 0x4a ∷ 0x46 ∷ 0x49 ∷ 0x46 ∷ [])
    ++ (0x00 ∷ 0x01 ∷ 0x02 ∷ 0x00 ∷ 0x00 ∷ 0x01 ∷ 0x00 ∷ 0x01 ∷ 0x00 ∷ 0x00 ∷ [])
    ++ put_quantiser 0 (luminance_table quality)
    ++ put_quantiser 1 (chrominance_table quality)
    ++ (0xff ∷ 0xc0 ∷ [])
    ++ put_be16 17
    ++ (8 ∷ [])
    ++ put_be16 img.height
    ++ put_be16 img.width
    ++ (3 ∷ 1 ∷ 0x11 ∷ 0 ∷ 2 ∷ 0x11 ∷ 1 ∷ 3 ∷ 0x11 ∷ 1 ∷ [])
    ++ put_huffman 0x00 jpeg_dc_luminance
    ++ put_huffman 0x10 jpeg_ac_luminance
    ++ put_huffman 0x01 jpeg_dc_chrominance
    ++ put_huffman 0x11 jpeg_ac_chrominance
    ++ (0xff ∷ 0xda ∷ 0x00 ∷ 0x0c ∷ 3 ∷ 1 ∷ 0x00 ∷ 2 ∷ 0x11 ∷ 3 ∷ 0x11 ∷ 0 ∷ 63 ∷ 0 ∷ [])

pub data Component : Type 0 where
  luma blue_difference red_difference : Component

-- One sample of a component, of the flattened channels.
unfoldable colour_value : Component → ℕ → ℕ → ℕ → ℤ
colour_value luma r g b = pos (19595 * r + 38470 * g + 7471 * b + 32768) /ℤ 65536 -ℤ pos 128
colour_value blue_difference r g b =
    difference (32768 * b + 8421375) (11059 * r + 21709 * g) /ℤ 65536 -ℤ pos 128
colour_value red_difference r g b =
    difference (32768 * r + 8421375) (27439 * g + 5329 * b) /ℤ 65536 -ℤ pos 128

-- `block[c][8 * j + i]` of the block at `bx` and `by`: past the edge the last pixel is repeated.
unfoldable block_sample : PixelView → Rgb → Component → ℕ → ℕ → ℕ → ℕ → ℤ
unfolding colour_value
block_sample img matte c bx by j i =
    let y = min (by + j) (img.height - 1) in
    let x = min (bx + i) (img.width - 1) in
    let p = (y * img.width + x) * 4 in
    let a = byte_at img p 3 in
    colour_value c (flatten (byte_at img p 0) a matte.r) (flatten (byte_at img p 1) a matte.g)
      (flatten (byte_at img p 2) a matte.b)

abbrev eight : List ℕ
eight = 0 ∷ 1 ∷ 2 ∷ 3 ∷ 4 ∷ 5 ∷ 6 ∷ 7 ∷ []

-- The eight rows of a block.
block_rows : PixelView → Rgb → Component → ℕ → ℕ → List ℕ → List ℤ
unfolding block_sample
block_rows img matte c bx by [] = []
block_rows img matte c bx by (j ∷ rest) =
    map (block_sample img matte c bx by j) eight ++ block_rows img matte c bx by rest

-- The rounded division of a coefficient.
unfoldable quantise : ℤ → ℕ → ℤ
quantise (pos v) divisor = pos ((v + divisor / 2) / divisor)
quantise (negsuc v) divisor = difference 0 ((suc v + divisor / 2) / divisor)

abbrev clamp_ac : ℤ → ℤ
clamp_ac v = if v <ℤ negsuc 1022 then negsuc 1022 else if pos 1023 <ℤ v then pos 1023 else v

abbrev quantised : List ℤ → List ℕ → ℕ → ℤ
quantised block q k = quantise (get_or block k (pos 0)) (8 * get_or q k 0)

-- `zz`, of the zigzag indices; the first is not clamped.
unfoldable zigzag : List ℤ → List ℕ → List ℕ → List ℤ
unfolding quantise
zigzag block q [] = []
zigzag block q (k ∷ rest) = quantised block q k ∷ map (λ i. clamp_ac (quantised block q i)) rest

-- The writer and the three previous DC values.
pub record ScanState : Type 0 where
  pub writer : ScanWriter
  pub dc_luma : ℤ
  pub dc_blue : ℤ
  pub dc_red : ℤ

pub component_block : PixelView → Rgb → Component → ℕ → ℕ → List ℕ → List ℤ
unfolding block_rows zigzag
component_block img matte c bx by q =
    zigzag (forward_dct (block_rows img matte c bx by eight)) q jpeg_zigzag

-- The three components of one block, in turn: their coefficients, and the tables of the first
-- and of the two others.
pub encode_components :
    List ℤ
    → List ℤ
    → List ℤ
    → HuffmanEncoder
    → HuffmanEncoder
    → HuffmanEncoder
    → HuffmanEncoder
    → ScanState
    → ScanState
encode_components luma_zz blue_zz red_zz dc0 ac0 dc1 ac1 s =
    let luma_done : ScanWriter × ℤ = encode_block luma_zz s.dc_luma dc0 ac0 s.writer in
    let blue_done : ScanWriter × ℤ = encode_block blue_zz s.dc_blue dc1 ac1 luma_done.0 in
    let red_done : ScanWriter × ℤ = encode_block red_zz s.dc_red dc1 ac1 blue_done.0 in
    record {
      writer = red_done.0;
      dc_luma = luma_done.1;
      dc_blue = blue_done.1;
      dc_red = red_done.1;
    }

pub encode_unit : PixelView → Rgb → ℕ → ℕ → ℕ → ScanState → ScanState
encode_unit img matte quality by bx s =
    encode_components (component_block img matte luma bx by (luminance_table quality))
      (component_block img matte blue_difference bx by (chrominance_table quality))
      (component_block img matte red_difference bx by (chrominance_table quality))
      (build jpeg_dc_luminance) (build jpeg_ac_luminance) (build jpeg_dc_chrominance)
      (build jpeg_ac_chrominance) s

-- `for (bx = 0; bx < width; bx += 8)`, of the number of blocks that are left.
pub encode_columns : PixelView → Rgb → ℕ → ℕ → ℕ → ℕ → ScanState → ScanState
unfolding encode_unit
encode_columns img matte quality by zero bx s = s
encode_columns img matte quality by (suc left) bx s =
    encode_columns img matte quality by left (bx + 8) (encode_unit img matte quality by bx s)

pub encode_rows : PixelView → Rgb → ℕ → ℕ → ℕ → ScanState → ScanState
unfolding encode_columns
encode_rows img matte quality zero by s = s
encode_rows img matte quality (suc left) by s =
    encode_rows img matte quality left (by + 8)
      (encode_columns img matte quality by ((img.width + 7) / 8) 0 s)

unfoldable pub jpeg_bytes : PixelView → ℕ → Rgb → List ℕ
unfolding encode_rows jpeg_header
jpeg_bytes img quality matte =
    let writer : ScanWriter = record { out = jpeg_header img quality; acc = 0; used = 0 } in
    let start : ScanState = record {
      writer = writer;
      dc_luma = pos 0;
      dc_blue = pos 0;
      dc_red = pos 0;
    } in
    let done = encode_rows img matte quality ((img.height + 7) / 8) 0 start in
    (finish done.writer).out ++ (0xff ∷ 0xd9 ∷ [])

abbrev quality_of : ℤ → ℕ
quality_of (pos q) = q
quality_of (negsuc q) = 0

-- `allocated` says whether the vectors find their memory.
unfoldable pub encode_jpeg_view : PixelView → ℤ → Rgb → Bool → ErrorCode × List ℕ
encode_jpeg_view img quality matte allocated =
    if (quality <ℤ pos 50) || (pos 100 <ℤ quality)
    then (invalid_quality, [])
    else if allocated
    then (ok, jpeg_bytes img (quality_of quality) matte)
    else (out_of_memory, [])

unfoldable pub encode_jpeg : Image → ℤ → Rgb → Bool → ErrorCode × List ℕ
encode_jpeg img quality matte allocated =
    if valid_image img
    then encode_jpeg_view (view_of img) quality matte allocated
    else (invalid_image, [])
