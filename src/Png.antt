-- ===== src/Png.antt =====
-- The PNG encoder: deflate_fixed, the chunks and the entry points of src/png.cpp.
pub mod Bits
pub mod Conserved
pub mod Parts
pub mod Lossless
pub mod Written
pub mod Rows
pub mod Zlib
pub mod Chunks
pub mod Decode
pub mod RoundTrip
pub mod Deflated
pub mod Matches
pub mod Tokens
pub mod Fields
pub mod Symbols
pub mod Inflate
pub mod Codes
pub mod Stream
use hh_cpp.Base.{ℕ, zero, suc, ◌+◌, ◌-◌, ◌*◌, min, Bool, true, false, ◌&&◌, ltb, leb, ◌==◌}
use hh_cpp.Base.{if◌then◌else◌, List, [], ◌∷◌, ◌++◌, length, get_or, take, drop, u8, u32, ◌>>>◌}
use hh_cpp.Base.{codes}
use hh_cpp.Types.{Rgb}
use hh_cpp.Error.{ErrorCode, ok, invalid_image, out_of_memory}
use hh_cpp.Checksum.{crc32, adler32}
use hh_cpp.Raster.Render.{Image}
use hh_cpp.Encode.{PixelView, valid_image, view_of, byte_at}
use hh_cpp.Png.Bits.{BitWriter, put, put_symbol, put_match, flush}

-- `while (len < limit && raw[i + len] == raw[i - d + len]) ++len`, where `left` is
-- `limit - len`.
unfoldable pub match_length : List ℕ → ℕ → ℕ → ℕ → ℕ → ℕ
match_length raw i d zero len = len
match_length raw i d (suc left) len =
    let rest = match_length raw i d left (suc len) in
    if get_or raw (i + len) 0 == get_or raw (i - d + len) 0 then rest else len

pub record Match : Type 0 where
  pub best : ℕ
  pub dist : ℕ

-- The loop over the two distances.
unfoldable pub find_match : List ℕ → ℕ → ℕ → List ℕ → Match → Match
unfolding match_length
find_match raw i limit [] m = m
find_match raw i limit (d ∷ rest) m =
    let len = match_length raw i d limit 0 in
    find_match raw i limit rest
      (if ltb i d then m else if ltb m.best len then record { best = len; dist = d } else m)

-- `while (i < n)`, with fuel. A round takes a byte at least.
unfoldable pub deflate_loop : ℕ → List ℕ → List ℕ → ℕ → BitWriter → BitWriter
unfolding find_match
deflate_loop zero raw distances i w = w
deflate_loop (suc fuel) raw distances i w =
    let limit = min 258 (length raw - i) in
    let m = find_match raw i limit distances (record { best = 0; dist = 0 }) in
    let next = if leb 3 m.best then i + m.best else suc i in
    let w' = if leb 3 m.best then put_match m.best m.dist w else put_symbol (get_or raw i 0) w in
    let rest = deflate_loop fuel raw distances next w' in if ltb i (length raw) then rest else w

-- The vector `out` after the call.
unfoldable pub deflate_fixed : List ℕ → ℕ → ℕ → List ℕ → List ℕ
unfolding deflate_loop
deflate_fixed raw bpp stride out =
    let w : BitWriter = record { out = out; acc = 0; used = 0 } in
    let started = put 1 2 (put 1 1 w) in
    (flush (put_symbol 256 (deflate_loop (length raw) raw (bpp ∷ stride ∷ []) 0 started))).out

unfoldable pub put_be32 : ℕ → List ℕ
put_be32 v = u8 (v >>> 24) ∷ u8 (v >>> 16) ∷ u8 (v >>> 8) ∷ u8 v ∷ []

unfoldable pub put_chunk : List ℕ → List ℕ → List ℕ
unfolding put_be32
put_chunk type data_ =
    put_be32 (u32 (length data_)) ++ type ++ data_ ++ put_be32 (crc32 (type ++ data_) 0)

-- The loop that looks for a pixel that is not opaque, from the pixel `p` on.
unfoldable pub all_opaque : PixelView → ℕ → ℕ → Bool
all_opaque img zero p = true
all_opaque img (suc left) p = (byte_at img (4 * p) 3 == 255) && all_opaque img left (suc p)

-- The pixels of one row, from the byte `at` on.
unfoldable pub raw_row : PixelView → ℕ → ℕ → ℕ → List ℕ
raw_row img bpp zero at = []
raw_row img bpp (suc left) at = take bpp (drop at img.rgba) ++ raw_row img bpp left (at + 4)

unfoldable pub raw_rows : PixelView → ℕ → ℕ → ℕ → List ℕ
unfolding raw_row
raw_rows img bpp zero y = []
raw_rows img bpp (suc left) y =
    (0 ∷ raw_row img bpp img.width (y * img.width * 4)) ++ raw_rows img bpp left (suc y)

abbrev pub signature : List ℕ
signature = 0x89 ∷ 0x50 ∷ 0x4e ∷ 0x47 ∷ 0x0d ∷ 0x0a ∷ 0x1a ∷ 0x0a ∷ []

unfoldable pub png_bytes : PixelView → List ℕ
unfolding deflate_fixed put_be32 put_chunk all_opaque raw_rows
png_bytes img =
    let opaque = all_opaque img (img.width * img.height) 0 in
    let bpp = if opaque then 3 else 4 in
    let stride = 1 + img.width * bpp in
    let raw = raw_rows img bpp img.height 0 in
    let zlib = deflate_fixed raw bpp stride (0x78 ∷ 0x01 ∷ []) ++ put_be32 (adler32 raw 1) in
    let colour = if opaque then 2 else 6 in
    let ihdr = put_be32 img.width ++ put_be32 img.height ++ (8 ∷ colour ∷ 0 ∷ 0 ∷ 0 ∷ []) in
    signature
    ++ put_chunk (codes "IHDR") ihdr
    ++ put_chunk (codes "sRGB") (0 ∷ [])
    ++ put_chunk (codes "IDAT") zlib
    ++ put_chunk (codes "IEND") []

-- `allocated` says whether the vectors find their memory.
unfoldable pub encode_png_view : PixelView → Bool → ErrorCode × List ℕ
encode_png_view img allocated = if allocated then (ok, png_bytes img) else (out_of_memory, [])

unfoldable pub encode_png : Image → Bool → ErrorCode × List ℕ
encode_png img allocated =
    if valid_image img then encode_png_view (view_of img) allocated else (invalid_image, [])
