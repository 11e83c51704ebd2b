-- ===== src/Png/Decode.antt =====
-- What a reader of the PNG specification does with a file of the chunks IHDR, sRGB, IDAT and IEND
-- whose rows have the filter 0: the description that png_bytes of src/png.cpp is proved against.
use hh_cpp.Base.Streams.{after, read_bits}
use hh_cpp.Base.{ℕ, zero, suc, ◌+◌, ◌*◌, ◌/◌, ◌%◌, Bool, true, false, ◌&&◌, leb, ◌==◌, not32}
use hh_cpp.Base.{if◌then◌else◌, Option, none, some, List, [], ◌∷◌, ◌++◌, length, take, drop, codes}
use hh_cpp.Types.{bytes_equal}
use hh_cpp.Checksum.Crc.{crc_register}
use hh_cpp.Checksum.Adler.{adler_sums, adler_word}
use hh_cpp.Png.Stream.{bytes_bits}
use hh_cpp.Png.Inflate.{inflate}

unfoldable pub read_be32 : List ℕ → Option (ℕ × List ℕ)
read_be32 (a ∷ b ∷ c ∷ d ∷ rest) = some (((a * 256 + b) * 256 + c) * 256 + d, rest)
read_be32 bytes = none

-- The CRC by its definition as a division, bit by bit.
abbrev pub chunk_crc : List ℕ → ℕ
chunk_crc bytes = not32 (crc_register bytes (not32 0))

-- The data of a chunk with the given type, and the bytes behind it.
unfoldable pub read_chunk : List ℕ → List ℕ → Option (List ℕ × List ℕ)
read_chunk type bytes = after (read_be32 bytes) (λ n. after (read_be32 (drop (4 + n.0) n.1)) (λ c.
    if bytes_equal (take 4 n.1) type && (c.0 == chunk_crc (take (4 + n.0) n.1))
    then some (drop 4 (take (4 + n.0) n.1), c.1)
    else none))

-- Four bytes of a stream of bits, most significant byte first.
unfoldable pub read_word : List ℕ → Option (ℕ × List ℕ)
read_word bits = after (read_bits 8 bits) (λ a. after (read_bits 8 a.1) (λ b.
    after (read_bits 8 b.1) (λ c.
      after (read_bits 8 c.1) (λ d. some (((a.0 * 256 + b.0) * 256 + c.0) * 256 + d.0, d.1)))))

abbrev pub rfc1950_adler : List ℕ → ℕ
rfc1950_adler raw = adler_word (adler_sums raw (record { a = 1; b = 0 }))

-- RFC 1950: two bytes of header, the deflate stream up to a byte boundary, the checksum.
unfoldable pub unzlib : List ℕ → Option (List ℕ)
unzlib bytes = after (read_bits 8 (bytes_bits bytes)) (λ cmf. after (read_bits 8 cmf.1) (λ flg.
    if cmf.0 % 16 == 8
      && leb (cmf.0 / 16) 7
      && (flg.0 / 32) % 2 == 0
      && (cmf.0 * 256 + flg.0) % 31 == 0
    then after (inflate flg.1) (λ r.
      after (read_word (drop (length r.1 % 8) r.1))
        (λ sum. if sum.0 == rfc1950_adler r.0 then some r.0 else none))
    else none))

-- `height` rows of `size` bytes, each behind its filter 0.
unfoldable pub unfilter : ℕ → ℕ → List ℕ → Option (List ℕ)
unfilter zero size [] = some []
unfilter zero size (b ∷ raw) = none
unfilter (suc height) size (zero ∷ raw) =
    after (unfilter height size (drop size raw)) (λ rest. some (take size raw ++ rest))
unfilter (suc height) size raw = none

-- The pixels of colour type 2 are opaque.
unfoldable pub with_alpha : List ℕ → List ℕ
with_alpha (r ∷ g ∷ b ∷ rest) = r ∷ g ∷ b ∷ 255 ∷ with_alpha rest
with_alpha bytes = []

pub record Picture : Type 0 where
  pub width : ℕ
  pub height : ℕ
  pub rgba : List ℕ

-- The rest of the header: eight bits for each channel, colour type 2 or 6, and three zeros.
unfoldable pub read_colour : List ℕ → Option Bool
read_colour bytes =
    if bytes_equal bytes (8 ∷ 2 ∷ 0 ∷ 0 ∷ 0 ∷ [])
    then some true
    else if bytes_equal bytes (8 ∷ 6 ∷ 0 ∷ 0 ∷ 0 ∷ [])
    then some false
    else none

unfoldable pub read_header : List ℕ → Option ((ℕ × ℕ) × Bool)
read_header bytes = after (read_be32 bytes) (λ width.
    after (read_be32 width.1)
      (λ height. after (read_colour height.1) (λ opaque. some ((width.0, height.0), opaque))))

unfoldable pub read_pixels : ℕ → ℕ → Bool → List ℕ → Option Picture
read_pixels width height opaque raw =
    after (unfilter height (width * (if opaque then 3 else 4)) raw) (λ pixels. some (record {
      width = width;
      height = height;
      rgba = if opaque then with_alpha pixels else pixels;
    }))

-- The chunks behind the signature.
unfoldable pub read_chunks : List ℕ → Option (List ℕ × List ℕ)
read_chunks bytes = after (read_chunk (codes "IHDR") bytes) (λ ihdr.
    after (read_chunk (codes "sRGB") ihdr.1) (λ srgb.
      after (read_chunk (codes "IDAT") srgb.1) (λ idat.
        after (read_chunk (codes "IEND") idat.1) (λ iend.
          if length iend.0 == 0 && length iend.1 == 0 then some (ihdr.0, idat.0) else none))))

unfoldable pub decode_chunks : List ℕ → Option Picture
decode_chunks bytes = after (read_chunks bytes) (λ chunks.
    after (read_header chunks.0)
      (λ header. after (unzlib chunks.1) (λ raw. read_pixels header.0.0 header.0.1 header.1 raw)))

unfoldable pub decode_png : List ℕ → Option Picture
decode_png bytes =
    if bytes_equal (take 8 bytes) (0x89 ∷ 0x50 ∷ 0x4e ∷ 0x47 ∷ 0x0d ∷ 0x0a ∷ 0x1a ∷ 0x0a ∷ [])
    then decode_chunks (drop 8 bytes)
    else none
