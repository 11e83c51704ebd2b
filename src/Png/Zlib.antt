-- ===== src/Png/Zlib.antt =====
-- The zlib stream of src/png.cpp is read back by the rules of RFC 1950.
use hh_cpp.Base.Streams.{length-low_bits, low_bits, read_bits-low_bits}
use hh_cpp.Base.{ℕ, ◌+◌, ◌*◌, ◌%◌, ◌^◌, ◌<◌, ◌≡◌, refl, sym, ap, ◌∙◌, arith}
use hh_cpp.Base.{some, List, [], ◌∷◌, ◌++◌, append_assoc}
use hh_cpp.Base.{append-nil, length, length-append, drop-append, u8, ◌>>>◌, All, IsByte}
use hh_cpp.Derive.Equality.{==_refl}
use hh_cpp.Checksum.{adler32}
use hh_cpp.Checksum.Adler.{adler32_lem, adler_word-lt}
use hh_cpp.Png.{deflate_fixed, put_be32}
use hh_cpp.Png.Stream.{bytes_bits, bytes_bits-append}
use hh_cpp.Png.Inflate.{inflate}
use hh_cpp.Png.Matches.{InWindow}
use hh_cpp.Png.RoundTrip.{Deflated, deflate_fixed-Deflated}
use hh_cpp.Png.Chunks.{length-put_be32}
use hh_cpp.Png.Decode.{read_word, unzlib, rfc1950_adler}

-- The bits of four bytes, one after the other.
four_bytes :
    (a b c d : ℕ) (rest : List ℕ)
    → bytes_bits (a ∷ b ∷ c ∷ d ∷ []) ++ rest
      ≡ low_bits 8 a ++ (low_bits 8 b ++ (low_bits 8 c ++ (low_bits 8 d ++ rest)))
unfolding bytes_bits
four_bytes a b c d rest = refl

read_word_lem :
    (a b c d : ℕ) (rest : List ℕ)
    → a < 256
    → b < 256
    → c < 256
    → d < 256
    → read_word (bytes_bits (a ∷ b ∷ c ∷ d ∷ []) ++ rest)
      ≡ some (((a * 256 + b) * 256 + c) * 256 + d, rest)
unfolding read_word
read_word_lem a b c d rest ha hb hc hd = rw (four_bytes a b c d rest) (
    rw (read_bits-low_bits 8 a (low_bits 8 b ++ (low_bits 8 c ++ (low_bits 8 d ++ rest))) ha) (
      rw (read_bits-low_bits 8 b (low_bits 8 c ++ (low_bits 8 d ++ rest)) hb) (
        rw (read_bits-low_bits 8 c (low_bits 8 d ++ rest) hc)
          (rw (read_bits-low_bits 8 d rest hd) refl))))

read_word-put_be32 : (v : ℕ) → v < 2 ^ 32 → read_word (bytes_bits (put_be32 v)) ≡ some (v, [])
unfolding put_be32
read_word-put_be32 v h =
    ap read_word (sym (append-nil _))
    ∙ read_word_lem (u8 (v >>> 24)) (u8 (v >>> 16)) (u8 (v >>> 8)) (u8 v) [] (omega arith)
        (omega arith) (omega arith) (omega arith)
    ∙ ap (λ n. some (n, [])) (omega arith)

pub length-bytes_bits : (bytes : List ℕ) → length (bytes_bits bytes) ≡ 8 * length bytes
unfolding bytes_bits
length-bytes_bits [] = refl
length-bytes_bits (b ∷ bytes) = omega (
  arith,
  length-append (low_bits 8 b) (bytes_bits bytes),
  length-low_bits 8 b,
  length-bytes_bits bytes,
)

header_bits :
    (body : List ℕ)
    → bytes_bits (0x78 ∷ 0x01 ∷ []) ++ body ≡ low_bits 8 0x78 ++ (low_bits 8 0x01 ++ body)
unfolding bytes_bits low_bits
header_bits body = refl

adler_lem : (raw : List ℕ) → All IsByte raw → adler32 raw 1 ≡ rfc1950_adler raw
adler_lem raw bytes = adler32_lem raw 1 0 bytes (omega arith) (omega arith)

unzlib_lem :
    (bytes raw inner pad tail : List ℕ)
    → bytes_bits bytes ≡ low_bits 8 0x78 ++ (low_bits 8 0x01 ++ inner)
    → inflate inner ≡ some (raw, pad ++ tail)
    → length pad < 8
    → length tail ≡ 32
    → read_word tail ≡ some (rfc1950_adler raw, [])
    → unzlib bytes ≡ some raw
unfolding unzlib
unzlib_lem bytes raw inner pad tail all read short size sum =
    let over : length (pad ++ tail) % 8 ≡ length pad = omega (arith, length-append pad tail) in
    rw all (
      rw (read_bits-low_bits 8 0x78 (low_bits 8 0x01 ++ inner) (omega arith)) (
        rw (read_bits-low_bits 8 0x01 inner (omega arith)) (
          rw read
            (rw (over, drop-append pad tail) (rw sum (rw (==_refl (rfc1950_adler raw)) refl))))))

-- What `deflate_fixed` and the checksum make of some bytes is a zlib stream of them.
pub unzlib-deflate_fixed :
    (raw : List ℕ) (bpp stride : ℕ)
    → All IsByte raw
    → InWindow bpp
    → InWindow stride
    → unzlib (deflate_fixed raw bpp stride (0x78 ∷ 0x01 ∷ []) ++ put_be32 (adler32 raw 1))
      ≡ some raw
unzlib-deflate_fixed raw bpp stride bytes near far =
    let front = deflate_fixed raw bpp stride (0x78 ∷ 0x01 ∷ []) in
    let sum = put_be32 (adler32 raw 1) in
    let tail = bytes_bits sum in
    let (body, pad, short, size, all, reads) : Deflated raw (0x78 ∷ 0x01 ∷ []) front =
      deflate_fixed-Deflated raw bpp stride (0x78 ∷ 0x01 ∷ []) bytes near far in
    let layout : bytes_bits (front ++ sum)
        ≡ low_bits 8 0x78 ++ (low_bits 8 0x01 ++ (body ++ tail)) =
      bytes_bits-append front sum
      ∙ ap (λ r. r ++ tail) all
      ∙ append_assoc (bytes_bits (0x78 ∷ 0x01 ∷ [])) body tail
      ∙ header_bits (body ++ tail) in
    let word : read_word tail ≡ some (rfc1950_adler raw, []) =
      ap (λ v. read_word (bytes_bits (put_be32 v))) (adler_lem raw bytes)
      ∙ read_word-put_be32 (rfc1950_adler raw) (adler_word-lt raw) in
    unzlib_lem (front ++ sum) raw (body ++ tail) pad tail layout (reads tail) short
      (omega (arith, length-bytes_bits sum, length-put_be32 (adler32 raw 1))) word
