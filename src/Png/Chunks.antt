-- ===== src/Png/Chunks.antt =====
-- The chunks that put_chunk of src/png.cpp writes are read back.
use hh_cpp.Base.{All-append}
use hh_cpp.Base.{ℕ, ◌+◌, ◌^◌, ◌<◌, ◌≡◌, refl, sym, ap, ap₂, ◌∙◌, arith}
use hh_cpp.Base.{some, List, ◌++◌, append_assoc, length, length-append, take, drop}
use hh_cpp.Base.{u32, All, IsByte, take-append_eq, drop-append_eq, take-append_le}
use hh_cpp.Derive.Equality.{bytes_equal_refl, ==_refl}
use hh_cpp.Checksum.{crc32}
use hh_cpp.Checksum.Crc.{crc32_lem}
use hh_cpp.Png.{put_be32, put_chunk}
use hh_cpp.Png.Decode.{read_be32, read_chunk, chunk_crc}

pub length-put_be32 : (v : ℕ) → length (put_be32 v) ≡ 4
unfolding put_be32
length-put_be32 v = refl

pub read_be32-put_be32 :
    (v : ℕ) (rest : List ℕ) → v < 2 ^ 32 → read_be32 (put_be32 v ++ rest) ≡ some (v, rest)
unfolding read_be32 put_be32
read_be32-put_be32 v rest h = ap (λ n. some (n, rest)) (omega arith)

-- The parts of a chunk.
chunk_parts :
    (type data_ rest : List ℕ)
    → length data_ < 2 ^ 32
    → put_chunk type data_ ++ rest
      ≡ put_be32 (length data_) ++ ((type ++ data_) ++ (put_be32 (crc32 (type ++ data_) 0) ++ rest))
unfolding put_chunk
chunk_parts type data_ rest small =
    let size = put_be32 (u32 (length data_)) in
    let crc = put_be32 (crc32 (type ++ data_) 0) in
    let fits : u32 (length data_) ≡ length data_ = omega arith in
    append_assoc ((size ++ type) ++ data_) crc rest
    ∙ append_assoc (size ++ type) data_ (crc ++ rest)
    ∙ append_assoc size type (data_ ++ (crc ++ rest))
    ∙ ap₂ (λ n behind. put_be32 n ++ behind) fits (sym (append_assoc type data_ (crc ++ rest)))

read_parts :
    (type data_ body rest : List ℕ) (n sum : ℕ)
    → n < 2 ^ 32
    → sum < 2 ^ 32
    → length body ≡ 4 + n
    → take 4 body ≡ type
    → drop 4 body ≡ data_
    → sum ≡ chunk_crc body
    → read_chunk type (put_be32 n ++ (body ++ (put_be32 sum ++ rest))) ≡ some (data_, rest)
unfolding read_chunk
read_parts type data_ body rest n sum hn hs size et ed crc =
    let behind = put_be32 sum ++ rest in
    let cut : drop (4 + n) (body ++ behind) ≡ behind = drop-append_eq (4 + n) body behind size in
    let kept : take (4 + n) (body ++ behind) ≡ body = take-append_eq (4 + n) body behind size in
    let front : take 4 (body ++ behind) ≡ type =
      take-append_le 4 body behind (omega (arith, size)) ∙ et in
    rw (read_be32-put_be32 n (body ++ behind) hn) (
      rw cut (
        rw (read_be32-put_be32 sum rest hs)
          (rw (front, bytes_equal_refl type, kept, crc, ==_refl (chunk_crc body), ed) refl)))

-- A chunk of fewer than 2^32 bytes is read back by a reader who checks its type and its CRC by
-- the definition, whatever stands behind it.
pub read_chunk-put_chunk :
    (type data_ rest : List ℕ)
    → length type ≡ 4
    → All IsByte type
    → All IsByte data_
    → length data_ < 2 ^ 32
    → read_chunk type (put_chunk type data_ ++ rest) ≡ some (data_, rest)
read_chunk-put_chunk type data_ rest four ht hd small =
    let body = type ++ data_ in
    let crc : crc32 body 0 ≡ chunk_crc body = crc32_lem body 0 (All-append _ type data_ ht hd) in
    ap (read_chunk type) (chunk_parts type data_ rest small)
    ∙ read_parts type data_ body rest (length data_) (crc32 body 0) small (omega (arith, crc))
        (omega (arith, length-append type data_, four)) (take-append_eq 4 type data_ four)
        (drop-append_eq 4 type data_ four) crc
