-- ===== src/Checksum.antt =====
-- CRC-32 and Adler-32: src/checksum.cpp.
mod Tests
pub mod Adler
pub mod Crc
use hh_cpp.Base.{ℕ, zero, suc, ◌+◌, ◌-◌, ◌*◌, ◌/◌, ◌%◌, ◌^◌, min, bit_and, bit_or, bit_xor}
use hh_cpp.Base.{List, [], ◌∷◌, length, take, drop, get_or}
use hh_cpp.Base.{u32, not32, ◌<<<◌, ◌>>>◌, ◌==◌, if◌then◌else◌}

-- `c = (c & 1) != 0 ? 0xEDB88320 ^ (c >> 1) : c >> 1`, and the eight rounds of it.
crc_bit : ℕ → ℕ
crc_bit c = if bit_and c 1 == 0 then c >>> 1 else bit_xor 0xedb88320 (c >>> 1)

crc_bits : ℕ → ℕ → ℕ
unfolding crc_bit
crc_bits zero c = c
crc_bits (suc k) c = crc_bits k (crc_bit c)

table_from : ℕ → ℕ → List ℕ
unfolding crc_bits
table_from zero n = []
table_from (suc left) n = crc_bits 8 n ∷ table_from left (n + 1)

crc_table : List ℕ
unfolding table_from
crc_table = table_from 256 0

crc_loop : List ℕ → ℕ → ℕ
unfolding crc_table
crc_loop [] crc = crc
crc_loop (b ∷ rest) crc =
    crc_loop rest (bit_xor (get_or crc_table (bit_and (bit_xor crc b) 0xff) 0) (crc >>> 8))

pub crc32 : List ℕ → ℕ → ℕ
unfolding crc_loop
crc32 bytes crc = not32 (crc_loop bytes (not32 crc))

-- The sums of `adler32`, two 32-bit words.
pub record Sums : Type 0 where
  pub a : ℕ
  pub b : ℕ

-- `a += data[i]; b += a` over one block.
add_block : List ℕ → Sums → Sums
add_block [] s = s
add_block (d ∷ rest) s =
    let a' = u32 (s.a + d) in add_block rest (record { a = a'; b = u32 (s.b + a') })

-- `while (size != 0)`, with fuel. A round takes a byte at least.
adler_loop : ℕ → List ℕ → Sums → Sums
unfolding add_block
adler_loop zero bytes s = s
adler_loop (suc fuel) bytes s =
    let n = min (length bytes) 5552 in
    let t = add_block (take n bytes) s in
    let rest = adler_loop fuel (drop n bytes) (record { a = t.a % 65521; b = t.b % 65521 }) in
    if length bytes == 0 then s else rest

pub adler32 : List ℕ → ℕ → ℕ
unfolding adler_loop
adler32 bytes adler =
    let s =
      adler_loop (length bytes) bytes (record { a = bit_and adler 0xffff; b = adler >>> 16 }) in
    bit_or (u32 (s.b <<< 16)) s.a
