-- ===== src/Pbkdf2.antt =====
-- PBKDF2 with HMAC-SHA-256: src/pbkdf2.cpp. The iteration loop runs two compressions a round on a
-- prepared block instead of two whole HMACs.
pub mod Rfc
use hh_cpp.Base.{ℕ, zero, suc, ◌+◌, ◌-◌, ◌*◌, min, bit_xor, List, [], ◌∷◌, ◌++◌}
use hh_cpp.Base.{u8, u32, ◌>>>◌, ltb, if◌then◌else◌, length, take, replicate, set, write_at}
use hh_cpp.Sha256.Compress.{sha256_block_size, sha256_digest_size}
use hh_cpp.Sha256.Compress.{sha256_compress, sha256_store}
use hh_cpp.Hmac.{Hmac, hmac_sha256, hmac_update, hmac_finish}

abbrev bit_length : ℕ
bit_length = (sha256_block_size + sha256_digest_size) * 8

-- 32 bytes to fill, the terminator, and the length of 64 + 32 bytes in bits.
initial_block : List ℕ
initial_block =
    set (set (set (replicate 64 0) 32 0x80) (sha256_block_size - 2) (u8 (bit_length >>> 8)))
      (sha256_block_size - 1) (u8 bit_length)

-- `t[k] ^= block[k]` for the bytes of `t`.
pub xor_into : List ℕ → List ℕ → List ℕ
xor_into [] bs = []
xor_into (a ∷ as') [] = a ∷ as'
xor_into (a ∷ as') (b ∷ bs) = u8 (bit_xor a b) ∷ xor_into as' bs

-- The local arrays of the function.
record Work : Type 0 where
  block : List ℕ
  t : List ℕ

iterate_round : Hmac → Work → Work
iterate_round prf w =
    let block1 = write_at w.block 0 (sha256_store (sha256_compress prf.inner_state w.block)) in
    let block2 = write_at block1 0 (sha256_store (sha256_compress prf.outer_state block1)) in
    record { block = block2; t = xor_into w.t block2 }

-- `for (j = 1; j < iterations; ++j)`, with the rounds left.
iterate : ℕ → Hmac → Work → Work
unfolding iterate_round
iterate zero prf w = w
iterate (suc left) prf w = iterate left prf (iterate_round prf w)

index_be : ℕ → List ℕ
index_be i = u8 (i >>> 24) ∷ u8 (i >>> 16) ∷ u8 (i >>> 8) ∷ u8 i ∷ []

-- One round of the loop over the output: the blocks of the work area and the 32 bytes of `t`.
derive_block : Hmac → List ℕ → ℕ → ℕ → Work → Work
unfolding index_be iterate
derive_block prf salt iterations block_index w =
    let first = hmac_update (hmac_update prf salt) (index_be block_index) in
    let block1 = write_at w.block 0 (hmac_finish first).1 in
    iterate (iterations - 1) prf (record { block = block1; t = take sha256_digest_size block1 })

-- `for (offset = 0; offset < out_size; offset += 32, ++block_index)`, with fuel. A round writes
-- 32 bytes or ends the loop.
output_loop : ℕ → Hmac → List ℕ → ℕ → ℕ → ℕ → ℕ → Work → List ℕ
output_loop zero prf salt iterations out_size offset block_index w = []
output_loop (suc fuel) prf salt iterations out_size offset block_index w =
    let w' = derive_block prf salt iterations block_index w in
    let n = min sha256_digest_size (out_size - offset) in
    let rest =
      output_loop fuel prf salt iterations out_size (offset + sha256_digest_size)
        (u32 (block_index + 1)) w' in
    if ltb offset out_size then take n w'.t ++ rest else []

-- The bytes that are written to `out`.
pub pbkdf2_hmac_sha256 : List ℕ → List ℕ → ℕ → ℕ → List ℕ
unfolding initial_block output_loop derive_block
pbkdf2_hmac_sha256 password salt iterations out_size =
    output_loop out_size (hmac_sha256 password) salt iterations out_size 0 1
      (record { block = initial_block; t = replicate sha256_digest_size 0 })
