-- ===== src/Hmac.antt =====
-- HMAC-SHA-256: src/hmac.cpp and src/hmac.hpp. The class keeps two mid-states and an inner hasher.
pub mod Rfc
use hh_cpp.Base.{ℕ, bit_xor, List, [], ◌∷◌, ◌++◌, map, length, replicate}
use hh_cpp.Base.{u8, ltb, ◌==◌, if◌then◌else◌, write_at}
use hh_cpp.Sha256.Compress.{sha256_block_size, sha256_initial_state, sha256_compress_secret}
use hh_cpp.Sha256.{Sha256, Secrecy, sha256, sha256_resume, update, finish}

-- The block is the padded key with every byte changed; the result is the mid-state.
unfoldable pub absorb_padded_key : List ℕ → ℕ → List ℕ
absorb_padded_key key_block pad =
    sha256_compress_secret sha256_initial_state (map (λ b. u8 (bit_xor b pad)) key_block)

pub record Hmac : Type 0 where
  pub inner_state : List ℕ
  pub outer_state : List ℕ
  pub inner : Sha256

-- A long key is hashed, a short one is padded with zeros.
key_block_of : List ℕ → List ℕ
key_block_of key =
    let zeros : List ℕ = replicate sha256_block_size 0 in
    if ltb sha256_block_size (length key)
    then write_at zeros 0 (finish (update (sha256 Secrecy.secret_data) key)).1
    else if length key == 0
    then zeros
    else write_at zeros 0 key

pub hmac_sha256 : List ℕ → Hmac
unfolding key_block_of absorb_padded_key
hmac_sha256 key =
    let key_block = key_block_of key in
    let inner_state' = absorb_padded_key key_block 0x36 in
    let outer_state' = absorb_padded_key key_block 0x5c in
    record {
      inner_state = inner_state';
      outer_state = outer_state';
      inner = sha256_resume inner_state' sha256_block_size Secrecy.secret_data;
    }

pub hmac_update : Hmac → List ℕ → Hmac
hmac_update m bytes = record m { inner = update m.inner bytes }

pub hmac_finish : Hmac → Hmac × List ℕ
hmac_finish m =
    let (inner', inner_digest) = finish m.inner in
    let outer = sha256_resume m.outer_state sha256_block_size Secrecy.secret_data in
    (record m { inner = inner' }, (finish (update outer inner_digest)).1)

pub hmac_sha256_tag : List ℕ → List ℕ → List ℕ
hmac_sha256_tag key bytes = (hmac_finish (hmac_update (hmac_sha256 key) bytes)).1
