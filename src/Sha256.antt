-- ===== src/Sha256.antt =====
-- SHA-256: the incremental hasher, class `sha256` of src/sha256.cpp: one function for each member function.
-- A pointer with a size is the list of the bytes that it covers.
pub mod Compress
pub mod Fips
pub mod Streaming
pub mod Padding
pub mod Digest
use hh_cpp.Base.{ℕ, zero, suc, ◌+◌, ◌-◌, ◌*◌, min}
use hh_cpp.Base.{List, length, take, drop, replicate, set, write_at}
use hh_cpp.Base.{u8, u64, ◌>>>◌, ltb, leb, ◌==◌, if◌then◌else◌}
use Compress.{sha256_block_size, sha256_initial_state}
use Compress.{sha256_compress, sha256_compress_secret, sha256_store, secure_wipe}

pub data Secrecy : Type 0 where
  public_data secret_data : Secrecy

pub record Sha256 : Type 0 where
  pub state : List ℕ
  pub buffer : List ℕ
  pub length_ : ℕ
  pub buffered : ℕ
  pub secrecy : Secrecy

-- The two constructors; the second resumes from a mid-state.
unfoldable pub sha256 : Secrecy → Sha256
sha256 s = record {
  state = sha256_initial_state;
  buffer = replicate 64 0;
  length_ = 0;
  buffered = 0;
  secrecy = s;
}

unfoldable pub sha256_resume : List ℕ → ℕ → Secrecy → Sha256
sha256_resume state n s = record {
  state = state;
  buffer = replicate 64 0;
  length_ = n;
  buffered = 0;
  secrecy = s;
}

pub reset : Sha256 → Sha256
unfolding secure_wipe
reset h = record h {
  state = sha256_initial_state;
  buffer = secure_wipe 64;
  length_ = 0;
  buffered = 0;
}

compress_with : Secrecy → List ℕ → List ℕ → List ℕ
compress_with Secrecy.secret_data state block = sha256_compress_secret state block
compress_with Secrecy.public_data state block = sha256_compress state block

pub compress : Sha256 → List ℕ → Sha256
unfolding compress_with
compress h block = record h { state = compress_with h.secrecy h.state block }

-- `while (size >= sha256_block_size)`, with fuel. A round takes 64 bytes.
compress_loop : ℕ → Sha256 → List ℕ → Sha256 × List ℕ
compress_loop zero h bytes = (h, bytes)
compress_loop (suc fuel) h bytes =
    let rest = compress_loop fuel (compress h (take 64 bytes)) (drop 64 bytes) in
    if leb sha256_block_size (length bytes) then rest else (h, bytes)

-- `if (size != 0)` at the end of `update`.
keep_rest : List ℕ → Sha256 → Sha256
keep_rest rest h =
    if length rest == 0
    then h
    else record h { buffer = write_at h.buffer 0 rest; buffered = length rest }

-- What `update` does once the buffer is empty.
update_aligned : Sha256 → List ℕ → Sha256
unfolding keep_rest
update_aligned h bytes = let (h', rest) = compress_loop (length bytes) h bytes in keep_rest rest h'

update_buffered : Sha256 → List ℕ → Sha256
update_buffered h bytes =
    let n = min (length bytes) (sha256_block_size - h.buffered) in
    let buffer' = write_at h.buffer h.buffered (take n bytes) in
    let buffered' = h.buffered + n in
    let h' = record h { buffer = buffer'; buffered = buffered' } in
    if ltb buffered' sha256_block_size
    then h'
    else update_aligned (record (compress h' buffer') { buffered = 0 }) (drop n bytes)

pub update : Sha256 → List ℕ → Sha256
unfolding update_aligned update_buffered
update h bytes =
    let h' = record h { length_ = u64 (h.length_ + length bytes) } in
    if length bytes == 0
    then h
    else if h.buffered == 0
    then update_aligned h' bytes
    else update_buffered h' bytes

-- `buffer_[63 - i] = uint8_t(bit_length >> (8 * i))`, with the rounds left.
length_loop : ℕ → ℕ → ℕ → List ℕ → List ℕ
length_loop zero i bit_length buffer = buffer
length_loop (suc left) i bit_length buffer =
    length_loop left (i + 1) bit_length (set buffer (63 - i) (u8 (bit_length >>> (8 * i))))

-- The extra block of `finish`, where the length does not fit behind the terminator.
spill : Sha256 → Sha256
spill h =
    let buffer' = write_at h.buffer h.buffered (replicate (sha256_block_size - h.buffered) 0) in
    if ltb (sha256_block_size - 8) h.buffered
    then record (compress (record h { buffer = buffer' }) buffer') { buffered = 0 }
    else h

pub finish : Sha256 → Sha256 × List ℕ
unfolding spill length_loop
finish h =
    let bit_length = u64 (h.length_ * 8) in
    let marked = record h { buffer = set h.buffer h.buffered 0x80; buffered = h.buffered + 1 } in
    let h1 = spill marked in
    let zeroed =
      write_at h1.buffer h1.buffered (replicate (sha256_block_size - 8 - h1.buffered) 0) in
    let buffer' = length_loop 8 0 bit_length zeroed in
    let h2 = compress (record h1 { buffer = buffer' }) buffer' in
    (record h2 { buffered = 0 }, sha256_store h2.state)

pub sha256_hash : List ℕ → List ℕ
sha256_hash bytes = (finish (update (sha256 Secrecy.public_data) bytes)).1
