-- ===== src/Sha256/Compress.antt =====
-- The compression function of src/sha256.cpp with its constants, and the storing of a state.
-- A block is read at the indices 0 to 63; a state is a list of eight words.
mod Tests
pub mod Standard
use hh_cpp.Base.{ℕ, zero, suc, ◌+◌, ◌-◌, ◌*◌, bit_and, bit_or, bit_xor}
use hh_cpp.Base.{◌≡◌, refl, Bool, true, false, List, [], ◌∷◌, ◌++◌, get_or, set, replicate, length}
use hh_cpp.Base.{u8, u32, not32, ◌<<<◌, ◌>>>◌, if◌then◌else◌}

abbrev pub sha256_block_size : ℕ
sha256_block_size = 64

abbrev pub sha256_digest_size : ℕ
sha256_digest_size = 32

abbrev pub sha256_initial_state : List ℕ
sha256_initial_state =
    0x6a09e667 ∷ 0xbb67ae85 ∷ 0x3c6ef372 ∷ 0xa54ff53a ∷ 0x510e527f ∷ 0x9b05688c ∷ 0x1f83d9ab
    ∷ 0x5be0cd19 ∷ []

k : List ℕ
k =
    0x428a2f98 ∷ 0x71374491 ∷ 0xb5c0fbcf ∷ 0xe9b5dba5 ∷ 0x3956c25b ∷ 0x59f111f1 ∷ 0x923f82a4
    ∷ 0xab1c5ed5 ∷ 0xd807aa98 ∷ 0x12835b01 ∷ 0x243185be ∷ 0x550c7dc3 ∷ 0x72be5d74 ∷ 0x80deb1fe
    ∷ 0x9bdc06a7 ∷ 0xc19bf174 ∷ 0xe49b69c1 ∷ 0xefbe4786 ∷ 0x0fc19dc6 ∷ 0x240ca1cc ∷ 0x2de92c6f
    ∷ 0x4a7484aa ∷ 0x5cb0a9dc ∷ 0x76f988da ∷ 0x983e5152 ∷ 0xa831c66d ∷ 0xb00327c8 ∷ 0xbf597fc7
    ∷ 0xc6e00bf3 ∷ 0xd5a79147 ∷ 0x06ca6351 ∷ 0x14292967 ∷ 0x27b70a85 ∷ 0x2e1b2138 ∷ 0x4d2c6dfc
    ∷ 0x53380d13 ∷ 0x650a7354 ∷ 0x766a0abb ∷ 0x81c2c92e ∷ 0x92722c85 ∷ 0xa2bfe8a1 ∷ 0xa81a664b
    ∷ 0xc24b8b70 ∷ 0xc76c51a3 ∷ 0xd192e819 ∷ 0xd6990624 ∷ 0xf40e3585 ∷ 0x106aa070 ∷ 0x19a4c116
    ∷ 0x1e376c08 ∷ 0x2748774c ∷ 0x34b0bcb5 ∷ 0x391c0cb3 ∷ 0x4ed8aa4a ∷ 0x5b9cca4f ∷ 0x682e6ff3
    ∷ 0x748f82ee ∷ 0x78a5636f ∷ 0x84c87814 ∷ 0x8cc70208 ∷ 0x90befffa ∷ 0xa4506ceb ∷ 0xbef9a3f7
    ∷ 0xc67178f2 ∷ []

rotr : ℕ → ℕ → ℕ
rotr x n = bit_or (x >>> n) (u32 (x <<< (32 - n)))

-- `load_be32(p + at)`.
load_be32 : List ℕ → ℕ → ℕ
load_be32 p at =
    bit_or
      (bit_or (bit_or (get_or p at 0 <<< 24) (get_or p (at + 1) 0 <<< 16))
        (get_or p (at + 2) 0 <<< 8))
      (get_or p (at + 3) 0)

-- The four bytes that `store_be32` writes.
unfoldable pub store_be32 : ℕ → List ℕ
store_be32 v = u8 (v >>> 24) ∷ u8 (v >>> 16) ∷ u8 (v >>> 8) ∷ u8 v ∷ []

-- The two loops over `w`, with the rounds left.
load_loop : ℕ → ℕ → List ℕ → List ℕ → List ℕ
load_loop zero i block w = w
load_loop (suc left) i block w = load_loop left (i + 1) block (set w i (load_be32 block (4 * i)))

extend_loop : ℕ → ℕ → List ℕ → List ℕ
extend_loop zero i w = w
extend_loop (suc left) i w =
    let x = get_or w (i - 15) 0 in
    let y = get_or w (i - 2) 0 in
    let s0 = bit_xor (bit_xor (rotr x 7) (rotr x 18)) (x >>> 3) in
    let s1 = bit_xor (bit_xor (rotr y 17) (rotr y 19)) (y >>> 10) in
    let word = u32 (get_or w (i - 16) 0 + s0 + get_or w (i - 7) 0 + s1) in
    extend_loop left (i + 1) (set w i word)

schedule : List ℕ → List ℕ
unfolding load_loop extend_loop rotr load_be32
schedule block = extend_loop 48 16 (load_loop 16 0 block (replicate 64 0))

-- The working variables, the array `v` of the source.
pub record Working : Type 0 where
  a : ℕ
  b : ℕ
  c : ℕ
  d : ℕ
  e : ℕ
  f : ℕ
  g : ℕ
  h : ℕ

round : Working → ℕ → ℕ → Working
unfolding rotr
round v ki wi =
    let s1 = bit_xor (bit_xor (rotr v.e 6) (rotr v.e 11)) (rotr v.e 25) in
    let ch = bit_xor (bit_and v.e v.f) (bit_and (not32 v.e) v.g) in
    let t1 = u32 (v.h + s1 + ch + ki + wi) in
    let s0 = bit_xor (bit_xor (rotr v.a 2) (rotr v.a 13)) (rotr v.a 22) in
    let maj = bit_xor (bit_xor (bit_and v.a v.b) (bit_and v.a v.c)) (bit_and v.b v.c) in
    let t2 = u32 (s0 + maj) in
    record {
      a = u32 (t1 + t2);
      b = v.a;
      c = v.b;
      d = v.c;
      e = u32 (v.d + t1);
      f = v.e;
      g = v.f;
      h = v.g;
    }

round_loop : ℕ → ℕ → List ℕ → Working → Working
unfolding round k
round_loop zero i w v = v
round_loop (suc left) i w v = round_loop left (i + 1) w (round v (get_or k i 0) (get_or w i 0))

working_of : List ℕ → Working
working_of s = record {
  a = get_or s 0 0;
  b = get_or s 1 0;
  c = get_or s 2 0;
  d = get_or s 3 0;
  e = get_or s 4 0;
  f = get_or s 5 0;
  g = get_or s 6 0;
  h = get_or s 7 0;
}

-- `state[i] += v[i]` for the eight words.
add_working : List ℕ → Working → List ℕ
add_working s v =
    u32 (get_or s 0 0 + v.a)
    ∷ u32 (get_or s 1 0 + v.b)
    ∷ u32 (get_or s 2 0 + v.c)
    ∷ u32 (get_or s 3 0 + v.d)
    ∷ u32 (get_or s 4 0 + v.e)
    ∷ u32 (get_or s 5 0 + v.f)
    ∷ u32 (get_or s 6 0 + v.g)
    ∷ u32 (get_or s 7 0 + v.h)
    ∷ []

-- What a run of `compress_block` leaves: the new state, and the local arrays on the stack.
pub record Compressed : Type 0 where
  pub state : List ℕ
  pub w : List ℕ
  pub v : List ℕ

listed : Working → List ℕ
listed v = v.a ∷ v.b ∷ v.c ∷ v.d ∷ v.e ∷ v.f ∷ v.g ∷ v.h ∷ []

-- `secure_wipe` of an array of this many elements.
unfoldable pub secure_wipe : ℕ → List ℕ
unfolding replicate
secure_wipe n = replicate n 0

pub compress_block : Bool → List ℕ → List ℕ → Compressed
unfolding schedule round_loop working_of add_working listed secure_wipe
compress_block wipe state block =
    let w = schedule block in
    let v = round_loop 64 0 w (working_of state) in
    record {
      state = add_working state v;
      w = if wipe then secure_wipe 64 else w;
      v = if wipe then secure_wipe 8 else listed v;
    }

pub sha256_compress : List ℕ → List ℕ → List ℕ
unfolding compress_block
sha256_compress state block = (compress_block false state block).state

pub sha256_compress_secret : List ℕ → List ℕ → List ℕ
unfolding compress_block
sha256_compress_secret state block = (compress_block true state block).state

-- The 32 bytes that `sha256_store` writes.
pub sha256_store : List ℕ → List ℕ
unfolding store_be32
sha256_store s =
    store_be32 (get_or s 0 0)
    ++ store_be32 (get_or s 1 0)
    ++ store_be32 (get_or s 2 0)
    ++ store_be32 (get_or s 3 0)
    ++ store_be32 (get_or s 4 0)
    ++ store_be32 (get_or s 5 0)
    ++ store_be32 (get_or s 6 0)
    ++ store_be32 (get_or s 7 0)

-- The two instances of the template compute the same state.
pub sha256_compress_secret-eq :
    (state block : List ℕ) → sha256_compress_secret state block ≡ sha256_compress state block
unfolding sha256_compress_secret sha256_compress
sha256_compress_secret-eq state block = refl

pub length-sha256_compress : (state block : List ℕ) → length (sha256_compress state block) ≡ 8
unfolding sha256_compress
length-sha256_compress state block = refl

pub length-sha256_store : (state : List ℕ) → length (sha256_store state) ≡ 32
unfolding sha256_store
length-sha256_store state = refl
