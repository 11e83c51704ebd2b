-- ===== src/Sha256/Compress/Standard.antt =====
-- The functions and constants of FIPS 180-4, sections 4.1.2, 4.2.2, 5.3.3 and 6.2.2, written down
-- from the standard, and the compression function of src/sha256.cpp against them.
use hh_cpp.Base.{
  ℕ, zero, suc, ◌+◌, ◌-◌, ◌*◌, ◌/◌, ◌%◌, ◌^◌, bit_and, bit_or, bit_xor, ◌≡◌, refl, ap, ◌∙◌, arith,
}
use hh_cpp.Base.{All, IsByte, List, [], ◌∷◌, ◌++◌, get_or, set, replicate}
use hh_cpp.Sha256.Compress.{
  sha256_initial_state, k, rotr, load_be32, store_be32, load_loop, extend_loop, schedule, Working,
  round, round_loop, working_of, add_working, compress_block, sha256_compress, sha256_store,
}

abbrev add_mod : ℕ → ℕ → ℕ
add_mod x y = (x + y) % 2 ^ 32

-- Rotation and shift to the right.
abbrev rotated : ℕ → ℕ → ℕ
rotated n x = bit_or (x / 2 ^ n) (x * 2 ^ (32 - n) % 2 ^ 32)

abbrev shifted : ℕ → ℕ → ℕ
shifted n x = x / 2 ^ n

abbrev ch : ℕ → ℕ → ℕ → ℕ
ch x y z = bit_xor (bit_and x y) (bit_and (2 ^ 32 - 1 - x) z)

abbrev maj : ℕ → ℕ → ℕ → ℕ
maj x y z = bit_xor (bit_xor (bit_and x y) (bit_and x z)) (bit_and y z)

abbrev upper_sigma0 : ℕ → ℕ
upper_sigma0 x = bit_xor (bit_xor (rotated 2 x) (rotated 13 x)) (rotated 22 x)

abbrev upper_sigma1 : ℕ → ℕ
upper_sigma1 x = bit_xor (bit_xor (rotated 6 x) (rotated 11 x)) (rotated 25 x)

abbrev lower_sigma0 : ℕ → ℕ
lower_sigma0 x = bit_xor (bit_xor (rotated 7 x) (rotated 18 x)) (shifted 3 x)

abbrev lower_sigma1 : ℕ → ℕ
lower_sigma1 x = bit_xor (bit_xor (rotated 17 x) (rotated 19 x)) (shifted 10 x)

-- The first 32 bits of the fractional parts of the cube roots of the first 64 primes.
cube_roots : List ℕ
cube_roots =
    0x428a2f98 ∷ 0x71374491 ∷ 0xb5c0fbcf ∷ 0xe9b5dba5 ∷ 0x3956c25b ∷ 0x59f111f1 ∷ 0x923f82a4
    ∷ 0xab1c5ed5 ∷ 0xd807aa98 ∷ 0x12835b01 ∷ 0x243185be ∷ 0x550c7dc3 ∷ 0x72be5d74 ∷ 0x80deb1fe
    ∷ 0x9bdc06a7 ∷ 0xc19bf174 ∷ 0xe49b69c1 ∷ 0xefbe4786 ∷ 0x0fc19dc6 ∷ 0x240ca1cc ∷ 0x2de92c6f
    ∷ 0x4a7484aa ∷ 0x5cb0a9dc ∷ 0x76f988da ∷ 0x983e5152 ∷ 0xa831c66d ∷ 0xb00327c8 ∷ 0xbf597fc7
    ∷ 0xc6e00bf3 ∷ 0xd5a79147 ∷ 0x06ca6351 ∷ 0x14292967 ∷ 0x27b70a85 ∷ 0x2e1b2138 ∷ 0x4d2c6dfc
    ∷ 0x53380d13 ∷ 0x650a7354 ∷ 0x766a0abb ∷ 0x81c2c92e ∷ 0x92722c85 ∷ 0xa2bfe8a1 ∷ 0xa81a664b
    ∷ 0xc24b8b70 ∷ 0xc76c51a3 ∷ 0xd192e819 ∷ 0xd6990624 ∷ 0xf40e3585 ∷ 0x106aa070 ∷ 0x19a4c116
    ∷ 0x1e376c08 ∷ 0x2748774c ∷ 0x34b0bcb5 ∷ 0x391c0cb3 ∷ 0x4ed8aa4a ∷ 0x5b9cca4f ∷ 0x682e6ff3
    ∷ 0x748f82ee ∷ 0x78a5636f ∷ 0x84c87814 ∷ 0x8cc70208 ∷ 0x90befffa ∷ 0xa4506ceb ∷ 0xbef9a3f7
    ∷ 0xc67178f2 ∷ []

-- The first 32 bits of the fractional parts of the square roots of the first eight primes.
pub square_roots : List ℕ
square_roots =
    0x6a09e667 ∷ 0xbb67ae85 ∷ 0x3c6ef372 ∷ 0xa54ff53a ∷ 0x510e527f ∷ 0x9b05688c ∷ 0x1f83d9ab
    ∷ 0x5be0cd19 ∷ []

-- The word `t` of a block, its first byte the most significant.
abbrev word_at : List ℕ → ℕ → ℕ
word_at block t =
    bit_or
      (bit_or (bit_or (get_or block (4 * t) 0 * 2 ^ 24) (get_or block (4 * t + 1) 0 * 2 ^ 16))
        (get_or block (4 * t + 2) 0 * 2 ^ 8))
      (get_or block (4 * t + 3) 0)

-- The message schedule: W_t is the word `t` of the block up to 15, and then of the words before.
block_words : ℕ → ℕ → List ℕ → List ℕ → List ℕ
block_words zero t block w = w
block_words (suc left) t block w = block_words left (t + 1) block (set w t (word_at block t))

more_words : ℕ → ℕ → List ℕ → List ℕ
more_words zero t w = w
more_words (suc left) t w =
    let next =
      (lower_sigma1 (get_or w (t - 2) 0)
        + get_or w (t - 7) 0
        + lower_sigma0 (get_or w (t - 15) 0)
        + get_or w (t - 16) 0)
      % 2 ^ 32 in
    more_words left (t + 1) (set w t next)

message_schedule : List ℕ → List ℕ
message_schedule block = more_words 48 16 (block_words 16 0 block (replicate 64 0))

-- One step of the working variables.
hash_step : ℕ → ℕ → Working → Working
hash_step kt wt v =
    let t1 = (v.h + upper_sigma1 v.e + ch v.e v.f v.g + kt + wt) % 2 ^ 32 in
    let t2 = add_mod (upper_sigma0 v.a) (maj v.a v.b v.c) in
    record {
      h = v.g;
      g = v.f;
      f = v.e;
      e = add_mod v.d t1;
      d = v.c;
      c = v.b;
      b = v.a;
      a = add_mod t1 t2;
    }

hash_steps : ℕ → ℕ → List ℕ → Working → Working
hash_steps zero t w v = v
hash_steps (suc left) t w v =
    hash_steps left (t + 1) w (hash_step (get_or cube_roots t 0) (get_or w t 0) v)

add_state : List ℕ → Working → List ℕ
add_state s v =
    add_mod v.a (get_or s 0 0)
    ∷ add_mod v.b (get_or s 1 0)
    ∷ add_mod v.c (get_or s 2 0)
    ∷ add_mod v.d (get_or s 3 0)
    ∷ add_mod v.e (get_or s 4 0)
    ∷ add_mod v.f (get_or s 5 0)
    ∷ add_mod v.g (get_or s 6 0)
    ∷ add_mod v.h (get_or s 7 0)
    ∷ []

-- The hash value after a block.
pub fips_block : List ℕ → List ℕ → List ℕ
fips_block s block =
    let start : Working = record {
      a = get_or s 0 0;
      b = get_or s 1 0;
      c = get_or s 2 0;
      d = get_or s 3 0;
      e = get_or s 4 0;
      f = get_or s 5 0;
      g = get_or s 6 0;
      h = get_or s 7 0;
    } in
    add_state s (hash_steps 64 0 (message_schedule block) start)

abbrev word_bytes : ℕ → List ℕ
word_bytes x = x / 2 ^ 24 % 256 ∷ x / 2 ^ 16 % 256 ∷ x / 2 ^ 8 % 256 ∷ x % 256 ∷ []

words_bytes : List ℕ → List ℕ
words_bytes [] = []
words_bytes (x ∷ ws) = word_bytes x ++ words_bytes ws

-- The eight words of the hash value as bytes.
pub fips_bytes : List ℕ → List ℕ
fips_bytes s = words_bytes (
    get_or s 0 0
    ∷ get_or s 1 0
    ∷ get_or s 2 0
    ∷ get_or s 3 0
    ∷ get_or s 4 0
    ∷ get_or s 5 0
    ∷ get_or s 6 0
    ∷ get_or s 7 0
    ∷ [])

pub square_roots_lem : sha256_initial_state ≡ square_roots
unfolding square_roots
square_roots_lem = refl

k_lem : k ≡ cube_roots
unfolding k cube_roots
k_lem = refl

load_loop_lem :
    (left i : ℕ) (block w : List ℕ) → load_loop left i block w ≡ block_words left i block w
unfolding load_loop block_words load_be32
load_loop_lem zero i block w = refl
load_loop_lem (suc left) i block w = load_loop_lem left (i + 1) block _

word_sum : (a b c d : ℕ) → (d + c + b + a) % 2 ^ 32 ≡ (a + b + c + d) % 2 ^ 32
word_sum a b c d = ap (λ n. n % 2 ^ 32) (let e : d + c + b + a ≡ a + b + c + d = omega arith in e)

extend_loop_lem : (left i : ℕ) (w : List ℕ) → extend_loop left i w ≡ more_words left i w
unfolding extend_loop more_words rotr
extend_loop_lem zero i w = refl
extend_loop_lem (suc left) i w =
    extend_loop_lem left (i + 1) _
    ∙ ap (λ x. more_words left (i + 1) (set w i x)) (word_sum _ _ _ _)

round_lem : (v : Working) (kt wt : ℕ) → round v kt wt ≡ hash_step kt wt v
unfolding round hash_step rotr
round_lem v kt wt = refl

round_loop_lem :
    (left i : ℕ) (w : List ℕ) (v : Working) → round_loop left i w v ≡ hash_steps left i w v
unfolding round_loop hash_steps
round_loop_lem zero i w v = refl
round_loop_lem (suc left) i w v =
    round_loop_lem left (i + 1) w (round v (get_or k i 0) (get_or w i 0))
    ∙ ap (hash_steps left (i + 1) w) (
        round_lem v (get_or k i 0) (get_or w i 0)
        ∙ ap (λ ks. hash_step (get_or ks i 0) (get_or w i 0) v) k_lem)

schedule_lem : (block : List ℕ) → schedule block ≡ message_schedule block
unfolding schedule message_schedule
schedule_lem block =
    extend_loop_lem 48 16 (load_loop 16 0 block (replicate 64 0))
    ∙ ap (more_words 48 16) (load_loop_lem 16 0 block (replicate 64 0))

sum_lem : (s : List ℕ) (v : Working) → add_working s v ≡ add_state s v
unfolding add_working add_state
sum_lem s v =
    let swap : (x y : ℕ) → (x + y) % 2 ^ 32 ≡ (y + x) % 2 ^ 32 =
      (λ x y. ap (λ n. n % 2 ^ 32) (let e : x + y ≡ y + x = omega arith in e)) in
    rw (swap (get_or s 0 0) v.a) (
      rw (swap (get_or s 1 0) v.b) (
        rw (swap (get_or s 2 0) v.c) (
          rw (swap (get_or s 3 0) v.d) (
            rw (swap (get_or s 4 0) v.e) (
              rw (swap (get_or s 5 0) v.f)
                (rw (swap (get_or s 6 0) v.g) (rw (swap (get_or s 7 0) v.h) refl)))))))

-- The compression function is that of the standard.
pub sha256_compress-fips_block : (s block : List ℕ) → sha256_compress s block ≡ fips_block s block
unfolding sha256_compress compress_block fips_block working_of
sha256_compress-fips_block s block =
    let start = working_of s in
    ap (λ w. add_working s (round_loop 64 0 w start)) (schedule_lem block)
    ∙ ap (add_working s) (round_loop_lem 64 0 (message_schedule block) start)
    ∙ sum_lem s (hash_steps 64 0 (message_schedule block) start)

pub sha256_store-fips_bytes : (s : List ℕ) → sha256_store s ≡ fips_bytes s
unfolding sha256_store store_be32 fips_bytes words_bytes
sha256_store-fips_bytes s = refl

words_bytes-All : (ws : List ℕ) → All IsByte (words_bytes ws)
unfolding words_bytes
words_bytes-All [] = tt
words_bytes-All (x ∷ ws) =
    (omega arith, (omega arith, (omega arith, (omega arith, words_bytes-All ws))))

pub fips_bytes-All : (s : List ℕ) → All IsByte (fips_bytes s)
unfolding fips_bytes
fips_bytes-All s = words_bytes-All (
    get_or s 0 0
    ∷ get_or s 1 0
    ∷ get_or s 2 0
    ∷ get_or s 3 0
    ∷ get_or s 4 0
    ∷ get_or s 5 0
    ∷ get_or s 6 0
    ∷ get_or s 7 0
    ∷ [])
