-- ===== src/Pbkdf2/Rfc.antt =====
-- PBKDF2 as RFC 8018 section 5.2 defines it over HMAC, and src/pbkdf2.cpp against it.
use native.Mathlib.Nat.{sub-zero}
use hh_cpp.Base.{◌%◌, ◌^◌, ◌*◌, ◌<◌, ap₂, All, IsByte}
use hh_cpp.Base.Bits.{bit_xor-lt}
use hh_cpp.Hmac.Rfc.{rfc2104-All}
use hh_cpp.Base.{ℕ, zero, suc, ◌+◌, ◌-◌, ◌/◌, ◌≤◌, ◌≡◌, refl, sym, ap, ◌∙◌, arith}
use hh_cpp.Base.{List, [], ◌∷◌, ◌++◌, append-nil, Bool-cases, inl, inr}
use hh_cpp.Base.{length, take, replicate, u8, u32, ltb}
use hh_cpp.Base.{length-replicate, take-append_eq, take-zero, take-take}
use hh_cpp.Base.{bit_xor, write_at_over, take-append_min, ltb→lt, ltb-false→le}
use hh_cpp.Sha256.Compress.{sha256_compress, sha256_store, length-sha256_store}
use hh_cpp.Sha256.Fips.{padding}
use hh_cpp.Hmac.{hmac_sha256, hmac_update, hmac_finish}
use hh_cpp.Hmac.Rfc.{
  rfc2104, hmac_update_all, hmac_finish-update_all, length-rfc2104, rfc2104-blocks,
}
use hh_cpp.Pbkdf2.{initial_block, xor_into, iterate_round, iterate, index_be}
use hh_cpp.Pbkdf2.{derive_block, output_loop, pbkdf2_hmac_sha256}

-- The blocks by the functions of the program.
xor_chain : ℕ → List ℕ → List ℕ → List ℕ → List ℕ
xor_chain zero p u t = t
xor_chain (suc left) p u t = let u' = rfc2104 p u in xor_chain left p u' (xor_into t u')

block_t : List ℕ → List ℕ → ℕ → ℕ → List ℕ
block_t p s c i = let u1 = rfc2104 p (s ++ index_be i) in xor_chain (c - 1) p u1 u1

blocks_from : ℕ → List ℕ → List ℕ → ℕ → ℕ → List ℕ
blocks_from zero p s c i = []
blocks_from (suc n) p s c i = block_t p s c i ++ blocks_from n p s c (i + 1)

-- The first bytes of T_1 || T_2 || ...
output : List ℕ → List ℕ → ℕ → ℕ → List ℕ
output p s c out_size = take out_size (blocks_from ((out_size + 31) / 32) p s c 1)

length-xor_into : (t u : List ℕ) → length (xor_into t u) ≡ length t
unfolding xor_into
length-xor_into [] u = refl
length-xor_into (a ∷ t) [] = refl
length-xor_into (a ∷ t) (b ∷ u) = ap suc (length-xor_into t u)

xor_into-append : (t u r : List ℕ) → length t ≤ length u → xor_into t (u ++ r) ≡ xor_into t u
unfolding xor_into
xor_into-append [] u r h = refl
xor_into-append (a ∷ t) [] r h = absurd (omega arith)
xor_into-append (a ∷ t) (b ∷ u) r h =
    ap (λ k. u8 (bit_xor a b) ∷ k) (xor_into-append t u r (omega arith))

-- The block between two rounds: 32 bytes in front of the padding of 96 bytes.
abbrev prepared : List ℕ → List ℕ
prepared u = u ++ padding 96

initial_block-prepared : initial_block ≡ prepared (replicate 32 0)
unfolding initial_block padding replicate
initial_block-prepared = refl

iterate_round_lem :
    (p u t : List ℕ)
    → length u ≡ 32
    → length t ≡ 32
    → iterate_round (hmac_sha256 p) (record { block = prepared u; t = t })
      ≡ record { block = prepared (rfc2104 p u); t = xor_into t (rfc2104 p u) }
unfolding iterate_round
iterate_round_lem p u t su st =
    rw
      (
        write_at_over u (padding 96) _ (length-sha256_store _ ∙ sym su),
        write_at_over (sha256_store (sha256_compress (hmac_sha256 p).inner_state (prepared u)))
            (padding 96) _ (length-sha256_store _ ∙ sym (length-sha256_store _)),
        ← rfc2104-blocks p u su,
        xor_into-append t (rfc2104 p u) (padding 96) (omega (arith, length-rfc2104 p u)),
      )
      refl

-- The loop over `j`, from U_1 and what is collected.
iterate_lem :
    (left : ℕ) (p u t : List ℕ)
    → length u ≡ 32
    → length t ≡ 32
    → (v : List ℕ) × (length v ≡ 32)
      × (iterate left (hmac_sha256 p) (record { block = prepared u; t = t })
          ≡ record { block = prepared v; t = xor_chain left p u t })
unfolding iterate xor_chain
iterate_lem zero p u t su st = (u, su, refl)
iterate_lem (suc left) p u t su st = rw (iterate_round_lem p u t su st) (
    iterate_lem left p (rfc2104 p u) (xor_into t (rfc2104 p u)) (length-rfc2104 p u)
      (length-xor_into t _ ∙ st))

-- The object after the salt and the block number.
first_tag :
    (p s : List ℕ) (i : ℕ)
    → (hmac_finish (hmac_update (hmac_update (hmac_sha256 p) s) (index_be i))).1
      ≡ rfc2104 p (s ++ index_be i)
first_tag p s i =
    unfold hmac_update_all in
    hmac_finish-update_all p (s ∷ index_be i ∷ [])
    ∙ ap (λ r. rfc2104 p (s ++ r)) (append-nil (index_be i))

derive_block_lem :
    (p s : List ℕ) (c i : ℕ) (u t : List ℕ)
    → length u ≡ 32
    → (v : List ℕ) × (length v ≡ 32)
      × (derive_block (hmac_sha256 p) s c i (record { block = prepared u; t = t })
          ≡ record { block = prepared v; t = block_t p s c i })
unfolding derive_block block_t
derive_block_lem p s c i u t su =
    let u1 = rfc2104 p (s ++ index_be i) in
    let size : length u1 ≡ 32 = length-rfc2104 p _ in
    rw
      (
        first_tag p s i,
        write_at_over u (padding 96) u1 (size ∙ sym su),
        take-append_eq 32 u1 (padding 96) size,
      )
      (iterate_lem (c - 1) p u1 u1 size size)

length-xor_chain : (left : ℕ) (p u t : List ℕ) → length (xor_chain left p u t) ≡ length t
unfolding xor_chain
length-xor_chain zero p u t = refl
length-xor_chain (suc left) p u t =
    length-xor_chain left p (rfc2104 p u) (xor_into t (rfc2104 p u)) ∙ length-xor_into t _

index_be-u32 : (i j : ℕ) → u32 i ≡ u32 j → index_be i ≡ index_be j
unfolding index_be
index_be-u32 i j e = ground arith

length-block_t : (p s : List ℕ) (c i : ℕ) → length (block_t p s c i) ≡ 32
unfolding block_t
length-block_t p s c i =
    let u1 = rfc2104 p (s ++ index_be i) in length-xor_chain (c - 1) p u1 u1 ∙ length-rfc2104 p _

-- The block number is written as 32 bits, so its wrap-around does not show.
block_t-u32 : (p s : List ℕ) (c i j : ℕ) → u32 i ≡ u32 j → block_t p s c i ≡ block_t p s c j
unfolding block_t
block_t-u32 p s c i j e =
    ap (λ b. xor_chain (c - 1) p (rfc2104 p (s ++ b)) (rfc2104 p (s ++ b))) (index_be-u32 i j e)

-- The loop over the output writes the blocks in order, and the part of the last that fits.
output_loop_lem :
    (fuel : ℕ) (p s : List ℕ) (c out_size offset i j : ℕ) (u t : List ℕ)
    → length u ≡ 32
    → out_size - offset ≤ fuel
    → u32 i ≡ u32 j
    → output_loop fuel (hmac_sha256 p) s c out_size offset i (record { block = prepared u; t = t })
      ≡ take (out_size - offset) (blocks_from ((out_size - offset + 31) / 32) p s c j)
unfolding output_loop blocks_from
output_loop_lem zero p s c out_size offset i j u t su h e =
    let z : out_size - offset ≡ 0 = omega arith in rw (z, take-zero) refl
output_loop_lem (suc fuel) p s c out_size offset i j u t su h e =
    let (v, sv, d) = derive_block_lem p s c i u t su in
    elim (Bool-cases (ltb offset out_size)) [
      | inl more ↦
          let lt = ltb→lt _ _ more in
          let k : (out_size - offset + 31) / 32 ≡ suc ((out_size - (offset + 32) + 31) / 32) =
            omega arith in
          let left : out_size - offset - 32 ≡ out_size - (offset + 32) = omega arith in
          let ih =
            output_loop_lem fuel p s c out_size (offset + 32) (u32 (i + 1)) (j + 1) v
              (block_t p s c i) sv (omega arith) (omega (arith, e)) in
          let same = block_t-u32 p s c i j e in
          rw
            (
              more,
              d,
              ih,
              k,
              take-append_min (out_size - offset) 32 (block_t p s c j)
                  (blocks_from ((out_size - (offset + 32) + 31) / 32) p s c (j + 1))
                  (length-block_t p s c j),
              left,
              same,
            )
            refl
      | inr done ↦
          let z : out_size - offset ≡ 0 = omega (arith, ltb-false→le _ _ done) in
          rw (done, z, take-zero) refl
    ]

output_lem :
    (password salt : List ℕ) (iterations out_size : ℕ)
    → pbkdf2_hmac_sha256 password salt iterations out_size
      ≡ output password salt iterations out_size
unfolding pbkdf2_hmac_sha256 output
output_lem password salt iterations out_size = rw initial_block-prepared (
    output_loop_lem out_size password salt iterations out_size 0 1 1 (replicate 32 0) _
      (length-replicate 32 0) (omega arith) refl
    ∙ rw sub-zero refl)

-- INT(i), four octets, the most significant first.
abbrev pub int_octets : ℕ → List ℕ
int_octets i = i / 2 ^ 24 % 256 ∷ i / 2 ^ 16 % 256 ∷ i / 2 ^ 8 % 256 ∷ i % 256 ∷ []

-- The exclusive or of two strings of octets.
xor_octets : List ℕ → List ℕ → List ℕ
xor_octets (a ∷ t) (b ∷ u) = bit_xor a b ∷ xor_octets t u
xor_octets t u = t

-- U_1 ^ ... ^ U_c from U_j and what is collected so far, with the rounds left.
rfc_chain : ℕ → List ℕ → List ℕ → List ℕ → List ℕ
rfc_chain zero p u t = t
rfc_chain (suc left) p u t = rfc_chain left p (rfc2104 p u) (xor_octets t (rfc2104 p u))

-- F(P, S, c, i), the block T_i.
rfc_block : List ℕ → List ℕ → ℕ → ℕ → List ℕ
rfc_block p s c i =
    rfc_chain (c - 1) p (rfc2104 p (s ++ int_octets i)) (rfc2104 p (s ++ int_octets i))

-- T_i || T_(i+1) || ..., a number of blocks.
rfc_blocks : ℕ → List ℕ → List ℕ → ℕ → ℕ → List ℕ
rfc_blocks zero p s c i = []
rfc_blocks (suc n) p s c i = rfc_block p s c i ++ rfc_blocks n p s c (i + 1)

-- The first bytes of T_1 || T_2 || ...
pub rfc8018 : List ℕ → List ℕ → ℕ → ℕ → List ℕ
rfc8018 p s c out_size = take out_size (rfc_blocks ((out_size + 31) / 32) p s c 1)

xor_octets-All : (t u : List ℕ) → All IsByte t → All IsByte u → All IsByte (xor_octets t u)
unfolding xor_octets
xor_octets-All [] u ht hu = tt
xor_octets-All (a ∷ t) [] ht hu = ht
xor_octets-All (a ∷ t) (b ∷ u) (ha, ht) (hb, hu) =
    (bit_xor-lt 8 a b ha hb, xor_octets-All t u ht hu)

xor_into-xor_octets : (t u : List ℕ) → All IsByte t → All IsByte u → xor_into t u ≡ xor_octets t u
unfolding xor_octets xor_into
xor_into-xor_octets [] u ht hu = refl
xor_into-xor_octets (a ∷ t) [] ht hu = refl
xor_into-xor_octets (a ∷ t) (b ∷ u) (ha, ht) (hb, hu) =
    ap₂ ◌∷◌ (omega (arith, bit_xor-lt 8 a b ha hb)) (xor_into-xor_octets t u ht hu)

xor_chain-rfc_chain :
    (left : ℕ) (p u t : List ℕ) → All IsByte t → xor_chain left p u t ≡ rfc_chain left p u t
unfolding xor_chain rfc_chain
xor_chain-rfc_chain zero p u t ht = refl
xor_chain-rfc_chain (suc left) p u t ht =
    let hu = rfc2104-All p u in
    ap (xor_chain left p (rfc2104 p u)) (xor_into-xor_octets t (rfc2104 p u) ht hu)
    ∙ xor_chain-rfc_chain left p (rfc2104 p u) _ (xor_octets-All t (rfc2104 p u) ht hu)

block_t-rfc_block : (p s : List ℕ) (c i : ℕ) → block_t p s c i ≡ rfc_block p s c i
unfolding block_t rfc_block index_be
block_t-rfc_block p s c i = xor_chain-rfc_chain (c - 1) p _ _ (rfc2104-All p _)

blocks_from-rfc_blocks :
    (n : ℕ) (p s : List ℕ) (c i : ℕ) → blocks_from n p s c i ≡ rfc_blocks n p s c i
unfolding blocks_from rfc_blocks
blocks_from-rfc_blocks zero p s c i = refl
blocks_from-rfc_blocks (suc n) p s c i =
    ap₂ ◌++◌ (block_t-rfc_block p s c i) (blocks_from-rfc_blocks n p s c (i + 1))

-- Every output byte is that of RFC 8018, for all passwords and salts, an iteration count that is
-- not 0, and an output of at most 2^32 - 1 blocks.
pub pbkdf2_hmac_sha256_lem :
    (password salt : List ℕ) (iterations out_size : ℕ)
    → 0 < iterations
    → out_size ≤ (2 ^ 32 - 1) * 32
    → pbkdf2_hmac_sha256 password salt iterations out_size
      ≡ rfc8018 password salt iterations out_size
unfolding rfc8018 output
pbkdf2_hmac_sha256_lem password salt iterations out_size some_ few =
    output_lem password salt iterations out_size
    ∙ ap (take out_size) (blocks_from-rfc_blocks ((out_size + 31) / 32) password salt iterations 1)

-- The output has no more bytes than were asked for.
pub take-rfc8018 : (p s : List ℕ) (c n : ℕ) → take n (rfc8018 p s c n) ≡ rfc8018 p s c n
unfolding rfc8018
take-rfc8018 p s c n = take-take n _
