-- ===== src/Hmac/Rfc.antt =====
-- HMAC as RFC 2104 defines it, over the hash of whole messages, and src/hmac.cpp against it.
use hh_cpp.Base.{All, IsByte}
use hh_cpp.Base.{ℕ, suc, ◌+◌, ◌-◌, ◌≡◌, refl, sym, ap, ◌∙◌, arith, bit_xor}
use hh_cpp.Base.{List, [], ◌∷◌, ◌++◌, map, append_assoc, append-nil, Bool-cases, inl, inr}
use hh_cpp.Base.{length, replicate, u8, ltb, ◌==◌, if◌then◌else◌}
use hh_cpp.Base.{
  length-append, length-replicate, take-all, write_at-replicate, length-zero, ==→eq, ltb-false→le,
}
use hh_cpp.Sha256.Compress.{sha256_compress, sha256_compress_secret-eq, sha256_store}
use hh_cpp.Sha256.Compress.{sha256_initial_state, length-sha256_store}
use hh_cpp.Sha256.{Secrecy, sha256_resume, update, finish}
use hh_cpp.Sha256.Fips.{
  absorb, padding, padded_blocks, fips_hash, fips_hash-All, fips_hash-absorb, absorb-append,
  absorb-suc, absorb_zero,
}
use hh_cpp.Sha256.Padding.{finish-Absorbed}
use hh_cpp.Sha256.Digest.{
  update_all, joined, resume-Absorbed, finish-update, update_all_one, update_all-Absorbed,
}
use hh_cpp.Hmac.{Hmac, hmac_sha256, hmac_update, hmac_finish, hmac_sha256_tag}
use hh_cpp.Hmac.{key_block_of, absorb_padded_key}

-- The key as a block: hashed if it is longer than one, then padded with zeros.
pub block_key : List ℕ → List ℕ
block_key key =
    if ltb 64 (length key)
    then fips_hash key ++ replicate 32 0
    else key ++ replicate (64 - length key) 0

abbrev xor_pad : ℕ → List ℕ → List ℕ
xor_pad pad = map (λ b. u8 (bit_xor b pad))

-- H((K ^ opad) || H((K ^ ipad) || m)).
pub rfc2104 : List ℕ → List ℕ → List ℕ
rfc2104 key m =
    fips_hash (xor_pad 0x5c (block_key key) ++ fips_hash (xor_pad 0x36 (block_key key) ++ m))

length-map : (f : ℕ → ℕ) (xs : List ℕ) → length (map f xs) ≡ length xs
length-map f [] = refl
length-map f (x ∷ xs) = ap suc (length-map f xs)

pub length-fips_hash : (m : List ℕ) → length (fips_hash m) ≡ 32
length-fips_hash m = ap (λ d. length d) (fips_hash-absorb m) ∙ length-sha256_store _

pub length-rfc2104 : (key m : List ℕ) → length (rfc2104 key m) ≡ 32
unfolding rfc2104
length-rfc2104 key m = length-fips_hash _

pub rfc2104-All : (key m : List ℕ) → All IsByte (rfc2104 key m)
unfolding rfc2104
rfc2104-All key m = fips_hash-All _

-- The hash of a block and a message, from the state behind the block.
pub fips_hash-block :
    (b m : List ℕ)
    → length b ≡ 64
    → fips_hash (b ++ m)
      ≡ sha256_store (
          absorb
            (padded_blocks (length m))
            (sha256_compress sha256_initial_state b)
            (m ++ padding (64 + length m)))
fips_hash-block b m size =
    let n : length (b ++ m) ≡ 64 + length m = omega (arith, length-append b m) in
    let k : padded_blocks (64 + length m) ≡ 1 + padded_blocks (length m) = omega arith in
    fips_hash-absorb (b ++ m)
    ∙ ap sha256_store (
        rw (n, k, append_assoc b m (padding (64 + length m)))
          (absorb-append 1 (padded_blocks (length m)) sha256_initial_state b _ size
            ∙ rw (absorb-suc, absorb_zero, take-all 64 b (omega arith))))

-- A hasher that is resumed behind one block hashes the block and what it is given.
pub resumed-block :
    (b : List ℕ) (ps : List (List ℕ)) (s : Secrecy)
    → length b ≡ 64
    → (finish (update_all (sha256_resume (sha256_compress sha256_initial_state b) 64 s) ps)).1
      ≡ fips_hash (b ++ joined ps)
resumed-block b ps s size =
    let start = sha256_compress sha256_initial_state b in
    finish-Absorbed start 64 (joined ps) _
      (update_all-Absorbed start 64 [] (sha256_resume start 64 s) ps
        (resume-Absorbed start 64 s (omega arith)))
      refl
    ∙ sym (fips_hash-block b (joined ps) size)

key_block_of-eq : (key : List ℕ) → key_block_of key ≡ block_key key
unfolding key_block_of block_key
key_block_of-eq key = elim (Bool-cases (ltb 64 (length key))) [
  | inl e ↦
      let digest = finish-update Secrecy.secret_data key in
      rw (e, write_at-replicate, digest, length-fips_hash) refl
  | inr e ↦ elim (Bool-cases (length key == 0)) [
    | inl z ↦ rw (e, z, length-zero key (==→eq _ _ z)) refl
    | inr z ↦ rw (e, z) (write_at-replicate 64 0 key)
  ]
]

-- The mid-state is the state behind the block of the padded key.
absorb_padded_key_lem :
    (key : List ℕ) (pad : ℕ)
    → absorb_padded_key (key_block_of key) pad
      ≡ sha256_compress sha256_initial_state (xor_pad pad (block_key key))
unfolding absorb_padded_key
absorb_padded_key_lem key pad = sha256_compress_secret-eq _ _ ∙ rw (key_block_of-eq key) refl

pub length-block_key : (key : List ℕ) → length (block_key key) ≡ 64
unfolding block_key
length-block_key key = elim (Bool-cases (ltb 64 (length key))) [
  | inl e ↦ rw e (
      omega (
        arith,
        length-append (fips_hash key) (replicate 32 0),
        length-fips_hash key,
        length-replicate {A = ℕ} 32 0,
      ))
  | inr e ↦ rw e (
      omega (
        arith,
        ltb-false→le _ _ e,
        length-append key (replicate (64 - length key) 0),
        length-replicate {A = ℕ} (64 - length key) 0,
      ))
]

unfoldable pub hmac_update_all : Hmac → List (List ℕ) → Hmac
hmac_update_all m [] = m
hmac_update_all m (p ∷ ps) = hmac_update_all (hmac_update m p) ps

hmac_update_all_lem :
    (m : Hmac) (ps : List (List ℕ))
    → hmac_update_all m ps ≡ record m { inner = update_all m.inner ps }
unfolding hmac_update_all hmac_update update_all
hmac_update_all_lem m [] = refl
hmac_update_all_lem m (p ∷ ps) = hmac_update_all_lem (hmac_update m p) ps

length-xor_pad : (pad : ℕ) (key : List ℕ) → length (xor_pad pad (block_key key)) ≡ 64
length-xor_pad pad key = length-map _ (block_key key) ∙ length-block_key key

resumed-block_one :
    (b m : List ℕ) (s : Secrecy)
    → length b ≡ 64
    → (finish (update (sha256_resume (sha256_compress sha256_initial_state b) 64 s) m)).1
      ≡ fips_hash (b ++ m)
resumed-block_one b m s size =
    ap (λ h. (finish h).1) (sym (update_all_one _ m))
    ∙ resumed-block b (m ∷ []) s size
    ∙ ap (λ t. fips_hash (b ++ t)) (append-nil m)

-- The HMAC object, given the message in any pieces, writes the tag that RFC 2104 defines.
pub hmac_finish-update_all :
    (key : List ℕ) (ps : List (List ℕ))
    → (hmac_finish (hmac_update_all (hmac_sha256 key) ps)).1 ≡ rfc2104 key (joined ps)
unfolding hmac_finish hmac_sha256 rfc2104
hmac_finish-update_all key ps =
    rw
      (
        hmac_update_all_lem,
        absorb_padded_key_lem key 0x36,
        absorb_padded_key_lem key 0x5c,
        resumed-block (xor_pad 0x36 (block_key key)) ps Secrecy.secret_data
            (length-xor_pad 0x36 key),
      )
      (resumed-block_one (xor_pad 0x5c (block_key key)) _ Secrecy.secret_data
        (length-xor_pad 0x5c key))

-- The one-shot form gives the tag of RFC 2104.
pub hmac_sha256_tag_lem : (key m : List ℕ) → hmac_sha256_tag key m ≡ rfc2104 key m
unfolding hmac_sha256_tag hmac_update_all
hmac_sha256_tag_lem key m = hmac_finish-update_all key (m ∷ []) ∙ ap (rfc2104 key) (append-nil m)

-- The mid-states of the object.
pub hmac_sha256_states :
    (key : List ℕ)
    → ((hmac_sha256 key).inner_state
        ≡ sha256_compress sha256_initial_state (xor_pad 0x36 (block_key key)))
      × ((hmac_sha256 key).outer_state
          ≡ sha256_compress sha256_initial_state (xor_pad 0x5c (block_key key)))
unfolding hmac_sha256
hmac_sha256_states key = (absorb_padded_key_lem key 0x36, absorb_padded_key_lem key 0x5c)

pub length-padding_96 : length (padding 96) ≡ 32
unfolding padding replicate
length-padding_96 = refl

-- The hash of a block and 32 bytes is one compression behind the block's state.
fips_hash-block_32 :
    (b u : List ℕ)
    → length b ≡ 64
    → length u ≡ 32
    → fips_hash (b ++ u)
      ≡ sha256_store (sha256_compress (sha256_compress sha256_initial_state b) (u ++ padding 96))
fips_hash-block_32 b u sb su =
    fips_hash-block b u sb
    ∙ ap sha256_store (
        rw (su, absorb-suc, absorb_zero)
          (ap (sha256_compress _) (
            take-all 64 (u ++ padding 96)
              (omega (arith, length-append u (padding 96), length-padding_96)))))

-- The tag of a 32-byte message, by two compressions from the mid-states.
pub rfc2104-blocks :
    (key u : List ℕ)
    → length u ≡ 32
    → rfc2104 key u
      ≡ sha256_store (
          sha256_compress (hmac_sha256 key).outer_state (
            sha256_store (sha256_compress (hmac_sha256 key).inner_state (u ++ padding 96))
            ++ padding 96))
unfolding rfc2104
rfc2104-blocks key u su =
    rw ((hmac_sha256_states key).0, (hmac_sha256_states key).1)
      (fips_hash-block_32 (xor_pad 0x5c (block_key key)) _ (length-xor_pad 0x5c key)
          (length-fips_hash (xor_pad 0x36 (block_key key) ++ u))
        ∙ ap
            (λ d. sha256_store (
              sha256_compress (sha256_compress sha256_initial_state (xor_pad 0x5c (block_key key)))
                (d ++ padding 96)))
            (fips_hash-block_32 (xor_pad 0x36 (block_key key)) u (length-xor_pad 0x36 key) su))
