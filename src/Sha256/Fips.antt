-- ===== src/Sha256/Fips.antt =====
-- SHA-256 as FIPS 180-4 section 6.2 states it for a message of bytes: pad the message to whole
-- blocks, then apply the compression function block after block. Nothing here is buffered.
use hh_cpp.Base.{ℕ, zero, suc, ◌+◌, ◌-◌, ◌*◌, ◌/◌, ◌%◌, ◌≡◌, refl, sym, ◌∙◌, ◌≤◌, arith}
use hh_cpp.Base.{List, [], ◌∷◌, ◌++◌, length, take, drop, replicate, u8, ◌>>>◌}
use hh_cpp.Base.{length-append, length-replicate, length-drop, take-append_le, drop-append_le}
use Prim.Native.Nat.add
use native.Mathlib.Nat.{add-zero}
use hh_cpp.Base.{length-take, take-append-drop}
use hh_cpp.Base.{ap, All, IsByte}
use hh_cpp.Sha256.Compress.Standard.{
  fips_bytes-All, square_roots, fips_block, fips_bytes, square_roots_lem,
  sha256_compress-fips_block, sha256_store-fips_bytes,
}
use hh_cpp.Sha256.Compress.{sha256_compress, sha256_store, sha256_initial_state}

-- The state after a number of 64-byte blocks.
pub absorb : ℕ → List ℕ → List ℕ → List ℕ
absorb zero s m = s
absorb (suc n) s m = absorb n (sha256_compress s (take 64 m)) (drop 64 m)

-- A 64-bit number, most significant byte first.
abbrev pub be64 : ℕ → List ℕ
be64 n =
    u8 (n >>> 56)
    ∷ u8 (n >>> 48)
    ∷ u8 (n >>> 40)
    ∷ u8 (n >>> 32)
    ∷ u8 (n >>> 24)
    ∷ u8 (n >>> 16)
    ∷ u8 (n >>> 8)
    ∷ u8 n
    ∷ []

-- The padding behind `n` bytes: a one bit, the fewest zeros, the length in bits.
unfoldable pub padding : ℕ → List ℕ
padding n = 0x80 ∷ (replicate ((119 - n % 64) % 64) 0 ++ be64 (8 * n))

-- The number of blocks of a padded message of `n` bytes.
abbrev pub padded_blocks : ℕ → ℕ
padded_blocks n = (n + 72) / 64

-- The hash value after a number of blocks, by the standard's own functions.
fips_absorb : ℕ → List ℕ → List ℕ → List ℕ
fips_absorb zero s m = s
fips_absorb (suc n) s m = fips_absorb n (fips_block s (take 64 m)) (drop 64 m)

pub fips_hash : List ℕ → List ℕ
fips_hash m =
    fips_bytes (fips_absorb (padded_blocks (length m)) square_roots (m ++ padding (length m)))

absorb-fips_absorb : (n : ℕ) (s m : List ℕ) → absorb n s m ≡ fips_absorb n s m
unfolding absorb fips_absorb
absorb-fips_absorb zero s m = refl
absorb-fips_absorb (suc n) s m =
    absorb-fips_absorb n (sha256_compress s (take 64 m)) (drop 64 m)
    ∙ ap (λ t. fips_absorb n t (drop 64 m)) (sha256_compress-fips_block s (take 64 m))

-- The same with the functions of the program.
pub fips_hash-absorb :
    (m : List ℕ)
    → fips_hash m
      ≡ sha256_store
          (absorb (padded_blocks (length m)) sha256_initial_state (m ++ padding (length m)))
unfolding fips_hash
fips_hash-absorb m =
    let n = padded_blocks (length m) in
    let p = m ++ padding (length m) in
    sym (
      ap (λ s. sha256_store (absorb n s p)) square_roots_lem
      ∙ ap sha256_store (absorb-fips_absorb n square_roots p)
      ∙ sha256_store-fips_bytes (fips_absorb n square_roots p))

pub fips_hash-All : (m : List ℕ) → All IsByte (fips_hash m)
unfolding fips_hash
fips_hash-All m = fips_bytes-All _

-- The padding fills the last block.
pub length-padding : (m : List ℕ) → length (m ++ padding (length m)) ≡ 64 * padded_blocks (length m)
unfolding padding
length-padding m = omega (
  arith,
  length-append m (padding (length m)),
  length-append (replicate ((119 - length m % 64) % 64) 0) (be64 (8 * length m)),
  length-replicate {A = ℕ} ((119 - length m % 64) % 64) 0,
)

pub absorb_zero : (s m : List ℕ) → absorb 0 s m ≡ s
unfolding absorb
absorb_zero s m = refl

pub absorb-suc :
    (n : ℕ) (s m : List ℕ)
    → absorb (suc n) s m ≡ absorb n (sha256_compress s (take 64 m)) (drop 64 m)
unfolding absorb
absorb-suc n s m = refl

-- Whole blocks in front are absorbed first.
pub absorb-append :
    (n k : ℕ) (s m rest : List ℕ)
    → length m ≡ 64 * n
    → absorb (n + k) s (m ++ rest) ≡ absorb k (absorb n s m) rest
unfolding absorb
absorb-append zero k s [] rest e = rw add.zero
absorb-append zero k s (x ∷ m) rest e = absurd (omega arith)
absorb-append (suc n) k s m rest e =
    rw
      (
        add.suc,
        absorb-suc (n + k) s (m ++ rest),
        take-append_le 64 m rest (omega arith),
        drop-append_le 64 m rest (omega arith),
      )
      (absorb-append n k (sha256_compress s (take 64 m)) (drop 64 m) rest
        (omega (arith, length-drop 64 m)))

-- What stands behind the whole blocks is not read.
pub absorb-take :
    (k : ℕ) (s d : List ℕ) → 64 * k ≤ length d → absorb k s (take (64 * k) d) ≡ absorb k s d
absorb-take k s d h =
    sym (absorb_zero _ (drop (64 * k) d))
    ∙ sym (absorb-append k 0 s (take (64 * k) d) (drop (64 * k) d) (length-take (64 * k) d h))
    ∙ rw (add-zero, take-append-drop)
