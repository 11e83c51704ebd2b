-- ===== src/Derive/HexDigest.antt =====
-- `make_base_digest_from_hex` of src/derive.cpp against the decoding of the whole string followed
-- by the binary entry point.
use native.Mathlib.Nat.{sub-zero}
use native.Mathlib.Decide.{ℕ_discrete}
use hh_cpp.Base.{
  ℕ, zero, suc, ◌+◌, ◌-◌, ◌/◌, ◌%◌, ◌≤◌, ◌≡◌, ◌≢◌, refl, sym, ap, ap₂, ◌∙◌, arith, min,
}
use hh_cpp.Base.{true, false, not, ◌||◌, Option, none, some, List, [], ◌∷◌, ◌++◌}
use hh_cpp.Base.{Bool-cases, ◌⊎◌, inl, inr, length, take, u32, ltb, ◌==◌}
use hh_cpp.Base.{take-all, ltb→lt, ltb-false→le, suc-==-zero}
use hh_cpp.Error.{ErrorCode, invalid_hex}
use hh_cpp.Types.{ByteView, BaseDigest, digest_clear, view_bytes}
use hh_cpp.Sha256.{Sha256, Secrecy, sha256, update, finish}
use hh_cpp.Sha256.Fips.{fips_hash}
use hh_cpp.Sha256.Digest.{update_all, joined, finish-update_after, finish-update-update}
use hh_cpp.Derive.{
  InputKind, binary, m1_header, derive_d0, digest_of, make_base_digest, check_length, strip_prefix,
  all_digits, fill_chunk, chunk_loop, hash_hex, digest_if, digest_of_hex, make_base_digest_from_hex,
}
use hh_cpp.Derive.Hex.Denoted.{
  denoted, without_prefix, hex_pairs-denoted, strip_prefix-without_prefix,
}
use hh_cpp.Derive.Hex.{
  hex_pairs, hex_pairs-digits, hex_pairs-none, length-fill_chunk, fill_chunk-append,
}

-- A view of a whole array.
abbrev pub view_of : List ℕ → ByteView
view_of bytes = record { data_ = some bytes; size = length bytes }

-- The digest of what was decoded; no bytes, or no decoding, is `invalid_hex`.
pub digest_of_decoded : Option (List ℕ) → ErrorCode × BaseDigest
digest_of_decoded none = (invalid_hex, digest_clear)
digest_of_decoded (some []) = (invalid_hex, digest_clear)
digest_of_decoded (some (b ∷ bytes)) = make_base_digest (view_of (b ∷ bytes))

-- The chunks are pieces of the decoded input.
chunk_loop_lem :
    (fuel : ℕ) (h : Sha256) (pos size : ℕ) (hex : List ℕ)
    → size - pos ≤ fuel
    → (ps : List (List ℕ)) × (joined ps ≡ fill_chunk (size - pos) pos hex)
      × (chunk_loop fuel h pos size hex ≡ update_all h ps)
unfolding chunk_loop update_all
chunk_loop_lem zero h pos size hex le =
    let z : size - pos ≡ 0 = omega arith in ([], rw z (unfold fill_chunk in refl), refl)
chunk_loop_lem (suc fuel) h pos size hex le = elim (Bool-cases (ltb pos size)) [
  | inl more ↦
      let lt = ltb→lt _ _ more in
      let n = min 256 (size - pos) in
      let (ps, e, f) =
        chunk_loop_lem fuel (update h (fill_chunk n pos hex)) (pos + n) size hex (omega arith) in
      let k : n + (size - (pos + n)) ≡ size - pos = omega arith in
      (
        fill_chunk n pos hex ∷ ps,
        rw e (fill_chunk-append n (size - (pos + n)) pos hex ∙ rw k refl),
        rw more f,
      )
  | inr done ↦
      let z : size - pos ≡ 0 = omega (arith, ltb-false→le _ _ done) in
      ([], rw z (unfold fill_chunk in refl), rw done refl)
]

hash_hex_lem :
    (hex : List ℕ) (n : ℕ)
    → hash_hex hex n ≡ fips_hash (m1_header binary (u32 n) ++ fill_chunk n 0 hex)
unfolding hash_hex
hash_hex_lem hex n =
    let header = m1_header binary (u32 n) in
    let start = update (sha256 Secrecy.public_data) header in
    let (ps, e, f) = chunk_loop_lem n start 0 n hex (omega arith) in
    ap (λ h. (finish h).1) f
    ∙ finish-update_after Secrecy.public_data header ps
    ∙ ap (λ t. fips_hash (header ++ t)) (rw sub-zero at e)

-- `d0` is the hash of the header and the data.
pub derive_d0_lem :
    (kind : InputKind) (bytes : List ℕ)
    → derive_d0 kind bytes ≡ fips_hash (m1_header kind (u32 (length bytes)) ++ bytes)
unfolding derive_d0
derive_d0_lem kind bytes =
    finish-update-update Secrecy.public_data (m1_header kind (u32 (length bytes))) bytes

-- The same header and the same bytes.
hash_hex-eq : (hex : List ℕ) (n : ℕ) → hash_hex hex n ≡ derive_d0 binary (fill_chunk n 0 hex)
hash_hex-eq hex n =
    hash_hex_lem hex n
    ∙ sym (derive_d0_lem binary (fill_chunk n 0 hex) ∙ rw (length-fill_chunk n 0 hex) refl)

digest_of_hex-digits :
    (hex bytes : List ℕ) (b : ℕ)
    → all_digits hex ≡ true
    → length hex % 2 ≡ 0
    → fill_chunk (length hex / 2) 0 hex ≡ b ∷ bytes
    → digest_of_hex hex ≡ make_base_digest (view_of (b ∷ bytes))
unfolding digest_of_hex make_base_digest digest_of view_bytes
digest_of_hex-digits hex bytes b d e f =
    let n : length hex / 2 ≡ suc (length bytes) =
      sym (length-fill_chunk (length hex / 2) 0 hex) ∙ ap (λ t. length t) f in
    let nonzero : (length hex == 0) ≡ false = ground arith in
    let even : (length hex % 2 == 0) ≡ true = ground arith in
    let whole : take (suc (length bytes)) (b ∷ bytes) ≡ b ∷ bytes = take-all _ _ (omega arith) in
    let same : hash_hex hex (length hex / 2)
        ≡ derive_d0 binary (take (suc (length bytes)) (b ∷ bytes)) =
      hash_hex-eq hex (length hex / 2) ∙ ap (derive_d0 binary) (f ∙ sym whole) in
    rw (nonzero, even, d)
      (ap₂ digest_if (ap check_length n) (λ i _. same i) ∙ rw (suc-==-zero (length bytes)) refl)

refused :
    (hex : List ℕ)
    → (all_digits hex ≡ false) ⊎ (length hex % 2 ≢ 0)
    → digest_of_hex hex ≡ digest_of_decoded none
unfolding digest_of_hex digest_of_decoded
refused hex (inl e) = elim (Bool-cases (length hex == 0 || not (length hex % 2 == 0))) [
  | inl t ↦ rw t refl
  | inr t ↦ rw (t, e) refl
]
refused hex (inr odd) =
    let e : (length hex % 2 == 0) ≡ false = ground arith in
    elim (Bool-cases (length hex == 0)) [ inl t ↦ rw t refl | inr t ↦ rw (t, e) refl ]

decoded :
    (hex : List ℕ)
    → all_digits hex ≡ true
    → length hex % 2 ≡ 0
    → (bytes : List ℕ) → fill_chunk (length hex / 2) 0 hex ≡ bytes
    → digest_of_hex hex ≡ digest_of_decoded (hex_pairs hex)
unfolding digest_of_decoded digest_of_hex
decoded hex d e [] f =
    let n : length hex / 2 ≡ 0 =
      sym (length-fill_chunk (length hex / 2) 0 hex) ∙ ap (λ t. length t) f in
    let none_left : (length hex == 0) ≡ true = ground arith in
    rw (hex_pairs-digits hex d e, f, none_left) refl
decoded hex d e (b ∷ bytes) f =
    rw (hex_pairs-digits hex d e, f) (digest_of_hex-digits hex bytes b d e f)

from_hex-pairs :
    (input : List ℕ)
    → make_base_digest_from_hex input ≡ digest_of_decoded (hex_pairs (strip_prefix input))
unfolding make_base_digest_from_hex
from_hex-pairs input = go (strip_prefix input)
  where
    go : (hex : List ℕ) → digest_of_hex hex ≡ digest_of_decoded (hex_pairs hex)
    go hex = elim (Bool-cases (all_digits hex)) [
      | inr e ↦ rw (hex_pairs-none hex (inl e)) (refused hex (inl e))
      | inl e ↦ elim (ℕ_discrete (length hex % 2) 0) [
        | no odd ↦ rw (hex_pairs-none hex (inr odd)) (refused hex (inr odd))
        | yes even ↦ decoded hex e even (fill_chunk (length hex / 2) 0 hex) refl
      ]
    ]

-- For every string: the digest is that of the bytes which docs/SPEC.md reads in it, or
-- `invalid_hex` where there is nothing to read: behind an optional 0x or 0X no character, an odd
-- number of them, or one that is none of 0-9, a-f and A-F.
pub make_base_digest_from_hex_lem :
    (input : List ℕ)
    → make_base_digest_from_hex input ≡ digest_of_decoded (denoted (without_prefix input))
make_base_digest_from_hex_lem input =
    from_hex-pairs input
    ∙ ap digest_of_decoded
        (hex_pairs-denoted (strip_prefix input) ∙ ap denoted (strip_prefix-without_prefix input))
