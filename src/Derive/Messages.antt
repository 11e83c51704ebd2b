-- ===== src/Derive/Messages.antt =====
-- The messages that src/derive.cpp hashes, and the values that the entry points derive from them.
pub mod Reference
use hh_cpp.Base.{ℕ, ◌<◌, ◌≤◌, ◌≡◌, ◌≢◌, refl, ap, ◌∙◌, arith}
use hh_cpp.Base.{true, false, List, ◌++◌}
use hh_cpp.Base.{length, get_or, take, drop, ltb, ◌==◌, u32, take-all}
use hh_cpp.Error.{ok}
use hh_cpp.Base.{if_both, length-take-le, replicate}
use hh_cpp.Types.{SecretKey, keyed, view_bytes}
use hh_cpp.Sha256.Fips.{fips_hash}
use hh_cpp.Hmac.Rfc.{rfc2104, hmac_sha256_tag_lem, length-rfc2104}
use hh_cpp.Pbkdf2.Rfc.{rfc8018, pbkdf2_hmac_sha256_lem, take-rfc8018}
use hh_cpp.Derive.{
  InputKind, binary, text, kind_byte, put_prefix, m1_header, m2_message, derive_d0, stretch,
  stretch_salt, stretch_iterations, max_input_size, digest_of, digest_if, check_length,
  make_base_digest, make_base_digest_from_text, keyed_bytes, keyed_fingerprint, key_check_value,
  kcv,
}
use hh_cpp.Derive.HexDigest.{derive_d0_lem, view_of}

-- M1, M2 and the message of the key check value.
pub m1 : InputKind → List ℕ → List ℕ
unfolding m1_header
m1 kind bytes = m1_header kind (u32 (length bytes)) ++ bytes

pub m2 : List ℕ → List ℕ
unfolding m2_message
m2 s = m2_message s

pub m3 : List ℕ
m3 = put_prefix 3

stage_at : List ℕ → ℕ
stage_at m = get_or m 14 0

kind_at : List ℕ → ℕ
kind_at m = get_or m 15 0

same_kind : (k k' : InputKind) → kind_byte k ≡ kind_byte k' → k ≡ k'
same_kind binary binary e = refl
same_kind binary text e = absurd (omega arith)
same_kind text binary e = absurd (omega arith)
same_kind text text e = refl

-- A message of the first stage belongs to one input: equal messages have the same kind and bytes.
pub m1-injective : (k k' : InputKind) (d d' : List ℕ) → m1 k d ≡ m1 k' d' → (k ≡ k') × (d ≡ d')
unfolding m1
m1-injective k k' d d' e =
    (same_kind k k' (unfold kind_at in ap kind_at e), unfold drop in ap (λ m. drop 20 m) e)

-- No message of one stage is a message of another.
pub stages_distinct : (k : InputKind) (d s : List ℕ) → (m1 k d ≢ m2 s) × (m1 k d ≢ m3) × (m2 s ≢ m3)
unfolding m1 m2 m3 stage_at
stages_distinct k d s = (
  λ e. absurd (omega (arith, ap stage_at e)),
  λ e. absurd (omega (arith, ap stage_at e)),
  λ e. absurd (omega (arith, ap stage_at e)),
)

-- The base digest of an input: PBKDF2 of the hash of M1.
pub base_digest_bytes : InputKind → List ℕ → List ℕ
base_digest_bytes kind d = rfc8018 (fips_hash (m1 kind d)) stretch_salt stretch_iterations 32

stretch-derive_d0 :
    (kind : InputKind) (d : List ℕ)
    → stretch (derive_d0 kind d) stretch_iterations ≡ base_digest_bytes kind d
unfolding stretch base_digest_bytes m1
stretch-derive_d0 kind d =
    pbkdf2_hmac_sha256_lem _ stretch_salt stretch_iterations 32 (omega arith) (omega arith)
    ∙ rw (derive_d0_lem kind d) refl

take-base_digest_bytes :
    (kind : InputKind) (d : List ℕ) → take 32 (base_digest_bytes kind d) ≡ base_digest_bytes kind d
unfolding base_digest_bytes
take-base_digest_bytes kind d = take-rfc8018 _ stretch_salt stretch_iterations 32

digest_of_lem :
    (kind : InputKind) (d : List ℕ)
    → 0 < length d
    → length d ≤ max_input_size
    → digest_of kind (view_of d) ≡ (ok, record { bytes = base_digest_bytes kind d; set_ = true })
unfolding digest_of view_bytes check_length digest_if
digest_of_lem kind d lo hi =
    let e : (length d == 0) ≡ false = ground arith in
    let e' : ltb max_input_size (length d) ≡ false = ground arith in
    rw
      (
        e,
        e',
        take-all (length d) d (omega arith),
        stretch-derive_d0 kind d,
        take-base_digest_bytes kind d,
      )
      refl

-- Binary and text inputs of an admitted length give the base digest of their kind.
pub make_base_digest_lem :
    (d : List ℕ)
    → 0 < length d
    → length d ≤ max_input_size
    → (make_base_digest (view_of d)
        ≡ (ok, record { bytes = base_digest_bytes binary d; set_ = true }))
      × (make_base_digest_from_text (view_of d)
          ≡ (ok, record { bytes = base_digest_bytes text d; set_ = true }))
unfolding make_base_digest make_base_digest_from_text
make_base_digest_lem d lo hi = (digest_of_lem binary d lo hi, digest_of_lem text d lo hi)

-- The keyed fingerprint of a set digest under a set key is the HMAC of M2.
pub keyed_fingerprint_lem :
    (s key : List ℕ)
    → keyed_fingerprint (record { bytes = s; set_ = true }) (record { bytes = key; set_ = true })
      ≡ (ok, record { bytes = rfc2104 key (m2 s); mode = keyed; set_ = true })
unfolding keyed_fingerprint keyed_bytes m2
keyed_fingerprint_lem s key =
    rw
      (
        hmac_sha256_tag_lem,
        take-all 32 (rfc2104 key (m2_message s)) (omega (arith, length-rfc2104 key (m2_message s))),
      )
      refl

-- The key check value of a set key is the first four bytes of the HMAC of its message.
pub kcv_lem : (key : List ℕ) → kcv (record { bytes = key; set_ = true }) ≡ take 4 (rfc2104 key m3)
unfolding kcv key_check_value m3
kcv_lem key = ap (take 4) (hmac_sha256_tag_lem key _)

pub length-kcv : (k : SecretKey) → length (kcv k) ≤ 4
unfolding kcv key_check_value replicate
length-kcv k =
    if_both (λ bytes. length bytes ≤ 4) k.set_ _ (replicate 4 0) (length-take-le 4 _) (omega arith)
