-- ===== src/Derive/Messages/Reference.antt =====
-- The derivation of docs/SPEC.md, sections 3 and 4, written down from it, and src/derive.cpp
-- against it.
use hh_cpp.Base.{ℕ, ◌/◌, ◌%◌, ◌^◌, ◌<◌, ◌≡◌, refl, ap, ap₂, ◌∙◌, arith}
use hh_cpp.Base.{
  Bool, true, false, not, List, [], ◌∷◌, ◌++◌, length, take, replicate, codes, u8, u32, ◌>>>◌, ltb,
  ◌==◌, if◌then◌else◌, Bool-cases, inl, inr, ltb-false→le, ==-false→ne,
}
use hh_cpp.Error.{ErrorCode, ok, empty_input, input_too_large, invalid_digest, invalid_key}
use hh_cpp.Types.{BaseDigest, SecretKey, Fingerprint, keyed, fingerprint_clear}
use hh_cpp.Sha256.Fips.{fips_hash}
use hh_cpp.Hmac.Rfc.{rfc2104}
use hh_cpp.Pbkdf2.Rfc.{rfc8018, int_octets}
use hh_cpp.Derive.{
  InputKind, binary, text, make_base_digest, make_base_digest_from_text, keyed_fingerprint, kcv,
  digest_of, digest_if, check_length, m1_header, m2_message, kind_byte,
}
use hh_cpp.Derive.HexDigest.{view_of}
use hh_cpp.Derive.Messages.{
  m1, m2, m3, base_digest_bytes, digest_of_lem, keyed_fingerprint_lem, kcv_lem,
}

-- DST, M1 and M2.
reference_dst : List ℕ
reference_dst = codes "HumanizedHash"

kind_octet : InputKind → ℕ
kind_octet binary = 0x00
kind_octet text = 0x01

reference_m1 : InputKind → List ℕ → List ℕ
reference_m1 kind data_ =
    reference_dst ++ (0x00 ∷ 0x01 ∷ kind_octet kind ∷ (int_octets (length data_) ++ data_))

reference_m2 : List ℕ → List ℕ
reference_m2 s = reference_dst ++ (0x00 ∷ 0x02 ∷ take 32 s)

reference_m3 : List ℕ
reference_m3 = reference_dst ++ (0x00 ∷ 0x03 ∷ [])

-- What a maker gives for an input: the limits of section 3, and then the stretched hash of M1.
pub reference_digest : InputKind → List ℕ → ErrorCode × BaseDigest
reference_digest kind data_ =
    if length data_ == 0
    then (empty_input, record { bytes = replicate 32 0; set_ = false })
    else if ltb 1048576 (length data_)
    then (input_too_large, record { bytes = replicate 32 0; set_ = false })
    else (
      ok,
      record {
        bytes =
            rfc8018 (fips_hash (reference_m1 kind data_)) (codes "HumanizedHash/stretch") 16384 32;
        set_ = true;
      },
    )

pub reference_keyed : BaseDigest → SecretKey → ErrorCode × Fingerprint
reference_keyed digest key =
    if not digest.set_
    then (invalid_digest, fingerprint_clear)
    else if not key.set_
    then (invalid_key, fingerprint_clear)
    else (
      ok,
      record { bytes = rfc2104 key.bytes (reference_m2 digest.bytes); mode = keyed; set_ = true },
    )

pub reference_kcv : SecretKey → List ℕ
reference_kcv key = if key.set_ then take 4 (rfc2104 key.bytes reference_m3) else replicate 4 0

kind_byte-kind_octet : (kind : InputKind) → kind_byte kind ≡ kind_octet kind
unfolding kind_octet
kind_byte-kind_octet binary = refl
kind_byte-kind_octet text = refl

octets_lem :
    (n : ℕ)
    → u8 (u32 n >>> 24) ∷ u8 (u32 n >>> 16) ∷ u8 (u32 n >>> 8) ∷ u8 (u32 n) ∷ [] ≡ int_octets n
octets_lem n =
    let a : u8 (u32 n >>> 24) ≡ n / 2 ^ 24 % 256 = omega arith in
    let b : u8 (u32 n >>> 16) ≡ n / 2 ^ 16 % 256 = omega arith in
    let c : u8 (u32 n >>> 8) ≡ n / 2 ^ 8 % 256 = omega arith in
    let d : u8 (u32 n) ≡ n % 256 = omega arith in
    ap₂ ◌∷◌ a (ap₂ ◌∷◌ b (ap₂ ◌∷◌ c (ap (λ x. x ∷ []) d)))

m1-reference_m1 : (kind : InputKind) (d : List ℕ) → m1 kind d ≡ reference_m1 kind d
unfolding m1 m1_header reference_m1 reference_dst kind_octet
m1-reference_m1 kind d =
    ap₂ (λ k octets. reference_dst ++ (0x00 ∷ 0x01 ∷ k ∷ (octets ++ d))) (kind_byte-kind_octet kind)
      (octets_lem (length d))

m2-reference_m2 : (s : List ℕ) → m2 s ≡ reference_m2 s
unfolding m2 m2_message reference_m2 reference_dst
m2-reference_m2 s = refl

m3-reference_m3 : m3 ≡ reference_m3
unfolding m3 reference_m3 reference_dst
m3-reference_m3 = refl

base-reference :
    (kind : InputKind) (d : List ℕ)
    → base_digest_bytes kind d
      ≡ rfc8018 (fips_hash (reference_m1 kind d)) (codes "HumanizedHash/stretch") 16384 32
unfolding base_digest_bytes
base-reference kind d =
    ap (λ m. rfc8018 (fips_hash m) (codes "HumanizedHash/stretch") 16384 32)
      (m1-reference_m1 kind d)

digest_of-none :
    (kind : InputKind) (d : List ℕ)
    → (length d == 0) ≡ true
    → digest_of kind (view_of d) ≡ (empty_input, record { bytes = replicate 32 0; set_ = false })
unfolding digest_of check_length digest_if
digest_of-none kind d e = rw e refl

digest_of-large :
    (kind : InputKind) (d : List ℕ)
    → (length d == 0) ≡ false
    → ltb 1048576 (length d) ≡ true
    → digest_of kind (view_of d)
      ≡ (input_too_large, record { bytes = replicate 32 0; set_ = false })
unfolding digest_of check_length digest_if
digest_of-large kind d e f = rw e (rw f refl)

digest_of-reference_digest :
    (kind : InputKind) (d : List ℕ) → digest_of kind (view_of d) ≡ reference_digest kind d
unfolding reference_digest
digest_of-reference_digest kind d = elim (Bool-cases (length d == 0)) [
  | inl e ↦ rw e (digest_of-none kind d e)
  | inr e ↦ elim (Bool-cases (ltb 1048576 (length d))) [
    | inl f ↦ rw e (rw f (digest_of-large kind d e f))
    | inr f ↦
        let some_ : 0 < length d = omega (arith, ==-false→ne (length d) 0 e) in
        rw e (
          rw f (
            digest_of_lem kind d some_ (ltb-false→le 1048576 (length d) f)
            ∙ ap (λ b. (ok, record { bytes = b; set_ = true })) (base-reference kind d)))
  ]
]

-- For every input, make_base_digest and make_base_digest_from_text give the codes and the base
-- digests of docs/SPEC.md: PBKDF2 of the hash of M1, whose kind, length, salt and count are those
-- written there, with an empty input and one of more than 1048576 bytes refused.
pub make_base_digest-reference_digest :
    (d : List ℕ)
    → (make_base_digest (view_of d) ≡ reference_digest binary d)
      × (make_base_digest_from_text (view_of d) ≡ reference_digest text d)
unfolding make_base_digest make_base_digest_from_text
make_base_digest-reference_digest d =
    (digest_of-reference_digest binary d, digest_of-reference_digest text d)

keyed_lem :
    (d k : Bool) (s b : List ℕ)
    → keyed_fingerprint (record { bytes = s; set_ = d }) (record { bytes = b; set_ = k })
      ≡ reference_keyed (record { bytes = s; set_ = d }) (record { bytes = b; set_ = k })
unfolding keyed_fingerprint reference_keyed
keyed_lem false k s b = refl
keyed_lem true false s b = refl
keyed_lem true true s b =
    keyed_fingerprint_lem s b
    ∙ ap (λ m. (ok, record { bytes = rfc2104 b m; mode = keyed; set_ = true })) (m2-reference_m2 s)

kcv_cases :
    (k : Bool) (b : List ℕ)
    → kcv (record { bytes = b; set_ = k }) ≡ reference_kcv (record { bytes = b; set_ = k })
unfolding kcv reference_kcv
kcv_cases false b = refl
kcv_cases true b = kcv_lem b ∙ ap (λ m. take 4 (rfc2104 b m)) m3-reference_m3

-- For every digest and key, set or not, keyed_fingerprint and kcv give what docs/SPEC.md defines:
-- the HMAC of M2 under the key, and the first four bytes of the HMAC of the key check message.
pub keyed_fingerprint-reference_keyed :
    (digest : BaseDigest) (key : SecretKey)
    → (keyed_fingerprint digest key ≡ reference_keyed digest key) × (kcv key ≡ reference_kcv key)
keyed_fingerprint-reference_keyed digest key =
    (keyed_lem digest.set_ key.set_ digest.bytes key.bytes, kcv_cases key.set_ key.bytes)
