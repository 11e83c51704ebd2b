-- ===== src/Tests/Inputs.antt =====
-- The theorems on digests, keys and fingerprints at concrete inputs.
use hh_cpp.Base.{ℕ, ◌≡◌, ◌≢◌, ◌↔◌, refl, true, List, [], ◌∷◌, length, replicate, arith, codes}
use hh_cpp.Error.{ok}
use hh_cpp.Types.{BaseDigest, SecretKey, keyed}
use hh_cpp.Derive.{
  binary, text, make_base_digest, make_base_digest_from_text, make_base_digest_from_hex,
}
use hh_cpp.Derive.{
  import_base_digest, make_secret_key, universal_fingerprint, keyed_fingerprint, import_fingerprint,
}
use hh_cpp.Derive.{kcv}
use hh_cpp.Derive.Hex.Denoted.{denoted, without_prefix}
use hh_cpp.Derive.HexDigest.{view_of, digest_of_decoded, make_base_digest_from_hex_lem}
use hh_cpp.Derive.Messages.{m1, m2, m3, m1-injective, stages_distinct}
use hh_cpp.Derive.Messages.Reference.{
  reference_digest, reference_keyed, reference_kcv, make_base_digest-reference_digest,
  keyed_fingerprint-reference_keyed,
}
use hh_cpp.Derive.Outcomes.{
  DigestOutcome, FingerprintOutcome, digest-outcomes, fingerprint-outcomes, make_secret_key_lem,
}

abbrev few : List ℕ
few = 0x31 ∷ 0x32 ∷ []

abbrev key_bytes : List ℕ
key_bytes = 7 ∷ replicate 31 0

abbrev hex_input : List ℕ
hex_input = codes "0x3132"

abbrev some_digest : BaseDigest
some_digest = record { bytes = few; set_ = true }

abbrev some_key : SecretKey
some_key = record { bytes = key_bytes; set_ = true }

make_base_digest_from_hex_lem_example :
    make_base_digest_from_hex hex_input ≡ digest_of_decoded (denoted (without_prefix hex_input))
make_base_digest_from_hex_lem_example = make_base_digest_from_hex_lem hex_input

make_base_digest-reference_digest_example :
    (make_base_digest (view_of few) ≡ reference_digest binary few)
    × (make_base_digest_from_text (view_of few) ≡ reference_digest text few)
make_base_digest-reference_digest_example = make_base_digest-reference_digest few

keyed_fingerprint-reference_keyed_example :
    (keyed_fingerprint some_digest some_key ≡ reference_keyed some_digest some_key)
    × (kcv some_key ≡ reference_kcv some_key)
keyed_fingerprint-reference_keyed_example = keyed_fingerprint-reference_keyed some_digest some_key

m1-injective_example : (binary ≡ binary) × (few ≡ few)
m1-injective_example = m1-injective binary binary few few refl

stages_distinct_example : (m1 text few ≢ m2 key_bytes) × (m1 text few ≢ m3) × (m2 key_bytes ≢ m3)
stages_distinct_example = stages_distinct text few key_bytes

digest-outcomes_example :
    DigestOutcome (make_base_digest (view_of few))
    × DigestOutcome (make_base_digest_from_text (view_of few))
    × DigestOutcome (make_base_digest_from_hex hex_input)
    × DigestOutcome (import_base_digest (view_of few))
digest-outcomes_example = digest-outcomes (view_of few) hex_input

fingerprint-outcomes_example :
    FingerprintOutcome (universal_fingerprint some_digest)
    × FingerprintOutcome (keyed_fingerprint some_digest some_key)
    × FingerprintOutcome (import_fingerprint (view_of few) keyed)
fingerprint-outcomes_example = fingerprint-outcomes some_digest some_key (view_of few) keyed

make_secret_key_lem_example :
    (make_secret_key (view_of few) ≡ (ok, record { bytes = few; set_ = true }))
    ↔ ((length few ≡ 32) × (few ≢ replicate 32 0))
make_secret_key_lem_example = make_secret_key_lem few (omega arith, (omega arith, tt))
