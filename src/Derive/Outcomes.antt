-- ===== src/Derive/Outcomes.antt =====
-- The error paths of src/derive.cpp: what the out parameters hold after each call.
use hh_cpp.Base.{ℕ, zero, suc, ◌<◌, ◌^◌, ◌/◌, ◌%◌, ap₂, ◌≡◌, ◌≢◌, ◌↔◌, refl, ap, ◌∙◌, arith}
use hh_cpp.Base.{
  true, some, not, ◌&&◌, ◌||◌, List, [], inl, inr, Bool-cases, if_both, ==→eq, ==-false→ne, ◌∷◌,
}
use hh_cpp.Base.{length, take, replicate, u8, ◌==◌, All, IsByte, bit_or, take-all}
use hh_cpp.Base.Bits.{bit_or-ge, bit_or-lt}
use hh_cpp.Error.{ErrorCode, ok}
use hh_cpp.Types.{ByteView, BaseDigest, SecretKey, Fingerprint, Mode, universal, view_bytes}
use hh_cpp.Types.{digest_clear, fingerprint_clear, is_null}
use hh_cpp.Derive.{
  InputKind, binary, text, all_digits, strip_prefix, digest_of, digest_if, check_length,
  make_base_digest, make_base_digest_from_text, make_base_digest_from_hex, digest_of_hex,
  import_base_digest, make_secret_key, or_all, universal_fingerprint, keyed_fingerprint,
  import_fingerprint, is_known,
}
use hh_cpp.Derive.HexDigest.{view_of}

-- A call that fails leaves a cleared object, and one that succeeds a set one.
pub data DigestOutcome : ErrorCode × BaseDigest → Type 0 where
  set_digest : (bytes : List ℕ) → DigestOutcome (ok, record { bytes = bytes; set_ = true })
  no_digest : (ec : ErrorCode) → ec ≢ ok → DigestOutcome (ec, digest_clear)

pub data FingerprintOutcome : ErrorCode × Fingerprint → Type 0 where
  set_fingerprint :
      (bytes : List ℕ) (m : Mode)
      → FingerprintOutcome (ok, record { bytes = bytes; mode = m; set_ = true })
  no_fingerprint : (ec : ErrorCode) → ec ≢ ok → FingerprintOutcome (ec, fingerprint_clear)

digest_if-outcome : (ec : ErrorCode) (d0 : Unit {0} → List ℕ) → DigestOutcome (digest_if ec d0)
unfolding digest_if
digest_if-outcome ok d0 = set_digest _
digest_if-outcome ec d0 = no_digest _ (λ e. cc)

digest_of-outcome : (k : InputKind) (v : ByteView) → DigestOutcome (digest_of k v)
unfolding digest_of
digest_of-outcome k v =
    if_both DigestOutcome (is_null v && not (v.size == 0)) _ _ (no_digest _ (λ e. cc))
      (digest_if-outcome (check_length v.size) _)

digest_of_hex-outcome : (hex : List ℕ) → DigestOutcome (digest_of_hex hex)
unfolding digest_of_hex
digest_of_hex-outcome hex =
    if_both DigestOutcome (length hex == 0 || not (length hex % 2 == 0)) _ _ (no_digest _ (λ e. cc))
      (if_both DigestOutcome (not (all_digits hex)) _ _ (no_digest _ (λ e. cc))
        (digest_if-outcome (check_length (length hex / 2)) _))

-- Every maker of a digest reports `ok` with a set digest, or another code with a cleared one.
pub digest-outcomes :
    (v : ByteView) (input : List ℕ)
    → DigestOutcome (make_base_digest v)
      × DigestOutcome (make_base_digest_from_text v)
      × DigestOutcome (make_base_digest_from_hex input)
      × DigestOutcome (import_base_digest v)
unfolding make_base_digest make_base_digest_from_text make_base_digest_from_hex import_base_digest
digest-outcomes v input = (
  digest_of-outcome binary v,
  digest_of-outcome text v,
  digest_of_hex-outcome (strip_prefix input),
  if_both DigestOutcome (is_null v || not (v.size == 32)) _ _ (no_digest _ (λ e. cc))
      (set_digest _),
)

-- Every maker of a fingerprint reports `ok` with a set one, or another code with a cleared one.
pub fingerprint-outcomes :
    (d : BaseDigest) (k : SecretKey) (v : ByteView) (m : Mode)
    → FingerprintOutcome (universal_fingerprint d)
      × FingerprintOutcome (keyed_fingerprint d k)
      × FingerprintOutcome (import_fingerprint v m)
unfolding universal_fingerprint keyed_fingerprint import_fingerprint
fingerprint-outcomes d k v m = (
  if_both FingerprintOutcome (not d.set_) _ _ (no_fingerprint _ (λ e. cc)) (set_fingerprint _ _),
  if_both FingerprintOutcome (not d.set_) _ _ (no_fingerprint _ (λ e. cc)) (
      if_both FingerprintOutcome (not k.set_) _ _ (no_fingerprint _ (λ e. cc))
        (set_fingerprint _ _)),
  if_both FingerprintOutcome (is_null v || not (v.size == 32) || not (is_known m)) _ _
      (no_fingerprint _ (λ e. cc)) (set_fingerprint _ _),
)

-- The test for a key of zeros.
or_all-zero :
    (any : ℕ) (bs : List ℕ)
    → any < 2 ^ 8
    → All IsByte bs
    → or_all any bs ≡ 0
    → (any ≡ 0) × (bs ≡ replicate (length bs) 0)
unfolding or_all replicate
or_all-zero any [] h hs e = (e, refl)
or_all-zero any (b ∷ bs) h (hb, hs) e =
    let small = bit_or-lt 8 any b h hb in
    let (z, r) = or_all-zero (u8 (bit_or any b)) bs (omega (arith, small)) hs e in
    (omega (arith, z, bit_or-ge any b, small), ap₂ ◌∷◌ (omega (arith, z, bit_or-ge any b, small)) r)

or_all-zeros : (n : ℕ) → or_all 0 (replicate n 0) ≡ 0
unfolding or_all replicate
or_all-zeros zero = refl
or_all-zeros (suc n) = or_all-zeros n

-- A key is accepted exactly if it has 32 bytes that are not all zero, and is kept as it is.
pub make_secret_key_lem :
    (bytes : List ℕ)
    → All IsByte bytes
    → (make_secret_key (view_of bytes) ≡ (ok, record { bytes = bytes; set_ = true }))
      ↔ ((length bytes ≡ 32) × (bytes ≢ replicate 32 0))
unfolding make_secret_key view_bytes
make_secret_key_lem bytes all =
    let whole : take (length bytes) bytes ≡ bytes = take-all (length bytes) bytes (omega arith) in
    elim (Bool-cases (length bytes == 32)) [
      | inr other ↦ rw (whole, other) ((λ e. cc e), (λ h. absurd (==-false→ne _ _ other h.0)))
      | inl same ↦
          let size : length bytes ≡ 32 = ==→eq _ _ same in
          elim (Bool-cases (or_all 0 bytes == 0)) [
            | inl z ↦
                let empty : bytes ≡ replicate 32 0 =
                  (or_all-zero 0 bytes (omega arith) all (==→eq _ _ z)).1
                  ∙ ap (λ n. replicate n 0) size in
                rw (whole, same, z) ((λ e. cc e), (λ h. absurd (h.1 empty)))
            | inr z ↦
                rw (whole, same, z, take-all 32 bytes (omega (arith, size)))
                  (
                    (λ e. (
                      size,
                      λ q. absurd (==-false→ne _ _ z (ap (or_all 0) q ∙ or_all-zeros 32)),
                    )),
                    (λ h. refl),
                  )
          ]
    ]

-- A cached digest of 32 bytes is restored as it was.
pub import_base_digest_lem :
    (digest : List ℕ)
    → length digest ≡ 32
    → import_base_digest (record { data_ = some digest; size = 32 })
      ≡ (ok, record { bytes = digest; set_ = true })
unfolding import_base_digest view_bytes
import_base_digest_lem digest size =
    let whole : take 32 digest ≡ digest = take-all 32 digest (omega arith) in rw (whole, whole) refl

-- 32 bytes with a known mode are taken over as they are.
pub import_fingerprint_lem :
    (bytes : List ℕ) (m : Mode)
    → is_known m ≡ true
    → length bytes ≡ 32
    → import_fingerprint (record { data_ = some bytes; size = 32 }) m
      ≡ (ok, record { bytes = bytes; mode = m; set_ = true })
unfolding import_fingerprint view_bytes
import_fingerprint_lem bytes m known size =
    let whole : take 32 bytes ≡ bytes = take-all 32 bytes (omega arith) in
    rw (known, whole, whole) refl

pub universal_fingerprint_lem :
    (bytes : List ℕ)
    → length bytes ≡ 32
    → universal_fingerprint (record { bytes = bytes; set_ = true })
      ≡ (ok, record { bytes = bytes; mode = universal; set_ = true })
unfolding universal_fingerprint
universal_fingerprint_lem bytes size =
    let whole : take 32 bytes ≡ bytes = take-all 32 bytes (omega arith) in rw whole refl

pub universal-known : is_known universal ≡ true
unfolding is_known
universal-known = refl
