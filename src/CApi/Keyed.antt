-- ===== src/CApi/Keyed.antt =====
-- Calls of the C interface one after the other: src/c_api.cpp.
use hh_cpp.Base.{ℕ, ◌≡◌, ◌≢◌, refl, sym, ap, ◌∙◌, true, some, List, length}
use hh_cpp.Base.{take, replicate, write_at, take-all, All, IsByte, arith}
use hh_cpp.Error.{ok, to_int}
use hh_cpp.Hmac.Rfc.{rfc2104, length-rfc2104}
use hh_cpp.Derive.{make_secret_key}
use hh_cpp.Derive.Messages.{m2, m3, keyed_fingerprint_lem, kcv_lem}
use hh_cpp.Derive.Outcomes.{make_secret_key_lem, import_base_digest_lem}
use hh_cpp.CApi.Digests.{hh_keyed_fingerprint, hh_key_check_value}

secret :
    (key : List ℕ)
    → All IsByte key
    → length key ≡ 32
    → key ≢ replicate 32 0
    → make_secret_key (record { data_ = some key; size = 32 })
      ≡ (ok, record { bytes = key; set_ = true })
secret key bytes size some_bit =
    ap (λ n. make_secret_key (record { data_ = some key; size = n })) (sym size)
    ∙ (make_secret_key_lem key bytes).1 (size, some_bit)

-- For a digest of 32 bytes and a key of 32 bytes that are not all zero, `hh_keyed_fingerprint`
-- writes the HMAC of the second message under the key to the front of the buffer, and
-- `hh_key_check_value` the first four bytes of the HMAC of the third message.
pub hh_keyed_fingerprint_lem :
    (digest key out kcv : List ℕ)
    → length digest ≡ 32
    → All IsByte key
    → length key ≡ 32
    → key ≢ replicate 32 0
    → (hh_keyed_fingerprint (some digest) (some key) (some out)
        ≡ (0, some (write_at out 0 (rfc2104 key (m2 digest)))))
      × (hh_key_check_value (some key) (some kcv)
          ≡ (0, some (write_at kcv 0 (take 4 (rfc2104 key m3)))))
unfolding hh_keyed_fingerprint hh_key_check_value to_int
hh_keyed_fingerprint_lem digest key out kcv size bytes key_size some_bit =
    let tag = rfc2104 key (m2 digest) in
    let whole : take 32 tag ≡ tag =
      take-all 32 tag (omega (arith, length-rfc2104 key (m2 digest))) in
    (
      rw
          (
            import_base_digest_lem digest size,
            secret key bytes key_size some_bit,
            keyed_fingerprint_lem digest key,
            whole,
          )
          refl,
      rw (secret key bytes key_size some_bit, kcv_lem key) refl,
    )
