-- ===== src/Tests/Hashes.antt =====
-- The theorems on hashing, message authentication and checksums at concrete inputs.
use hh_cpp.Base.{ℕ, ◌*◌, ◌+◌, ◌≡◌, List, [], ◌∷◌, not32, arith}
use hh_cpp.Sha256.{Secrecy, finish, sha256}
use hh_cpp.Sha256.Fips.{fips_hash}
use hh_cpp.Sha256.Digest.{update_all, joined, finish-update_all}
use hh_cpp.Hmac.{hmac_sha256, hmac_finish}
use hh_cpp.Hmac.Rfc.{rfc2104, hmac_update_all, hmac_finish-update_all}
use hh_cpp.Pbkdf2.{pbkdf2_hmac_sha256}
use hh_cpp.Pbkdf2.Rfc.{rfc8018, pbkdf2_hmac_sha256_lem}
use hh_cpp.Checksum.{crc32, adler32}
use hh_cpp.Checksum.Crc.{crc_register, crc32_lem}
use hh_cpp.Checksum.Adler.{adler_sums, adler_word, adler32_lem}

abbrev pieces : List (List ℕ)
pieces = (0x61 ∷ []) ∷ [] ∷ (0x62 ∷ 0x63 ∷ []) ∷ []

abbrev short_key : List ℕ
short_key = 0x4b ∷ 0x65 ∷ 0x79 ∷ []

abbrev few : List ℕ
few = 0x31 ∷ 0xff ∷ []

finish-update_all_example :
    (finish (update_all (sha256 Secrecy.public_data) pieces)).1 ≡ fips_hash (joined pieces)
finish-update_all_example = finish-update_all Secrecy.public_data pieces

hmac_finish-update_all_example :
    (hmac_finish (hmac_update_all (hmac_sha256 short_key) pieces)).1
    ≡ rfc2104 short_key (joined pieces)
hmac_finish-update_all_example = hmac_finish-update_all short_key pieces

pbkdf2_hmac_sha256_lem_example : pbkdf2_hmac_sha256 short_key few 3 40 ≡ rfc8018 short_key few 3 40
pbkdf2_hmac_sha256_lem_example =
    pbkdf2_hmac_sha256_lem short_key few 3 40 (omega arith) (omega arith)

crc32_lem_example : crc32 few 0 ≡ not32 (crc_register few (not32 0))
crc32_lem_example = crc32_lem few 0 (omega arith, (omega arith, tt))

adler32_lem_example :
    adler32 few (3 * 65536 + 2) ≡ adler_word (adler_sums few (record { a = 2; b = 3 }))
adler32_lem_example =
    adler32_lem few 2 3 (omega arith, (omega arith, tt)) (omega arith) (omega arith)
