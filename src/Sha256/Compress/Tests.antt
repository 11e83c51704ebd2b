-- ===== src/Sha256/Compress/Tests.antt =====
-- The compression function on the published example of one block, the message "abc".
use hh_cpp.Base.{[], ◌∷◌, ◌++◌, replicate, ◌≡◌, refl}
use hh_cpp.Sha256.Compress.{sha256_initial_state, sha256_compress}

sha256_compress_run :
    sha256_compress sha256_initial_state
      ((0x61 ∷ 0x62 ∷ 0x63 ∷ 0x80 ∷ []) ++ (replicate 59 0 ++ (24 ∷ [])))
    ≡ 0xba7816bf ∷ 0x8f01cfea ∷ 0x414140de ∷ 0x5dae2223 ∷ 0xb00361a3 ∷ 0x96177a9c ∷ 0xb410ff61
      ∷ 0xf20015ad ∷ []
unfolding sha256_compress replicate
sha256_compress_run = refl
