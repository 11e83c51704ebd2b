-- ===== src/Checksum/Tests.antt =====
-- Runs of the checksums on inputs with published values.
use hh_cpp.Base.{take, drop, [], ◌∷◌, ◌≡◌, refl}
use hh_cpp.Checksum.{crc32, adler32}

adler32_run : adler32 (0x61 ∷ 0x62 ∷ 0x63 ∷ []) 1 ≡ 0x024d0127
unfolding adler32 take drop
adler32_run = refl

crc32_run : crc32 (0x61 ∷ 0x62 ∷ 0x63 ∷ []) 0 ≡ 0x352441c2
unfolding crc32
crc32_run = refl
