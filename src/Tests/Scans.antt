-- ===== src/Tests/Scans.antt =====
-- The entropy decoder at a concrete block.
use hh_cpp.Base.{ℕ, zero, suc, ◌++◌, ◌≡◌, refl, List, [], ◌∷◌, replicate, length, arith}
use hh_cpp.Base.Int.{ℤ, pos, negsuc}
use hh_cpp.Jpeg.Tables.{jpeg_dc_luminance, jpeg_ac_luminance}
use hh_cpp.Jpeg.Scan.{ScanWriter, build, encode_block}
use hh_cpp.Jpeg.Huffman.{build-IsTable}
use hh_cpp.Jpeg.Written.{Wrote, stuff, byte_bits}
use hh_cpp.Base.Streams.{code_bits}
use hh_cpp.Jpeg.Blocks.{AllSmall, no_more, and_more}
use hh_cpp.Jpeg.Decoded.{BlockWritten, encode_block-read_block}

-- A run of twenty zeros, a negative value, and zeros to the end.
abbrev coefficients : List ℤ
coefficients = replicate 20 (pos 0) ++ (negsuc 6 ∷ replicate 42 (pos 0))

length-coefficients : length coefficients ≡ 63
unfolding replicate
length-coefficients = refl

zeros-AllSmall : (n : ℕ) → AllSmall (replicate n (pos 0))
unfolding replicate
zeros-AllSmall zero = no_more
zeros-AllSmall (suc n) = and_more (omega arith) (zeros-AllSmall n)

before_zeros : (n : ℕ) (rest : List ℤ) → AllSmall rest → AllSmall (replicate n (pos 0) ++ rest)
unfolding replicate
before_zeros zero rest small = small
before_zeros (suc n) rest small = and_more (omega arith) (before_zeros n rest small)

coefficients-AllSmall : AllSmall coefficients
coefficients-AllSmall =
    before_zeros 20 (negsuc 6 ∷ replicate 42 (pos 0)) (and_more (omega arith) (zeros-AllSmall 42))

abbrev new_writer : ScanWriter
new_writer = record { out = []; acc = 0; used = 0 }

nothing_written : Wrote [] new_writer []
unfolding stuff byte_bits code_bits
nothing_written = ([], refl, omega arith, refl)

encode_block-read_block_example :
    BlockWritten jpeg_dc_luminance jpeg_ac_luminance
      (pos 5 ∷ coefficients)
      (pos 8)
      []
      []
      (encode_block
        (pos 5 ∷ coefficients)
        (pos 8)
        (build jpeg_dc_luminance)
        (build jpeg_ac_luminance)
        new_writer).0
encode_block-read_block_example =
    encode_block-read_block jpeg_dc_luminance jpeg_ac_luminance (pos 5) (pos 8) coefficients [] []
      new_writer build-IsTable.0 build-IsTable.2 (omega arith) coefficients-AllSmall
      length-coefficients nothing_written
