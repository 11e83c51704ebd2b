-- ===== src/Lib.antt =====
-- A model of hh, a C++ library that turns data into a fingerprint that people can compare: a
-- picture of sixteen figures and a short tag.
--
-- The program. A base digest is made of binary, text or hexadecimal input (src/derive.cpp) by
-- SHA-256 (src/sha256.cpp) and stretched by PBKDF2 (src/pbkdf2.cpp). It gives the universal
-- fingerprint itself, and the keyed one by HMAC (src/hmac.cpp) under a secret key. The
-- fingerprint gives cells and a tag (src/features.cpp), which are drawn on a background
-- (src/raster.cpp) that src/contrast.cpp checks. The picture is encoded as PNG, BMP or JPEG
-- (src/png.cpp, src/bmp.cpp, src/jpeg.cpp).
--
-- The files.
--   Base: tests, words, lists, bits and signed integers that the parts share.
--   Error: error_code, error_message, error_name and version (include/hh/error.hpp,
--     src/error.cpp).
--   Types: byte_view, rgb, base_digest, secret_key and fingerprint (include/hh).
--   Sha256, Hmac, Pbkdf2: the objects of the same names. A method takes the object and gives the
--     one after it, with the output where it writes one. Sha256/Compress is the compression
--     function, Sha256/Compress/Standard the functions and constants of FIPS 180-4 beside it.
--     Sha256/Fips, Hmac/Rfc and Pbkdf2/Rfc hold the standards that the objects are compared with.
--   Derive: the make_, import_ and fingerprint functions. Each gives its code and the object that
--     the out parameter holds after it. Hex/Denoted and Messages/Reference hold what docs/SPEC.md
--     says of hexadecimal input and of the messages.
--   Checksum: crc32 and adler32 (src/checksum.cpp).
--   Palette, Contrast: src/palette.hpp and src/contrast.cpp.
--   Features: cells_of, tag_of, describe and the hash.
--   Raster: Sizing (make_geometry and the frame rules), Frame (frame_tester and in_figure), Mix
--     (mix and put), rasterise, and Render (prepare, render_into and render).
--   Encode, Bmp, Png, Jpeg: the encoders, each a function from a view of pixels to bytes.
--     Png/Stream, Inflate and Decode describe the bits that are written and the reader of
--     RFC 1951, RFC 1950 and the PNG specification that the encoder is compared with.
--     Jpeg/Huffman, Values, Runs, Decoded and Units do the same for the entropy-coded data of
--     T.81, Jpeg/Written for its byte stuffing, Jpeg/Header for the segments in front, and
--     Jpeg/Scans and Picture for a whole file.
--   CApi: src/c_api.cpp. Digests has the calls for digests, fingerprints, keys and names,
--     Pictures those for layouts, options, rendering and contrast; CApi itself the encoders.
--   Names: tools/names.hpp.
--   Cli: examples/hh_cli.cpp. Cli itself has run, parse_number and split_fields, Batch the batch
--     mode, whose output and files are a record that a line changes, and Arguments the loop of
--     main.
--   Tests: runs, and the theorems at concrete inputs.
--
-- Conventions. Numbers are natural numbers; a cast or an operation that may leave 8, 32 or 64
-- bits is followed by the remainder. std::int32_t is ℤ of Base/Int, without a bound: sizes are
-- at most 1024 where pixels are tested and samples of JPEG blocks are small, so that no
-- computation leaves 32 bits. A pointer that may be null is an Option. Buffers are lists; a
-- write past the end, which the code does not do, is left out. Memory that is not found is an
-- argument, allocated, of the functions that catch bad_alloc.
--
-- Loops are recursion on the number of rounds, or on fuel: the input's length for the loops over
-- blocks, bytes and hexadecimal chunks, since a round takes at least one; the number of bits for
-- the bit writers, whose rounds take eight; the length of a line for its fields and the number
-- itself for its decimal digits; the size of the picture for the loop that looks for
-- the largest cell, which is narrower than the picture; and 32 for the category of a value.
--
-- Not modelled: the text that the command line example prints for a single picture, the design
-- tools and the vector generator of tools, and the tests. std::stoul and the outcome of writing a
-- file are arguments. Time and the lifetime of memory are not modelled;
-- secure_wipe is, as the zeros that it leaves.
pub mod Base
pub mod Error
pub mod Types
pub mod Sha256
pub mod Hmac
pub mod Pbkdf2
pub mod Derive
pub mod Checksum
pub mod Palette
pub mod Contrast
pub mod Features
pub mod Raster
pub mod Encode
pub mod Bmp
pub mod Png
pub mod Jpeg
pub mod CApi
pub mod Names
pub mod Cli
pub mod Tests
