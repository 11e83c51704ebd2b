-- ===== src/Error.antt =====
-- The error codes: include/hh/error.hpp and src/error.cpp.
use Prim.Native.String.{String}
use hh_cpp.Base.{ℕ, ◌≡◌, refl, Option, some, List, [], ◌∷◌, get_elem?}

pub data ErrorCode : Type 0 where
  ok empty_input input_too_large invalid_hex invalid_key invalid_digest : ErrorCode
  invalid_fingerprint invalid_size invalid_frame low_contrast : ErrorCode
  invalid_quality invalid_image buffer_too_small out_of_memory invalid_argument : ErrorCode

-- `static_cast<int>`: the values are part of the C ABI.
unfoldable pub to_int : ErrorCode → ℕ
to_int ok = 0
to_int empty_input = 1
to_int input_too_large = 2
to_int invalid_hex = 3
to_int invalid_key = 4
to_int invalid_digest = 5
to_int invalid_fingerprint = 6
to_int invalid_size = 7
to_int invalid_frame = 8
to_int low_contrast = 9
to_int invalid_quality = 10
to_int invalid_image = 11
to_int buffer_too_small = 12
to_int out_of_memory = 13
to_int invalid_argument = 14

pub error_message : ErrorCode → String
error_message ok = "success"
error_message empty_input = "the input has no bytes"
error_message input_too_large = "the input is longer than 1048576 bytes"
error_message invalid_hex = "the string is not an even number of hexadecimal digits"
error_message invalid_key = "the key must be 32 bytes that are not all zero"
error_message invalid_digest = "the base digest must be 32 bytes and must be set"
error_message invalid_fingerprint =
    "the fingerprint must be 32 bytes with a known mode and must be set"
error_message invalid_size = "the image size must be 16..1024 and leave room for the cells"
error_message invalid_frame = "the frame style does not fit the shape"
error_message low_contrast = "the background is too close to a palette colour"
error_message invalid_quality = "the JPEG quality must be 50..100"
error_message invalid_image = "the image dimensions or its buffer length are invalid"
error_message buffer_too_small = "the buffer cannot hold the result"
error_message out_of_memory = "an allocation failed"
error_message invalid_argument = "a null pointer or an unknown enumeration value"

pub error_name : ErrorCode → String
error_name ok = "ok"
error_name empty_input = "empty_input"
error_name input_too_large = "input_too_large"
error_name invalid_hex = "invalid_hex"
error_name invalid_key = "invalid_key"
error_name invalid_digest = "invalid_digest"
error_name invalid_fingerprint = "invalid_fingerprint"
error_name invalid_size = "invalid_size"
error_name invalid_frame = "invalid_frame"
error_name low_contrast = "low_contrast"
error_name invalid_quality = "invalid_quality"
error_name invalid_image = "invalid_image"
error_name buffer_too_small = "buffer_too_small"
error_name out_of_memory = "out_of_memory"
error_name invalid_argument = "invalid_argument"

abbrev all_codes : List ErrorCode
all_codes =
    ok ∷ empty_input ∷ input_too_large ∷ invalid_hex ∷ invalid_key ∷ invalid_digest
    ∷ invalid_fingerprint ∷ invalid_size ∷ invalid_frame ∷ low_contrast ∷ invalid_quality
    ∷ invalid_image ∷ buffer_too_small ∷ out_of_memory ∷ invalid_argument ∷ []

-- `static_cast<error_code>` of an int, by its bit pattern; `none` is a value with no enumerator.
unfoldable pub of_int : ℕ → Option ErrorCode
of_int n = get_elem? all_codes n

-- The number of an error code gives the code back.
pub of_int-to_int : (e : ErrorCode) → of_int (to_int e) ≡ some e
unfolding of_int to_int
of_int-to_int ok = refl
of_int-to_int _ = refl

-- `version()`: HH_VERSION_STRING of include/hh/version.hpp.
pub version : String
version = "1.1.0"
