-- ===== src/Types.antt =====
-- The value types of the public API: include/hh/types.hpp, digest.hpp, key.hpp and
-- fingerprint.hpp, with the access structures of src/derive.hpp.
use mathlib.Core.Option
use hh_cpp.Base.{ℕ, Bool, true, false, not, ◌&&◌, ◌==◌, Option, none, some, List, [], ◌∷◌}
use hh_cpp.Base.{take, replicate}

-- An sRGB colour.
pub record Rgb : Type 0 where
  pub r : ℕ
  pub g : ℕ
  pub b : ℕ

-- A pointer, which may be null, with a size.
pub record ByteView : Type 0 where
  pub data_ : Option (List ℕ)
  pub size : ℕ

abbrev pub is_null : ByteView → Bool
is_null v = elim v.data_ [ none ↦ true | some _ ↦ false ]

-- The bytes that a view covers.
unfoldable pub view_bytes : ByteView → List ℕ
view_bytes v = take v.size (Option.get_or v.data_ [])

pub data Mode : Type 0 where
  universal keyed : Mode
  other_mode : ℕ → Mode

pub record BaseDigest : Type 0 where
  pub bytes : List ℕ
  pub set_ : Bool

pub record SecretKey : Type 0 where
  pub bytes : List ℕ
  pub set_ : Bool

pub record Fingerprint : Type 0 where
  pub bytes : List ℕ
  pub mode : Mode
  pub set_ : Bool

abbrev pub zeros_32 : List ℕ
zeros_32 = replicate 32 0

-- `digest_access`: `memcpy` takes 32 bytes.
abbrev pub digest_set : List ℕ → BaseDigest
digest_set bytes = record { bytes = take 32 bytes; set_ = true }

abbrev pub digest_clear : BaseDigest
digest_clear = record { bytes = zeros_32; set_ = false }

-- `key_access`.
abbrev pub key_set : List ℕ → SecretKey
key_set bytes = record { bytes = take 32 bytes; set_ = true }

abbrev pub key_clear : SecretKey
key_clear = record { bytes = zeros_32; set_ = false }

-- `fingerprint_access`.
abbrev pub fingerprint_set : List ℕ → Mode → Fingerprint
fingerprint_set bytes m = record { bytes = take 32 bytes; mode = m; set_ = true }

abbrev pub fingerprint_clear : Fingerprint
fingerprint_clear = record { bytes = zeros_32; mode = universal; set_ = false }

-- The comparison operators. `bytes_equal` is that of `std::array`.
unfoldable pub rgb_equal : Rgb → Rgb → Bool
rgb_equal a b = a.r == b.r && a.g == b.g && a.b == b.b

unfoldable pub bytes_equal : List ℕ → List ℕ → Bool
bytes_equal [] [] = true
bytes_equal [] (b ∷ bs) = false
bytes_equal (a ∷ xs) [] = false
bytes_equal (a ∷ xs) (b ∷ bs) = a == b && bytes_equal xs bs

unfoldable pub bool_equal : Bool → Bool → Bool
bool_equal true b = b
bool_equal false b = not b

unfoldable pub mode_equal : Mode → Mode → Bool
mode_equal universal universal = true
mode_equal keyed keyed = true
mode_equal (other_mode n) (other_mode m) = n == m
mode_equal _ _ = false

unfoldable pub digest_equal : BaseDigest → BaseDigest → Bool
unfolding bool_equal bytes_equal
digest_equal a b = bool_equal a.set_ b.set_ && bytes_equal a.bytes b.bytes

unfoldable pub fingerprint_equal : Fingerprint → Fingerprint → Bool
unfolding bool_equal bytes_equal mode_equal
fingerprint_equal a b =
    bool_equal a.set_ b.set_ && mode_equal a.mode b.mode && bytes_equal a.bytes b.bytes
