-- ===== src/Derive.antt =====
-- Canonicalisation and derivation: src/derive.cpp, src/derive.hpp and the value types of
-- include/hh/digest.hpp, key.hpp and fingerprint.hpp. An out parameter is a result beside the code.
pub mod Hex
pub mod HexDigest
pub mod Outcomes
pub mod Messages
pub mod Equality
use hh_cpp.Base.{ℕ, zero, suc, ◌+◌, ◌-◌, ◌*◌, ◌/◌, ◌%◌, ◌^◌, min, bit_or}
use hh_cpp.Base.{Bool, true, false, not, ◌&&◌, ◌||◌, Option, none, some, List, [], ◌∷◌, ◌++◌}
use hh_cpp.Base.{u8, u32, ◌>>>◌, ltb, leb, ◌==◌, if◌then◌else◌, codes}
use hh_cpp.Base.{length, get_or, take, drop, replicate, write_at}
use hh_cpp.Error.{ErrorCode, ok, empty_input, input_too_large, invalid_hex, invalid_key}
use hh_cpp.Error.{invalid_digest, invalid_fingerprint, invalid_argument}
use hh_cpp.Sha256.{Sha256, Secrecy, sha256, update, finish}
use hh_cpp.Hmac.{hmac_sha256_tag}
use hh_cpp.Pbkdf2.{pbkdf2_hmac_sha256}
use mathlib.Core.Option
use hh_cpp.Types.{ByteView, is_null, view_bytes, Mode, universal, keyed, other_mode}
use hh_cpp.Types.{BaseDigest, SecretKey, Fingerprint, digest_set, digest_clear, key_set, key_clear}
use hh_cpp.Types.{fingerprint_set, fingerprint_clear}

abbrev pub stretch_iterations : ℕ
stretch_iterations = 16384

abbrev pub max_input_size : ℕ
max_input_size = 1048576

abbrev pub dst : List ℕ
dst = codes "HumanizedHash"

abbrev pub stretch_salt : List ℕ
stretch_salt = codes "HumanizedHash/stretch"

-- What `put_prefix` writes.
abbrev pub put_prefix : ℕ → List ℕ
put_prefix stage = dst ++ (0 ∷ stage ∷ [])

pub data InputKind : Type 0 where
  binary text : InputKind

abbrev pub kind_byte : InputKind → ℕ
kind_byte binary = 0
kind_byte text = 1

-- The sign of the result is the constructor: `none` is the -1 of the source.
unfoldable pub hex_value : ℕ → Option ℕ
hex_value c =
    if leb b'0' c && leb c b'9'
    then some (c - b'0')
    else if leb b'a' c && leb c b'f'
    then some (c - b'a' + 10)
    else if leb b'A' c && leb c b'F'
    then some (c - b'A' + 10)
    else none

check_length : ℕ → ErrorCode
check_length size =
    if size == 0 then empty_input else if ltb max_input_size size then input_too_large else ok

pub m1_header : InputKind → ℕ → List ℕ
m1_header kind n =
    put_prefix 1 ++ (kind_byte kind ∷ u8 (n >>> 24) ∷ u8 (n >>> 16) ∷ u8 (n >>> 8) ∷ u8 n ∷ [])

pub derive_d0 : InputKind → List ℕ → List ℕ
derive_d0 kind bytes =
    let header = m1_header kind (u32 (length bytes)) in
    (finish (update (update (sha256 Secrecy.public_data) header) bytes)).1

pub stretch : List ℕ → ℕ → List ℕ
stretch d0 iterations = pbkdf2_hmac_sha256 d0 stretch_salt iterations 32

pub m2_message : List ℕ → List ℕ
m2_message s = put_prefix 2 ++ take 32 s

pub keyed_bytes : List ℕ → List ℕ → List ℕ
unfolding m2_message
keyed_bytes key s = hmac_sha256_tag key (m2_message s)

pub key_check_value : List ℕ → List ℕ
key_check_value key = take 4 (hmac_sha256_tag key (put_prefix 3))

-- The digest of `d0` where the length is admitted; `d0` waits until then.
digest_if : ErrorCode → (Unit {0} → List ℕ) → ErrorCode × BaseDigest
digest_if ok d0 = (ok, digest_set (stretch (d0 tt) stretch_iterations))
digest_if ec d0 = (ec, digest_clear)

-- `digest_of`: the code and the out parameter.
digest_of : InputKind → ByteView → ErrorCode × BaseDigest
unfolding digest_if check_length
digest_of kind view =
    if is_null view && not (view.size == 0)
    then (invalid_argument, digest_clear)
    else digest_if (check_length view.size) (λ _. derive_d0 kind (view_bytes view))

pub make_base_digest : ByteView → ErrorCode × BaseDigest
unfolding digest_of
make_base_digest view = digest_of binary view

pub make_base_digest_from_text : ByteView → ErrorCode × BaseDigest
unfolding digest_of
make_base_digest_from_text view = digest_of text view

-- `hex.remove_prefix(2)` behind its test.
pub strip_prefix : List ℕ → List ℕ
strip_prefix (a ∷ b ∷ rest) = if a == b'0' && (b == b'x' || b == b'X') then rest else a ∷ b ∷ rest
strip_prefix hex = hex

-- `for (char c : hex)`: whether every character is a digit.
pub all_digits : List ℕ → Bool
all_digits [] = true
all_digits (c ∷ rest) = elim (hex_value c) [ none ↦ false | some _ ↦ all_digits rest ]

-- `uint8_t(hi * 16 + lo)` of the digits at 2 * at and 2 * at + 1, which have been checked.
hex_byte : List ℕ → ℕ → ℕ
unfolding hex_value
hex_byte hex at =
    let hi = Option.get_or (hex_value (get_or hex (2 * at) 0)) 0 in
    let lo = Option.get_or (hex_value (get_or hex (2 * at + 1) 0)) 0 in u8 (hi * 16 + lo)

-- The first bytes of `chunk`, for the positions from `pos` on.
pub fill_chunk : ℕ → ℕ → List ℕ → List ℕ
unfolding hex_byte
fill_chunk zero pos hex = []
fill_chunk (suc n) pos hex = hex_byte hex pos ∷ fill_chunk n (pos + 1) hex

-- `while (pos < size)`, with fuel. A round takes a byte at least.
chunk_loop : ℕ → Sha256 → ℕ → ℕ → List ℕ → Sha256
unfolding fill_chunk
chunk_loop zero h pos size hex = h
chunk_loop (suc fuel) h pos size hex =
    let n = min 256 (size - pos) in
    let rest = chunk_loop fuel (update h (fill_chunk n pos hex)) (pos + n) size hex in
    if ltb pos size then rest else h

-- What stands behind the checks of `make_base_digest_from_hex`.
hash_hex : List ℕ → ℕ → List ℕ
unfolding chunk_loop
hash_hex hex size =
    let header = m1_header binary (u32 size) in
    (finish (chunk_loop size (update (sha256 Secrecy.public_data) header) 0 size hex)).1

digest_of_hex : List ℕ → ErrorCode × BaseDigest
unfolding all_digits hash_hex digest_if check_length
digest_of_hex hex =
    if length hex == 0 || not (length hex % 2 == 0)
    then (invalid_hex, digest_clear)
    else if not (all_digits hex)
    then (invalid_hex, digest_clear)
    else digest_if (check_length (length hex / 2)) (λ _. hash_hex hex (length hex / 2))

pub make_base_digest_from_hex : List ℕ → ErrorCode × BaseDigest
unfolding strip_prefix digest_of_hex
make_base_digest_from_hex input = digest_of_hex (strip_prefix input)

pub import_base_digest : ByteView → ErrorCode × BaseDigest
import_base_digest view =
    if is_null view || not (view.size == 32)
    then (invalid_digest, digest_clear)
    else (ok, digest_set (view_bytes view))

-- `any |= bytes32.data[i]`.
or_all : ℕ → List ℕ → ℕ
or_all any [] = any
or_all any (b ∷ rest) = or_all (u8 (bit_or any b)) rest

pub make_secret_key : ByteView → ErrorCode × SecretKey
unfolding or_all
make_secret_key view =
    if is_null view || not (view.size == 32)
    then (invalid_key, key_clear)
    else if or_all 0 (view_bytes view) == 0
    then (invalid_key, key_clear)
    else (ok, key_set (view_bytes view))

-- Moving a key clears the object that it is moved from: the new object and the old one.
pub move_key : SecretKey → SecretKey × SecretKey
move_key other = (other, key_clear)

-- Assignment to the key `this` from `other`, where `same` says whether the two are one object:
-- both after it.
pub assign_key : Bool → SecretKey → SecretKey → SecretKey × SecretKey
assign_key same this other = if same then (this, other) else (other, other)

pub move_assign_key : Bool → SecretKey → SecretKey → SecretKey × SecretKey
move_assign_key same this other = if same then (this, other) else (other, key_clear)

pub kcv : SecretKey → List ℕ
kcv k = if k.set_ then key_check_value k.bytes else replicate 4 0

pub universal_fingerprint : BaseDigest → ErrorCode × Fingerprint
universal_fingerprint digest =
    if not digest.set_
    then (invalid_digest, fingerprint_clear)
    else (ok, fingerprint_set digest.bytes universal)

pub keyed_fingerprint : BaseDigest → SecretKey → ErrorCode × Fingerprint
unfolding keyed_bytes
keyed_fingerprint digest key =
    if not digest.set_
    then (invalid_digest, fingerprint_clear)
    else if not key.set_
    then (invalid_key, fingerprint_clear)
    else (ok, fingerprint_set (keyed_bytes key.bytes digest.bytes) keyed)

pub is_known : Mode → Bool
is_known universal = true
is_known keyed = true
is_known (other_mode n) = false

pub import_fingerprint : ByteView → Mode → ErrorCode × Fingerprint
unfolding is_known
import_fingerprint view m =
    if is_null view || not (view.size == 32) || not (is_known m)
    then (invalid_fingerprint, fingerprint_clear)
    else (ok, fingerprint_set (view_bytes view) m)
