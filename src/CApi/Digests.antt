-- ===== src/CApi/Digests.antt =====
-- Digests, fingerprints, keys and names of the C interface: src/c_api.cpp. A pointer that may be
-- null is an Option of what it points to; an out parameter is given back as it is after the call.
use Prim.Native.String.{String}
use hh_cpp.Base.{ℕ, zero, suc, Bool, true, false, not, ◌&&◌, ◌==◌, if◌then◌else◌}
use hh_cpp.Base.{Option, none, some, List, [], take, write_at}
use hh_cpp.Base.Int.{ℤ, pos, negsuc}
use hh_cpp.Error.{ErrorCode, ok, to_int, of_int, invalid_argument, invalid_fingerprint}
use hh_cpp.Error.{error_message, error_name, version}
use hh_cpp.Types.{ByteView, BaseDigest, Fingerprint, Mode, universal, keyed}
use hh_cpp.Types.{fingerprint_clear}
use hh_cpp.Derive.{make_base_digest, make_base_digest_from_hex, make_base_digest_from_text}
use hh_cpp.Derive.{import_base_digest, make_secret_key, keyed_fingerprint, import_fingerprint, kcv}
use hh_cpp.Features.{tag_chars}

-- The number that a call returns, and the out parameter.
abbrev pub Answer : Type 0
Answer = ℕ × Option (List ℕ)

abbrev pub refuse : Option (List ℕ) → Answer
refuse out = (to_int invalid_argument, out)

-- `data == nullptr`, of a pointer.
abbrev pub is_nullptr : Option (List ℕ) → Bool
is_nullptr none = true
is_nullptr (some bytes) = false

pub hh_version : String
hh_version = version

-- The cast of an int to a code, and a switch that has no branch for the other numbers.
unfoldable pub hh_error_message : ℤ → String
unfolding of_int
hh_error_message (negsuc n) = "unknown error"
hh_error_message (pos n) = elim (of_int n) [ none ↦ "unknown error" | some e ↦ error_message e ]

unfoldable pub hh_error_name : ℤ → String
unfolding of_int
hh_error_name (negsuc n) = "unknown"
hh_error_name (pos n) = elim (of_int n) [ none ↦ "unknown" | some e ↦ error_name e ]

-- `digest_out`: the code and the buffer.
unfoldable pub digest_out : ErrorCode × BaseDigest → List ℕ → ErrorCode × List ℕ
digest_out made out =
    if to_int made.0 == to_int ok
    then (made.0, write_at out 0 (take 32 made.1.bytes))
    else (made.0, out)

abbrev pub coded : ErrorCode × List ℕ → Answer
coded done = (to_int done.0, some done.1)

unfoldable pub hh_base_digest : Option (List ℕ) → ℕ → Option (List ℕ) → Answer
unfolding digest_out
hh_base_digest data_ size none = refuse none
hh_base_digest data_ size (some out) =
    if is_nullptr data_ && not (size == 0)
    then refuse (some out)
    else coded (digest_out (make_base_digest (record { data_ = data_; size = size })) out)

-- The characters of the `std::string_view`.
unfoldable pub view_of_chars : Option (List ℕ) → ℕ → List ℕ
view_of_chars none length = []
view_of_chars (some hex) length = take length hex

unfoldable pub hh_base_digest_from_hex : Option (List ℕ) → ℕ → Option (List ℕ) → Answer
unfolding digest_out view_of_chars
hh_base_digest_from_hex hex length none = refuse none
hh_base_digest_from_hex hex length (some out) =
    if is_nullptr hex && not (length == 0)
    then refuse (some out)
    else coded (digest_out (make_base_digest_from_hex (view_of_chars hex length)) out)

unfoldable pub hh_base_digest_from_text : Option (List ℕ) → ℕ → Option (List ℕ) → Answer
unfolding digest_out
hh_base_digest_from_text utf8 length none = refuse none
hh_base_digest_from_text utf8 length (some out) =
    if is_nullptr utf8 && not (length == 0)
    then refuse (some out)
    else let view : ByteView = record {
      data_ = utf8;
      size = if is_nullptr utf8 then 0 else length;
    } in
      coded (digest_out (make_base_digest_from_text view) out)

unfoldable pub hh_universal_fingerprint : Option (List ℕ) → Option (List ℕ) → Answer
hh_universal_fingerprint none out = refuse out
hh_universal_fingerprint (some digest) none = refuse none
hh_universal_fingerprint (some digest) (some out) =
    (to_int ok, some (write_at out 0 (take 32 digest)))

-- `ec == error_code::ok` between two calls: the second is made only after the first succeeds.
abbrev pub and_then {ℓ κ} :
    {A : Type ℓ} {B : Type κ} → ErrorCode × A → B → (A → ErrorCode × B) → ErrorCode × B
and_then done other next = if to_int done.0 == to_int ok then next done.1 else (done.0, other)

-- The three calls of `hh_keyed_fingerprint`.
unfoldable pub keyed_steps : List ℕ → List ℕ → ErrorCode × Fingerprint
keyed_steps digest key =
    and_then (import_base_digest (record { data_ = some digest; size = 32 })) fingerprint_clear
      (λ d.
        and_then (make_secret_key (record { data_ = some key; size = 32 })) fingerprint_clear
          (λ k. keyed_fingerprint d k))

unfoldable pub hh_keyed_fingerprint : Option (List ℕ) → Option (List ℕ) → Option (List ℕ) → Answer
unfolding keyed_steps
hh_keyed_fingerprint none key out = refuse out
hh_keyed_fingerprint (some digest) none out = refuse out
hh_keyed_fingerprint (some digest) (some key) none = refuse none
hh_keyed_fingerprint (some digest) (some key) (some out) =
    coded
      (and_then (keyed_steps digest key) out (λ made. (ok, write_at out 0 (take 32 made.bytes))))

unfoldable pub hh_key_check_value : Option (List ℕ) → Option (List ℕ) → Answer
hh_key_check_value none out = refuse out
hh_key_check_value (some key) none = refuse none
hh_key_check_value (some key) (some out) = coded (
    and_then (make_secret_key (record { data_ = some key; size = 32 })) out
      (λ k. (ok, write_at out 0 (kcv k))))

-- HH_MODE_UNIVERSAL and HH_MODE_KEYED; `none` is an int that is neither.
unfoldable pub mode_of : ℤ → Option Mode
mode_of (pos (suc zero)) = some universal
mode_of (pos (suc (suc zero))) = some keyed
mode_of mode = none

unfoldable pub make_fingerprint : Option (List ℕ) → ℤ → ErrorCode × Fingerprint
unfolding mode_of
make_fingerprint none mode = (invalid_argument, fingerprint_clear)
make_fingerprint (some bytes) mode = elim (mode_of mode) [
  | none ↦ (invalid_fingerprint, fingerprint_clear)
  | some m ↦ import_fingerprint (record { data_ = some bytes; size = 32 }) m
]

unfoldable pub hh_tag : Option (List ℕ) → Option (List ℕ) → Answer
unfolding make_fingerprint
hh_tag fingerprint none = refuse none
hh_tag fingerprint (some out) = coded (
    and_then (make_fingerprint fingerprint (pos 1)) out (λ fp. (ok, write_at out 0 (tag_chars fp))))
