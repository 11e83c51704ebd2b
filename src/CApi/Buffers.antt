-- ===== src/CApi/Buffers.antt =====
-- What the digest and fingerprint calls of src/c_api.cpp write into the caller's buffer.
use hh_cpp.Base.{ℕ, ◌≤◌, ◌≡◌, ◌≢◌, refl, not, ◌&&◌}
use hh_cpp.Base.{Option, none, some, List, length, take, length-take-le, write_at, arith}
use hh_cpp.Base.{◌==◌, if◌then◌else◌, inl, inr, Bool-cases, ==→eq, ==-false→ne, if_both}
use hh_cpp.Error.{ErrorCode, ok, to_int}
use hh_cpp.Types.{BaseDigest, Fingerprint}
use hh_cpp.Features.{tag_chars}
use hh_cpp.Features.Laws.{length-tag_chars}
use hh_cpp.Derive.{kcv, make_base_digest, make_base_digest_from_hex, make_base_digest_from_text}
use hh_cpp.Derive.Messages.{length-kcv}
use hh_cpp.CApi.Digests.{
  Answer, refuse, is_nullptr, digest_out, hh_base_digest, hh_base_digest_from_hex, view_of_chars,
  hh_base_digest_from_text, hh_universal_fingerprint, hh_keyed_fingerprint, hh_key_check_value,
  hh_tag, keyed_steps, and_then, coded,
}

-- A call with the buffer `out` fails and leaves it as it is, or succeeds and writes at most
-- `limit` bytes to its front.
pub data Answered (limit : ℕ) (out : Option (List ℕ)) : Answer → Type 0 where
  failed : (code : ℕ) → code ≢ 0 → Answered limit out (code, out)
  wrote :
      (buffer bytes : List ℕ)
      → out ≡ some buffer
      → length bytes ≤ limit
      → Answered limit out (0, some (write_at buffer 0 bytes))

refused-Answered : (limit : ℕ) (out : Option (List ℕ)) → Answered limit out (refuse out)
unfolding to_int
refused-Answered limit out = failed 14 (omega arith)

-- A step that fails keeps the buffer, and one that succeeds hands its result on.
and_then-Answered {ℓ} :
    {A : Type ℓ} (limit : ℕ) (buffer : List ℕ) (done : ErrorCode × A)
    (next : A → ErrorCode × List ℕ)
    → ((a : A) → Answered limit (some buffer) (coded (next a)))
    → Answered limit (some buffer) (coded (and_then done buffer next))
unfolding to_int
and_then-Answered limit buffer done next rest = elim (Bool-cases (to_int done.0 == to_int ok)) [
  | inl e ↦ rw e (rest done.1)
  | inr e ↦ rw e (failed (to_int done.0) (==-false→ne (to_int done.0) 0 e))
]

written :
    (limit : ℕ) (buffer bytes : List ℕ)
    → length bytes ≤ limit
    → Answered limit (some buffer) (coded (ok, write_at buffer 0 bytes))
unfolding to_int
written limit buffer bytes le = wrote buffer bytes refl le

digest_out-Answered :
    (made : ErrorCode × BaseDigest) (buffer : List ℕ)
    → Answered 32 (some buffer) (coded (digest_out made buffer))
unfolding digest_out to_int
digest_out-Answered made buffer = elim (Bool-cases (to_int made.0 == to_int ok)) [
  | inl e ↦
      rw (e, ==→eq (to_int made.0) 0 e)
        (wrote buffer (take 32 made.1.bytes) refl (length-take-le 32 made.1.bytes))
  | inr e ↦ rw e (failed (to_int made.0) (==-false→ne (to_int made.0) 0 e))
]

digests-Answered :
    (data_ : Option (List ℕ)) (size : ℕ) (out : Option (List ℕ))
    → Answered 32 out (hh_base_digest data_ size out)
      × Answered 32 out (hh_base_digest_from_hex data_ size out)
      × Answered 32 out (hh_base_digest_from_text data_ size out)
unfolding hh_base_digest hh_base_digest_from_hex hh_base_digest_from_text
digests-Answered data_ size none =
    (refused-Answered 32 none, refused-Answered 32 none, refused-Answered 32 none)
digests-Answered data_ size (some out) = (
  if_both (Answered 32 (some out)) (is_nullptr data_ && not (size == 0)) _ _
      (refused-Answered 32 (some out))
      (digest_out-Answered (make_base_digest (record { data_ = data_; size = size })) out),
  if_both (Answered 32 (some out)) (is_nullptr data_ && not (size == 0)) _ _
      (refused-Answered 32 (some out))
      (digest_out-Answered (make_base_digest_from_hex (view_of_chars data_ size)) out),
  if_both (Answered 32 (some out)) (is_nullptr data_ && not (size == 0)) _ _
      (refused-Answered 32 (some out))
      (digest_out-Answered
        (make_base_digest_from_text
          (record { data_ = data_; size = if is_nullptr data_ then 0 else size }))
        out),
)

universal-Answered :
    (digest out : Option (List ℕ)) → Answered 32 out (hh_universal_fingerprint digest out)
unfolding hh_universal_fingerprint to_int
universal-Answered none out = refused-Answered 32 out
universal-Answered (some digest) none = refused-Answered 32 none
universal-Answered (some digest) (some out) =
    wrote out (take 32 digest) refl (length-take-le 32 digest)

keyed-Answered :
    (digest key out : Option (List ℕ)) → Answered 32 out (hh_keyed_fingerprint digest key out)
unfolding hh_keyed_fingerprint
keyed-Answered none key out = refused-Answered 32 out
keyed-Answered (some digest) none out = refused-Answered 32 out
keyed-Answered (some digest) (some key) none = refused-Answered 32 none
keyed-Answered (some digest) (some key) (some out) =
    and_then-Answered 32 out (keyed_steps digest key) _
      (λ (made : Fingerprint). written 32 out (take 32 made.bytes) (length-take-le 32 made.bytes))

kcv-Answered : (key out : Option (List ℕ)) → Answered 4 out (hh_key_check_value key out)
unfolding hh_key_check_value
kcv-Answered none out = refused-Answered 4 out
kcv-Answered (some key) none = refused-Answered 4 none
kcv-Answered (some key) (some out) =
    and_then-Answered 4 out _ _ (λ k. written 4 out (kcv k) (length-kcv k))

tag-Answered : (fingerprint out : Option (List ℕ)) → Answered 7 out (hh_tag fingerprint out)
unfolding hh_tag
tag-Answered fingerprint none = refused-Answered 7 none
tag-Answered fingerprint (some out) =
    and_then-Answered 7 out _ _ (λ fp. written 7 out (tag_chars fp) (length-tag_chars fp))

-- Every call that writes a digest, a fingerprint, a key check value or a tag returns a code that
-- is not 0 and leaves the buffer as it is, or returns 0 and writes at most the 32, 4 or 7 bytes
-- that the interface names to its front; this holds also where a pointer is null.
pub answers-Answered :
    (data_ key out : Option (List ℕ)) (size : ℕ)
    → (Answered 32 out (hh_base_digest data_ size out)
        × Answered 32 out (hh_base_digest_from_hex data_ size out)
        × Answered 32 out (hh_base_digest_from_text data_ size out))
      × Answered 32 out (hh_universal_fingerprint data_ out)
      × Answered 32 out (hh_keyed_fingerprint data_ key out)
      × Answered 4 out (hh_key_check_value key out)
      × Answered 7 out (hh_tag data_ out)
answers-Answered data_ key out size = (
  digests-Answered data_ size out,
  universal-Answered data_ out,
  keyed-Answered data_ key out,
  kcv-Answered key out,
  tag-Answered data_ out,
)
