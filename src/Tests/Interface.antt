-- ===== src/Tests/Interface.antt =====
-- The theorems on the C interface and the comparisons at concrete inputs.
use hh_cpp.Base.{◌≡◌, ◌↔◌, refl, true, Option, none, some, List, [], ◌∷◌, ℕ, replicate, write_at}
use hh_cpp.Base.{take, arith, IsByte, All, zero, suc}
use hh_cpp.Base.Int.{pos}
use hh_cpp.Types.{digest_clear, fingerprint_clear, rgb_equal, digest_equal}
use hh_cpp.Types.{fingerprint_equal}
use hh_cpp.Palette.{rgb}
use hh_cpp.Hmac.Rfc.{rfc2104}
use hh_cpp.Derive.Messages.{m2, m3}
use hh_cpp.Derive.Equality.{equal_iff}
use hh_cpp.CApi.Digests.{
  hh_base_digest, hh_base_digest_from_hex, hh_base_digest_from_text, hh_universal_fingerprint,
  hh_keyed_fingerprint, hh_key_check_value, hh_tag,
}
use hh_cpp.CApi.Pictures.{HhRenderOptions, hh_render}
use hh_cpp.CApi.Buffers.{Answered, answers-Answered}
use hh_cpp.CApi.Drawing.{Drawn, hh_render-Drawn}
use hh_cpp.CApi.Keyed.{hh_keyed_fingerprint_lem}

abbrev digest : List ℕ
digest = replicate 32 5

abbrev secret : List ℕ
secret = replicate 32 9

abbrev room : List ℕ
room = replicate 32 0

abbrev few : Option (List ℕ)
few = some (0x31 ∷ 0x32 ∷ [])

answers-Answered_example :
    (Answered 32 (some room) (hh_base_digest few 2 (some room))
      × Answered 32 (some room) (hh_base_digest_from_hex few 2 (some room))
      × Answered 32 (some room) (hh_base_digest_from_text few 2 (some room)))
    × Answered 32 (some room) (hh_universal_fingerprint few (some room))
    × Answered 32 (some room) (hh_keyed_fingerprint few none (some room))
    × Answered 4 (some room) (hh_key_check_value none (some room))
    × Answered 7 (some room) (hh_tag few (some room))
answers-Answered_example = answers-Answered few none (some room) 2

hh_render-Drawn_example :
    Drawn 16 1024
      (replicate 1024 0)
      (hh_render (some digest) (pos 1) 16 none (some (replicate 1024 0)) 1024)
hh_render-Drawn_example = hh_render-Drawn (some digest) (pos 1) 16 none (replicate 1024 0) 1024

bytes_of : (n b : ℕ) → IsByte b → All IsByte (replicate n b)
unfolding replicate
bytes_of zero b h = tt
bytes_of (suc n) b h = (h, bytes_of n b h)

hh_keyed_fingerprint_lem_example :
    (hh_keyed_fingerprint (some digest) (some secret) (some room)
      ≡ (0, some (write_at room 0 (rfc2104 secret (m2 digest)))))
    × (hh_key_check_value (some secret) (some room)
        ≡ (0, some (write_at room 0 (take 4 (rfc2104 secret m3)))))
unfolding replicate
hh_keyed_fingerprint_lem_example =
    hh_keyed_fingerprint_lem digest secret room room refl (bytes_of 32 9 (omega arith)) refl
      (λ e. cc e)

abbrev untouched : HhRenderOptions
untouched = record {
  struct_size = 0;
  shape = 0;
  frame = 0;
  background = [];
  background_alpha = 0;
  frame_alpha = 0;
}

equal_iff_example :
    ((rgb_equal (rgb 1 2 3) (rgb 1 2 4) ≡ true) ↔ (rgb 1 2 3 ≡ rgb 1 2 4))
    × ((digest_equal digest_clear digest_clear ≡ true) ↔ (digest_clear ≡ digest_clear))
    × ((fingerprint_equal fingerprint_clear fingerprint_clear ≡ true)
        ↔ (fingerprint_clear ≡ fingerprint_clear))
equal_iff_example =
    equal_iff (rgb 1 2 3) (rgb 1 2 4) digest_clear digest_clear fingerprint_clear fingerprint_clear
