-- ===== src/Derive/Equality.antt =====
-- The comparison operators of include/hh/types.hpp, digest.hpp and fingerprint.hpp.
use hh_cpp.Base.{ℕ, ◌≡◌, ◌↔◌, refl, ap, ap₂, Bool, true, false, ◌&&◌, ◌==◌, ==→eq, arith}
use hh_cpp.Base.{List, [], ◌∷◌}
use hh_cpp.Base.{and_both}
use hh_cpp.Types.{Rgb, BaseDigest, Fingerprint, Mode, universal, keyed, other_mode, rgb_equal}
use hh_cpp.Types.{bytes_equal, bool_equal, mode_equal, digest_equal, fingerprint_equal}

pub ==_refl : (a : ℕ) → (a == a) ≡ true
==_refl a = ground arith

pub bytes_equal→eq : (xs bs : List ℕ) → bytes_equal xs bs ≡ true → xs ≡ bs
unfolding bytes_equal
bytes_equal→eq [] [] e = refl
bytes_equal→eq [] (b ∷ bs) e = absurd cc
bytes_equal→eq (a ∷ xs) [] e = absurd cc
bytes_equal→eq (a ∷ xs) (b ∷ bs) e =
    let both = and_both (a == b) (bytes_equal xs bs) e in
    ap₂ ◌∷◌ (==→eq a b both.0) (bytes_equal→eq xs bs both.1)

pub bytes_equal_refl : (xs : List ℕ) → bytes_equal xs xs ≡ true
unfolding bytes_equal
bytes_equal_refl [] = refl
bytes_equal_refl (a ∷ xs) = rw (==_refl a, bytes_equal_refl xs) refl

bool_equal→eq : (a b : Bool) → bool_equal a b ≡ true → a ≡ b
unfolding bool_equal
bool_equal→eq true true e = refl
bool_equal→eq true false e = absurd cc
bool_equal→eq false true e = absurd cc
bool_equal→eq false false e = refl

bool_equal_refl : (a : Bool) → bool_equal a a ≡ true
unfolding bool_equal
bool_equal_refl true = refl
bool_equal_refl false = refl

mode_equal→eq : (a b : Mode) → mode_equal a b ≡ true → a ≡ b
unfolding mode_equal
mode_equal→eq universal universal e = refl
mode_equal→eq keyed keyed e = refl
mode_equal→eq (other_mode n) (other_mode m) e = ap other_mode (==→eq n m e)
mode_equal→eq universal keyed e = absurd cc
mode_equal→eq universal (other_mode m) e = absurd cc
mode_equal→eq keyed universal e = absurd cc
mode_equal→eq keyed (other_mode m) e = absurd cc
mode_equal→eq (other_mode n) universal e = absurd cc
mode_equal→eq (other_mode n) keyed e = absurd cc

mode_equal_refl : (a : Mode) → mode_equal a a ≡ true
unfolding mode_equal
mode_equal_refl universal = refl
mode_equal_refl keyed = refl
mode_equal_refl (other_mode n) = ==_refl n

rgb_equal_iff : (a b : Rgb) → (rgb_equal a b ≡ true) ↔ (a ≡ b)
unfolding rgb_equal
rgb_equal_iff a b = (
  λ e.
      let both = and_both (a.r == b.r && a.g == b.g) (a.b == b.b) e in
      let front = and_both (a.r == b.r) (a.g == b.g) both.0 in
      let er = ==→eq a.r b.r front.0 in
      let eg = ==→eq a.g b.g front.1 in
      let eb = ==→eq a.b b.b both.1 in λ i. record { r = er i; g = eg i; b = eb i },
  λ q. rw (q, ==_refl b.r, ==_refl b.g, ==_refl b.b) refl,
)

digest_equal_iff : (a b : BaseDigest) → (digest_equal a b ≡ true) ↔ (a ≡ b)
unfolding digest_equal
digest_equal_iff a b = (
  λ e.
      let both = and_both (bool_equal a.set_ b.set_) (bytes_equal a.bytes b.bytes) e in
      let es = bool_equal→eq a.set_ b.set_ both.0 in
      let eb = bytes_equal→eq a.bytes b.bytes both.1 in λ i. record { bytes = eb i; set_ = es i },
  λ q. rw (q, bool_equal_refl b.set_, bytes_equal_refl b.bytes) refl,
)

fingerprint_equal_iff : (a b : Fingerprint) → (fingerprint_equal a b ≡ true) ↔ (a ≡ b)
unfolding fingerprint_equal
fingerprint_equal_iff a b = (
  λ e.
      let both =
        and_both (bool_equal a.set_ b.set_ && mode_equal a.mode b.mode)
          (bytes_equal a.bytes b.bytes) e in
      let front = and_both (bool_equal a.set_ b.set_) (mode_equal a.mode b.mode) both.0 in
      let es = bool_equal→eq a.set_ b.set_ front.0 in
      let em = mode_equal→eq a.mode b.mode front.1 in
      let eb = bytes_equal→eq a.bytes b.bytes both.1 in
      λ i. record { bytes = eb i; mode = em i; set_ = es i },
  λ q. rw (q, bool_equal_refl b.set_, mode_equal_refl b.mode, bytes_equal_refl b.bytes) refl,
)

-- The comparison operators of colours, digests and fingerprints say `true` exactly for equal
-- values: the same bytes, the same mode and the same flag.
pub equal_iff :
    (c c' : Rgb) (d d' : BaseDigest) (f f' : Fingerprint)
    → ((rgb_equal c c' ≡ true) ↔ (c ≡ c'))
      × ((digest_equal d d' ≡ true) ↔ (d ≡ d'))
      × ((fingerprint_equal f f' ≡ true) ↔ (f ≡ f'))
equal_iff c c' d d' f f' = (rgb_equal_iff c c', digest_equal_iff d d', fingerprint_equal_iff f f')
