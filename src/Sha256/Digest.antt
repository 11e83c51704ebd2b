-- ===== src/Sha256/Digest.antt =====
-- The whole hasher of src/sha256.cpp against the hash of the message that it was given.
use Prim.Native.Nat.add
use hh_cpp.Base.{ℕ, ◌^◌, ◌<◌, ◌≡◌, refl, sym, ap, ◌∙◌, arith}
use hh_cpp.Base.{List, [], ◌∷◌, ◌++◌, append_assoc, append-nil}
use hh_cpp.Base.{length-replicate, take-zero}
use hh_cpp.Sha256.Compress.{sha256_initial_state}
use hh_cpp.Sha256.{Sha256, Secrecy, finish, update, sha256, sha256_resume, sha256_hash, reset}
use hh_cpp.Sha256.Fips.{fips_hash, fips_hash-absorb, absorb_zero}
use hh_cpp.Sha256.Streaming.{Absorbed, update-Absorbed}
use hh_cpp.Sha256.Padding.{finish-Absorbed}

-- A fresh hasher, one that has been reset, and one that is resumed stand for the empty input.
pub sha256-Absorbed : (s : Secrecy) → Absorbed sha256_initial_state 0 [] (sha256 s)
unfolding sha256
sha256-Absorbed s = record {
  blocks = 0;
  front = [];
  rest = [];
  splits = refl;
  whole = refl;
  partial = omega arith;
  state_eq = sym (absorb_zero _ []);
  buffered_eq = refl;
  buffer_size = length-replicate 64 0;
  buffer_eq = take-zero _;
  length_eq = refl;
}

pub reset_lem : (h : Sha256) → reset h ≡ sha256 h.secrecy
unfolding reset sha256
reset_lem h = refl

pub resume-Absorbed :
    (state : List ℕ) (n : ℕ) (s : Secrecy)
    → n < 2 ^ 64
    → Absorbed state n [] (sha256_resume state n s)
unfolding sha256_resume
resume-Absorbed state n s fits = record {
  blocks = 0;
  front = [];
  rest = [];
  splits = refl;
  whole = refl;
  partial = omega arith;
  state_eq = sym (absorb_zero _ []);
  buffered_eq = refl;
  buffer_size = length-replicate 64 0;
  buffer_eq = take-zero _;
  length_eq = omega arith;
}

-- The input in pieces, and then the digest.
unfoldable pub update_all : Sha256 → List (List ℕ) → Sha256
update_all h [] = h
update_all h (p ∷ ps) = update_all (update h p) ps

abbrev pub joined : List (List ℕ) → List ℕ
joined [] = []
joined (p ∷ ps) = p ++ joined ps

pub update_all-Absorbed :
    (s0 : List ℕ) (base : ℕ) (m : List ℕ) (h : Sha256) (ps : List (List ℕ))
    → Absorbed s0 base m h
    → Absorbed s0 base (m ++ joined ps) (update_all h ps)
unfolding update_all
update_all-Absorbed s0 base m h [] a = rw append-nil a
update_all-Absorbed s0 base m h (p ∷ ps) a =
    rw (← append_assoc m p (joined ps))
      (update_all-Absorbed s0 base (m ++ p) (update h p) ps (update-Absorbed s0 base m p h a))

-- A hasher that is created and given the input in any pieces writes the digest that
-- FIPS 180-4 defines for the pieces put together.
pub finish-update_all :
    (s : Secrecy) (ps : List (List ℕ))
    → (finish (update_all (sha256 s) ps)).1 ≡ fips_hash (joined ps)
finish-update_all s ps =
    finish-Absorbed sha256_initial_state 0 (joined ps) _
      (update_all-Absorbed sha256_initial_state 0 [] (sha256 s) ps (sha256-Absorbed s)) refl
    ∙ rw add.zero (sym (fips_hash-absorb (joined ps)))

-- One piece.
pub update_all_one : (h : Sha256) (m : List ℕ) → update_all h (m ∷ []) ≡ update h m
unfolding update_all
update_all_one h m = refl

pub finish-update : (s : Secrecy) (m : List ℕ) → (finish (update (sha256 s) m)).1 ≡ fips_hash m
finish-update s m =
    ap (λ h. (finish h).1) (sym (update_all_one (sha256 s) m))
    ∙ finish-update_all s (m ∷ [])
    ∙ ap fips_hash (append-nil m)

-- The one-shot form gives the digest of FIPS 180-4.
pub sha256_hash_lem : (m : List ℕ) → sha256_hash m ≡ fips_hash m
unfolding sha256_hash
sha256_hash_lem m = finish-update Secrecy.public_data m

-- A first piece, and then others.
pub finish-update_after :
    (s : Secrecy) (m : List ℕ) (ps : List (List ℕ))
    → (finish (update_all (update (sha256 s) m) ps)).1 ≡ fips_hash (m ++ joined ps)
unfolding update_all
finish-update_after s m ps = finish-update_all s (m ∷ ps)

pub finish-update-update :
    (s : Secrecy) (m m' : List ℕ)
    → (finish (update (update (sha256 s) m) m')).1 ≡ fips_hash (m ++ m')
unfolding update_all
finish-update-update s m m' =
    finish-update_all s (m ∷ m' ∷ []) ∙ ap (λ r. fips_hash (m ++ r)) (append-nil m')
