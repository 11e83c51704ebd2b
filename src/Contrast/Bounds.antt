-- ===== src/Contrast/Bounds.antt =====
-- The range of the contrast ratios, and compositing at its ends: src/contrast.cpp.
use hh_cpp.Base.{ℕ, zero, suc, ◌*◌, ◌/◌, ◌≤◌, ◌<◌, ◌≡◌, refl, min, max, arith}
use hh_cpp.Base.{List, [], ◌∷◌, Bool, true, false, ◌&&◌, leb, leb→le, get_or, u32, u64}
use native.Mathlib.Nat.{div-le_of_le-mul, le-div_iff_mul-le}
use hh_cpp.Types.{Rgb}
use hh_cpp.Contrast.{lin, luminance, contrast_x100, over_channel, over}

all_leb : ℕ → List ℕ → Bool
all_leb m [] = true
all_leb m (x ∷ xs) = leb x m && all_leb m xs

and_left : (a b : Bool) → (a && b) ≡ true → a ≡ true
and_left true b h = refl
and_left false b h = h

and_right : (a b : Bool) → (a && b) ≡ true → b ≡ true
and_right true b h = h
and_right false b h = ground arith

get_or-le : (m : ℕ) (xs : List ℕ) (i : ℕ) → all_leb m xs ≡ true → get_or xs i 0 ≤ m
unfolding all_leb
get_or-le m [] i h = omega arith
get_or-le m (x ∷ xs) zero h = leb→le x m (and_left (leb x m) (all_leb m xs) h)
get_or-le m (x ∷ xs) (suc i) h = get_or-le m xs i (and_right (leb x m) (all_leb m xs) h)

lin-le : (i : ℕ) → get_or lin i 0 ≤ 1000000
unfolding lin all_leb
lin-le i = get_or-le 1000000 lin i refl

-- A luminance is at most that of white, 10^10.
luminance-le : (c : Rgb) → luminance c ≤ 10000000000
unfolding luminance
luminance-le c = omega (arith, lin-le c.r, lin-le c.g, lin-le c.b)

ratio_bounds :
    (hi lo : ℕ)
    → lo ≤ hi
    → 500000000 ≤ lo
    → hi ≤ 10500000000
    → (100 ≤ u32 (u64 (100 * hi) / lo)) × (u32 (u64 (100 * hi) / lo) ≤ 2100)
ratio_bounds hi lo h low high =
    let whole : u64 (100 * hi) ≡ 100 * hi = omega arith in
    let upper : 100 * hi / lo ≤ 2100 = div-le_of_le-mul lo {n = 2100} (omega arith) in
    let lower : 100 ≤ 100 * hi / lo = (le-div_iff_mul-le (omega arith)).1 (omega arith) in
    rw (whole) ((omega arith), (omega arith))

-- A contrast ratio times 100 is from 100 to 2100: 1:1 to 21:1.
pub contrast_x100-bounds : (a b : Rgb) → (100 ≤ contrast_x100 a b) × (contrast_x100 a b ≤ 2100)
unfolding contrast_x100
contrast_x100-bounds a b =
    ratio_bounds _ _ (omega (arith, luminance-le a, luminance-le b))
      (omega (arith, luminance-le a, luminance-le b))
      (omega (arith, luminance-le a, luminance-le b))

-- The contrast of two colours does not depend on their order.
pub contrast_x100_comm : (a b : Rgb) → contrast_x100 a b ≡ contrast_x100 b a
unfolding contrast_x100
contrast_x100_comm a b =
    let mx : max (luminance a) (luminance b) ≡ max (luminance b) (luminance a) = omega arith in
    let mn : min (luminance a) (luminance b) ≡ min (luminance b) (luminance a) = omega arith in
    rw (mx, mn) refl

abbrev IsColour : Rgb → Type 0
IsColour c = (c.r < 256) × (c.g < 256) × (c.b < 256)

over_opaque : (top bottom : ℕ) → top < 256 → over_channel 255 top bottom ≡ top
unfolding over_channel
over_opaque top bottom h = omega arith

over_clear : (top bottom : ℕ) → bottom < 256 → over_channel 0 top bottom ≡ bottom
unfolding over_channel
over_clear top bottom h = omega arith

-- An opaque colour hides what is under it, and a transparent one shows it.
pub over_ends :
    (c under : Rgb)
    → IsColour c
    → IsColour under
    → (over c 255 under ≡ c) × (over c 0 under ≡ under)
unfolding over
over_ends c under (cr, cg, cb) (ur, ug, ub) = (
  rw (over_opaque c.r under.r cr, over_opaque c.g under.g cg, over_opaque c.b under.b cb) refl,
  rw (over_clear c.r under.r ur, over_clear c.g under.g ug, over_clear c.b under.b ub) refl,
)
