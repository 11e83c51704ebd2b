-- ===== src/Png/Rows.antt =====
-- The rows of encode of src/png.cpp hold the pixels of the image.
use hh_cpp.Base.{ℕ, zero, suc, ◌+◌, ◌*◌, ◌≤◌, ◌<◌, ◌≡◌, refl, sym, ap, ap₂, ◌∙◌, arith, true}
use hh_cpp.Base.{==→eq, some, List, [], ◌∷◌, ◌++◌}
use hh_cpp.Base.{length, length-append, length-take, length-drop, get_or, take, drop}
use hh_cpp.Base.{take-append_eq, drop-append_eq, drop-drop, take-take-append, take-zero}
use native.Mathlib.Nat.{suc-mul}
use hh_cpp.Encode.{PixelView, byte_at}
use hh_cpp.Png.{all_opaque, raw_row, raw_rows}
use hh_cpp.Png.Decode.{unfilter, with_alpha}

-- The bytes of the pixels without the filter bytes.
pub pixel_rows : PixelView → ℕ → ℕ → ℕ → List ℕ
pixel_rows img bpp zero y = []
pixel_rows img bpp (suc left) y =
    raw_row img bpp img.width (y * img.width * 4) ++ pixel_rows img bpp left (suc y)

drop-one : (xs : List ℕ) (at : ℕ) → at < length xs → drop at xs ≡ get_or xs at 0 ∷ drop (suc at) xs
unfolding drop
drop-one [] at h = absurd (omega arith)
drop-one (x ∷ xs) zero h = refl
drop-one (x ∷ xs) (suc at) h = drop-one xs at (omega arith)

-- One pixel of four bytes.
drop-four :
    (xs : List ℕ) (at : ℕ)
    → at + 4 ≤ length xs
    → drop at xs
      ≡ get_or xs at 0
        ∷ get_or xs (suc at) 0
        ∷ get_or xs (suc (suc at)) 0
        ∷ get_or xs (suc (suc (suc at))) 0
        ∷ drop (at + 4) xs
drop-four xs at h =
    let d = drop (at + 4) xs in
    let e3 = drop-one xs (suc (suc (suc at))) (omega arith) in
    drop-one xs at (omega arith)
    ∙ ap (λ r. get_or xs at 0 ∷ r)
        (drop-one xs (suc at) (omega arith)
          ∙ ap (λ r. get_or xs (suc at) 0 ∷ r)
              (drop-one xs (suc (suc at)) (omega arith)
                ∙ ap (λ r. get_or xs (suc (suc at)) 0 ∷ r)
                    (e3 ∙ ap (λ n. get_or xs (suc (suc (suc at))) 0 ∷ drop n xs) (omega arith))))

pub length-raw_row :
    (img : PixelView) (bpp left at : ℕ)
    → bpp ≤ 4
    → at + 4 * left ≤ length img.rgba
    → length (raw_row img bpp left at) ≡ left * bpp
unfolding raw_row
length-raw_row img bpp zero at h le = omega arith
length-raw_row img bpp (suc left) at h le = omega (
  arith,
  length-append (take bpp (drop at img.rgba)) (raw_row img bpp left (at + 4)),
  length-take bpp (drop at img.rgba) (omega (arith, length-drop at img.rgba)),
  length-raw_row img bpp left (at + 4) h (omega arith),
)

-- A row of four bytes for each pixel is a part of the image.
raw_row-four :
    (img : PixelView) (left at : ℕ) → raw_row img 4 left at ≡ take (left * 4) (drop at img.rgba)
unfolding raw_row
raw_row-four img zero at = sym (take-zero (drop at img.rgba))
raw_row-four img (suc left) at =
    ap (λ r. take 4 (drop at img.rgba) ++ r)
      (raw_row-four img left (at + 4) ∙ ap (take (left * 4)) (sym (drop-drop at 4 img.rgba)))
    ∙ take-take-append 4 (left * 4) (drop at img.rgba)
    ∙ ap (λ n. take n (drop at img.rgba)) (omega arith)

-- A row of three bytes for each pixel, with the alpha that is left out.
raw_row-three :
    (img : PixelView) (left at : ℕ) (more : List ℕ)
    → at + 4 * left ≤ length img.rgba
    → ((q : ℕ) → q < left → byte_at img (at + 4 * q) 3 ≡ 255)
    → with_alpha (raw_row img 3 left at ++ more)
      ≡ take (left * 4) (drop at img.rgba) ++ with_alpha more
unfolding raw_row with_alpha take
raw_row-three img zero at more le opaque = refl
raw_row-three img (suc left) at more le opaque =
    let xs = img.rgba in
    let four = drop-four xs at (omega arith) in
    let a = get_or xs at 0 in
    let b = get_or xs (suc at) 0 in
    let c = get_or xs (suc (suc at)) 0 in
    let alpha : 255 ≡ get_or xs (suc (suc (suc at))) 0 =
      sym (opaque 0 (omega arith)) ∙ ap (λ n. get_or xs n 0) (omega arith) in
    let rest =
      raw_row-three img left (at + 4) more (omega arith)
        (λ q h. ap (λ n. get_or xs n 0) (omega arith) ∙ opaque (suc q) (omega arith)) in
    let count : suc left * 4 ≡ suc (suc (suc (suc (left * 4)))) = omega arith in
    ap (λ ys. with_alpha ((take 3 ys ++ raw_row img 3 left (at + 4)) ++ more)) four
    ∙ ap (λ r. a ∷ b ∷ c ∷ 255 ∷ r) rest
    ∙ ap (λ v. a ∷ b ∷ c ∷ v ∷ (take (left * 4) (drop (at + 4) xs) ++ with_alpha more)) alpha
    ∙ sym (ap₂ (λ n ys. take n ys ++ with_alpha more) count four)

-- Every alpha of an image that `encode` finds opaque.
pub all_opaque→alpha :
    (img : PixelView) (n p q : ℕ)
    → all_opaque img n p ≡ true
    → q < n
    → byte_at img (4 * (p + q)) 3 ≡ 255
unfolding all_opaque
all_opaque→alpha img zero p q e h = absurd (omega arith)
all_opaque→alpha img (suc n) p zero e h =
    ap (λ m. byte_at img (4 * m) 3) (omega arith) ∙ ==→eq (byte_at img (4 * p) 3) 255 (ground arith)
all_opaque→alpha img (suc n) p (suc q) e h =
    ap (λ m. byte_at img (4 * m) 3) (omega arith)
    ∙ all_opaque→alpha img n (suc p) q (ground arith) (omega arith)

pub next_row : (y w : ℕ) → suc y * w * 4 ≡ y * w * 4 + w * 4
next_row y w = omega (arith, suc-mul y w)

pub more_rows : (left w : ℕ) → suc left * (w * 4) ≡ w * 4 + left * (w * 4)
more_rows left w = omega (arith, suc-mul left (w * 4))

-- The place of the rows from `y` on in the image.
abbrev pub RowsInside : PixelView → ℕ → ℕ → Type 0
RowsInside img left y = y * img.width * 4 + left * (img.width * 4) ≤ length img.rgba

pub unfilter-raw_rows :
    (img : PixelView) (bpp left y : ℕ)
    → bpp ≤ 4
    → RowsInside img left y
    → unfilter left (img.width * bpp) (raw_rows img bpp left y) ≡ some (pixel_rows img bpp left y)
unfolding raw_rows unfilter pixel_rows
unfilter-raw_rows img bpp zero y h inside = refl
unfilter-raw_rows img bpp (suc left) y h inside =
    let row = raw_row img bpp img.width (y * img.width * 4) in
    let more = raw_rows img bpp left (suc y) in
    let size : length row ≡ img.width * bpp =
      length-raw_row img bpp img.width (y * img.width * 4) h
        (omega (arith, more_rows left img.width)) in
    let rest =
      unfilter-raw_rows img bpp left (suc y) h
        (omega (arith, more_rows left img.width, next_row y img.width)) in
    rw
      (
        drop-append_eq (img.width * bpp) row more size,
        take-append_eq (img.width * bpp) row more size,
      )
      (rw rest refl)

rows_join :
    (xs : List ℕ) (left y w : ℕ)
    → take (w * 4) (drop (y * w * 4) xs) ++ take (left * (w * 4)) (drop (suc y * w * 4) xs)
      ≡ take (suc left * (w * 4)) (drop (y * w * 4) xs)
rows_join xs left y w =
    ap (λ ys. take (w * 4) (drop (y * w * 4) xs) ++ take (left * (w * 4)) ys)
      (ap (λ n. drop n xs) (next_row y w) ∙ sym (drop-drop (y * w * 4) (w * 4) xs))
    ∙ take-take-append (w * 4) (left * (w * 4)) (drop (y * w * 4) xs)
    ∙ ap (λ n. take n (drop (y * w * 4) xs)) (sym (more_rows left w))

no_rows : (w : ℕ) (xs : List ℕ) → [] ≡ take (0 * (w * 4)) xs
no_rows w xs = sym (take-zero xs) ∙ ap (λ n. take n xs) (omega arith)

pub pixel_rows-four :
    (img : PixelView) (left y : ℕ)
    → pixel_rows img 4 left y ≡ take (left * (img.width * 4)) (drop (y * img.width * 4) img.rgba)
unfolding pixel_rows
pixel_rows-four img zero y = no_rows img.width (drop (y * img.width * 4) img.rgba)
pixel_rows-four img (suc left) y =
    ap₂ ◌++◌ (raw_row-four img img.width (y * img.width * 4)) (pixel_rows-four img left (suc y))
    ∙ rows_join img.rgba left y img.width

pub pixel_rows-three :
    (img : PixelView) (left y : ℕ)
    → RowsInside img left y
    → ((q : ℕ)
        → y * img.width ≤ q
        → q < y * img.width + left * img.width
        → byte_at img (4 * q) 3 ≡ 255)
    → with_alpha (pixel_rows img 3 left y)
      ≡ take (left * (img.width * 4)) (drop (y * img.width * 4) img.rgba)
unfolding pixel_rows with_alpha
pixel_rows-three img zero y inside opaque = no_rows img.width (drop (y * img.width * 4) img.rgba)
pixel_rows-three img (suc left) y inside opaque =
    let w = img.width in
    let rest =
      pixel_rows-three img left (suc y) (omega (arith, more_rows left w, next_row y w)) (λ q lo hi.
        opaque q (omega (arith, suc-mul y w)) (omega (arith, suc-mul y w, suc-mul left w))) in
    raw_row-three img w (y * w * 4) (pixel_rows img 3 left (suc y))
      (omega (arith, more_rows left w))
      (λ q h.
        ap (λ n. byte_at img n 3) (let e : y * w * 4 + 4 * q ≡ 4 * (y * w + q) = omega arith in e)
        ∙ opaque (y * w + q) (omega arith) (omega (arith, suc-mul left w)))
    ∙ ap (λ r. take (w * 4) (drop (y * w * 4) img.rgba) ++ r) rest
    ∙ rows_join img.rgba left y w
