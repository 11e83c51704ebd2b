-- ===== src/Raster/Tail.antt =====
-- The rasteriser writes pixels of the picture only: src/raster.cpp.
use hh_cpp.Base.{ℕ, zero, suc, ◌+◌, ◌*◌, ◌/◌, ◌%◌, ◌≤◌, ◌<◌, ◌≡◌, refl, sym, subst, ap, ◌∙◌, arith}
use hh_cpp.Base.{Bool, not, ◌&&◌, List, [], ◌∷◌, set, length, drop, if_both, u64}
use native.Mathlib.Nat.{mul-le-mul, le_refl}
use hh_cpp.Base.Int.{pos, plus_part, size_of, difference, ◌+ℤ◌, ◌*ℤ◌}
use hh_cpp.Features.{Cell}
use hh_cpp.Raster.Sizing.{Geometry}
use hh_cpp.Raster.Frame.{is_missing}
use hh_cpp.Raster.Mix.{Pixel, put}
use hh_cpp.Raster.Inside.{Inside, inside}
use hh_cpp.Raster.{RasterJob, Canvas, surface_pixel, surface_row, surface_rows}
use hh_cpp.Raster.{cell_row, cell_rows, draw_cells, draw, in_grid, corner_of}

drop-set : (xs : List ℕ) (n i v : ℕ) → i < n → drop n (set xs i v) ≡ drop n xs
unfolding drop
drop-set xs zero i v h = absurd (omega (arith, h))
drop-set [] (suc n) i v h = refl
drop-set (x ∷ xs) (suc n) zero v h = refl
drop-set (x ∷ xs) (suc n) (suc i) v h = drop-set xs n i v (omega (arith, h))

-- The four bytes of a pixel of the picture.
abbrev InPicture : ℕ → ℕ → ℕ → Type 0
InPicture size x y = (x < size) × (y < size) × (size ≤ 1024)

abbrev bytes_of : ℕ → ℕ
bytes_of size = size * size * 4

suc-mul : (n m : ℕ) → suc n * m ≡ n * m + m
suc-mul n m = ground arith

pixel_below : (size x y : ℕ) → InPicture size x y → u64 (u64 (y * size + x) * 4) + 3 < bytes_of size
pixel_below size x y (hx, hy, small) =
    let row : suc y * size ≤ size * size = mul-le-mul hy (le_refl size) in
    let all : size * size ≤ 1024 * 1024 = mul-le-mul small small in
    let next : suc y * size ≡ y * size + size = suc-mul y size in omega arith

drop-put :
    (rgba : List ℕ) (size x y : ℕ) (p : Pixel)
    → InPicture size x y
    → drop (bytes_of size) (put rgba size x y p) ≡ drop (bytes_of size) rgba
unfolding put
drop-put rgba size x y p h =
    let q = u64 (u64 (y * size + x) * 4) in
    let n = bytes_of size in
    let below : q + 3 < n = pixel_below size x y h in
    let one = set rgba q p.r in
    let two = set one (q + 1) p.g in
    let three = set two (q + 2) p.b in
    drop-set three n (q + 3) p.a below
    ∙ drop-set two n (q + 2) p.b (omega (arith, below))
    ∙ drop-set one n (q + 1) p.g (omega (arith, below))
    ∙ drop-set rgba n q p.r (omega (arith, below))

-- What is behind the picture of the size.
abbrev Kept : ℕ → List ℕ → List ℕ → Type 0
Kept size after before = drop (bytes_of size) after ≡ drop (bytes_of size) before

size_of-Inside : (size : ℕ) (g : Geometry) → Inside size g → size_of g.size ≡ size
size_of-Inside size g (inside line grid o c h room) = refl

plus_part-Inside : (size : ℕ) (g : Geometry) → Inside size g → plus_part g.size ≡ size
plus_part-Inside size g (inside line grid o c h room) = refl

difference-zero : (a b k : ℕ) → a ≡ k → b ≡ 0 → difference a b ≡ pos k
difference-zero a b k ea eb = rw (ea, eb) (zero_right k)
  where
    zero_right : (k : ℕ) → difference k 0 ≡ pos k
    zero_right k = ground arith

add-pos : (a b : ℕ) → pos a +ℤ pos b ≡ pos (a + b)
add-pos a b = difference-zero (a + b) (0 + 0) (a + b) refl refl

mul-pos : (a b : ℕ) → pos a *ℤ pos b ≡ pos (a * b)
mul-pos a b = difference-zero (a * b + 0 * 0) (a * 0 + 0 * b) (a * b) (ground arith) (ground arith)

corner-pos :
    (o k c h px : ℕ) → pos o +ℤ pos k *ℤ (pos c +ℤ pos h) +ℤ pos px ≡ pos (o + k * (c + h) + px)
corner-pos o k c h px =
    ap (λ z. pos o +ℤ pos k *ℤ z +ℤ pos px) (add-pos c h)
    ∙ ap (λ z. pos o +ℤ z +ℤ pos px) (mul-pos k (c + h))
    ∙ ap (λ z. z +ℤ pos px) (add-pos o (k * (c + h)))
    ∙ add-pos (o + k * (c + h)) px

-- A coordinate of a pixel in a cell.
corner_of-lt :
    (size : ℕ) (g : Geometry)
    → Inside size g
    → (k px : ℕ) → k < 4
    → px < plus_part g.cell
    → size_of (corner_of g k +ℤ pos px) < size
corner_of-lt size g (inside line grid o c h room) k px hk hp =
    let few : k * (c + h) ≤ 3 * (c + h) = mul-le-mul (below_four k hk) (le_refl (c + h)) in
    let here : o + k * (c + h) + px < size = omega arith in
    subst (λ z. size_of z < size) (sym (corner-pos o k c h px)) here
  where
    below_four : (k : ℕ) → k < 4 → k ≤ 3
    below_four k h = omega arith

module _ (job : RasterJob) (g : Geometry) (size : ℕ) (i : Inside size g) (small : size ≤ 1024) where
  surface_pixel-Kept :
      (reference : Bool) (y x : ℕ) (canvas : Canvas)
      → x < size
      → y < size
      → Kept size (surface_pixel job g reference y x canvas).rgba canvas.rgba
  unfolding surface_pixel
  surface_pixel-Kept reference y x canvas hx hy = rw (size_of-Inside size g i) (
      if_both (λ (c : Canvas). Kept size c.rgba canvas.rgba)
        (not reference && (in_grid g y && in_grid g x)) _ _
        (drop-put canvas.rgba size x y _ (hx, hy, small))
        (drop-put canvas.rgba size x y _ (hx, hy, small)))

  surface_row-Kept :
      (reference : Bool) (y left x : ℕ) (canvas : Canvas)
      → x + left ≤ size
      → y < size
      → Kept size (surface_row job g reference y left x canvas).rgba canvas.rgba
  unfolding surface_row
  surface_row-Kept reference y zero x canvas hx hy = refl
  surface_row-Kept reference y (suc left) x canvas hx hy =
      surface_row-Kept reference y left (suc x) (surface_pixel job g reference y x canvas)
        (omega (arith, hx)) hy
      ∙ surface_pixel-Kept reference y x canvas (omega (arith, hx)) hy

  surface_rows-Kept :
      (reference : Bool) (left y : ℕ) (canvas : Canvas)
      → y + left ≤ size
      → Kept size (surface_rows job g reference left y canvas).rgba canvas.rgba
  unfolding surface_rows
  surface_rows-Kept reference zero y canvas hy = refl
  surface_rows-Kept reference (suc left) y canvas hy =
      surface_rows-Kept reference left (suc y)
        (surface_row job g reference y (plus_part g.size) 0 canvas) (omega (arith, hy))
      ∙ surface_row-Kept reference y (plus_part g.size) 0 canvas
          (omega (arith, plus_part-Inside size g i)) (omega (arith, hy))

  figure-Kept :
      (index px py : ℕ) (rgba : List ℕ) (p : Pixel)
      → index < 16
      → px < plus_part g.cell
      → py < plus_part g.cell
      → Kept size
          (put rgba
            (size_of g.size)
            (size_of (corner_of g (index % 4) +ℤ pos px))
            (size_of (corner_of g (index / 4) +ℤ pos py))
            p)
          rgba
  figure-Kept index px py rgba p hi hx hy = rw (size_of-Inside size g i) (
      drop-put rgba size _ _ p (
        corner_of-lt size g i (index % 4) px (omega (arith, hi)) hx,
        corner_of-lt size g i (index / 4) py (omega (arith, hi)) hy,
        small,
      ))

  cell_row-Kept :
      (c : Cell) (index py left px : ℕ) (rgba : List ℕ)
      → index < 16
      → px + left ≤ plus_part g.cell
      → py < plus_part g.cell
      → Kept size (cell_row job g c index py left px rgba) rgba
  unfolding cell_row
  cell_row-Kept c index py zero px rgba hi hx hy = refl
  cell_row-Kept c index py (suc left) px rgba hi hx hy =
      cell_row-Kept c index py left (suc px) _ hi (omega (arith, hx)) hy
      ∙ figure-Kept index px py rgba _ hi (omega (arith, hx)) hy

  cell_rows-Kept :
      (c : Cell) (index left py : ℕ) (rgba : List ℕ)
      → index < 16
      → py + left ≤ plus_part g.cell
      → Kept size (cell_rows job g c index left py rgba) rgba
  unfolding cell_rows
  cell_rows-Kept c index zero py rgba hi hy = refl
  cell_rows-Kept c index (suc left) py rgba hi hy =
      cell_rows-Kept c index left (suc py) _ hi (omega (arith, hy))
      ∙ cell_row-Kept c index py (plus_part g.cell) 0 rgba hi (omega arith) (omega (arith, hy))

  draw_cells-Kept :
      (cells : List Cell) (index : ℕ) (rgba : List ℕ)
      → index + length cells ≤ 16
      → Kept size (draw_cells job g cells index rgba) rgba
  unfolding draw_cells
  draw_cells-Kept [] index rgba few = refl
  draw_cells-Kept (c ∷ rest) index rgba few =
      draw_cells-Kept rest (suc index) _ (omega (arith, few))
      ∙ if_both (λ r. Kept size r rgba) (is_missing c.figure) rgba
          (cell_rows job g c index (plus_part g.cell) 0 rgba) refl
          (cell_rows-Kept c index (plus_part g.cell) 0 rgba (omega (arith, few)) (omega arith))

  -- Drawing at most sixteen cells keeps what is behind the picture.
  pub draw-Kept :
      (reference : Bool) (rgba : List ℕ)
      → length job.cells ≤ 16
      → drop (size * size * 4) (draw job g reference rgba) ≡ drop (size * size * 4) rgba
  unfolding draw
  draw-Kept reference rgba few =
      draw_cells-Kept job.cells 0 _ (omega (arith, few))
      ∙ surface_rows-Kept reference (plus_part g.size) 0 _
          (omega (arith, plus_part-Inside size g i))
