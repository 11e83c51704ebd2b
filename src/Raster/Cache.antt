-- ===== src/Raster/Cache.antt =====
-- The table of frame pixels of rasterise changes no pixel: src/raster.cpp.
use hh_cpp.Base.{
  ℕ, zero, suc, ◌+◌, ◌*◌, ◌≤◌, ◌≡◌, refl, ap, ap₂, sym, subst, ◌∙◌, ◌⊎◌, inl, inr, arith,
}
use hh_cpp.Base.{Bool, not, ◌&&◌, Bool-cases, Option, none, some, Option-cases, if◌then◌else◌}
use hh_cpp.Base.{List, [], ◌∷◌, get_or, set, replicate}
use hh_cpp.Base.Int.{ℤ, plus_part, size_of}
use hh_cpp.Raster.Sizing.{Geometry}
use hh_cpp.Raster.Frame.{FrameTester, frame_tester, in_outline, on_frame}
use hh_cpp.Raster.Mix.{Pixel, mix, put}
use hh_cpp.Raster.{RasterJob, Counts, Canvas, sample, count_sample, count_row, count_samples}
use hh_cpp.Raster.{no_counts, slot_of, frame_mix, lookup, in_grid, surface_pixel, surface_row}
use hh_cpp.Raster.{surface_rows, draw_cells, draw}

-- The samples on the frame are among those in the outline, and those are at most `most`.
abbrev Counted : ℕ → Counts → Type 0
Counted most n = (n.n_frame ≤ n.n_in) × (n.n_in ≤ most)

count_sample-Counted :
    (tester : FrameTester) (u v : ℤ) (most : ℕ) (n : Counts)
    → Counted most n
    → Counted (suc most) (count_sample tester u v n)
count_sample-Counted tester u v most n (a, b) = elim (Bool-cases (in_outline tester u v)) [
  | inl inside ↦ elim (Bool-cases (on_frame tester u v)) [
    | inl on ↦ rw (inside, on) (omega arith, omega arith)
    | inr off ↦ rw (inside, off) (omega arith, omega arith)
  ]
  | inr outside ↦ rw (outside) (a, omega arith)
]

count_row-Counted :
    (tester : FrameTester) (x : ℕ) (v : ℤ) (left i most : ℕ) (n : Counts)
    → Counted most n
    → Counted (most + left) (count_row tester x v left i n)
unfolding count_row
count_row-Counted tester x v zero i most n (a, b) = (a, omega arith)
count_row-Counted tester x v (suc left) i most n c =
    let next = count_sample tester (sample x i) v n in
    let (a, b) =
      count_row-Counted tester x v left (suc i) (suc most) next
        (count_sample-Counted tester (sample x i) v most n c) in
    (a, omega (arith, b))

count_samples-Counted :
    (tester : FrameTester) (x y left j most : ℕ) (n : Counts)
    → Counted most n
    → Counted (most + 4 * left) (count_samples tester x y left j n)
unfolding count_samples
count_samples-Counted tester x y zero j most n (a, b) = (a, omega arith)
count_samples-Counted tester x y (suc left) j most n c =
    let next = count_row tester x (sample y j) 4 0 n in
    let (a, b) =
      count_samples-Counted tester x y left (suc j) (most + 4) next
        (count_row-Counted tester x (sample y j) 4 0 most n c) in
    (a, omega (arith, b))

-- A slot after a store is the one before, or holds what was stored.
get_or-set :
    {A : Type 0} (xs : List A) (i j : ℕ) (v d : A)
    → (get_or (set xs i v) j d ≡ get_or xs j d) ⊎ ((i ≡ j) × (get_or (set xs i v) j d ≡ v))
get_or-set [] i j v d = inl refl
get_or-set (x ∷ xs) zero zero v d = inr (refl, refl)
get_or-set (x ∷ xs) zero (suc j) v d = inl refl
get_or-set (x ∷ xs) (suc i) zero v d = inl refl
get_or-set (x ∷ xs) (suc i) (suc j) v d = elim (get_or-set xs i j v d) [
  | inl same ↦ inl same
  | inr (e, stored) ↦ inr (ap suc e, stored)
]

-- Every slot of a pixel's counts is free or holds the pixel.
Known : RasterJob → List (Option Pixel) → Type 0
Known job known =
    (n : Counts)
    → n.n_frame ≤ 16
    → (get_or known (slot_of n) none ≡ none)
      ⊎ (get_or known (slot_of n) none ≡ some (frame_mix job n))

same_counts : (n n' : Counts) → n.n_frame ≤ 16 → n'.n_frame ≤ 16 → slot_of n ≡ slot_of n' → n ≡ n'
same_counts n n' h h' e =
    ap₂ (λ (a b : ℕ). record { n_in = a; n_frame = b })
      (let q : n.n_in ≡ n'.n_in = omega arith in q)
      (let q : n.n_frame ≡ n'.n_frame = omega arith in q)

store-Known :
    (job : RasterJob) (n : Counts) (known : List (Option Pixel))
    → n.n_frame ≤ 16
    → Known job known
    → Known job (set known (slot_of n) (some (frame_mix job n)))
unfolding Known
store-Known job n known h k n' h' =
    elim (get_or-set known (slot_of n) (slot_of n') (some (frame_mix job n)) none) [
      | inl same ↦
          subst (λ (o : Option Pixel). (o ≡ none) ⊎ (o ≡ some (frame_mix job n'))) (sym same)
            (k n' h')
      | inr (e, stored) ↦
          inr (stored ∙ ap (λ (m : Counts). some (frame_mix job m)) (same_counts n n' h h' e))
    ]

-- The pixel of the table is the one that `mix` gives, and the table stays right.
lookup-Known :
    (job : RasterJob) (n : Counts) (known : List (Option Pixel))
    → n.n_frame ≤ 16
    → Known job known
    → ((lookup job n known).0 ≡ frame_mix job n) × Known job (lookup job n known).1
unfolding lookup Known
lookup-Known job n known h k = elim (Option-cases (get_or known (slot_of n) none)) [
  | inl free ↦ rw (free, lookup) (refl, store-Known job n known h k)
  | inr (p, e) ↦ elim (k n h) [ inl free ↦ absurd (cc) | inr right ↦ rw (right, lookup) (refl, k) ]
]

-- The pixel without the table.
plain_pixel : RasterJob → Geometry → Bool → ℕ → ℕ → List ℕ → List ℕ
plain_pixel job g reference y x rgba = put rgba (size_of g.size) x y (
    if not reference && (in_grid g y && in_grid g x)
    then mix job.frame_rgb job.frame_alpha 0 job.background job.background_alpha 16
    else frame_mix job (count_samples (frame_tester g job.shape job.frame) x y 4 0 no_counts))

plain_row : RasterJob → Geometry → Bool → ℕ → ℕ → ℕ → List ℕ → List ℕ
plain_row job g reference y zero x rgba = rgba
plain_row job g reference y (suc left) x rgba =
    plain_row job g reference y left (suc x) (plain_pixel job g reference y x rgba)

pub plain_rows : RasterJob → Geometry → Bool → ℕ → ℕ → List ℕ → List ℕ
unfolding plain_row
plain_rows job g reference zero y rgba = rgba
plain_rows job g reference (suc left) y rgba =
    plain_rows job g reference left (suc y) (plain_row job g reference y (plus_part g.size) 0 rgba)

surface_pixel-plain :
    (job : RasterJob) (g : Geometry) (reference : Bool) (y x : ℕ) (canvas : Canvas)
    → Known job canvas.known
    → ((surface_pixel job g reference y x canvas).rgba
        ≡ plain_pixel job g reference y x canvas.rgba)
      × Known job (surface_pixel job g reference y x canvas).known
unfolding surface_pixel plain_pixel
surface_pixel-plain job g reference y x canvas k =
    elim (Bool-cases (not reference && (in_grid g y && in_grid g x))) [
      | inl short ↦ rw (short) (refl, k)
      | inr long ↦
          let n = count_samples (frame_tester g job.shape job.frame) x y 4 0 no_counts in
          let (a, b) =
            count_samples-Counted (frame_tester g job.shape job.frame) x y 4 0 0 no_counts
              (omega arith, omega arith) in
          let (e, k') = lookup-Known job n canvas.known (omega (arith, a, b)) k in
          rw (long) (ap (put canvas.rgba (size_of g.size) x y) e, k')
    ]

surface_row-plain :
    (job : RasterJob) (g : Geometry) (reference : Bool) (y left x : ℕ) (canvas : Canvas)
    → Known job canvas.known
    → ((surface_row job g reference y left x canvas).rgba
        ≡ plain_row job g reference y left x canvas.rgba)
      × Known job (surface_row job g reference y left x canvas).known
unfolding surface_row plain_row
surface_row-plain job g reference y zero x canvas k = (refl, k)
surface_row-plain job g reference y (suc left) x canvas k =
    let next = surface_pixel job g reference y x canvas in
    let (e, k1) = surface_pixel-plain job g reference y x canvas k in
    let (e', k2) = surface_row-plain job g reference y left (suc x) next k1 in
    (e' ∙ ap (plain_row job g reference y left (suc x)) e, k2)

surface_rows-plain :
    (job : RasterJob) (g : Geometry) (reference : Bool) (left y : ℕ) (canvas : Canvas)
    → Known job canvas.known
    → (surface_rows job g reference left y canvas).rgba
      ≡ plain_rows job g reference left y canvas.rgba
unfolding surface_rows plain_rows
surface_rows-plain job g reference zero y canvas k = refl
surface_rows-plain job g reference (suc left) y canvas k =
    let next = surface_row job g reference y (plus_part g.size) 0 canvas in
    let (e, k1) = surface_row-plain job g reference y (plus_part g.size) 0 canvas k in
    surface_rows-plain job g reference left (suc y) next k1
    ∙ ap (plain_rows job g reference left (suc y)) e

get_or-replicate : {A : Type 0} (m i : ℕ) (d : A) → get_or (replicate m d) i d ≡ d
unfolding replicate
get_or-replicate zero i d = refl
get_or-replicate (suc m) zero d = refl
get_or-replicate (suc m) (suc i) d = get_or-replicate m i d

free-Known : (job : RasterJob) → Known job (replicate 289 none)
unfolding Known
free-Known job n h = inl (get_or-replicate 289 (slot_of n) none)

-- Drawing with the table of frame pixels, which starts without any, gives the same bytes as
-- computing each pixel anew, for every job, geometry and buffer.
pub draw-plain :
    (job : RasterJob) (g : Geometry) (reference : Bool) (rgba : List ℕ)
    → draw job g reference rgba
      ≡ draw_cells job g job.cells 0 (plain_rows job g reference (plus_part g.size) 0 rgba)
unfolding draw
draw-plain job g reference rgba = ap (draw_cells job g job.cells 0) (
    surface_rows-plain job g reference (plus_part g.size) 0
      (record { rgba = rgba; known = replicate 289 none }) (free-Known job))
