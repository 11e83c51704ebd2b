-- ===== src/Raster.antt =====
-- The rasteriser: raster_job and rasterise of src/raster.cpp.
pub mod Sizing
pub mod Frame
pub mod Mix
pub mod Render
pub mod Rules
pub mod Buffer
pub mod Outcomes
pub mod Blend
pub mod Between
pub mod Cache
pub mod Fits
pub mod Inside
pub mod Tail
pub mod Largest
use hh_cpp.Base.{ℕ, zero, suc, ◌+◌, ◌-◌, ◌*◌, ◌/◌, ◌%◌, bit_and, Bool, true, false, ◌&&◌, ◌||◌, not}
use hh_cpp.Base.{Option, none, some, List, [], ◌∷◌, get_or, set, replicate, ltb, if◌then◌else◌}
use hh_cpp.Base.Int.{ℤ, pos, ◌+ℤ◌, ◌*ℤ◌, ◌<ℤ◌, ◌≤ℤ◌, plus_part, size_of}
use hh_cpp.Error.{ErrorCode, ok, invalid_argument, invalid_size}
use hh_cpp.Types.{Rgb}
use hh_cpp.Features.{Figure, Cell}
use hh_cpp.Raster.Sizing.{ImageShape, FrameStyle, automatic, valid_shape, valid_style}
use hh_cpp.Raster.Sizing.{Geometry, make_geometry, min_image_size, max_image_size}
use hh_cpp.Raster.Frame.{FrameTester, frame_tester, in_outline, on_frame, in_figure}
use hh_cpp.Raster.Frame.{is_square_figure, is_missing}
use hh_cpp.Raster.Mix.{Pixel, mix, put}

pub record RasterJob : Type 0 where
  pub cells : List Cell
  pub palette : List Rgb
  pub frame_rgb : Rgb
  pub shape : ImageShape
  pub frame : FrameStyle
  pub background : Rgb
  pub background_alpha : ℕ
  pub frame_alpha : ℕ

-- `n_in` and `n_frame`.
pub record Counts : Type 0 where
  pub n_in : ℕ
  pub n_frame : ℕ

-- The centre of the sample `i` of the pixel `x`, in eighths of a pixel.
abbrev pub sample : ℕ → ℕ → ℤ
sample x i = pos (2 * (4 * x + i) + 1)

abbrev pub count_sample : FrameTester → ℤ → ℤ → Counts → Counts
count_sample tester u v n =
    if in_outline tester u v
    then record {
      n_in = suc n.n_in;
      n_frame = if on_frame tester u v then suc n.n_frame else n.n_frame;
    }
    else n

-- The loop over `i` for the samples of one row of the pixel, and the loop over `j`.
unfoldable pub count_row : FrameTester → ℕ → ℤ → ℕ → ℕ → Counts → Counts
count_row tester x v zero i n = n
count_row tester x v (suc left) i n =
    count_row tester x v left (suc i) (count_sample tester (sample x i) v n)

unfoldable pub count_samples : FrameTester → ℕ → ℕ → ℕ → ℕ → Counts → Counts
unfolding count_row
count_samples tester x y zero j n = n
count_samples tester x y (suc left) j n =
    count_samples tester x y left (suc j) (count_row tester x (sample y j) 4 0 n)

abbrev pub no_counts : Counts
no_counts = record { n_in = 0; n_frame = 0 }

-- The buffer, with `frame_pixels` and `frame_known` as one table: a slot is none while
-- `frame_known` is false.
pub record Canvas : Type 0 where
  pub rgba : List ℕ
  pub known : List (Option Pixel)

abbrev pub slot_of : Counts → ℕ
slot_of n = 17 * n.n_in + n.n_frame

abbrev pub frame_mix : RasterJob → Counts → Pixel
frame_mix job n =
    mix job.frame_rgb job.frame_alpha n.n_frame job.background job.background_alpha
      (n.n_in - n.n_frame)

-- The table after the pixel of the counts is made sure of, and that pixel.
unfoldable pub lookup : RasterJob → Counts → List (Option Pixel) → Pixel × List (Option Pixel)
lookup job n known = elim (get_or known (slot_of n) none) [
  | some p ↦ (p, known)
  | none ↦ (frame_mix job n, set known (slot_of n) (some (frame_mix job n)))
]

-- Whether `v` is in the grid area.
abbrev pub in_grid : Geometry → ℕ → Bool
in_grid g v = (g.offset ≤ℤ pos v) && (pos v <ℤ (g.offset +ℤ g.grid))

-- One pixel of step 1.
unfoldable pub surface_pixel : RasterJob → Geometry → Bool → ℕ → ℕ → Canvas → Canvas
unfolding count_samples lookup
surface_pixel job g reference y x canvas =
    let tester = frame_tester g job.shape job.frame in
    let surface = mix job.frame_rgb job.frame_alpha 0 job.background job.background_alpha 16 in
    if not reference && (in_grid g y && in_grid g x)
    then record { rgba = put canvas.rgba (size_of g.size) x y surface; known = canvas.known }
    else let found : Pixel × List (Option Pixel) =
        lookup job (count_samples tester x y 4 0 no_counts) canvas.known in
      record { rgba = put canvas.rgba (size_of g.size) x y found.0; known = found.1 }

unfoldable pub surface_row : RasterJob → Geometry → Bool → ℕ → ℕ → ℕ → Canvas → Canvas
unfolding surface_pixel
surface_row job g reference y zero x canvas = canvas
surface_row job g reference y (suc left) x canvas =
    surface_row job g reference y left (suc x) (surface_pixel job g reference y x canvas)

unfoldable pub surface_rows : RasterJob → Geometry → Bool → ℕ → ℕ → Canvas → Canvas
unfolding surface_row
surface_rows job g reference zero y canvas = canvas
surface_rows job g reference (suc left) y canvas =
    surface_rows job g reference left (suc y)
      (surface_row job g reference y (plus_part g.size) 0 canvas)

-- The samples of the pixel in the figure: the loops over `i` and `j`.
unfoldable pub figure_row : Figure → ℤ → ℕ → ℤ → ℕ → ℕ → ℕ → ℕ
figure_row f h px v zero i n = n
figure_row f h px v (suc left) i n =
    figure_row f h px v left (suc i) (if in_figure f (sample px i) v h then suc n else n)

unfoldable pub figure_samples : Figure → ℤ → ℕ → ℕ → ℕ → ℕ → ℕ → ℕ
unfolding figure_row
figure_samples f h px py zero j n = n
figure_samples f h px py (suc left) j n =
    figure_samples f h px py left (suc j) (figure_row f h px (sample py j) 4 0 n)

unfoldable pub coverage : Figure → ℤ → ℕ → ℕ → ℕ
unfolding figure_samples
coverage f h px py = if is_square_figure f then 16 else figure_samples f h px py 4 0 0

-- `shades[n]`.
abbrev pub shade : RasterJob → Cell → ℕ → Pixel
shade job c n =
    mix (get_or job.palette (bit_and c.colour 3) (record { r = 0; g = 0; b = 0 })) 255 n
      job.background job.background_alpha (16 - n)

-- The corner of the cell in the row or column `k` of the grid.
abbrev pub corner_of : Geometry → ℕ → ℤ
corner_of g k = g.offset +ℤ pos k *ℤ (g.cell +ℤ g.gutter)

abbrev figure_pixel : RasterJob → Geometry → Cell → ℕ → ℕ → ℕ → List ℕ → List ℕ
figure_pixel job g c index py px rgba =
    put rgba (size_of g.size) (size_of (corner_of g (index % 4) +ℤ pos px))
      (size_of (corner_of g (index / 4) +ℤ pos py))
      (shade job c (coverage c.figure (pos 4 *ℤ g.cell) px py))

unfoldable pub cell_row : RasterJob → Geometry → Cell → ℕ → ℕ → ℕ → ℕ → List ℕ → List ℕ
unfolding coverage
cell_row job g c index py zero px rgba = rgba
cell_row job g c index py (suc left) px rgba =
    cell_row job g c index py left (suc px) (figure_pixel job g c index py px rgba)

unfoldable pub cell_rows : RasterJob → Geometry → Cell → ℕ → ℕ → ℕ → List ℕ → List ℕ
unfolding cell_row
cell_rows job g c index zero py rgba = rgba
cell_rows job g c index (suc left) py rgba =
    cell_rows job g c index left (suc py) (cell_row job g c index py (plus_part g.cell) 0 rgba)

-- Step 2: the figures, from the cell `index` on.
unfoldable pub draw_cells : RasterJob → Geometry → List Cell → ℕ → List ℕ → List ℕ
unfolding cell_rows
draw_cells job g [] index rgba = rgba
draw_cells job g (c ∷ rest) index rgba =
    draw_cells job g rest (suc index)
      (if is_missing c.figure then rgba else cell_rows job g c index (plus_part g.cell) 0 rgba)

-- Both steps.
unfoldable pub draw : RasterJob → Geometry → Bool → List ℕ → List ℕ
unfolding surface_rows draw_cells
draw job g reference rgba =
    let start : Canvas = record { rgba = rgba; known = replicate 289 none } in
    draw_cells job g job.cells 0 (surface_rows job g reference (plus_part g.size) 0 start).rgba

abbrev is_automatic : FrameStyle → Bool
is_automatic automatic = true
is_automatic _ = false

-- The code and the buffer after it; a null pointer is none.
unfoldable pub rasterise : RasterJob → ℕ → Option (List ℕ) → Bool → ErrorCode × Option (List ℕ)
unfolding draw
rasterise job size none reference = (invalid_argument, none)
rasterise job size (some rgba) reference =
    if (not (valid_shape job.shape) || not (valid_style job.frame)) || is_automatic job.frame
    then (invalid_argument, some rgba)
    else if ltb size min_image_size || ltb max_image_size size
    then (invalid_size, some rgba)
    else let made = make_geometry size job.shape job.frame in
      if made.1 then (ok, some (draw job made.0 reference rgba)) else (invalid_size, some rgba)
