-- ===== src/Raster/Buffer.antt =====
-- The rasteriser writes pixels in place: src/raster.cpp.
use hh_cpp.Base.{ℕ, zero, suc, ◌≡◌, refl, ap, ◌∙◌, Bool, not, ◌&&◌}
use hh_cpp.Base.{List, [], ◌∷◌, set, length, if_both}
use hh_cpp.Base.Int.{plus_part, size_of}
use hh_cpp.Features.{Cell}
use hh_cpp.Raster.Sizing.{Geometry}
use hh_cpp.Raster.Frame.{is_missing}
use hh_cpp.Raster.Mix.{Pixel, put}
use hh_cpp.Raster.{RasterJob, Canvas, surface_pixel, surface_row, surface_rows}
use hh_cpp.Raster.{cell_row, cell_rows, draw_cells, draw, in_grid}

length-set {ℓ} : {A : Type ℓ} (xs : List A) (i : ℕ) (v : A) → length (set xs i v) ≡ length xs
length-set [] i v = refl
length-set (x ∷ xs) zero v = refl
length-set (x ∷ xs) (suc i) v = ap suc (length-set xs i v)

pub length-put :
    (rgba : List ℕ) (size x y : ℕ) (p : Pixel) → length (put rgba size x y p) ≡ length rgba
unfolding put
length-put rgba size x y p = rw (length-set, length-set, length-set, length-set) refl

length-surface_pixel :
    (job : RasterJob) (g : Geometry) (reference : Bool) (y x : ℕ) (canvas : Canvas)
    → length (surface_pixel job g reference y x canvas).rgba ≡ length canvas.rgba
unfolding surface_pixel
length-surface_pixel job g reference y x canvas =
    if_both (λ (c : Canvas). length c.rgba ≡ length canvas.rgba)
      (not reference && (in_grid g y && in_grid g x)) _ _
      (length-put canvas.rgba (size_of g.size) x y _)
      (length-put canvas.rgba (size_of g.size) x y _)

length-surface_row :
    (job : RasterJob) (g : Geometry) (reference : Bool) (y left x : ℕ) (canvas : Canvas)
    → length (surface_row job g reference y left x canvas).rgba ≡ length canvas.rgba
unfolding surface_row
length-surface_row job g reference y zero x canvas = refl
length-surface_row job g reference y (suc left) x canvas =
    length-surface_row job g reference y left (suc x) (surface_pixel job g reference y x canvas)
    ∙ length-surface_pixel job g reference y x canvas

length-surface_rows :
    (job : RasterJob) (g : Geometry) (reference : Bool) (left y : ℕ) (canvas : Canvas)
    → length (surface_rows job g reference left y canvas).rgba ≡ length canvas.rgba
unfolding surface_rows
length-surface_rows job g reference zero y canvas = refl
length-surface_rows job g reference (suc left) y canvas =
    length-surface_rows job g reference left (suc y)
      (surface_row job g reference y (plus_part g.size) 0 canvas)
    ∙ length-surface_row job g reference y (plus_part g.size) 0 canvas

length-cell_row :
    (job : RasterJob) (g : Geometry) (c : Cell) (index py left px : ℕ) (rgba : List ℕ)
    → length (cell_row job g c index py left px rgba) ≡ length rgba
unfolding cell_row
length-cell_row job g c index py zero px rgba = refl
length-cell_row job g c index py (suc left) px rgba =
    length-cell_row job g c index py left (suc px) _ ∙ length-put rgba _ _ _ _

length-cell_rows :
    (job : RasterJob) (g : Geometry) (c : Cell) (index left py : ℕ) (rgba : List ℕ)
    → length (cell_rows job g c index left py rgba) ≡ length rgba
unfolding cell_rows
length-cell_rows job g c index zero py rgba = refl
length-cell_rows job g c index (suc left) py rgba =
    length-cell_rows job g c index left (suc py) _
    ∙ length-cell_row job g c index py (plus_part g.cell) 0 rgba

length-draw_cells :
    (job : RasterJob) (g : Geometry) (cells : List Cell) (index : ℕ) (rgba : List ℕ)
    → length (draw_cells job g cells index rgba) ≡ length rgba
unfolding draw_cells
length-draw_cells job g [] index rgba = refl
length-draw_cells job g (c ∷ rest) index rgba =
    length-draw_cells job g rest (suc index) _
    ∙ if_both (λ r. length r ≡ length rgba) (is_missing c.figure) rgba
        (cell_rows job g c index (plus_part g.cell) 0 rgba) refl
        (length-cell_rows job g c index (plus_part g.cell) 0 rgba)

-- Drawing keeps the size of the buffer.
pub length-draw :
    (job : RasterJob) (g : Geometry) (reference : Bool) (rgba : List ℕ)
    → length (draw job g reference rgba) ≡ length rgba
unfolding draw
length-draw job g reference rgba =
    length-draw_cells job g job.cells 0 _
    ∙ length-surface_rows job g reference (plus_part g.size) 0 _
