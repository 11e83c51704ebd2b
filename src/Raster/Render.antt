-- ===== src/Raster/Render.antt =====
-- The renderer: prepare, render_into and render of src/raster.cpp.
use hh_cpp.Base.{ℕ, ◌*◌, Bool, false, ◌&&◌, ◌||◌, not, ltb, ◌==◌, u64, if◌then◌else◌}
use hh_cpp.Base.{Option, none, some, List, [], replicate}
use mathlib.Core.Option
use hh_cpp.Error.{ErrorCode, to_int, ok, invalid_argument, invalid_fingerprint, invalid_size}
use hh_cpp.Error.{invalid_frame, low_contrast, buffer_too_small, out_of_memory}
use hh_cpp.Types.{Fingerprint}
use hh_cpp.Palette.{palette, frame_colour}
use hh_cpp.Contrast.{figures_contrast_x100}
use hh_cpp.Features.{cells_of}
use hh_cpp.Raster.Sizing.{RenderOptions, valid_shape, valid_style, resolve_frame, frame_allowed}
use hh_cpp.Raster.Sizing.{make_geometry, min_image_size, max_image_size}
use hh_cpp.Raster.{RasterJob, rasterise}

-- `prepare`: the code, and the job where it is ok.
pub data Prepared : Type 0 where
  refused : ErrorCode → Prepared
  ready : RasterJob → Prepared

unfoldable pub job_of : Fingerprint → RenderOptions → RasterJob
job_of fp options = record {
  cells = cells_of fp.bytes;
  palette = palette;
  frame_rgb = frame_colour;
  shape = options.shape;
  frame = resolve_frame options.frame fp.mode options.shape;
  background = options.background;
  background_alpha = options.background_alpha;
  frame_alpha = options.frame_alpha;
}

unfoldable pub prepare : Fingerprint → ℕ → RenderOptions → Prepared
unfolding job_of
prepare fp size options =
    let resolved = resolve_frame options.frame fp.mode options.shape in
    if not fp.set_
    then refused invalid_fingerprint
    else if not (valid_shape options.shape) || not (valid_style options.frame)
    then refused invalid_argument
    else if ltb size min_image_size || ltb max_image_size size
    then refused invalid_size
    else if not (frame_allowed resolved options.shape)
    then refused invalid_frame
    else if (options.background_alpha == 255) && ltb (figures_contrast_x100 options.background) 200
    then refused low_contrast
    else if not (make_geometry size options.shape resolved).1
    then refused invalid_size
    else ready (job_of fp options)

-- `size_t(size) * size * 4`.
abbrev pub buffer_size : ℕ → ℕ
buffer_size size = u64 (u64 (size * size) * 4)

-- The code and the buffer after it, which is none where the pointer is null.
unfoldable pub render_into :
    Fingerprint → ℕ → RenderOptions → Option (List ℕ) → ℕ → ErrorCode × Option (List ℕ)
unfolding prepare
render_into fp size options none capacity = (invalid_argument, none)
render_into fp size options (some rgba) capacity = elim (prepare fp size options) [
  | refused code ↦ (code, some rgba)
  | ready job ↦
      if ltb capacity (buffer_size size)
      then (buffer_too_small, some rgba)
      else rasterise job size (some rgba) false
]

pub record Image : Type 0 where
  pub width : ℕ
  pub height : ℕ
  pub rgba : List ℕ

abbrev pub empty_image : Image
empty_image = record { width = 0; height = 0; rgba = [] }

-- The end of `render`, of what `rasterise` returns.
abbrev pub rendered : ℕ → ErrorCode × Option (List ℕ) → ErrorCode × Image
rendered size done =
    if to_int done.0 == to_int ok
    then (ok, record { width = size; height = size; rgba = Option.get_or done.1 [] })
    else (done.0, empty_image)

-- `allocated` says whether `out.rgba.resize` finds the memory. `out` is reset at once.
unfoldable pub render : Fingerprint → ℕ → RenderOptions → Bool → ErrorCode × Image
unfolding prepare
render fp size options allocated = elim (prepare fp size options) [
  | refused code ↦ (code, empty_image)
  | ready job ↦
      if allocated
      then rendered size (rasterise job size (some (replicate (buffer_size size) 0)) false)
      else (out_of_memory, empty_image)
]
