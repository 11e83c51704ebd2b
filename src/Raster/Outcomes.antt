-- ===== src/Raster/Outcomes.antt =====
-- What the renderer returns: prepare, render_into and render of src/raster.cpp.
use hh_cpp.Base.{ℕ, ◌≤◌, ◌≡◌, ◌≢◌, refl, subst, sym, ◌∙◌, Bool, true, false, not, ◌||◌}
use hh_cpp.Base.{List, length, replicate, length-replicate, inl, inr, ◌⊎◌, Option, some}
use hh_cpp.Base.{if◌then◌else◌, if_both, ==-false, ltb_irrefl, ◌*◌, ltb, ltb-false→le, arith}
use native.Mathlib.Nat.{mul-le-mul}
use hh_cpp.Error.{ErrorCode, ok, to_int, invalid_size, invalid_argument, invalid_fingerprint}
use hh_cpp.Error.{invalid_frame, low_contrast, buffer_too_small, out_of_memory}
use hh_cpp.Types.{Fingerprint}
use hh_cpp.Raster.Sizing.{Geometry, RenderOptions, make_geometry, min_image_size, max_image_size}
use hh_cpp.Raster.Sizing.{valid_shape, valid_style}
use hh_cpp.Raster.{RasterJob, rasterise, draw, is_automatic}
use hh_cpp.Raster.Render.{Prepared, refused, ready, prepare, render, render_into, rendered}
use hh_cpp.Raster.Render.{Image, empty_image, buffer_size, job_of}
use hh_cpp.Raster.Buffer.{length-draw}
use hh_cpp.Raster.Inside.{Inside, make_geometry-Inside}
use hh_cpp.Raster.Tail.{draw-Kept}
use hh_cpp.Base.{drop}
use hh_cpp.Features.Laws.{length-cells_of}

abbrev IsFailure : ErrorCode → Type 0
IsFailure code = to_int code ≢ 0

-- What `rasterise` does to a buffer: it fails and leaves it, or draws a picture of a size in range
-- at its front.
pub data Rasterised (size : ℕ) (rgba : List ℕ) : ErrorCode × Option (List ℕ) → Type 0 where
  left_alone : (code : ErrorCode) → IsFailure code → Rasterised size rgba (code, some rgba)
  filled :
      (drawn : List ℕ)
      → 16 ≤ size
      → size ≤ 1024
      → length drawn ≡ length rgba
      → drop (size * size * 4) drawn ≡ drop (size * size * 4) rgba
      → Rasterised size rgba (ok, some drawn)

size_refused : (size : ℕ) (rgba : List ℕ) → Rasterised size rgba (invalid_size, some rgba)
unfolding to_int
size_refused size rgba = left_alone invalid_size (omega arith)

argument_refused : (size : ℕ) (rgba : List ℕ) → Rasterised size rgba (invalid_argument, some rgba)
unfolding to_int
argument_refused size rgba = left_alone invalid_argument (omega arith)

sized :
    (job : RasterJob) (size : ℕ) (rgba : List ℕ) (reference low high : Bool)
    → ltb size min_image_size ≡ low
    → ltb max_image_size size ≡ high
    → length job.cells ≤ 16
    → (made : Geometry × Bool) → (16 ≤ size → size ≤ 1024 → made.1 ≡ true → Inside size made.0)
    → Rasterised size rgba (
        if low || high
        then (invalid_size, some rgba)
        else if made.1
        then (ok, some (draw job made.0 reference rgba))
        else (invalid_size, some rgba))
sized job size rgba reference true high el eh few made lies = size_refused size rgba
sized job size rgba reference false true el eh few made lies = size_refused size rgba
sized job size rgba reference false false el eh few (g, true) lies =
    let low = ltb-false→le size min_image_size el in
    let high = ltb-false→le max_image_size size eh in
    filled (draw job g reference rgba) low high (length-draw job g reference rgba)
      (draw-Kept job g size (lies low high refl) high reference rgba few)
sized job size rgba reference false false el eh few (g, false) lies = size_refused size rgba

pub rasterise-Rasterised :
    (job : RasterJob) (size : ℕ) (rgba : List ℕ) (reference : Bool)
    → length job.cells ≤ 16
    → Rasterised size rgba (rasterise job size (some rgba) reference)
unfolding rasterise
rasterise-Rasterised job size rgba reference few =
    if_both (Rasterised size rgba)
      ((not (valid_shape job.shape) || not (valid_style job.frame)) || is_automatic job.frame) _ _
      (argument_refused size rgba)
      (sized job size rgba reference _ _ refl refl few (make_geometry size job.shape job.frame)
        (make_geometry-Inside size job.shape job.frame))

-- `prepare` refuses with a code that is not `ok`, or gives a job of at most sixteen cells.
pub data Checked : Prepared → Type 0 where
  refusal : (code : ErrorCode) → IsFailure code → Checked (refused code)
  checked : (job : RasterJob) → length job.cells ≤ 16 → Checked (ready job)

guarded :
    (test : Bool) (code : ErrorCode) (p : Prepared)
    → IsFailure code
    → Checked p
    → Checked (if test then refused code else p)
guarded true code p h c = refusal code h
guarded false code p h c = c

few_cells : (fp : Fingerprint) (options : RenderOptions) → length (job_of fp options).cells ≤ 16
unfolding job_of
few_cells fp options = length-cells_of fp.bytes

pub prepare-Checked :
    (fp : Fingerprint) (size : ℕ) (options : RenderOptions) → Checked (prepare fp size options)
unfolding prepare to_int
prepare-Checked fp size options = guarded _ invalid_fingerprint _ (omega arith) (
    guarded _ invalid_argument _ (omega arith) (
      guarded _ invalid_size _ (omega arith) (
        guarded _ invalid_frame _ (omega arith) (
          guarded _ low_contrast _ (omega arith) (
            guarded _ invalid_size _ (omega arith)
              (checked (job_of fp options) (few_cells fp options)))))))

failure-rendered :
    (size : ℕ) (code : ErrorCode) (rgba : Option (List ℕ))
    → IsFailure code
    → rendered size (code, rgba) ≡ (code, empty_image)
unfolding to_int
failure-rendered size code rgba h = rw (==-false (to_int code) 0 h) refl

abbrev zeros_of : ℕ → List ℕ
zeros_of size = replicate (buffer_size size) 0

abbrev after_prepare : ℕ → Prepared → ErrorCode × Image
after_prepare size p = elim p [
  | refused code ↦ (code, empty_image)
  | ready job ↦ rendered size (rasterise job size (some (zeros_of size)) false)
]

abbrev into_prepared : ℕ → Prepared → ErrorCode × Option (List ℕ)
into_prepared size p = elim p [
  | refused code ↦ (code, some (zeros_of size))
  | ready job ↦
      if ltb (buffer_size size) (buffer_size size)
      then (buffer_too_small, some (zeros_of size))
      else rasterise job size (some (zeros_of size)) false
]

prepared_agree :
    (size : ℕ) (p : Prepared)
    → Checked p
    → after_prepare size p ≡ rendered size (into_prepared size p)
prepared_agree size p (refusal code h) = sym (failure-rendered size code (some (zeros_of size)) h)
prepared_agree size p (checked job few) = rw (ltb_irrefl (buffer_size size)) refl

-- `render` gives what `render_into` writes into a buffer of zeros of the exact size, with an
-- empty image in place of the buffer where that fails.
pub render-render_into :
    (fp : Fingerprint) (size : ℕ) (options : RenderOptions)
    → render fp size options true
      ≡ rendered size
          (render_into fp size options (some (replicate (buffer_size size) 0)) (buffer_size size))
unfolding render render_into
render-render_into fp size options =
    prepared_agree size (prepare fp size options) (prepare-Checked fp size options)

-- What `render` returns.
abbrev pub IsRendered : ℕ → ErrorCode × Image → Type 0
IsRendered size done =
    ((done.0 ≡ ok)
      × ((16 ≤ size) × (size ≤ 1024))
      × (done.1.width ≡ size)
      × (done.1.height ≡ size)
      × (length done.1.rgba ≡ size * size * 4))
    ⊎ ((to_int done.0 ≢ 0) × (done.1 ≡ empty_image))

length-zeros_of : (size : ℕ) → size ≤ 1024 → length (zeros_of size) ≡ size * size * 4
length-zeros_of size h =
    length-replicate (buffer_size size) 0
    ∙ (let q : size * size ≤ 1024 * 1024 = mul-le-mul h h in omega arith)

-- `render` where the memory is not found.
abbrev without_memory : Prepared → ErrorCode × Image
without_memory p = elim p [
  | refused code ↦ (code, empty_image)
  | ready job ↦ (out_of_memory, empty_image)
]

rendered_lem :
    (size : ℕ) (done : ErrorCode × Option (List ℕ))
    → Rasterised size (zeros_of size) done
    → IsRendered size (rendered size done)
unfolding to_int
rendered_lem size done (left_alone code h) =
    subst (IsRendered size) (sym (failure-rendered size code (some (zeros_of size)) h))
      (inr (h, refl))
rendered_lem size done (filled drawn low high e _) =
    inl (refl, (low, high), refl, refl, e ∙ length-zeros_of size high)

render_refused : (size : ℕ) (p : Prepared) → Checked p → IsRendered size (without_memory p)
unfolding to_int
render_refused size p (refusal code h) = inr (h, refl)
render_refused size p (checked job few) = inr ((λ e. omega arith), refl)

render-Checked : (size : ℕ) (p : Prepared) → Checked p → IsRendered size (after_prepare size p)
render-Checked size p (refusal code h) = inr (h, refl)
render-Checked size p (checked job few) =
    rendered_lem size _ (rasterise-Rasterised job size (zeros_of size) false few)

-- `render` succeeds with a square picture of a size from 16 to 1024 and four bytes for each
-- pixel, or fails with an empty picture, also where the memory is not found.
pub render-IsRendered :
    (fp : Fingerprint) (size : ℕ) (options : RenderOptions) (allocated : Bool)
    → IsRendered size (render fp size options allocated)
unfolding render
render-IsRendered fp size options true =
    render-Checked size (prepare fp size options) (prepare-Checked fp size options)
render-IsRendered fp size options false =
    render_refused size (prepare fp size options) (prepare-Checked fp size options)
