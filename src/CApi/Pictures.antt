-- ===== src/CApi/Pictures.antt =====
-- Layouts, options, rendering and contrast of the C interface: src/c_api.cpp, with the
-- structures of include/hh/hh.h.
use hh_cpp.Base.{ℕ, zero, suc, Bool, true, false, not, ◌==◌, if◌then◌else◌}
use hh_cpp.Base.{Option, none, some, List, [], ◌∷◌, map, get_or, u8}
use hh_cpp.Base.Int.{ℤ}
use hh_cpp.Error.{ErrorCode, ok, to_int, invalid_argument}
use hh_cpp.Types.{Fingerprint}
use hh_cpp.Palette.{rgb}
use hh_cpp.Features.{Figure, square, circle, triangle_up, triangle_right, triangle_down}
use hh_cpp.Features.{triangle_left, Cell, Layout, describe, mode_number}
use hh_cpp.Contrast.{ContrastReport, measure_contrast}
use hh_cpp.Raster.Sizing.{
  ImageShape, round, other_shape, FrameStyle, automatic, no_frame, plain, rounded, chamfered,
  double_line, thick, brackets, ticks, gaps, other_style, RenderOptions,
}
use hh_cpp.Raster.Render.{render_into}
use hh_cpp.CApi.{colour_or_white}
use hh_cpp.CApi.Digests.{make_fingerprint, Answer, refuse}

-- `hh_cell` and `hh_layout`.
pub record HhCell : Type 0 where
  pub figure : ℕ
  pub colour : ℕ

pub record HhLayout : Type 0 where
  pub mode : ℕ
  pub cells : List HhCell
  pub palette_rgb : List ℕ
  pub frame_rgb : ℕ

unfoldable pub figure_number : Figure → ℕ
figure_number Figure.none = 0
figure_number square = 1
figure_number circle = 2
figure_number triangle_up = 3
figure_number triangle_right = 4
figure_number triangle_down = 5
figure_number triangle_left = 6

unfoldable pub to_hh_cell : Cell → HhCell
unfolding figure_number
to_hh_cell c = record { figure = figure_number c.figure; colour = c.colour }

-- The assignments to the structure, all of whose fields the loops fill.
unfoldable pub to_hh_layout : Layout → HhLayout
unfolding to_hh_cell
to_hh_layout l = record {
  mode = u8 (mode_number l.mode);
  cells = map to_hh_cell l.cells;
  palette_rgb = l.palette_rgb;
  frame_rgb = l.frame_rgb;
}

unfoldable pub hh_layout_of : Option (List ℕ) → ℤ → Option HhLayout → ℕ × Option HhLayout
unfolding to_hh_layout
hh_layout_of fingerprint mode none = (to_int invalid_argument, none)
hh_layout_of fingerprint mode (some before) =
    let made : ErrorCode × Fingerprint = make_fingerprint fingerprint mode in
    if not (to_int made.0 == to_int ok)
    then (to_int made.0, some before)
    else (to_int ok, some (to_hh_layout (describe made.1)))

pub record HhRenderOptions : Type 0 where
  pub struct_size : ℕ
  pub shape : ℕ
  pub frame : ℕ
  pub background : List ℕ
  pub background_alpha : ℕ
  pub frame_alpha : ℕ

-- `sizeof(hh_render_options)`: eleven bytes, and one that aligns the next structure to four.
abbrev pub struct_size : ℕ
struct_size = 12

-- The casts to the enumerations.
unfoldable pub shape_of : ℕ → ImageShape
shape_of zero = ImageShape.square
shape_of (suc zero) = round
shape_of n = other_shape n

abbrev styles : List FrameStyle
styles =
    automatic ∷ no_frame ∷ plain ∷ rounded ∷ chamfered ∷ double_line ∷ thick ∷ brackets ∷ ticks
    ∷ gaps ∷ []

unfoldable pub style_of : ℕ → FrameStyle
style_of n = get_or styles n (other_style n)

abbrev pub default_options : RenderOptions
default_options = record {
  shape = ImageShape.square;
  frame = automatic;
  background = rgb 255 255 255;
  background_alpha = 255;
  frame_alpha = 255;
}

-- `options_of`: whether the structure is admitted, and the options.
unfoldable pub options_of : Option HhRenderOptions → Bool × RenderOptions
unfolding shape_of style_of
options_of none = (true, default_options)
options_of (some o) = if not (o.struct_size == struct_size) then (false, default_options) else (
  true,
  record {
    shape = shape_of o.shape;
    frame = style_of o.frame;
    background = rgb (get_or o.background 0 0) (get_or o.background 1 0) (get_or o.background 2 0);
    background_alpha = o.background_alpha;
    frame_alpha = o.frame_alpha;
  },
)

unfoldable pub hh_render_options_init : Option HhRenderOptions → Option HhRenderOptions
hh_render_options_init none = none
hh_render_options_init (some before) = some (record {
  struct_size = struct_size;
  shape = 0;
  frame = 0;
  background = 255 ∷ 255 ∷ 255 ∷ [];
  background_alpha = 255;
  frame_alpha = 255;
})

unfoldable pub hh_render :
    Option (List ℕ) → ℤ → ℕ → Option HhRenderOptions → Option (List ℕ) → ℕ → Answer
unfolding options_of
hh_render fingerprint mode size options none capacity = refuse none
hh_render fingerprint mode size options (some rgba) capacity =
    let made : ErrorCode × Fingerprint = make_fingerprint fingerprint mode in
    let o : Bool × RenderOptions = options_of options in
    if not (to_int made.0 == to_int ok)
    then (to_int made.0, some rgba)
    else if not o.0
    then refuse (some rgba)
    else let done = render_into made.1 size o.1 (some rgba) capacity in (to_int done.0, done.1)

-- `hh_contrast` has the fields of `contrast_report`.
unfoldable pub hh_measure_contrast :
    Option HhRenderOptions → Option (List ℕ) → Option ContrastReport → ℕ × Option ContrastReport
unfolding options_of
hh_measure_contrast options page none = (to_int invalid_argument, none)
hh_measure_contrast options page (some before) =
    let o : Bool × RenderOptions = options_of options in
    if not o.0 then (to_int invalid_argument, some before) else (
      to_int ok,
      some (
          measure_contrast o.1.background o.1.background_alpha o.1.frame_alpha
            (colour_or_white page)),
    )
