-- ===== src/Raster/Sizing.antt =====
-- Frame styles, shapes and geometry: the types of include/hh/image.hpp, and resolve_frame,
-- frame_allowed and make_geometry of src/raster.cpp. A size is at most 1024 where make_geometry
-- is called, so that no product leaves 32 bits.
use hh_cpp.Base.{ℕ, zero, suc, ◌+◌, ◌*◌, Bool, true, false, ◌&&◌, if◌then◌else◌}
use hh_cpp.Base.Int.{ℤ, pos, ◌+ℤ◌, ◌-ℤ◌, ◌*ℤ◌, ◌/ℤ◌, ◌≤ℤ◌, max_ℤ}
use hh_cpp.Types.{Rgb, Mode, keyed}

-- `no_frame` is the source's `frame_style::none`; `other_shape` and `other_style` stand for the numbers that no enumerator has.
pub data ImageShape : Type 0 where
  square round : ImageShape
  other_shape : ℕ → ImageShape

pub data FrameStyle : Type 0 where
  automatic no_frame plain rounded chamfered double_line thick brackets ticks gaps : FrameStyle
  other_style : ℕ → FrameStyle

pub record RenderOptions : Type 0 where
  pub shape : ImageShape
  pub frame : FrameStyle
  pub background : Rgb
  pub background_alpha : ℕ
  pub frame_alpha : ℕ

abbrev pub min_image_size : ℕ
min_image_size = 16

abbrev pub max_image_size : ℕ
max_image_size = 1024

abbrev pub is_round : ImageShape → Bool
is_round round = true
is_round _ = false

abbrev pub is_square : ImageShape → Bool
is_square square = true
is_square _ = false

abbrev pub valid_shape : ImageShape → Bool
valid_shape (other_shape n) = false
valid_shape _ = true

abbrev pub valid_style : FrameStyle → Bool
valid_style (other_style n) = false
valid_style _ = true

abbrev is_keyed : Mode → Bool
is_keyed keyed = true
is_keyed _ = false

unfoldable pub resolve_frame : FrameStyle → Mode → ImageShape → FrameStyle
resolve_frame automatic m shape = if is_keyed m && is_square shape then rounded else no_frame
resolve_frame style m shape = style

unfoldable pub frame_allowed : FrameStyle → ImageShape → Bool
frame_allowed no_frame shape = true
frame_allowed plain shape = true
frame_allowed double_line shape = true
frame_allowed thick shape = true
frame_allowed rounded shape = is_square shape
frame_allowed chamfered shape = is_square shape
frame_allowed brackets shape = is_square shape
frame_allowed ticks shape = is_round shape
frame_allowed gaps shape = is_round shape
frame_allowed automatic shape = false
frame_allowed (other_style n) shape = false

pub record Geometry : Type 0 where
  pub size : ℤ
  pub line : ℤ
  pub gutter : ℤ
  pub cell : ℤ
  pub grid : ℤ
  pub offset : ℤ

-- The test of the loop that looks for the largest cell of the round shape.
unfoldable pub cell_fits : ℤ → ℤ → ℕ → Bool
cell_fits gutter limit t =
    let side = pos (4 * (t + 1)) +ℤ pos 3 *ℤ gutter in pos 2 *ℤ side *ℤ side ≤ℤ limit

-- `while (fits) ++t`, with fuel.
unfoldable pub cell_loop : ℕ → ℤ → ℤ → ℕ → ℕ
cell_loop zero gutter limit t = t
cell_loop (suc fuel) gutter limit t =
    let rest = cell_loop fuel gutter limit (suc t) in if cell_fits gutter limit t then rest else t

abbrev wide_margin : FrameStyle → ℤ
wide_margin double_line = pos 3
wide_margin thick = pos 3
wide_margin _ = pos 1

-- `limit`.
abbrev pub round_limit : ℤ → ℤ → ℤ → FrameStyle → ℤ
round_limit s line gutter resolved =
    let margin = wide_margin resolved *ℤ line +ℤ gutter in
    let inside = s -ℤ pos 2 *ℤ margin in inside *ℤ inside

unfoldable pub round_cell : ℤ → ℤ → ℤ → FrameStyle → ℕ → ℤ
round_cell s line gutter resolved fuel =
    pos (cell_loop fuel gutter (round_limit s line gutter resolved) 0)

unfoldable pub square_cell : ℤ → ℤ → ℤ → ℤ
square_cell s line gutter =
    let margin = max_ℤ (pos 4 *ℤ line) (s /ℤ 12) in (s -ℤ pos 2 *ℤ margin -ℤ pos 3 *ℤ gutter) /ℤ 4

-- The geometry, and whether there is room for the cells. A cell of the round shape is narrower
-- than the picture, so that `size` is enough fuel.
unfoldable pub make_geometry : ℕ → ImageShape → FrameStyle → Geometry × Bool
make_geometry size shape resolved =
    let s = pos size in
    let line = max_ℤ (pos 1) (s /ℤ 48) in
    let gutter = max_ℤ (pos 1) (s /ℤ 48) in
    let cell =
      if is_round shape
      then round_cell s line gutter resolved size
      else square_cell s line gutter in
    let grid = pos 4 *ℤ cell +ℤ pos 3 *ℤ gutter in
    (
      record {
        size = s;
        line = line;
        gutter = gutter;
        cell = cell;
        grid = grid;
        offset = (s -ℤ grid) /ℤ 2;
      },
      pos 1 ≤ℤ cell,
    )
