-- ===== src/Raster/Frame.antt =====
-- The tests on one sample of the raster: frame_tester and in_figure of src/raster.cpp.
use hh_cpp.Base.{Bool, true, false, ◌&&◌, ◌||◌, if◌then◌else◌}
use hh_cpp.Base.Int.{ℤ, pos, ◌+ℤ◌, ◌-ℤ◌, ◌*ℤ◌, ◌/ℤ◌, ◌<ℤ◌, ◌≤ℤ◌, min_ℤ, max_ℤ}
use hh_cpp.Features.{Figure, none, square, circle}
use hh_cpp.Features.{triangle_up, triangle_right, triangle_down, triangle_left}
use hh_cpp.Raster.Sizing.{Geometry, ImageShape, FrameStyle, is_round}
use hh_cpp.Raster.Sizing.{no_frame, plain, rounded, chamfered, double_line, thick}
use hh_cpp.Raster.Sizing.{brackets, ticks, gaps}

abbrev pub iabs : ℤ → ℤ
iabs v = if v <ℤ pos 0 then pos 0 -ℤ v else v

abbrev squared : ℤ → ℤ
squared v = v *ℤ v

-- The members of `frame_tester` without their trailing underscore.
pub record FrameTester : Type 0 where
  pub round : Bool
  pub style : FrameStyle
  pub s8 : ℤ
  pub w8 : ℤ
  pub r : ℤ
  pub corner : ℤ
  pub diagonal : ℤ
  pub chamfer : ℤ
  pub bracket : ℤ
  pub gap : ℤ
  pub tick_end : ℤ

unfoldable pub frame_tester : Geometry → ImageShape → FrameStyle → FrameTester
frame_tester g shape style =
    let w8 = pos 8 *ℤ g.line in
    let r = pos 4 *ℤ g.size in
    let diagonal = (pos 8 *ℤ g.line *ℤ pos 1414 +ℤ pos 500) /ℤ 1000 in
    let inner = r -ℤ w8 in
    record {
      round = is_round shape;
      style = style;
      s8 = pos 8 *ℤ g.size;
      w8 = w8;
      r = r;
      corner = min_ℤ (pos 16 *ℤ g.offset) (pos 4 *ℤ g.size);
      diagonal = diagonal;
      chamfer = max_ℤ (pos 8) ((pos 16 *ℤ g.offset -ℤ diagonal -ℤ w8) /ℤ 8 *ℤ pos 8);
      bracket = pos 8 *ℤ (g.size /ℤ 4);
      gap = pos 8 *ℤ max_ℤ (pos 1) (g.size /ℤ 24);
      tick_end = inner -ℤ max_ℤ (pos 8) ((inner -ℤ pos 4 *ℤ g.grid) *ℤ pos 6 /ℤ 10);
    }

-- The square of the distance from the centre of the round shape.
abbrev distance2 : FrameTester → ℤ → ℤ → ℤ
distance2 t u v = squared (u -ℤ t.r) +ℤ squared (v -ℤ t.r)

-- `std::min(u, s8_ - u)`.
abbrev edge : FrameTester → ℤ → ℤ
edge t u = min_ℤ u (t.s8 -ℤ u)

abbrev in_corner : FrameTester → ℤ → ℤ → Bool
in_corner t du dv = (du <ℤ t.corner) && (dv <ℤ t.corner)

abbrev corner2 : FrameTester → ℤ → ℤ → ℤ
corner2 t du dv = squared (t.corner -ℤ du) +ℤ squared (t.corner -ℤ dv)

square_outline : FrameStyle → FrameTester → ℤ → ℤ → Bool
square_outline rounded t du dv =
    if in_corner t du dv then corner2 t du dv ≤ℤ squared t.corner else true
square_outline chamfered t du dv = t.chamfer ≤ℤ (du +ℤ dv)
square_outline _ t du dv = true

unfoldable pub in_outline : FrameTester → ℤ → ℤ → Bool
unfolding square_outline
in_outline t u v =
    if t.round
    then distance2 t u v ≤ℤ squared t.r
    else square_outline t.style t (edge t u) (edge t v)

-- `ring` and the switch of the round shape, of dx and dy.
round_frame : FrameStyle → FrameTester → ℤ → ℤ → Bool
round_frame style t dx dy =
    let d2 = squared dx +ℤ squared dy in
    let ring = squared (t.r -ℤ t.w8) <ℤ d2 in
    elim style [
      | plain ↦ ring
      | double_line ↦
          ring || ((squared (t.r -ℤ pos 3 *ℤ t.w8) <ℤ d2) && (d2 ≤ℤ squared (t.r -ℤ pos 2 *ℤ t.w8)))
      | thick ↦ squared (t.r -ℤ pos 3 *ℤ t.w8) <ℤ d2
      | gaps ↦ ring && (t.gap ≤ℤ iabs (iabs dx -ℤ iabs dy))
      | ticks ↦
          ring
          || (((iabs dx <ℤ t.w8) && (t.tick_end ≤ℤ iabs dy))
              || ((iabs dy <ℤ t.w8) && (t.tick_end ≤ℤ iabs dx)))
      | _ ↦ false
    ]

-- The switch of the square shape, of du and dv.
square_frame : FrameStyle → FrameTester → ℤ → ℤ → Bool
square_frame style t du dv =
    let e = min_ℤ du dv in
    elim style [
      | plain ↦ e <ℤ t.w8
      | double_line ↦ (e <ℤ t.w8) || ((pos 2 *ℤ t.w8 ≤ℤ e) && (e <ℤ pos 3 *ℤ t.w8))
      | thick ↦ e <ℤ pos 3 *ℤ t.w8
      | brackets ↦ (e <ℤ t.w8) && (max_ℤ du dv <ℤ t.bracket)
      | chamfered ↦ (e <ℤ t.w8) || (du +ℤ dv -ℤ t.chamfer <ℤ t.diagonal)
      | rounded ↦
          if in_corner t du dv then squared (t.corner -ℤ t.w8) <ℤ corner2 t du dv else e <ℤ t.w8
      | _ ↦ false
    ]

unfoldable pub on_frame : FrameTester → ℤ → ℤ → Bool
unfolding round_frame square_frame
on_frame t u v = elim t.style [
  | no_frame ↦ false
  | _ ↦
      if t.round
      then round_frame t.style t (u -ℤ t.r) (v -ℤ t.r)
      else square_frame t.style t (edge t u) (edge t v)
]

-- `h` is four times the side of a cell.
unfoldable pub in_figure : Figure → ℤ → ℤ → ℤ → Bool
in_figure none u v h = false
in_figure square u v h = true
in_figure circle u v h = squared (u -ℤ h) +ℤ squared (v -ℤ h) ≤ℤ squared h
in_figure triangle_up u v h = pos 2 *ℤ iabs (u -ℤ h) ≤ℤ v
in_figure triangle_down u v h = pos 2 *ℤ iabs (u -ℤ h) ≤ℤ (pos 2 *ℤ h -ℤ v)
in_figure triangle_right u v h = pos 2 *ℤ iabs (v -ℤ h) ≤ℤ (pos 2 *ℤ h -ℤ u)
in_figure triangle_left u v h = pos 2 *ℤ iabs (v -ℤ h) ≤ℤ u

abbrev pub is_square_figure : Figure → Bool
is_square_figure square = true
is_square_figure _ = false

abbrev pub is_missing : Figure → Bool
is_missing none = true
is_missing _ = false
