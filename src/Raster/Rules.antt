-- ===== src/Raster/Rules.antt =====
-- Which frames go with which shape: resolve_frame and frame_allowed of src/raster.cpp.
use hh_cpp.Base.{◌≡◌, refl, true}
use hh_cpp.Types.{Mode, universal, keyed, other_mode}
use hh_cpp.Raster.Sizing.{ImageShape, square, round, other_shape, automatic}
use hh_cpp.Raster.Sizing.{resolve_frame, frame_allowed}

-- The frame that `automatic` stands for is allowed, whatever the mode and the shape.
pub resolve_frame-Allowed :
    (m : Mode) (shape : ImageShape) → frame_allowed (resolve_frame automatic m shape) shape ≡ true
unfolding resolve_frame frame_allowed
resolve_frame-Allowed keyed square = refl
resolve_frame-Allowed keyed round = refl
resolve_frame-Allowed keyed (other_shape n) = refl
resolve_frame-Allowed universal shape = refl
resolve_frame-Allowed (other_mode n) shape = refl
