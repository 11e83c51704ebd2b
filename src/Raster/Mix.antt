-- ===== src/Raster/Mix.antt =====
-- Blending and pixels: `pixel`, `mix` and `put` of src/raster.cpp.
use hh_cpp.Base.{ℕ, ◌+◌, ◌-◌, ◌*◌, ◌/◌, List, set, u8, u32, u64, ◌==◌, if◌then◌else◌}
use hh_cpp.Types.{Rgb}

pub record Pixel : Type 0 where
  pub r : ℕ
  pub g : ℕ
  pub b : ℕ
  pub a : ℕ

-- `a`: the weight of the alpha over sixteen samples.
unfoldable pub mix_weight : ℕ → ℕ → ℕ → ℕ → ℕ
mix_weight fg_alpha n_fg bg_alpha n_bg =
    u32 (n_fg * (255 * fg_alpha + bg_alpha * (255 - fg_alpha)) + n_bg * 255 * bg_alpha)

unfoldable pub mix_channel : ℕ → ℕ → ℕ → ℕ → ℕ → ℕ → ℕ
mix_channel fg_alpha n_fg bg_alpha n_bg f b =
    let a = mix_weight fg_alpha n_fg bg_alpha n_bg in
    let p =
      u32 (
        n_fg * (255 * fg_alpha * f + bg_alpha * (255 - fg_alpha) * b)
        + n_bg * 255 * bg_alpha * b) in
    u8 (u32 (p + a / 2) / a)

unfoldable pub mix : Rgb → ℕ → ℕ → Rgb → ℕ → ℕ → Pixel
mix fg fg_alpha n_fg bg bg_alpha n_bg =
    let alpha = u32 (mix_weight fg_alpha n_fg bg_alpha n_bg + 2040) / 4080 in
    if alpha == 0 then record { r = 0; g = 0; b = 0; a = 0 } else record {
      r = mix_channel fg_alpha n_fg bg_alpha n_bg fg.r bg.r;
      g = mix_channel fg_alpha n_fg bg_alpha n_bg fg.g bg.g;
      b = mix_channel fg_alpha n_fg bg_alpha n_bg fg.b bg.b;
      a = u8 alpha;
    }

-- `x` and `y` are the casts of the coordinates to `std::size_t`.
unfoldable pub put : List ℕ → ℕ → ℕ → ℕ → Pixel → List ℕ
put rgba size x y p =
    let q = u64 (u64 (y * size + x) * 4) in
    set (set (set (set rgba q p.r) (q + 1) p.g) (q + 2) p.b) (q + 3) p.a
