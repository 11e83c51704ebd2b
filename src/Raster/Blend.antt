-- ===== src/Raster/Blend.antt =====
-- What a blended pixel is: `mix` of src/raster.cpp.
use hh_cpp.Base.{zero, suc, suc-==-zero, if◌then◌else◌}
use hh_cpp.Base.{ℕ, ◌+◌, ◌-◌, ◌*◌, ◌/◌, ◌≤◌, ◌<◌, ◌≡◌, refl, false, ◌==◌, u8, u32, arith}
use hh_cpp.Types.{Rgb}
use Prim.Native.Nat.mul
use native.Mathlib.Nat.{mul-le-mul_left, div-eq_of_lt-le}
use hh_cpp.Raster.Mix.{Pixel, mix, mix_channel, mix_weight}

abbrev pub IsColour : Rgb → Type 0
IsColour c = (c.r < 256) × (c.g < 256) × (c.b < 256)

opaque_weight : (ba : ℕ) → mix_weight 255 16 ba 0 ≡ 1040400
unfolding mix_weight
opaque_weight ba = omega arith

opaque_channel : (ba f b : ℕ) → f < 256 → mix_channel 255 16 ba 0 f b ≡ f
unfolding mix_channel
opaque_channel ba f b h = rw (opaque_weight ba) (omega (arith, mul.zero b, mul.zero (0 * 255 * ba)))

-- Sixteen opaque samples give the opaque colour itself.
pub mix-opaque :
    (fg : Rgb) (bg : Rgb) (bg_alpha : ℕ)
    → IsColour fg
    → mix fg 255 16 bg bg_alpha 0 ≡ record { r = fg.r; g = fg.g; b = fg.b; a = 255 }
unfolding mix
mix-opaque fg bg bg_alpha (hr, hg, hb) = rw (opaque_weight bg_alpha) (
    rw
      (
        opaque_channel bg_alpha fg.r bg.r hr,
        opaque_channel bg_alpha fg.g bg.g hg,
        opaque_channel bg_alpha fg.b bg.b hb,
      )
      refl)

surface_weight : (fa ba : ℕ) → ba < 256 → mix_weight fa 0 ba 16 ≡ 4080 * ba
unfolding mix_weight
surface_weight fa ba h = omega (arith, mul.zero (255 * fa + ba * (255 - fa)))

surface_channel : (fa ba f b : ℕ) → ba < 256 → 0 < ba → b < 256 → mix_channel fa 0 ba 16 f b ≡ b
unfolding mix_channel
surface_channel fa ba f b ha pa hb =
    let w : 4080 * ba * b ≤ 4080 * ba * 255 = mul-le-mul_left (4080 * ba) (omega arith) in
    let q : (4080 * ba * b + 4080 * ba / 2) / (4080 * ba) ≡ b =
      div-eq_of_lt-le {k = b} (4080 * ba) (grind arith) (grind arith) in
    let p = 255 * fa * f + ba * (255 - fa) * b in
    let e1 : u32 (0 * p + 16 * 255 * ba * b) ≡ 4080 * ba * b = omega (arith, mul.zero p) in
    let e2 : u32 (4080 * ba * b + 4080 * ba / 2) ≡ 4080 * ba * b + 4080 * ba / 2 = omega arith in
    rw (surface_weight fa ba ha) (rw (e1) (rw (e2) (rw (q) (omega arith))))

visible_surface :
    (fg : Rgb) (fg_alpha : ℕ) (bg : Rgb) (bg_alpha : ℕ)
    → IsColour bg
    → 0 < bg_alpha
    → bg_alpha < 256
    → mix fg fg_alpha 0 bg bg_alpha 16 ≡ record { r = bg.r; g = bg.g; b = bg.b; a = bg_alpha }
unfolding mix
visible_surface fg fg_alpha bg bg_alpha (hr, hg, hb) pa ha =
    let nz : (u32 (4080 * bg_alpha + 2040) / 4080 == 0) ≡ false = ground arith in
    let al : u8 (u32 (4080 * bg_alpha + 2040) / 4080) ≡ bg_alpha = omega arith in
    rw (surface_weight fg_alpha bg_alpha ha) (
      rw (nz, al)
        (rw
          (
            surface_channel fg_alpha bg_alpha fg.r bg.r ha pa hr,
            surface_channel fg_alpha bg_alpha fg.g bg.g ha pa hg,
            surface_channel fg_alpha bg_alpha fg.b bg.b ha pa hb,
          )
          refl))

-- The pixel that sixteen samples of a background show: its colour and alpha, and zeros where it is
-- fully transparent.
unfoldable pub background_pixel : Rgb → ℕ → Pixel
background_pixel bg bg_alpha =
    if bg_alpha == 0
    then record { r = 0; g = 0; b = 0; a = 0 }
    else record { r = bg.r; g = bg.g; b = bg.b; a = bg_alpha }

hidden_surface :
    (fg : Rgb) (fg_alpha : ℕ) (bg : Rgb)
    → mix fg fg_alpha 0 bg 0 16 ≡ record { r = 0; g = 0; b = 0; a = 0 }
unfolding mix
hidden_surface fg fg_alpha bg = rw (surface_weight fg_alpha 0 (omega arith)) refl

-- Sixteen samples of the background and none of the foreground blend to the colour and the alpha
-- of the background, or to zeros where it is fully transparent. Channels and alpha are bytes.
pub mix-surface :
    (fg : Rgb) (fg_alpha : ℕ) (bg : Rgb) (bg_alpha : ℕ)
    → IsColour bg
    → bg_alpha < 256
    → mix fg fg_alpha 0 bg bg_alpha 16 ≡ background_pixel bg bg_alpha
unfolding background_pixel
mix-surface fg fg_alpha bg zero colour small = hidden_surface fg fg_alpha bg
mix-surface fg fg_alpha bg (suc a) colour small =
    rw (suc-==-zero a) (visible_surface fg fg_alpha bg (suc a) colour (omega arith) small)
