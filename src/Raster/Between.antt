-- ===== src/Raster/Between.antt =====
-- A blended channel lies between the channels that are blended: `mix` of src/raster.cpp.
use hh_cpp.Base.{
  ℕ, suc, ◌+◌, ◌-◌, ◌*◌, ◌/◌, ◌≤◌, ◌<◌, ◌≡◌, min, max, leb, leb→le, leb-false→lt, arith, u8, u32,
}
use hh_cpp.Base.{Bool-cases, inl, inr}
use native.Mathlib.Nat.{mul-add, mul-le-mul_left, mul-le-mul_right, le-div_iff_mul-le}
use hh_cpp.Types.{Rgb}
use hh_cpp.Base.{refl, sym, subst, ◌==◌, ==→eq, ==-false→ne}
use hh_cpp.Raster.Blend.{IsColour}
use hh_cpp.Raster.Mix.{mix, mix_channel, mix_weight}

-- The rounded weighted mean of two numbers lies between them.
mean_between :
    (v w f b : ℕ)
    → 0 < v + w
    → (min f b ≤ (v * f + w * b + (v + w) / 2) / (v + w))
      × ((v * f + w * b + (v + w) / 2) / (v + w) ≤ max f b)
mean_between v w f b h =
    let lf : v * min f b ≤ v * f = mul-le-mul_left v (omega arith) in
    let lb : w * min f b ≤ w * b = mul-le-mul_left w (omega arith) in
    let uf : v * f ≤ v * max f b = mul-le-mul_left v (omega arith) in
    let ub : w * b ≤ w * max f b = mul-le-mul_left w (omega arith) in
    let low : min f b * (v + w) ≤ v * f + w * b + (v + w) / 2 = grind arith in
    let q = (v * f + w * b + (v + w) / 2) / (v + w) in
    (
      (le-div_iff_mul-le h).1 low,
      elim (Bool-cases (leb q (max f b))) [
        | inl fine ↦ leb→le q (max f b) fine
        | inr over ↦
            let more : suc (max f b) ≤ q = leb-false→lt q (max f b) over in
            let high : suc (max f b) * (v + w) ≤ v * f + w * b + (v + w) / 2 =
              (le-div_iff_mul-le h).0 more in
            absurd (grind arith)
      ],
    )

-- The weights of the two colours.
abbrev fg_weight : ℕ → ℕ → ℕ
fg_weight fg_alpha n_fg = n_fg * (255 * fg_alpha)

abbrev bg_weight : ℕ → ℕ → ℕ → ℕ → ℕ
bg_weight fg_alpha n_fg bg_alpha n_bg = n_fg * (bg_alpha * (255 - fg_alpha)) + n_bg * 255 * bg_alpha

weights_small :
    (fa n_fg ba n_bg : ℕ)
    → fa < 256
    → ba < 256
    → n_fg + n_bg ≤ 16
    → fg_weight fa n_fg + bg_weight fa n_fg ba n_bg ≤ 1040400
weights_small fa n_fg ba n_bg hf hb hn =
    let one : ba * (255 - fa) ≤ 255 * (255 - fa) = mul-le-mul_right (255 - fa) (omega arith) in
    let inner : 255 * fa + ba * (255 - fa) ≤ 65025 = omega (arith, one) in
    let front : n_fg * (255 * fa + ba * (255 - fa)) ≤ n_fg * 65025 = mul-le-mul_left n_fg inner in
    let back : n_bg * (255 * ba) ≤ n_bg * 65025 = mul-le-mul_left n_bg (omega arith) in
    let split : n_fg * (255 * fa + ba * (255 - fa)) ≡ n_fg * (255 * fa) + n_fg * (ba * (255 - fa)) =
      mul-add n_fg (255 * fa) (ba * (255 - fa)) in
    grind arith

mix_weight-sum :
    (fa n_fg ba n_bg : ℕ)
    → fa < 256
    → ba < 256
    → n_fg + n_bg ≤ 16
    → mix_weight fa n_fg ba n_bg ≡ fg_weight fa n_fg + bg_weight fa n_fg ba n_bg
unfolding mix_weight
mix_weight-sum fa n_fg ba n_bg hf hb hn =
    let small = weights_small fa n_fg ba n_bg hf hb hn in
    let split = mul-add n_fg (255 * fa) (ba * (255 - fa)) in omega (arith, small, split)

weighted :
    (fa n_fg ba n_bg f b : ℕ)
    → n_fg * (255 * fa * f + ba * (255 - fa) * b) + n_bg * 255 * ba * b
      ≡ fg_weight fa n_fg * f + bg_weight fa n_fg ba n_bg * b
weighted fa n_fg ba n_bg f b = grind arith

mix_channel-Between :
    (fg_alpha n_fg bg_alpha n_bg f b : ℕ)
    → fg_alpha < 256
    → bg_alpha < 256
    → n_fg + n_bg ≤ 16
    → f < 256
    → b < 256
    → 0 < mix_weight fg_alpha n_fg bg_alpha n_bg
    → (min f b ≤ mix_channel fg_alpha n_fg bg_alpha n_bg f b)
      × (mix_channel fg_alpha n_fg bg_alpha n_bg f b ≤ max f b)
unfolding mix_channel
mix_channel-Between fa n_fg ba n_bg f b hfa hba hn hf hb positive =
    let v = fg_weight fa n_fg in
    let w = bg_weight fa n_fg ba n_bg in
    let small = weights_small fa n_fg ba n_bg hfa hba hn in
    let sum = mix_weight-sum fa n_fg ba n_bg hfa hba hn in
    let vf : v * f ≤ v * 255 = mul-le-mul_left v (omega arith) in
    let wb : w * b ≤ w * 255 = mul-le-mul_left w (omega arith) in
    let (low, high) = mean_between v w f b (omega (arith, sum, positive)) in
    let inner : u32 (v * f + w * b) ≡ v * f + w * b = omega (arith, small, vf, wb) in
    let outer : u32 (v * f + w * b + (v + w) / 2) ≡ v * f + w * b + (v + w) / 2 =
      omega (arith, small, vf, wb) in
    let q = (v * f + w * b + (v + w) / 2) / (v + w) in
    let whole : u8 q ≡ q = omega (arith, high) in
    rw sum (rw (weighted fa n_fg ba n_bg f b) (rw inner (rw outer (rw whole (low, high)))))

abbrev pub Between : ℕ → ℕ → ℕ → Type 0
Between f b c = (min f b ≤ c) × (c ≤ max f b)

-- A pixel that is not fully transparent has a weight.
mix-weight :
    (fg : Rgb) (fg_alpha n_fg : ℕ) (bg : Rgb) (bg_alpha n_bg : ℕ)
    → 0 < (mix fg fg_alpha n_fg bg bg_alpha n_bg).a
    → 0 < mix_weight fg_alpha n_fg bg_alpha n_bg
unfolding mix
mix-weight fg fa n_fg bg ba n_bg visible = elim (Bool-cases (mix_weight fa n_fg ba n_bg == 0)) [
  | inl e ↦
      let none_ : 0 < 0 = rw (==→eq (mix_weight fa n_fg ba n_bg) 0 e) at visible in
      absurd (omega (arith, none_))
  | inr e ↦ omega (arith, ==-false→ne (mix_weight fa n_fg ba n_bg) 0 e)
]

mix-channels :
    (fg : Rgb) (fg_alpha n_fg : ℕ) (bg : Rgb) (bg_alpha n_bg : ℕ)
    → 0 < (mix fg fg_alpha n_fg bg bg_alpha n_bg).a
    → ((mix fg fg_alpha n_fg bg bg_alpha n_bg).r
        ≡ mix_channel fg_alpha n_fg bg_alpha n_bg fg.r bg.r)
      × ((mix fg fg_alpha n_fg bg bg_alpha n_bg).g
          ≡ mix_channel fg_alpha n_fg bg_alpha n_bg fg.g bg.g)
      × ((mix fg fg_alpha n_fg bg bg_alpha n_bg).b
          ≡ mix_channel fg_alpha n_fg bg_alpha n_bg fg.b bg.b)
unfolding mix
mix-channels fg fa n_fg bg ba n_bg visible =
    elim (Bool-cases (u32 (mix_weight fa n_fg ba n_bg + 2040) / 4080 == 0)) [
      | inl e ↦ absurd (let none_ : 0 < 0 = rw e at visible in omega (arith, none_))
      | inr e ↦ rw e (refl, refl, refl)
    ]

-- At most sixteen samples of two colours, whose channels and alphas are bytes, blend to a pixel
-- each of whose channels lies between those of the two colours, unless the pixel is fully
-- transparent.
pub mix-Between :
    (fg : Rgb) (fg_alpha n_fg : ℕ) (bg : Rgb) (bg_alpha n_bg : ℕ)
    → IsColour fg
    → IsColour bg
    → fg_alpha < 256
    → bg_alpha < 256
    → n_fg + n_bg ≤ 16
    → 0 < (mix fg fg_alpha n_fg bg bg_alpha n_bg).a
    → Between fg.r bg.r (mix fg fg_alpha n_fg bg bg_alpha n_bg).r
      × Between fg.g bg.g (mix fg fg_alpha n_fg bg bg_alpha n_bg).g
      × Between fg.b bg.b (mix fg fg_alpha n_fg bg bg_alpha n_bg).b
mix-Between fg fa n_fg bg ba n_bg (fr, fg_, fb) (br, bg_, bb) hf hb few visible =
    let positive = mix-weight fg fa n_fg bg ba n_bg visible in
    let (r, g, b) = mix-channels fg fa n_fg bg ba n_bg visible in
    (
      subst (Between fg.r bg.r) (sym r)
          (mix_channel-Between fa n_fg ba n_bg fg.r bg.r hf hb few fr br positive),
      subst (Between fg.g bg.g) (sym g)
          (mix_channel-Between fa n_fg ba n_bg fg.g bg.g hf hb few fg_ bg_ positive),
      subst (Between fg.b bg.b) (sym b)
          (mix_channel-Between fa n_fg ba n_bg fg.b bg.b hf hb few fb bb positive),
    )
