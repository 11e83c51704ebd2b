-- ===== src/Contrast.antt =====
-- WCAG contrast in integers: src/contrast.cpp.
pub mod Bounds
use hh_cpp.Base.{ℕ, ◌+◌, ◌-◌, ◌*◌, ◌/◌, ◌%◌, ◌^◌, min, max, List, [], ◌∷◌, u8, u32, u64, get_or}
use hh_cpp.Types.{Rgb}
use hh_cpp.Palette.{rgb, palette, frame_colour}

-- The sRGB transfer function times 10^6.
lin : List ℕ
lin =
    0 ∷ 304 ∷ 607 ∷ 911 ∷ 1214 ∷ 1518 ∷ 1821 ∷ 2125 ∷ 2428 ∷ 2732 ∷ 3035 ∷ 3347 ∷ 3677 ∷ 4025 ∷ 4391
    ∷ 4777 ∷ 5182 ∷ 5605 ∷ 6049 ∷ 6512 ∷ 6995 ∷ 7499 ∷ 8023 ∷ 8568 ∷ 9134 ∷ 9721 ∷ 10330 ∷ 10960
    ∷ 11612 ∷ 12286 ∷ 12983 ∷ 13702 ∷ 14444 ∷ 15209 ∷ 15996 ∷ 16807 ∷ 17642 ∷ 18500 ∷ 19382 ∷ 20289
    ∷ 21219 ∷ 22174 ∷ 23153 ∷ 24158 ∷ 25187 ∷ 26241 ∷ 27321 ∷ 28426 ∷ 29557 ∷ 30713 ∷ 31896 ∷ 33105
    ∷ 34340 ∷ 35601 ∷ 36889 ∷ 38204 ∷ 39546 ∷ 40915 ∷ 42311 ∷ 43735 ∷ 45186 ∷ 46665 ∷ 48172 ∷ 49707
    ∷ 51269 ∷ 52861 ∷ 54480 ∷ 56128 ∷ 57805 ∷ 59511 ∷ 61246 ∷ 63010 ∷ 64803 ∷ 66626 ∷ 68478 ∷ 70360
    ∷ 72272 ∷ 74214 ∷ 76185 ∷ 78187 ∷ 80220 ∷ 82283 ∷ 84376 ∷ 86500 ∷ 88656 ∷ 90842 ∷ 93059 ∷ 95307
    ∷ 97587 ∷ 99899 ∷ 102242 ∷ 104616 ∷ 107023 ∷ 109462 ∷ 111932 ∷ 114435 ∷ 116971 ∷ 119538 ∷ 122139
    ∷ 124772 ∷ 127438 ∷ 130136 ∷ 132868 ∷ 135633 ∷ 138432 ∷ 141263 ∷ 144128 ∷ 147027 ∷ 149960
    ∷ 152926 ∷ 155926 ∷ 158961 ∷ 162029 ∷ 165132 ∷ 168269 ∷ 171441 ∷ 174647 ∷ 177888 ∷ 181164
    ∷ 184475 ∷ 187821 ∷ 191202 ∷ 194618 ∷ 198069 ∷ 201556 ∷ 205079 ∷ 208637 ∷ 212231 ∷ 215861
    ∷ 219526 ∷ 223228 ∷ 226966 ∷ 230740 ∷ 234551 ∷ 238398 ∷ 242281 ∷ 246201 ∷ 250158 ∷ 254152
    ∷ 258183 ∷ 262251 ∷ 266356 ∷ 270498 ∷ 274677 ∷ 278894 ∷ 283149 ∷ 287441 ∷ 291771 ∷ 296138
    ∷ 300544 ∷ 304987 ∷ 309469 ∷ 313989 ∷ 318547 ∷ 323143 ∷ 327778 ∷ 332452 ∷ 337164 ∷ 341914
    ∷ 346704 ∷ 351533 ∷ 356400 ∷ 361307 ∷ 366253 ∷ 371238 ∷ 376262 ∷ 381326 ∷ 386429 ∷ 391572
    ∷ 396755 ∷ 401978 ∷ 407240 ∷ 412543 ∷ 417885 ∷ 423268 ∷ 428690 ∷ 434154 ∷ 439657 ∷ 445201
    ∷ 450786 ∷ 456411 ∷ 462077 ∷ 467784 ∷ 473531 ∷ 479320 ∷ 485150 ∷ 491021 ∷ 496933 ∷ 502886
    ∷ 508881 ∷ 514918 ∷ 520996 ∷ 527115 ∷ 533276 ∷ 539479 ∷ 545724 ∷ 552011 ∷ 558340 ∷ 564712
    ∷ 571125 ∷ 577580 ∷ 584078 ∷ 590619 ∷ 597202 ∷ 603827 ∷ 610496 ∷ 617207 ∷ 623960 ∷ 630757
    ∷ 637597 ∷ 644480 ∷ 651406 ∷ 658375 ∷ 665387 ∷ 672443 ∷ 679542 ∷ 686685 ∷ 693872 ∷ 701102
    ∷ 708376 ∷ 715694 ∷ 723055 ∷ 730461 ∷ 737910 ∷ 745404 ∷ 752942 ∷ 760525 ∷ 768151 ∷ 775822
    ∷ 783538 ∷ 791298 ∷ 799103 ∷ 806952 ∷ 814847 ∷ 822786 ∷ 830770 ∷ 838799 ∷ 846873 ∷ 854993
    ∷ 863157 ∷ 871367 ∷ 879622 ∷ 887923 ∷ 896269 ∷ 904661 ∷ 913099 ∷ 921582 ∷ 930111 ∷ 938686
    ∷ 947307 ∷ 955973 ∷ 964686 ∷ 973445 ∷ 982251 ∷ 991102 ∷ 1000000 ∷ []

-- The relative luminance times 10^10.
pub luminance : Rgb → ℕ
unfolding lin
luminance c = u64 (2126 * get_or lin c.r 0 + 7152 * get_or lin c.g 0 + 722 * get_or lin c.b 0)

pub contrast_x100 : Rgb → Rgb → ℕ
contrast_x100 a b =
    let ya = luminance a in
    let yb = luminance b in
    let hi = u64 (max ya yb + 500000000) in
    let lo = u64 (min ya yb + 500000000) in u32 (u64 (100 * hi) / lo)

-- One channel of `over`: `uint8_t((a * top + (255 - a) * bottom + 127) / 255)`.
over_channel : ℕ → ℕ → ℕ → ℕ
over_channel a top bottom = u8 (u32 (a * top + (255 - a) * bottom + 127) / 255)

pub over : Rgb → ℕ → Rgb → Rgb
unfolding over_channel
over c a under =
    rgb (over_channel a c.r under.r) (over_channel a c.g under.g) (over_channel a c.b under.b)

-- `worst = min(worst, contrast)` over the rest of the palette.
worst_of : ℕ → List Rgb → Rgb → ℕ
worst_of worst [] background = worst
worst_of worst (c ∷ rest) background =
    worst_of (min worst (contrast_x100 c background)) rest background

pub figures_contrast_of : List Rgb → Rgb → ℕ
unfolding worst_of
figures_contrast_of [] background = 0
figures_contrast_of (c ∷ rest) background = worst_of (contrast_x100 c background) rest background

pub figures_contrast_x100 : Rgb → ℕ
unfolding figures_contrast_of
figures_contrast_x100 background = figures_contrast_of palette background

pub record ContrastReport : Type 0 where
  pub figures_x100 : ℕ
  pub frame_x100 : ℕ

-- `measure_contrast`, of the three option fields that it reads.
pub measure_contrast : Rgb → ℕ → ℕ → Rgb → ContrastReport
unfolding figures_contrast_x100 over
measure_contrast background background_alpha frame_alpha page =
    let seen = over background background_alpha page in
    let frame = over frame_colour frame_alpha seen in
    record { figures_x100 = figures_contrast_x100 seen; frame_x100 = contrast_x100 frame seen }
