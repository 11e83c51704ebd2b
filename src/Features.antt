-- ===== src/Features.antt =====
-- Feature extraction: src/features.cpp, and the hash of include/hh/fingerprint.hpp.
pub mod Laws
use hh_cpp.Base.{ℕ, zero, suc, ◌+◌, ◌-◌, ◌*◌, ◌/◌, ◌%◌, ◌^◌, bit_and, bit_or, bit_xor}
use hh_cpp.Base.{List, [], ◌∷◌, ◌++◌, map, get_or, take, replicate, codes}
use hh_cpp.Base.{u64, ◌<<<◌, ◌>>>◌, if◌then◌else◌}
use hh_cpp.Types.{Rgb, Mode, universal, keyed, other_mode, Fingerprint}
use hh_cpp.Palette.{palette, frame_colour}

pub data Figure : Type 0 where
  none square circle triangle_up triangle_right triangle_down triangle_left : Figure

pub record Cell : Type 0 where
  pub figure : Figure
  pub colour : ℕ

figure_table : List Figure
figure_table =
    none ∷ none ∷ square ∷ circle ∷ triangle_up ∷ triangle_right ∷ triangle_down ∷ triangle_left
    ∷ []

abbrev pub crockford : List ℕ
crockford = codes "0123456789ABCDEFGHJKMNPQRSTVWXYZ"

pub rgb_word : Rgb → ℕ
rgb_word c = bit_or (bit_or (c.r <<< 16) (c.g <<< 8)) c.b

-- `f == figure::none ? 0 : (b >> 3) & 3`.
colour_of : Figure → ℕ → ℕ
colour_of none b = 0
colour_of _ b = bit_and (b >>> 3) 3

pub cell_of : ℕ → Cell
unfolding figure_table colour_of
cell_of b =
    let f = get_or figure_table (b >>> 5) none in record { figure = f; colour = colour_of f b }

pub cells_of : List ℕ → List Cell
unfolding cell_of
cells_of fp = map cell_of (take 16 fp)

-- The word of the bytes 16 to 19, and the 30 bits that the tag shows.
tag_value : List ℕ → ℕ
tag_value fp =
    bit_or (bit_or (bit_or (get_or fp 16 0 <<< 24) (get_or fp 17 0 <<< 16)) (get_or fp 18 0 <<< 8))
      (get_or fp 19 0)
    >>> 2

tag_char : ℕ → ℕ → ℕ
tag_char v i = get_or crockford (bit_and (v >>> (25 - 5 * i)) 31) 0

-- The six characters and a terminating zero.
pub tag_of : List ℕ → List ℕ
unfolding tag_value tag_char
tag_of fp =
    let v = tag_value fp in
    tag_char v 0 ∷ tag_char v 1 ∷ tag_char v 2 ∷ tag_char v 3 ∷ tag_char v 4 ∷ tag_char v 5 ∷ 0 ∷ []

pub tag_chars : Fingerprint → List ℕ
unfolding tag_of
tag_chars fp = tag_of fp.bytes

pub record Layout : Type 0 where
  pub mode : Mode
  pub cells : List Cell
  pub palette_rgb : List ℕ
  pub frame_rgb : ℕ

pub describe : Fingerprint → Layout
unfolding cells_of rgb_word
describe fp = record {
  mode = fp.mode;
  cells =
      if fp.set_ then cells_of fp.bytes else replicate 16 (record { figure = none; colour = 0 });
  palette_rgb = map rgb_word palette;
  frame_rgb = rgb_word frame_colour;
}

abbrev pub mode_number : Mode → ℕ
mode_number universal = 1
mode_number keyed = 2
mode_number (other_mode n) = n

-- FNV-1a where `size_t` has 64 bits.
hash_loop : List ℕ → ℕ → ℕ
hash_loop [] h = h
hash_loop (b ∷ rest) h = hash_loop rest (u64 (bit_xor h b * 1099511628211))

pub hash : Fingerprint → ℕ
unfolding hash_loop
hash fp = hash_loop fp.bytes (mode_number fp.mode)
