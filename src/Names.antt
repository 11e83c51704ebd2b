-- ===== src/Names.antt =====
-- The names that the tools use for options: tools/names.hpp.
pub mod Hex
use mathlib.Core.Option
use hh_cpp.Base.{
  ℕ, zero, suc, ◌+◌, ◌-◌, ◌*◌, ◌/◌, ◌%◌, ◌^◌, bit_and, Bool, true, false, ◌&&◌, ◌||◌, not, leb,
}
use hh_cpp.Base.{
  ◌==◌, if◌then◌else◌, Option, none, some, List, [], ◌∷◌, ◌++◌, length, get_elem?, get_or,
}
use hh_cpp.Base.{replicate, codes, u8, u32, ◌>>>◌}
use hh_cpp.Types.{Rgb, Mode, keyed, bytes_equal}
use hh_cpp.Raster.Sizing.{
  ImageShape, square, round, FrameStyle, automatic, no_frame, plain, rounded, chamfered,
  double_line, thick, brackets, ticks, gaps, other_style,
}
use hh_cpp.Raster.Render.{Image}

unfoldable pub shape_name : ImageShape → List ℕ
shape_name round = codes "round"
shape_name s = codes "square"

-- The parsers that fill an out parameter give `none` where the source gives false; the parameter
-- is then as it was.
unfoldable pub parse_shape : List ℕ → Option ImageShape
unfolding bytes_equal
parse_shape name =
    if bytes_equal name (codes "square")
    then some square
    else if bytes_equal name (codes "round")
    then some round
    else none

abbrev pub frame_names : List (List ℕ)
frame_names =
    codes "automatic"
    ∷ codes "none"
    ∷ codes "plain"
    ∷ codes "rounded"
    ∷ codes "chamfered"
    ∷ codes "double"
    ∷ codes "thick"
    ∷ codes "brackets"
    ∷ codes "ticks"
    ∷ codes "gaps"
    ∷ []

-- The enumerators in the order of their numbers.
abbrev pub frame_styles : List FrameStyle
frame_styles =
    automatic ∷ no_frame ∷ plain ∷ rounded ∷ chamfered ∷ double_line ∷ thick ∷ brackets ∷ ticks
    ∷ gaps ∷ []

abbrev pub style_number : FrameStyle → ℕ
style_number automatic = 0
style_number no_frame = 1
style_number plain = 2
style_number rounded = 3
style_number chamfered = 4
style_number double_line = 5
style_number thick = 6
style_number brackets = 7
style_number ticks = 8
style_number gaps = 9
style_number (other_style n) = n

-- `none` is a read behind the array.
unfoldable pub frame_name : FrameStyle → Option (List ℕ)
frame_name s = get_elem? frame_names (style_number s)

-- The loop over `i`, of the names that are left.
unfoldable pub parse_frame_loop : List ℕ → List (List ℕ) → ℕ → Option FrameStyle
unfolding bytes_equal
parse_frame_loop name [] i = none
parse_frame_loop name (n ∷ names) i =
    let rest = parse_frame_loop name names (suc i) in
    if bytes_equal name n then get_elem? frame_styles i else rest

unfoldable pub parse_frame : List ℕ → Option FrameStyle
unfolding parse_frame_loop
parse_frame name = parse_frame_loop name frame_names 0

unfoldable pub mode_name : Mode → List ℕ
mode_name keyed = codes "keyed"
mode_name m = codes "universal"

abbrev pub digits : List ℕ
digits = codes "0123456789abcdef"

unfoldable pub to_hex : List ℕ → List ℕ
to_hex [] = []
to_hex (b ∷ data_) = get_or digits (b >>> 4) 0 ∷ get_or digits (bit_and b 0x0f) 0 ∷ to_hex data_

-- The lambda of `from_hex`; `none` is -1.
unfoldable pub nibble : ℕ → Option ℕ
nibble c =
    if leb b'0' c && leb c b'9'
    then some (c - b'0')
    else if leb b'a' c && leb c b'f'
    then some (c - b'a' + 10)
    else if leb b'A' c && leb c b'F'
    then some (c - b'A' + 10)
    else none

abbrev pair_byte : Option ℕ → Option ℕ → Option ℕ
pair_byte (some hi) (some lo) = some (u8 (hi * 16 + lo))
pair_byte hi lo = none

-- The loop of `from_hex`: the result and the vector.
unfoldable pub from_hex_loop : List ℕ → List ℕ → Bool × List ℕ
unfolding nibble
from_hex_loop (hi ∷ lo ∷ hex) out = elim (pair_byte (nibble hi) (nibble lo)) [
  | none ↦ (false, out)
  | some b ↦ from_hex_loop hex (out ++ (b ∷ []))
]
from_hex_loop hex out = (true, out)

unfoldable pub from_hex : List ℕ → Bool × List ℕ
unfolding from_hex_loop
from_hex hex = if not (length hex % 2 == 0) then (false, []) else from_hex_loop hex []

-- `{b[0], b[1], b[2]}`.
abbrev pub colour_at : List ℕ → Rgb
colour_at b = record { r = get_or b 0 0; g = get_or b 1 0; b = get_or b 2 0 }

unfoldable pub parse_rgb : List ℕ → Option Rgb
unfolding from_hex
parse_rgb text =
    let b : Bool × List ℕ = from_hex text in
    if not b.0 || not (length b.1 == 3) then none else some (colour_at b.1)

unfoldable pub parse_rgba : List ℕ → Option (Rgb × ℕ)
unfolding from_hex
parse_rgba text =
    let b : Bool × List ℕ = from_hex text in
    if not b.0 || not (length b.1 == 4) then none else some (colour_at b.1, get_or b.1 3 0)

unfoldable pub rgba_text : Rgb → ℕ → List ℕ
unfolding to_hex
rgba_text c alpha = to_hex (c.r ∷ c.g ∷ c.b ∷ alpha ∷ [])

unfoldable pub rgb_text : Rgb → List ℕ
unfolding to_hex
rgb_text c = to_hex (c.r ∷ c.g ∷ c.b ∷ [])

-- The text before the first colon and the text behind it.
unfoldable pub split_colon : List ℕ → Option (List ℕ × List ℕ)
split_colon [] = none
split_colon (c ∷ rest) =
    if c == b':'
    then some ([], rest)
    else elim (split_colon rest) [ none ↦ none | some p ↦ some (c ∷ p.0, p.1) ]

-- `out.rgba[i] = value[i % 4]`, of the bytes that are left.
unfoldable pub flat_bytes : List ℕ → ℕ → ℕ → List ℕ
flat_bytes value zero i = []
flat_bytes value (suc left) i = get_or value (i % 4) 0 ∷ flat_bytes value left (suc i)

-- The loop of the generator, of the bytes that are left.
unfoldable pub noise_bytes : ℕ → ℕ → List ℕ
noise_bytes zero x = []
noise_bytes (suc left) x =
    let next = bit_and (u32 (u32 (x * 1103515245) + 12345)) 0x7fffffff in
    u8 (bit_and (next >>> 16) 0xff) ∷ noise_bytes left next

-- `for (i = 3; i < size; i += 4)`: every fourth byte.
unfoldable pub make_opaque : List ℕ → List ℕ
make_opaque (r ∷ g ∷ b ∷ a ∷ rest) = r ∷ g ∷ b ∷ 0xff ∷ make_opaque rest
make_opaque bytes = bytes

-- What `pattern_image` does: `thrown` is an exception of `std::stoul`.
pub data PatternResult : Type 0 where
  returned : Bool → Image → PatternResult
  thrown : PatternResult

abbrev pub image_of : ℕ → ℕ → List ℕ → Image
image_of width height rgba = record { width = width; height = height; rgba = rgba }

-- The zeros of `assign`, which stay where the pattern is refused.
abbrev pub refused_image : ℕ → ℕ → PatternResult
refused_image width height =
    returned false (image_of width height (replicate (width * height * 4) 0))

unfoldable pub flat_image : List ℕ → ℕ → ℕ → PatternResult
unfolding from_hex flat_bytes
flat_image argument width height =
    let value : Bool × List ℕ = from_hex argument in
    if not value.0 || not (length value.1 == 4)
    then refused_image width height
    else returned true (image_of width height (flat_bytes value.1 (width * height * 4) 0))

unfoldable pub noise_image : Bool → ℕ → ℕ → ℕ → PatternResult
unfolding noise_bytes make_opaque
noise_image is_opaque seed width height =
    let noise = noise_bytes (width * height * 4) (u32 seed) in
    returned true (image_of width height (if is_opaque then make_opaque noise else noise))

-- Behind the colon.
unfoldable pub pattern_of : (List ℕ → Option ℕ) → List ℕ → List ℕ → ℕ → ℕ → PatternResult
unfolding bytes_equal flat_image noise_image
pattern_of stoul kind argument width height =
    let is_opaque = bytes_equal kind (codes "opaque") in
    if bytes_equal kind (codes "flat")
    then flat_image argument width height
    else if not (bytes_equal kind (codes "noise")) && not is_opaque
    then refused_image width height
    else elim (stoul argument) [
      | none ↦ thrown
      | some seed ↦ noise_image is_opaque seed width height
    ]

-- The size is a product of std::size_t that the address space can hold.
unfoldable pub pattern_image : (List ℕ → Option ℕ) → List ℕ → ℕ → ℕ → PatternResult
unfolding split_colon pattern_of
pattern_image stoul pattern_text width height = elim (split_colon pattern_text) [
  | none ↦ refused_image width height
  | some p ↦ pattern_of stoul p.0 p.1 width height
]
