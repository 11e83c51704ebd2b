-- ===== src/Cli.antt =====
-- The command line example: examples/hh_cli.cpp.
pub mod Numbers
pub mod Fields
pub mod Batch
pub mod Written
pub mod Arguments
use Prim.Native.String.{String}
use mathlib.Core.Option
use hh_cpp.Base.{
  ℕ, zero, suc, ◌+◌, ◌-◌, ◌*◌, ◌/◌, ◌%◌, ◌^◌, Bool, true, false, ◌&&◌, ◌||◌, not, ltb, leb,
}
use hh_cpp.Base.{
  ◌==◌, if◌then◌else◌, Option, none, some, List, [], ◌∷◌, ◌++◌, length, get_or, codes, u32, take,
  drop,
}
use hh_cpp.Base.Int.{ℤ, pos}
use hh_cpp.Types.{
  Rgb, ByteView, BaseDigest, SecretKey, Fingerprint, digest_clear, key_clear, fingerprint_clear,
  bytes_equal,
}
use hh_cpp.Error.{ErrorCode, ok, invalid_key, invalid_argument, to_int, error_name}
use hh_cpp.Palette.{rgb}
use hh_cpp.Derive.{make_base_digest_from_text, make_base_digest_from_hex, make_secret_key, kcv}
use hh_cpp.Derive.{universal_fingerprint, keyed_fingerprint}
use hh_cpp.Features.{tag_chars}
use hh_cpp.Raster.Sizing.{RenderOptions, square, automatic}
use hh_cpp.Raster.Render.{Image, render}
use hh_cpp.Bmp.{encode_bmp}
use hh_cpp.Png.{encode_png}
use hh_cpp.Jpeg.{encode_jpeg}
use hh_cpp.Names.{to_hex, from_hex, parse_shape, parse_frame, parse_rgb, parse_rgba}

pub record Request : Type 0 where
  pub is_text : Bool
  pub input : List ℕ
  pub key : List ℕ
  pub size : ℕ
  pub options : RenderOptions
  pub format : List ℕ
  pub quality : ℤ
  pub matte : Rgb

-- The default member initialisers.
abbrev pub default_request : Request
default_request = record {
  is_text = false;
  input = [];
  key = [];
  size = 128;
  options = record {
    shape = square;
    frame = automatic;
    background = rgb 255 255 255;
    background_alpha = 255;
    frame_alpha = 255;
  };
  format = codes "png";
  quality = pos 92;
  matte = rgb 255 255 255;
}

pub record Result : Type 0 where
  pub error : ErrorCode
  pub digest : BaseDigest
  pub fingerprint : Fingerprint
  pub key_check : List ℕ
  pub bytes : List ℕ

abbrev pub is_ok : ErrorCode → Bool
is_ok ok = true
is_ok _ = false

-- A view of a vector or a string.
abbrev pub view_all : List ℕ → ByteView
view_all bytes = record { data_ = some bytes; size = length bytes }

abbrev pub digest_step : Request → ErrorCode × BaseDigest
digest_step rq =
    if rq.is_text
    then make_base_digest_from_text (view_all rq.input)
    else make_base_digest_from_hex rq.input

-- The fingerprint and `kcv`, behind the digest.
unfoldable pub fingerprint_step : Request → BaseDigest → ErrorCode × Fingerprint × List ℕ
fingerprint_step rq digest =
    let plain : ErrorCode × Fingerprint = universal_fingerprint digest in
    let key_bytes : Bool × List ℕ = from_hex rq.key in
    let made : ErrorCode × SecretKey = make_secret_key (view_all key_bytes.1) in
    let private_ : ErrorCode × Fingerprint = keyed_fingerprint digest made.1 in
    if length rq.key == 0
    then (plain.0, plain.1, [])
    else if not key_bytes.0
    then (invalid_key, fingerprint_clear, [])
    else if not (is_ok made.0)
    then (made.0, fingerprint_clear, [])
    else (private_.0, private_.1, to_hex (kcv made.1))

-- The format; `allocated` is the outcome of the allocations of the library.
unfoldable pub encode_step : Bool → Request → Image → ErrorCode × List ℕ
encode_step allocated rq img =
    if bytes_equal rq.format (codes "png")
    then encode_png img allocated
    else if bytes_equal rq.format (codes "bmp")
    then encode_bmp img rq.matte allocated
    else if bytes_equal rq.format (codes "jpeg")
    then encode_jpeg img rq.quality rq.matte allocated
    else if bytes_equal rq.format (codes "rgba")
    then (ok, img.rgba)
    else (invalid_argument, [])

unfoldable pub picture_step : Bool → Request → Fingerprint → ErrorCode × List ℕ
picture_step allocated rq fingerprint =
    let drawn : ErrorCode × Image = render fingerprint rq.size rq.options allocated in
    if is_ok drawn.0 then encode_step allocated rq drawn.1 else (drawn.0, [])

unfoldable pub run : Bool → Request → Result
run allocated rq =
    let digest : ErrorCode × BaseDigest = digest_step rq in
    let print : ErrorCode × Fingerprint × List ℕ = fingerprint_step rq digest.1 in
    let picture : ErrorCode × List ℕ = picture_step allocated rq print.1 in
    if not (is_ok digest.0)
    then record {
      error = digest.0;
      digest = digest.1;
      fingerprint = fingerprint_clear;
      key_check = [];
      bytes = [];
    }
    else if not (is_ok print.0)
    then record {
      error = print.0;
      digest = digest.1;
      fingerprint = print.1;
      key_check = print.2;
      bytes = [];
    }
    else record {
      error = picture.0;
      digest = digest.1;
      fingerprint = print.1;
      key_check = print.2;
      bytes = picture.1;
    }

-- `for (char c : text)`: `none` is the return of false. At most ten digits fit 64 bits.
unfoldable pub number_loop : ℕ → List ℕ → Option ℕ
number_loop v [] = some v
number_loop v (c ∷ rest) =
    let next = number_loop (v * 10 + (c - b'0')) rest in
    if ltb c b'0' || ltb b'9' c then none else next

abbrev pub clamped : ℕ → ℕ
clamped v = if ltb 0x7fffffff v then 0x7fffffff else u32 v

unfoldable pub parse_number : List ℕ → Option ℕ
unfolding number_loop
parse_number text =
    if length text == 0 || ltb 10 (length text)
    then none
    else elim (number_loop 0 text) [ none ↦ none | some v ↦ some (clamped v) ]

abbrev pub is_blank : ℕ → Bool
is_blank c = c == b' ' || c == 9

-- The first inner loop: what stands behind the blanks.
unfoldable pub skip_blanks : List ℕ → List ℕ
skip_blanks [] = []
skip_blanks (c ∷ rest) = if is_blank c then skip_blanks rest else c ∷ rest

-- The second: the field and what stands behind it.
unfoldable pub take_field : List ℕ → List ℕ × List ℕ
take_field [] = ([], [])
take_field (c ∷ rest) =
    let more : List ℕ × List ℕ = take_field rest in
    if is_blank c then ([], c ∷ rest) else (c ∷ more.0, more.1)

-- `while (i < line.size())`, with fuel: a round takes a character at least.
unfoldable pub field_loop : ℕ → List ℕ → List (List ℕ)
unfolding skip_blanks take_field
field_loop zero line = []
field_loop (suc fuel) [] = []
field_loop (suc fuel) line =
    let field : List ℕ × List ℕ = take_field (skip_blanks line) in
    let rest = field_loop fuel field.1 in if length field.0 == 0 then rest else field.0 ∷ rest

unfoldable pub split_fields : List ℕ → List (List ℕ)
unfolding field_loop
split_fields line = field_loop (length line) line
