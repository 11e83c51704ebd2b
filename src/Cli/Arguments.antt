-- ===== src/Cli/Arguments.antt =====
-- The arguments of examples/hh_cli.cpp: the loop of main, and the format from the file's name.
use hh_cpp.Base.{ℕ, Bool, true, false, ◌&&◌, ◌||◌, not, ltb, leb, ◌==◌}
use hh_cpp.Base.{if◌then◌else◌, Option, none, some, List, [], ◌∷◌, length, codes, take, u8}
use hh_cpp.Base.Int.{ℤ, pos}
use hh_cpp.Types.{Rgb, bytes_equal}
use hh_cpp.Raster.Sizing.{RenderOptions}
use hh_cpp.Names.{parse_shape, parse_frame, parse_rgb, parse_rgba}
use hh_cpp.Cli.{Request, default_request, parse_number}

-- The locals of main.
pub record Arguments : Type 0 where
  pub request : Request
  pub out_path : List ℕ
  pub have_input : Bool
  pub format_given : Bool

-- How the loop ends: the exit with the usage text, that of --help, the batch mode, or the request.
pub data Parsed : Type 0 where
  usage_error help : Parsed
  batch_mode : List ℕ → List ℕ → Parsed
  parsed : Arguments → Parsed

abbrev with_request : Request → Arguments → Arguments
with_request rq s = record {
  request = rq;
  out_path = s.out_path;
  have_input = s.have_input;
  format_given = s.format_given;
}

abbrev with_options : RenderOptions → Request → Request
with_options o rq = record {
  is_text = rq.is_text;
  input = rq.input;
  key = rq.key;
  size = rq.size;
  options = o;
  format = rq.format;
  quality = rq.quality;
  matte = rq.matte;
}

-- What an argument does: it leaves the loop, it changes the locals, it takes the next argument as
-- its value, where `none` is an `ok` that is false, or it takes the two of the batch mode.
pub data Turn : Type 0 where
  stop : Parsed → Turn
  keep : Arguments → Turn
  takes : (List ℕ → Option Arguments) → Turn
  takes_two : Turn

abbrev with_change : Option Request → Arguments → Option Arguments
with_change none s = none
with_change (some rq) s = some (with_request rq s)

abbrev changed {ℓ} : {A : Type ℓ} → Option A → (A → Request) → Option Request
changed none f = none
changed (some a) f = some (f a)

-- The changes of `rq`, of the option's value.
unfoldable pub set_text : Request → Request
set_text rq = record {
  is_text = true;
  input = rq.input;
  key = rq.key;
  size = rq.size;
  options = rq.options;
  format = rq.format;
  quality = rq.quality;
  matte = rq.matte;
}

unfoldable pub set_input : Request → List ℕ → Request
set_input rq v = record {
  is_text = rq.is_text;
  input = v;
  key = rq.key;
  size = rq.size;
  options = rq.options;
  format = rq.format;
  quality = rq.quality;
  matte = rq.matte;
}

unfoldable pub set_key : Request → List ℕ → Request
set_key rq v = record {
  is_text = rq.is_text;
  input = rq.input;
  key = v;
  size = rq.size;
  options = rq.options;
  format = rq.format;
  quality = rq.quality;
  matte = rq.matte;
}

unfoldable pub set_format : Request → List ℕ → Request
set_format rq v = record {
  is_text = rq.is_text;
  input = rq.input;
  key = rq.key;
  size = rq.size;
  options = rq.options;
  format = v;
  quality = rq.quality;
  matte = rq.matte;
}

-- The options with a numeric value or a colour: size, quality and matte.
unfoldable pub set_numbers : Request → ℕ → ℤ → Rgb → Request
set_numbers rq size quality matte = record {
  is_text = rq.is_text;
  input = rq.input;
  key = rq.key;
  size = size;
  options = rq.options;
  format = rq.format;
  quality = quality;
  matte = matte;
}

unfoldable pub set_background : RenderOptions → Rgb × ℕ → RenderOptions
set_background o v = record {
  shape = o.shape;
  frame = o.frame;
  background = v.0;
  background_alpha = v.1;
  frame_alpha = o.frame_alpha;
}

unfoldable pub set_frame_alpha : RenderOptions → ℕ → RenderOptions
set_frame_alpha o v = record {
  shape = o.shape;
  frame = o.frame;
  background = o.background;
  background_alpha = o.background_alpha;
  frame_alpha = v;
}

abbrev byte_number : List ℕ → Option ℕ
byte_number text = elim (parse_number text) [
  | none ↦ none
  | some v ↦ if leb v 255 then some (u8 v) else none
]

-- The options whose value is parsed into the request; `none` is another argument.
unfoldable pub parsed_option : List ℕ → Option (Request → List ℕ → Option Request)
unfolding bytes_equal parse_number parse_shape parse_frame parse_rgba parse_rgb
parsed_option arg =
    if bytes_equal arg (codes "--key")
    then some (λ rq v. some (set_key rq v))
    else if bytes_equal arg (codes "--size")
    then some (λ rq v. changed (parse_number v) (λ n. set_numbers rq n rq.quality rq.matte))
    else if bytes_equal arg (codes "--shape")
    then some (λ rq v. changed (parse_shape v) (λ shape.
      with_options
        (record {
          shape = shape;
          frame = rq.options.frame;
          background = rq.options.background;
          background_alpha = rq.options.background_alpha;
          frame_alpha = rq.options.frame_alpha;
        })
        rq))
    else if bytes_equal arg (codes "--frame")
    then some (λ rq v. changed (parse_frame v) (λ frame.
      with_options
        (record {
          shape = rq.options.shape;
          frame = frame;
          background = rq.options.background;
          background_alpha = rq.options.background_alpha;
          frame_alpha = rq.options.frame_alpha;
        })
        rq))
    else if bytes_equal arg (codes "--background")
    then some (λ rq v.
      changed (parse_rgba v) (λ colour. with_options (set_background rq.options colour) rq))
    else if bytes_equal arg (codes "--frame-alpha")
    then some (λ rq v.
      changed (byte_number v) (λ alpha. with_options (set_frame_alpha rq.options alpha) rq))
    else if bytes_equal arg (codes "--quality")
    then some (λ rq v. changed (parse_number v) (λ n. set_numbers rq rq.size (pos n) rq.matte))
    else if bytes_equal arg (codes "--matte")
    then some (λ rq v. changed (parse_rgb v) (λ colour. set_numbers rq rq.size rq.quality colour))
    else none

abbrev starts_with_dashes : List ℕ → Bool
starts_with_dashes arg = bytes_equal (take 2 arg) (codes "--")

-- The other arguments.
unfoldable pub other_turn : List ℕ → Arguments → Turn
unfolding bytes_equal set_text set_format set_input take
other_turn arg s =
    if bytes_equal arg (codes "--batch")
    then takes_two
    else if bytes_equal arg (codes "--text")
    then keep (with_request (set_text s.request) s)
    else if bytes_equal arg (codes "--format")
    then takes (λ v. some (record {
      request = set_format s.request v;
      out_path = s.out_path;
      have_input = s.have_input;
      format_given = true;
    }))
    else if bytes_equal arg (codes "--out")
    then takes (λ v. some (record {
      request = s.request;
      out_path = v;
      have_input = s.have_input;
      format_given = s.format_given;
    }))
    else if bytes_equal arg (codes "--help") || bytes_equal arg (codes "-h")
    then stop help
    else if not s.have_input && not (starts_with_dashes arg)
    then keep (record {
      request = set_input s.request arg;
      out_path = s.out_path;
      have_input = true;
      format_given = s.format_given;
    })
    else stop usage_error

unfoldable pub argument_turn : List ℕ → Arguments → Turn
unfolding parsed_option other_turn
argument_turn arg s = elim (parsed_option arg) [
  | none ↦ other_turn arg s
  | some change ↦ takes (λ v. with_change (change s.request v) s)
]

abbrev batch_of : List ℕ → List (List ℕ) → Parsed
batch_of file [] = usage_error
batch_of file (dir ∷ rest) = batch_mode file dir

-- `for (i = 1; i < argc; ++i)`: a value that is missing is the exit with the usage text.
unfoldable pub argument_loop : List (List ℕ) → Arguments → Parsed
unfolding argument_turn
argument_loop [] s = if s.have_input then parsed s else usage_error
argument_loop (arg ∷ []) s = elim (argument_turn arg s) [
  | stop p ↦ p
  | keep t ↦ argument_loop [] t
  | takes f ↦ usage_error
  | takes_two ↦ usage_error
]
argument_loop (arg ∷ v ∷ more) s = elim (argument_turn arg s) [
  | stop p ↦ p
  | keep t ↦ argument_loop (v ∷ more) t
  | takes f ↦ elim (f v) [ none ↦ usage_error | some t ↦ argument_loop more t ]
  | takes_two ↦ batch_of v more
]

-- What stands behind the last dot, or the whole text.
unfoldable pub behind_dot : List ℕ → List ℕ → List ℕ
behind_dot [] found = found
behind_dot (c ∷ rest) found = behind_dot rest (if c == b'.' then rest else found)

unfoldable pub format_from_name : Arguments → Request
unfolding behind_dot set_format
format_from_name s =
    let ext = behind_dot s.out_path s.out_path in
    if not s.format_given && ltb 4 (length s.out_path)
    then if bytes_equal ext (codes "bmp") || bytes_equal ext (codes "rgba")
      then set_format s.request ext
      else if bytes_equal ext (codes "jpg") || bytes_equal ext (codes "jpeg")
      then set_format s.request (codes "jpeg")
      else s.request
    else s.request

unfoldable pub parse_arguments : List (List ℕ) → Parsed
unfolding argument_loop
parse_arguments args =
    argument_loop args (record {
      request = default_request;
      out_path = [];
      have_input = false;
      format_given = false;
    })
