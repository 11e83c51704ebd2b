-- ===== src/Cli/Batch.antt =====
-- The batch mode of examples/hh_cli.cpp: cases, their answers and the files.
use mathlib.Core.Option
use hh_cpp.Base.{ℕ, zero, suc, ◌+◌, ◌/◌, ◌%◌, Bool, true, ◌&&◌, ◌||◌, not, ltb}
use hh_cpp.Base.{
  ◌==◌, if◌then◌else◌, Option, none, some, List, [], ◌∷◌, ◌++◌, length, get_or, codes, take,
}
use hh_cpp.Base.Int.{pos}
use hh_cpp.Base.Streams.{after}
use hh_cpp.Types.{bytes_equal}
use hh_cpp.Error.{error_name}
use hh_cpp.Features.{tag_chars}
use hh_cpp.Names.{to_hex, from_hex, parse_shape, parse_frame, parse_rgb, parse_rgba}
use hh_cpp.Cli.{Request, Result, is_ok, run, parse_number, split_fields}

-- The lines of a file, as std::getline gives them: a line feed ends each, and the last need not
-- have one.
unfoldable pub add_to_line : ℕ → List (List ℕ) → List (List ℕ)
add_to_line c [] = (c ∷ []) ∷ []
add_to_line c (line ∷ lines) = (c ∷ line) ∷ lines

unfoldable pub split_lines : List ℕ → List (List ℕ)
unfolding add_to_line
split_lines [] = []
split_lines (c ∷ rest) =
    let lines = split_lines rest in if c == 10 then [] ∷ lines else add_to_line c lines

-- `line.back() == '\r'` and `pop_back`.
unfoldable pub drop_return : List ℕ → List ℕ
drop_return [] = []
drop_return (c ∷ []) = if c == 13 then [] else c ∷ []
drop_return (c ∷ d ∷ rest) = c ∷ drop_return (d ∷ rest)

unfoldable pub is_skipped : List ℕ → Bool
is_skipped [] = true
is_skipped (c ∷ rest) = c == b'#'

abbrev pub field : List (List ℕ) → ℕ → List ℕ
field f k = get_or f k []

-- The input of a case, whose kind is "text" or "hex".
unfoldable pub case_input : List (List ℕ) → Option (List ℕ)
unfolding bytes_equal from_hex
case_input f =
    let bytes : Bool × List ℕ = from_hex (field f 1) in
    if bytes_equal (field f 0) (codes "text")
    then if bytes.0 then some bytes.1 else none
    else some (field f 1)

-- The tests of `ok`, in turn, and the request.
unfoldable pub parse_case : List (List ℕ) → Option Request
unfolding case_input parse_number parse_shape parse_frame parse_rgba parse_rgb
parse_case f =
    if not (
      length f == 11
      && (bytes_equal (field f 0) (codes "hex") || bytes_equal (field f 0) (codes "text")))
    then none
    else after (parse_number (field f 3)) (λ size. after (parse_number (field f 7)) (λ frame_alpha.
      if ltb 255 frame_alpha
      then none
      else after (parse_number (field f 9)) (λ quality. after (parse_shape (field f 4)) (λ shape.
        after (parse_frame (field f 5)) (λ frame. after (parse_rgba (field f 6)) (λ background.
          after (parse_rgb (field f 10)) (λ matte. after (case_input f) (λ input. some (record {
            is_text = bytes_equal (field f 0) (codes "text");
            input = input;
            key = if bytes_equal (field f 2) (codes "-") then [] else field f 2;
            size = size;
            options = record {
              shape = shape;
              frame = frame;
              background = background.0;
              background_alpha = background.1;
              frame_alpha = frame_alpha;
            };
            format = field f 8;
            quality = pos quality;
            matte = matte;
          })))))))))

-- `std::to_string`, with fuel: a round takes a digit.
unfoldable pub decimal : ℕ → ℕ → List ℕ
decimal zero n = []
decimal (suc fuel) n =
    let higher = decimal fuel (n / 10) in
    (if ltb n 10 then [] else higher) ++ ((b'0' + n % 10) ∷ [])

abbrev pub to_string : ℕ → List ℕ
to_string n = decimal (suc n) n

-- The values that are printed for `ok`, each behind a tab.
unfoldable pub values_line : Result → List ℕ
values_line r =
    (9 ∷ to_hex r.digest.bytes)
    ++ (9 ∷ to_hex r.fingerprint.bytes)
    ++ (9 ∷ take 6 (tag_chars r.fingerprint))
    ++ (9 ∷ (if length r.key_check == 0 then codes "-" else r.key_check))

unfoldable pub file_name : List ℕ → ℕ → List ℕ → List ℕ
file_name dir n format = dir ++ codes "/case-" ++ to_string n ++ codes "." ++ format

-- The output, the files that have been written with their bytes, the count of the cases, and the
-- exit code where the loop has returned.
pub record Batch : Type 0 where
  pub output : List ℕ
  pub files : List (List ℕ × List ℕ)
  pub count : ℕ
  pub status : Option ℕ

-- Behind `run`; `can_write` is the outcome of write_file.
unfoldable pub answer : (List ℕ → Bool) → List ℕ → Request → Result → ℕ → Batch → Batch
answer can_write dir rq r n b =
    let name = file_name dir n rq.format in
    let head = to_string n ++ (9 ∷ codes (error_name r.error)) in
    if not (is_ok r.error)
    then record {
      output = b.output ++ head ++ (10 ∷ []);
      files = b.files;
      count = n;
      status = none;
    }
    else if can_write name
    then record {
      output = b.output ++ head ++ values_line r ++ (10 ∷ []);
      files = b.files ++ ((name, r.bytes) ∷ []);
      count = n;
      status = none;
    }
    else record {
      output = b.output ++ head ++ values_line r;
      files = b.files;
      count = n;
      status = some 1;
    }

-- The answer to a case, of its request where `ok` holds.
unfoldable pub answer_case : Bool → (List ℕ → Bool) → List ℕ → Option Request → Batch → Batch
answer_case allocated can_write dir none b = record {
  output = b.output ++ to_string (suc b.count) ++ (9 ∷ codes "bad_case") ++ (10 ∷ []);
  files = b.files;
  count = suc b.count;
  status = none;
}
answer_case allocated can_write dir (some rq) b =
    answer can_write dir rq (run allocated rq) (suc b.count) b

-- One line, its return dropped.
unfoldable pub batch_line : Bool → (List ℕ → Bool) → List ℕ → List ℕ → Batch → Batch
batch_line allocated can_write dir line b =
    if is_skipped line
    then b
    else answer_case allocated can_write dir (parse_case (split_fields line)) b

-- The loop returns where there is an exit code.
abbrev pub go_on : Option ℕ → Batch → Batch → Batch
go_on none rest here = rest
go_on (some code) rest here = here

-- `while (std::getline(in, line))`, of the lines that are left.
unfoldable pub batch_loop : Bool → (List ℕ → Bool) → List ℕ → List (List ℕ) → Batch → Batch
batch_loop allocated can_write dir [] b = b
batch_loop allocated can_write dir (line ∷ lines) b =
    let next = batch_line allocated can_write dir (drop_return line) b in
    go_on next.status (batch_loop allocated can_write dir lines next) next

-- The exit code and what has been done; `none` is a file that cannot be read.
unfoldable pub batch : Bool → (List ℕ → Bool) → Option (List ℕ) → List ℕ → ℕ × Batch
batch allocated can_write file dir =
    let start : Batch = record { output = []; files = []; count = 0; status = none } in
    elim file [
      | none ↦ (1, start)
      | some bytes ↦
          let done = batch_loop allocated can_write dir (split_lines bytes) start in
          (Option.get_or done.status 0, done)
    ]
