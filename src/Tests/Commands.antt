-- ===== src/Tests/Commands.antt =====
-- The theorems on the tools' names and on the command line example at concrete inputs, and runs.
use hh_cpp.Base.{◌≡◌, refl, true, some, [], ◌∷◌, ◌++◌, map, codes, min, arith}
use hh_cpp.Names.{to_hex, from_hex}
use hh_cpp.Names.Hex.{from_hex-to_hex}
use hh_cpp.Cli.{parse_number, split_fields}
use hh_cpp.Cli.Numbers.{parse_number-to_string}
use hh_cpp.Cli.Fields.{Item, text_of, IsLine, last_item, more_items, line_of, split_fields-line_of}
use hh_cpp.Cli.Batch.{to_string}
use hh_cpp.Cli.Arguments.{usage_error, batch_mode, parse_arguments}

from_hex-to_hex_example :
    from_hex (to_hex (0x00 ∷ 0x7f ∷ 0xfa ∷ [])) ≡ (true, 0x00 ∷ 0x7f ∷ 0xfa ∷ [])
from_hex-to_hex_example =
    from_hex-to_hex (0x00 ∷ 0x7f ∷ 0xfa ∷ []) (omega arith, (omega arith, (omega arith, tt)))

parse_number-to_string_example :
    parse_number (to_string 4294967295) ≡ some (min 4294967295 0x7fffffff)
parse_number-to_string_example = parse_number-to_string 4294967295 (omega arith)

abbrev first_item : Item
first_item = record { first = b'a'; rest = b'b' ∷ []; blanks = b' ' ∷ 9 ∷ [] }

abbrev second_item : Item
second_item = record { first = b'-'; rest = []; blanks = [] }

two_fields : IsLine (first_item ∷ second_item ∷ [])
two_fields =
    more_items first_item (second_item ∷ []) (refl, (refl, tt)) (refl, (refl, tt)) (omega arith)
      (last_item second_item (refl, tt) tt)

split_fields-line_of_example :
    split_fields ((b' ' ∷ []) ++ line_of (first_item ∷ second_item ∷ []))
    ≡ map text_of (first_item ∷ second_item ∷ [])
split_fields-line_of_example =
    split_fields-line_of (b' ' ∷ []) (first_item ∷ second_item ∷ []) (refl, tt) two_fields

arguments_run :
    parse_arguments (codes "--batch" ∷ codes "cases" ∷ codes "out" ∷ [])
    ≡ batch_mode (codes "cases") (codes "out")
unfolding parse_arguments
arguments_run = refl

missing_value_run : parse_arguments (codes "00" ∷ codes "--size" ∷ []) ≡ usage_error
unfolding parse_arguments
missing_value_run = refl
