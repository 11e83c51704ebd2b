-- ===== src/Cli/Written.antt =====
-- The files that the batch mode of examples/hh_cli.cpp writes.
use hh_cpp.Base.{ℕ, suc, ◌≡◌, ◌⊎◌}
use hh_cpp.Base.{
  Bool, true, Option, none, some, List, [], ◌∷◌, All, codes, if◌then◌else◌, ◌++◌, length, get_elem?,
}
use hh_cpp.Cli.{Request, is_ok, run, split_fields}
use hh_cpp.Cli.Batch.{Batch, file_name, is_skipped, drop_return, parse_case, split_lines}

-- The four formats.
abbrev pub IsFormat : List ℕ → Type 0
IsFormat f = (f ≡ codes "png") ⊎ (f ≡ codes "bmp") ⊎ (f ≡ codes "jpeg") ⊎ (f ≡ codes "rgba")

-- The lines that are cases: those that are not skipped, without their return.
unfoldable pub cases_of : List (List ℕ) → List (List ℕ)
cases_of [] = []
cases_of (line ∷ lines) =
    let rest = cases_of lines in
    if is_skipped (drop_return line) then rest else drop_return line ∷ rest

-- A file of the batch: that of one case, named by its number from one and its format, with what
-- `run` makes of the request in its fields.
abbrev pub FileOf : Bool → List ℕ → List (List ℕ) → (List ℕ × List ℕ) → Type 0
FileOf allocated dir cases file =
    (n : ℕ) × (line : List ℕ) × (rq : Request) × (get_elem? cases n ≡ some line)
    × (parse_case (split_fields line) ≡ some rq)
    × (file.0 ≡ file_name dir (suc n) rq.format)
    × IsFormat rq.format
    × (is_ok (run allocated rq).error ≡ true)
    × (file.1 ≡ (run allocated rq).bytes)

module _ (allocated : Bool) (can_write : List ℕ → Bool) (dir : List ℕ) (cases : List (List ℕ)) where
  -- The line of the case that is answered, and its request.
  abbrev CaseAt : ℕ → Option Request → Type 0
  CaseAt n rq =
      (line : List ℕ) × (get_elem? cases n ≡ some line) × (parse_case (split_fields line) ≡ rq)

  -- The files are right so far, and the count is that of the cases in front of the lines left.
  abbrev Counted : List (List ℕ) → Batch → Type 0
  Counted lines b =
      All (FileOf allocated dir cases) b.files
      × (done : List (List ℕ)) × (length done ≡ b.count)
      × (cases ≡ done ++ cases_of lines)

-- The cases of a file, none where it cannot be read.
abbrev pub file_cases : Option (List ℕ) → List (List ℕ)
file_cases none = []
file_cases (some bytes) = cases_of (split_lines bytes)
