-- ===== src/Cli/Fields.antt =====
-- The fields of a line: split_fields of examples/hh_cli.cpp.
use hh_cpp.Base.{ℕ, zero, suc, ◌≤◌, ◌<◌, ◌≡◌, refl, ap, ◌∙◌, arith}
use hh_cpp.Base.{
  true, false, ◌==◌, if◌then◌else◌, suc-==-zero, List, [], ◌∷◌, ◌++◌, append-nil, map, length,
  length-append, All,
}
use hh_cpp.Cli.{is_blank, skip_blanks, take_field, field_loop, split_fields}

-- A field, which has a character and no blank, and the blanks behind it.
pub record Item : Type 0 where
  pub first : ℕ
  pub rest : List ℕ
  pub blanks : List ℕ

abbrev pub text_of : Item → List ℕ
text_of i = i.first ∷ i.rest

-- Only the last field may have no blank behind it.
pub data IsLine : List Item → Type 0 where
  no_items : IsLine []
  last_item :
      (i : Item)
      → All (λ c. is_blank c ≡ false) (text_of i)
      → All (λ c. is_blank c ≡ true) i.blanks
      → IsLine (i ∷ [])
  more_items :
      (i : Item) (rest : List Item)
      → All (λ c. is_blank c ≡ false) (text_of i)
      → All (λ c. is_blank c ≡ true) i.blanks
      → 0 < length i.blanks
      → IsLine rest
      → IsLine (i ∷ rest)

unfoldable pub line_of : List Item → List ℕ
line_of [] = []
line_of (i ∷ rest) = text_of i ++ (i.blanks ++ line_of rest)

skip_blanks-append :
    (blanks line : List ℕ)
    → All (λ c. is_blank c ≡ true) blanks
    → skip_blanks (blanks ++ line) ≡ skip_blanks line
unfolding skip_blanks
skip_blanks-append [] line all = refl
skip_blanks-append (c ∷ blanks) line (here, all) = rw here (skip_blanks-append blanks line all)

-- Where a field ends.
Ends : List ℕ → Type 0
Ends [] = 0 ≤ 0
Ends (c ∷ rest) = is_blank c ≡ true

take_field-append :
    (text line : List ℕ)
    → All (λ c. is_blank c ≡ false) text
    → Ends line
    → take_field (text ++ line) ≡ (text, line)
unfolding take_field Ends
take_field-append [] [] all ends = refl
take_field-append [] (c ∷ line) all ends = rw ends refl
take_field-append (c ∷ text) line (here, all) ends =
    rw here (ap (λ r. (c ∷ r.0, r.1)) (take_field-append text line all ends))

Ends-blanks :
    (blanks line : List ℕ)
    → All (λ c. is_blank c ≡ true) blanks
    → 0 < length blanks
    → Ends (blanks ++ line)
unfolding Ends
Ends-blanks [] line all some_ = absurd (omega arith)
Ends-blanks (c ∷ blanks) line (here, all) some_ = here

Ends-last : (blanks : List ℕ) → All (λ c. is_blank c ≡ true) blanks → Ends (blanks ++ [])
unfolding Ends
Ends-last [] all = omega arith
Ends-last (c ∷ blanks) (here, all) = here

-- What a round does with what stands behind the blanks.
abbrev after_blanks : ℕ → List ℕ → List (List ℕ)
after_blanks fuel line =
    let field : List ℕ × List ℕ = take_field line in
    if length field.0 == 0 then field_loop fuel field.1 else field.0 ∷ field_loop fuel field.1

field_round :
    (fuel : ℕ) (line : List ℕ)
    → 0 < length line
    → field_loop (suc fuel) line ≡ after_blanks fuel (skip_blanks line)
unfolding field_loop
field_round fuel [] some_ = absurd (omega arith)
field_round fuel (c ∷ line) some_ = refl

skip_blanks-text :
    (i : Item) (behind : List ℕ)
    → All (λ c. is_blank c ≡ false) (text_of i)
    → skip_blanks (text_of i ++ behind) ≡ text_of i ++ behind
unfolding skip_blanks
skip_blanks-text i behind (here, all) = rw here refl

-- One round of the loop, with blanks before the field.
field_step :
    (fuel : ℕ) (lead : List ℕ) (i : Item) (behind : List ℕ)
    → All (λ c. is_blank c ≡ true) lead
    → All (λ c. is_blank c ≡ false) (text_of i)
    → Ends behind
    → field_loop (suc fuel) (lead ++ (text_of i ++ behind)) ≡ text_of i ∷ field_loop fuel behind
field_step fuel lead i behind blank text ends =
    let some_ : 0 < length (lead ++ (text_of i ++ behind)) =
      omega (arith, length-append lead (text_of i ++ behind)) in
    field_round fuel (lead ++ (text_of i ++ behind)) some_
    ∙ ap (after_blanks fuel)
        (skip_blanks-append lead (text_of i ++ behind) blank ∙ skip_blanks-text i behind text)
    ∙ rw (take_field-append (text_of i) behind text ends) (rw (suc-==-zero (length i.rest)) refl)

no_line : (fuel : ℕ) → field_loop fuel [] ≡ []
unfolding field_loop
no_line zero = refl
no_line (suc fuel) = refl

skip_blanks-All : (lead : List ℕ) → All (λ c. is_blank c ≡ true) lead → skip_blanks lead ≡ []
unfolding skip_blanks
skip_blanks-All [] all = refl
skip_blanks-All (c ∷ lead) (here, all) = rw here (skip_blanks-All lead all)

nothing_behind : (fuel : ℕ) → after_blanks fuel [] ≡ []
unfolding take_field
nothing_behind fuel = no_line fuel

blank_line :
    (fuel : ℕ) (lead : List ℕ) → All (λ c. is_blank c ≡ true) lead → field_loop fuel lead ≡ []
blank_line fuel [] all = no_line fuel
blank_line zero (c ∷ lead) all = unfold field_loop in refl
blank_line (suc fuel) (c ∷ lead) all =
    field_round fuel (c ∷ lead) (omega arith)
    ∙ ap (after_blanks fuel) (skip_blanks-All (c ∷ lead) all)
    ∙ nothing_behind fuel

fields_lem :
    (fuel : ℕ) (lead : List ℕ) (items : List Item)
    → All (λ c. is_blank c ≡ true) lead
    → IsLine items
    → length (lead ++ line_of items) ≤ fuel
    → field_loop fuel (lead ++ line_of items) ≡ map text_of items
unfolding line_of
fields_lem fuel lead [] blank line le =
    ap (field_loop fuel) (append-nil lead) ∙ blank_line fuel lead blank
fields_lem zero lead (i ∷ items) blank line le =
    absurd (omega (arith, length-append lead (line_of (i ∷ items)), le))
fields_lem (suc fuel) lead (i ∷ items) blank (last_item i' text blanks) le =
    field_step fuel lead i (i.blanks ++ []) blank text (Ends-last i.blanks blanks)
    ∙ ap (λ r. text_of i ∷ r)
        (ap (field_loop fuel) (append-nil i.blanks) ∙ blank_line fuel i.blanks blanks)
fields_lem (suc fuel) lead (i ∷ items) blank (more_items i' items' text blanks some_ line) le =
    let total = length-append lead (line_of (i ∷ items)) in
    let inner = length-append (text_of i) (i.blanks ++ line_of items) in
    field_step fuel lead i (i.blanks ++ line_of items) blank text
      (Ends-blanks i.blanks (line_of items) blanks some_)
    ∙ ap (λ r. text_of i ∷ r)
        (fields_lem fuel i.blanks items blanks line (omega (arith, total, inner, le)))

-- A line of fields, each with a character and no blank, that have runs of blanks between them is
-- split into these fields; blanks before the first and behind the last are allowed.
pub split_fields-line_of :
    (lead : List ℕ) (items : List Item)
    → All (λ c. is_blank c ≡ true) lead
    → IsLine items
    → split_fields (lead ++ line_of items) ≡ map text_of items
unfolding split_fields
split_fields-line_of lead items blank line =
    fields_lem (length (lead ++ line_of items)) lead items blank line (omega arith)
