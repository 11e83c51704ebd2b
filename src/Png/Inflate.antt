-- ===== src/Png/Inflate.antt =====
-- What a reader of RFC 1951 does with a stream that has one fixed-Huffman block: the description
-- that deflate_fixed of src/png.cpp is proved against. The tables of lengths and distances are
-- computed from the numbers of extra bits.
use hh_cpp.Base.Streams.{after, read_bits, read_code}
use hh_cpp.Base.{ℕ, zero, suc, ◌+◌, ◌-◌, ◌/◌, ◌^◌, ◌&&◌, ltb, leb, ◌==◌}
use hh_cpp.Base.{if◌then◌else◌, Option, none, some, List, [], ◌∷◌, ◌++◌, length, get_or}

-- The fixed code of section 3.2.6: seven bits for 256 to 279, eight for 0 to 143 and 280 to 287,
-- nine for 144 to 255.
unfoldable pub after_eight : ℕ × List ℕ → Option (ℕ × List ℕ)
unfolding read_code
after_eight eight =
    if ltb eight.0 192
    then some (eight.0 - 48, eight.1)
    else if ltb eight.0 200
    then some (280 + (eight.0 - 192), eight.1)
    else after (read_code 1 eight.0 eight.1) (λ nine. some (144 + (nine.0 - 400), nine.1))

unfoldable pub after_seven : ℕ × List ℕ → Option (ℕ × List ℕ)
unfolding read_code after_eight
after_seven seven =
    if ltb seven.0 24
    then some (256 + seven.0, seven.1)
    else after (read_code 1 seven.0 seven.1) after_eight

unfoldable pub read_symbol : List ℕ → Option (ℕ × List ℕ)
unfolding read_code after_seven
read_symbol bits = after (read_code 7 0 bits) after_seven

-- Section 3.2.5: the extra bits grow by one every four lengths and every two distances.
unfoldable pub extra_of_length : ℕ → ℕ
extra_of_length c = if c == 28 then 0 else c / 4 - 1

unfoldable pub base_of_length : ℕ → ℕ
unfolding extra_of_length
base_of_length zero = 3
base_of_length (suc c) =
    let before = base_of_length c in if c == 27 then 258 else before + 2 ^ extra_of_length c

unfoldable pub extra_of_distance : ℕ → ℕ
extra_of_distance d = d / 2 - 1

unfoldable pub base_of_distance : ℕ → ℕ
unfolding extra_of_distance
base_of_distance zero = 1
base_of_distance (suc d) = base_of_distance d + 2 ^ extra_of_distance d

-- `n` bytes, each of which is the one `distance` before the end of the output.
unfoldable pub copied : ℕ → ℕ → List ℕ → List ℕ
copied zero distance out = out
copied (suc n) distance out = copied n distance (out ++ (get_or out (length out - distance) 0 ∷ []))

unfoldable pub copy : ℕ → ℕ → List ℕ → Option (List ℕ)
unfolding copied
copy n distance out =
    if leb 1 distance && leb distance (length out) then some (copied n distance out) else none

pub data Meaning : Type 0 where
  literal : ℕ → Meaning
  end_of_block : Meaning
  match_of : ℕ → Meaning
  unused : Meaning

unfoldable pub meaning : ℕ → Meaning
meaning s =
    if ltb s 256
    then literal s
    else if s == 256
    then end_of_block
    else if ltb s 286
    then match_of (s - 257)
    else unused

-- The length and the distance of a match, and the bits behind it.
unfoldable pub read_match : ℕ → List ℕ → Option ((ℕ × ℕ) × List ℕ)
unfolding read_bits read_code extra_of_length base_of_length extra_of_distance base_of_distance
read_match c bits = after (read_bits (extra_of_length c) bits) (λ e. after (read_code 5 0 e.1) (λ d.
    if ltb 29 d.0
    then none
    else after (read_bits (extra_of_distance d.0) d.1)
        (λ x. some ((base_of_length c + e.0, base_of_distance d.0 + x.0), x.1))))

-- The symbols up to the end of the block: the output and the bits behind it. Each symbol takes
-- one from the fuel.
unfoldable pub inflate_block : ℕ → List ℕ → List ℕ → Option (List ℕ × List ℕ)
inflate_block zero bits out = none
inflate_block (suc fuel) bits out = after (read_symbol bits) (λ s. elim (meaning s.0) [
  | literal b ↦ inflate_block fuel s.1 (out ++ (b ∷ []))
  | end_of_block ↦ some (out, s.1)
  | match_of c ↦
      after (read_match c s.1)
        (λ m. after (copy m.0.0 m.0.1 out) (λ longer. inflate_block fuel m.1 longer))
  | unused ↦ none
])

-- A stream whose only block has the fixed codes.
unfoldable pub inflate : List ℕ → Option (List ℕ × List ℕ)
unfolding inflate_block
inflate bits = after (read_bits 1 bits) (λ final.
    after (read_bits 2 final.1)
      (λ kind. if final.0 == 1 && kind.0 == 1 then inflate_block (length bits) kind.1 [] else none))
