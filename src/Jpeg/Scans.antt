-- ===== src/Jpeg/Scans.antt =====
-- The scan of a JPEG file: the units in turn, finish and the end marker of encode in src/jpeg.cpp.
use hh_cpp.Base.{ℕ, zero, suc, ◌≡◌, refl, sym, subst, ap, ◌∙◌, arith}
use hh_cpp.Base.{Option, some, List, [], ◌∷◌, ◌++◌, append_assoc, append-nil, length, map, get_or}
use hh_cpp.Base.Int.{ℤ, pos}
use hh_cpp.Base.Streams.{after, code_bits}
use hh_cpp.Jpeg.{ScanState}
use hh_cpp.Jpeg.Header.{CodeTables, standard}
use hh_cpp.Jpeg.Scan.{finish}
use hh_cpp.Jpeg.Written.{Wrote, stuff, unstuff, byte_bits, finish-Wrote, unstuff-stuff}
use hh_cpp.Jpeg.Units.{
  McuBlocks, Previous, firsts, CodableUnit, read_unit, blocks_of, previous_of, encode_blocks,
  encode_blocks-read_unit, previous_of-encode_blocks,
}

-- The units of a picture, from the first to the last.
unfoldable pub encode_all : List McuBlocks → ScanState → ScanState
encode_all [] s = s
encode_all (u ∷ units) s = encode_all units (encode_blocks u s)

-- The DC values of the blocks that have been read.
abbrev dc_of : List (List ℤ) → ℕ → ℤ
dc_of blocks k = get_or (get_or blocks k []) 0 (pos 0)

abbrev dcs_of : List (List ℤ) → Previous
dcs_of blocks = record { luma = dc_of blocks 0; blue = dc_of blocks 1; red = dc_of blocks 2 }

-- `count` units, each behind the DC values of the one before.
unfoldable pub read_all :
    CodeTables → ℕ → Previous → List ℕ → Option (List (List (List ℤ)) × List ℕ)
read_all t zero p bits = some ([], bits)
read_all t (suc count) p bits =
    after (read_unit t p bits)
      (λ u. after (read_all t count (dcs_of u.0) u.1) (λ r. some (u.0 ∷ r.0, r.1)))

-- Every unit can be coded behind the one before.
pub data AllCodable : Previous → List McuBlocks → Type 0 where
  no_unit : {p : Previous} → AllCodable p []
  next_unit :
      {p : Previous} (u : McuBlocks) (units : List McuBlocks)
      → CodableUnit p u
      → AllCodable (firsts u) units
      → AllCodable p (u ∷ units)

abbrev AllWritten : List McuBlocks → List ℕ → List ℕ → ScanState → Type 0
AllWritten units before t s =
    (bits : List ℕ) × Wrote before (encode_all units s).writer (t ++ bits)
    × ((more : List ℕ)
        → read_all standard (length units) (previous_of s) (bits ++ more)
          ≡ some (map blocks_of units, more))

all_step :
    (p : Previous) (u : McuBlocks) (units : List McuBlocks) (bits others more : List ℕ)
    → read_unit standard p (bits ++ (others ++ more)) ≡ some (blocks_of u, others ++ more)
    → read_all standard (length units) (firsts u) (others ++ more)
      ≡ some (map blocks_of units, more)
    → read_all standard (suc (length units)) p (bits ++ (others ++ more))
      ≡ some (map blocks_of (u ∷ units), more)
unfolding read_all
all_step p u units bits others more eu er = rw eu (rw er refl)

encode_all-read_all :
    (units : List McuBlocks) (before t : List ℕ) (s : ScanState)
    → AllCodable (previous_of s) units
    → Wrote before s.writer t
    → AllWritten units before t s
unfolding encode_all
encode_all-read_all [] before t s codable wrote =
    ([], subst (Wrote before s.writer) (sym (append-nil t)) wrote, λ more. unfold read_all in refl)
encode_all-read_all (u ∷ units) before t s (next_unit u' units' first_ codable) wrote =
    let same = previous_of-encode_blocks u s in
    let (bits, put_one, read_one) = encode_blocks-read_unit u before t s first_ wrote in
    let (others, done, read) =
      encode_all-read_all units before (t ++ bits) (encode_blocks u s)
        (subst (λ p. AllCodable p units) (sym same) codable) put_one in
    (
      bits ++ others,
      subst (Wrote before _) (append_assoc t bits others) done,
      λ more.
          ap (read_all standard (suc (length units)) (previous_of s))
            (append_assoc bits others more)
          ∙ all_step (previous_of s) u units bits others more (read_one (others ++ more)) (
              subst
                (λ p.
                  read_all standard (length units) p (others ++ more)
                  ≡ some (map blocks_of units, more))
                same (read more)),
    )

abbrev pub no_previous : Previous
no_previous = record { luma = pos 0; blue = pos 0; red = pos 0 }

-- `scan` and `previous_dc` behind the header.
abbrev pub scan_start : List ℕ → ScanState
scan_start header = record {
  writer = record { out = header; acc = 0; used = 0 };
  dc_luma = pos 0;
  dc_blue = pos 0;
  dc_red = pos 0;
}

new_writer-Wrote : (before : List ℕ) → Wrote before (record { out = before; acc = 0; used = 0 }) []
unfolding stuff byte_bits code_bits
new_writer-Wrote before = ([], sym (append-nil before), omega arith, refl)

-- A finished scan behind the header: a decoder that drops the stuffed zeros up to the end marker
-- reads the units, and `pad` is what fills the last byte.
abbrev pub ScanRead : List McuBlocks → List ℕ → Type 0
ScanRead units header =
    (scan : List ℕ) × (pad : List ℕ) × ((finish (encode_all units (scan_start header)).writer).out
        ++ (0xff ∷ 0xd9 ∷ [])
      ≡ header ++ (scan ++ (0xff ∷ 0xd9 ∷ [])))
    × (read_all standard (length units) no_previous
          (byte_bits (unstuff (scan ++ (0xff ∷ 0xd9 ∷ []))))
        ≡ some (map blocks_of units, pad))

-- The scan of any number of units of three components, finished and closed by the end marker, is
-- decoded by the rules of T.81 to the coefficients of all blocks: the stuffing is taken out and the
-- bits that fill the last byte are left. Each block has 64 coefficients, the difference of its
-- first to the one of the same component before fits eleven bits, and the others fit ten.
pub finish-encode_all :
    (units : List McuBlocks) (header : List ℕ)
    → AllCodable no_previous units
    → ScanRead units header
finish-encode_all units header codable =
    let (bits, wrote, read) =
      encode_all-read_all units header [] (scan_start header) codable (new_writer-Wrote header) in
    let (bytes, pad, out, whole) = finish-Wrote header bits _ wrote in
    (
      stuff bytes,
      pad,
      ap (λ o. o ++ (0xff ∷ 0xd9 ∷ [])) out ∙ append_assoc header (stuff bytes) (0xff ∷ 0xd9 ∷ []),
      ap (λ b. read_all standard (length units) no_previous (byte_bits b)) (unstuff-stuff bytes)
          ∙ ap (read_all standard (length units) no_previous) whole
          ∙ read pad,
    )
