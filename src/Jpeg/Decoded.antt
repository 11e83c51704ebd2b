-- ===== src/Jpeg/Decoded.antt =====
-- Whole blocks: encode_block and encode_components of src/jpeg.cpp, read by the rules of T.81.
use hh_cpp.Base.{ℕ, ◌+◌, ◌-◌, ◌^◌, ◌≤◌, ◌<◌, ◌≡◌, refl, subst, ap, ◌∙◌, arith}
use hh_cpp.Base.{true, false, lt→ltb, leb, leb→le, leb-false→lt, Bool-cases, inl, inr}
use hh_cpp.Base.{Option, some, List, ◌∷◌, ◌++◌, append_assoc, length}
use hh_cpp.Base.Int.{ℤ, pos, negsuc, ◌+ℤ◌, ◌-ℤ◌, difference, plus_part, minus_part}
use hh_cpp.Base.Streams.{after}
use hh_cpp.Jpeg.Tables.{JpegHuffmanSpec}
use hh_cpp.Jpeg.Scan.{ScanWriter, build, put_entry, category, encode_block}
use hh_cpp.Jpeg.Written.{Wrote}
use hh_cpp.Jpeg.Huffman.{decode_entry, is_ac_symbol, is_dc_symbol, IsTable}
use hh_cpp.Jpeg.Values.{size_of_value, read_value, ValueBits, put_value-Wrote, category-IsCategory}
use hh_cpp.Jpeg.Runs.{read_ac, Reads, SymbolBits, put_entry-Wrote}
use hh_cpp.Jpeg.Blocks.{category_le, AllSmall, ac_loop_lem, same-Reads, no_zeros}

-- Sections F.2.2.1 and F.2.2.2: a block, of the DC value of the block before.
unfoldable pub read_block :
    JpegHuffmanSpec → JpegHuffmanSpec → ℤ → List ℕ → Option (List ℤ × List ℕ)
read_block dc ac previous bits = after (decode_entry dc bits) (λ symbol.
    after (read_value symbol.0 symbol.1)
      (λ diff. after (read_ac ac 63 63 diff.1) (λ r. some ((previous +ℤ diff.0) ∷ r.0, r.1))))

balance : (a b : ℕ) → plus_part (difference a b) + b ≡ a + minus_part (difference a b)
balance a b = elim (Bool-cases (leb b a)) [
  | inl e ↦ rw e (omega (arith, leb→le b a e))
  | inr e ↦ rw e (omega (arith, leb-false→lt b a e))
]

same_difference : (a b : ℕ) (v : ℤ) → a + minus_part v ≡ plus_part v + b → difference a b ≡ v
same_difference a b (pos n) e =
    rw (let t : leb b a ≡ true = ground arith in t)
      (ap pos (let same : a - b ≡ n = omega arith in same))
same_difference a b (negsuc n) e =
    rw (let f : leb b a ≡ false = ground arith in f)
      (ap negsuc (let same : b - a - 1 ≡ n = omega arith in same))

-- The difference is added again.
add_back : (first previous : ℤ) → previous +ℤ (first -ℤ previous) ≡ first
add_back first previous = same_difference _ _ first (
    omega (
      arith,
      balance (plus_part first + minus_part previous) (minus_part first + plus_part previous),
    ))

dc_symbol : (t : ℕ) → t ≤ 11 → is_dc_symbol t ≡ true
unfolding is_dc_symbol
dc_symbol t h = lt→ltb t 12 (omega arith)

block_step :
    (dc ac : JpegHuffmanSpec) (previous diff : ℤ) (t : ℕ) (entry value bits more : List ℕ)
    (rest : List ℤ)
    → SymbolBits dc t entry
    → ValueBits diff t value
    → Reads ac 63 (bits ++ more) rest more
    → read_block dc ac previous (entry ++ (value ++ (bits ++ more)))
      ≡ some ((previous +ℤ diff) ∷ rest, more)
unfolding read_block
block_step dc ac previous diff t entry value bits more rest symbol val reads =
    rw (symbol (value ++ (bits ++ more)))
      (rw (val (bits ++ more)) (rw (reads 63 (omega arith)) refl))

-- What stands behind the bits `s` is read as the block.
abbrev pub BlockWritten :
    JpegHuffmanSpec → JpegHuffmanSpec → List ℤ → ℤ → List ℕ → List ℕ → ScanWriter → Type 0
BlockWritten dc ac block previous before s w =
    (bits : List ℕ) × Wrote before w (s ++ bits)
    × ((more : List ℕ) → read_block dc ac previous (bits ++ more) ≡ some (block, more))

-- Behind bits that are already written, with two tables that are read back, encode_block writes
-- bits that the rules of T.81 decode to the coefficients of the block, and the decoder leaves
-- whatever follows. The block has 64 coefficients, the difference of the first to the DC value of
-- the block before fits eleven bits and the others ten.
pub encode_block-read_block :
    (dc ac : JpegHuffmanSpec) (first previous : ℤ) (rest : List ℤ) (before s : List ℕ)
    (w : ScanWriter)
    → IsTable dc is_dc_symbol
    → IsTable ac is_ac_symbol
    → size_of_value (first -ℤ previous) < 2 ^ 11
    → AllSmall rest
    → length rest ≡ 63
    → Wrote before w s
    → BlockWritten dc ac
        (first ∷ rest)
        previous
        before
        s
        (encode_block (first ∷ rest) previous (build dc) (build ac) w).0
unfolding encode_block
encode_block-read_block dc ac first previous rest before s w dc_table ac_table small all_small count
      wrote =
    let diff = first -ℤ previous in
    let t = category diff in
    let is_category = category-IsCategory diff (omega arith) in
    let few = category_le diff t 11 is_category small in
    let (entry, put_one, symbol) =
      put_entry-Wrote dc is_dc_symbol t before s w dc_table (omega arith) (dc_symbol t few) wrote in
    let (value, put_two, val) =
      put_value-Wrote diff t before (s ++ entry) (put_entry (build dc) t w) is_category
        (omega arith) put_one in
    let (bits, done, reads) =
      ac_loop_lem ac rest 0 before ((s ++ entry) ++ value) _ ac_table all_small put_two in
    (
      entry ++ (value ++ bits),
      subst (Wrote before _)
          (append_assoc (s ++ entry) value bits ∙ append_assoc s entry (value ++ bits)) done,
      λ more.
          ap (read_block dc ac previous) (
            append_assoc entry (value ++ bits) more
            ∙ ap (λ r. entry ++ r) (append_assoc value bits more))
          ∙ block_step dc ac previous diff t entry value bits more rest symbol val (
              same-Reads ac _ 63 _ _ more _ rest (omega (arith, count)) refl (no_zeros rest)
                (reads more))
          ∙ ap (λ v. some (v ∷ rest, more)) (add_back first previous),
    )
