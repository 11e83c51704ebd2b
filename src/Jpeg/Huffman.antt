-- ===== src/Jpeg/Huffman.antt =====
-- The Huffman tables of src/jpeg_tables.hpp as build of src/jpeg.cpp encodes them and as a reader
-- of T.81 decodes them.
use hh_cpp.Base.{ℕ, zero, suc, ◌+◌, ◌-◌, ◌*◌, ◌%◌, ◌≤◌, ◌<◌, ◌≡◌, refl, subst, ap, ap₂, ◌∙◌, arith}
use hh_cpp.Base.{
  Bool, true, false, ◌&&◌, ◌||◌, leb, ltb, ◌==◌, ==→eq, if◌then◌else◌, Bool-cases, inl, inr,
  and_both, leb→le, length-zero,
}
use hh_cpp.Base.{Option, none, some, List, [], ◌∷◌, ◌++◌, length, get_or, drop, replicate, not}
use hh_cpp.Base.Streams.{code_bits}
use hh_cpp.Jpeg.Tables.{JpegHuffmanSpec, jpeg_dc_luminance, jpeg_dc_chrominance}
use hh_cpp.Jpeg.Tables.{jpeg_ac_luminance, jpeg_ac_chrominance}
use hh_cpp.Jpeg.Scan.{build}

-- Section F.2.2.3: the codes of one length are consecutive, and the first is twice the one after
-- the last of the length before. `first` is that one, `code` the bits that are read.
unfoldable pub read_entry : List ℕ → List ℕ → ℕ → ℕ → List ℕ → Option (ℕ × List ℕ)
read_entry [] symbols first code bits = none
read_entry (count ∷ counts) symbols first code [] = none
read_entry (count ∷ counts) symbols first code (b ∷ bits) =
    let c = 2 * code + b in
    let f = 2 * first in
    let longer = read_entry counts (drop count symbols) (f + count) c bits in
    if ltb c (f + count) then some (get_or symbols (c - f) 0, bits) else longer

abbrev pub decode_entry : JpegHuffmanSpec → List ℕ → Option (ℕ × List ℕ)
decode_entry spec bits = read_entry spec.counts spec.symbols 0 0 bits

abbrev with_more : Option (ℕ × List ℕ) → List ℕ → Option (ℕ × List ℕ)
with_more none more = none
with_more (some r) more = some (r.0, r.1 ++ more)

-- Bits behind a code are left alone.
read_entry-append :
    (counts symbols : List ℕ) (first code : ℕ) (bits : List ℕ) (s : ℕ) (rest more : List ℕ)
    → read_entry counts symbols first code bits ≡ some (s, rest)
    → read_entry counts symbols first code (bits ++ more) ≡ some (s, rest ++ more)
unfolding read_entry
read_entry-append [] symbols first code bits s rest more e = absurd cc
read_entry-append (count ∷ counts) symbols first code [] s rest more e = absurd cc
read_entry-append (count ∷ counts) symbols first code (b ∷ bits) s rest more e =
    elim (Bool-cases (ltb (2 * code + b) (2 * first + count))) [
      | inl t ↦
          let found : some (get_or symbols (2 * code + b - 2 * first) 0, bits) ≡ some (s, rest) =
            rw t at e in
          rw t (ap (λ o. with_more o more) found)
      | inr t ↦ rw t (
          read_entry-append counts (drop count symbols) (2 * first + count) (2 * code + b) bits s
            rest more (rw t at e))
    ]

-- The symbol, and nothing behind it.
gives : Option (ℕ × List ℕ) → ℕ → Bool
gives none s = false
gives (some r) s = r.0 == s && length r.1 == 0

gives→eq : (o : Option (ℕ × List ℕ)) (s : ℕ) → gives o s ≡ true → o ≡ some (s, [])
unfolding gives
gives→eq none s e = absurd cc
gives→eq (some r) s e =
    let both = and_both (r.0 == s) (length r.1 == 0) e in
    ap₂ (λ a b. some (a, b)) (==→eq r.0 s both.0) (length-zero r.1 (==→eq (length r.1) 0 both.1))

-- Whether an entry of the encoder's tables is read back; only a symbol that is not needed has no
-- code.
is_read : JpegHuffmanSpec → (ℕ → Bool) → ℕ → ℕ → ℕ → Bool
is_read spec needed code len s =
    if len == 0
    then not (needed s)
    else leb len 16 && gives (decode_entry spec (code_bits len code)) s

-- The entries from the symbol `s` on.
all_read : JpegHuffmanSpec → (ℕ → Bool) → List ℕ → List ℕ → ℕ → Bool
all_read spec needed (code ∷ codes) (len ∷ lens) s =
    is_read spec needed code len s && all_read spec needed codes lens (suc s)
all_read spec needed codes lens s = true

-- The categories of a DC difference; the end of a block, sixteen zeros, and each run of at most
-- fifteen zeros before a value of one to ten bits.
unfoldable pub is_dc_symbol : ℕ → Bool
is_dc_symbol s = ltb s 12

unfoldable pub is_ac_symbol : ℕ → Bool
is_ac_symbol s = s == 0 || s == 0xf0 || (ltb s 256 && (leb 1 (s % 16) && leb (s % 16) 10))

abbrev TableRead : JpegHuffmanSpec → (ℕ → Bool) → Type 0
TableRead spec needed =
    (all_read spec needed (build spec).code (build spec).length 0 ≡ true)
    × (length (build spec).code ≡ 256)
    × (length (build spec).length ≡ 256)

dc_luminance_read : TableRead jpeg_dc_luminance is_dc_symbol
unfolding all_read is_read gives read_entry code_bits build drop replicate is_dc_symbol
dc_luminance_read = (refl, refl, refl)

ac_luminance_read : TableRead jpeg_ac_luminance is_ac_symbol
unfolding all_read is_read gives read_entry code_bits build drop replicate is_ac_symbol
ac_luminance_read = (refl, refl, refl)

dc_chrominance_read : TableRead jpeg_dc_chrominance is_dc_symbol
unfolding all_read is_read gives read_entry code_bits build drop replicate is_dc_symbol
dc_chrominance_read = (refl, refl, refl)

ac_chrominance_read : TableRead jpeg_ac_chrominance is_ac_symbol
unfolding all_read is_read gives read_entry code_bits build drop replicate is_ac_symbol
ac_chrominance_read = (refl, refl, refl)

-- What the test says of one entry.
abbrev pub EntryRead : JpegHuffmanSpec → ℕ → ℕ → ℕ → Type 0
EntryRead spec code len s =
    (len ≤ 16) × ((more : List ℕ) → decode_entry spec (code_bits len code ++ more) ≡ some (s, more))

is_read→EntryRead :
    (spec : JpegHuffmanSpec) (needed : ℕ → Bool) (code len s : ℕ)
    → is_read spec needed code len s ≡ true
    → needed s ≡ true
    → EntryRead spec code len s
unfolding is_read
is_read→EntryRead spec needed code len s e need = elim (Bool-cases (len == 0)) [
  | inl z ↦ absurd (let wrong : not (needed s) ≡ true = rw z at e in cc (wrong, need))
  | inr z ↦
      let all : (leb len 16 && gives (decode_entry spec (code_bits len code)) s) ≡ true =
        rw z at e in
      let both = and_both (leb len 16) (gives (decode_entry spec (code_bits len code)) s) all in
      (
        leb→le len 16 both.0,
        λ more.
            read_entry-append spec.counts spec.symbols 0 0 (code_bits len code) s [] more
              (gives→eq (decode_entry spec (code_bits len code)) s both.1),
      )
]

all_read→EntryRead :
    (spec : JpegHuffmanSpec) (needed : ℕ → Bool) (codes lens : List ℕ) (from i : ℕ)
    → all_read spec needed codes lens from ≡ true
    → i < length codes
    → i < length lens
    → needed (from + i) ≡ true
    → EntryRead spec (get_or codes i 0) (get_or lens i 0) (from + i)
unfolding all_read
all_read→EntryRead spec needed [] lens from i e hc hl need = absurd (omega arith)
all_read→EntryRead spec needed (c ∷ codes) [] from i e hc hl need = absurd (omega arith)
all_read→EntryRead spec needed (c ∷ codes) (l ∷ lens) from zero e hc hl need =
    let here =
      and_both (is_read spec needed c l from) (all_read spec needed codes lens (suc from)) e in
    let same : from ≡ from + 0 = omega arith in
    subst (EntryRead spec c l) same
      (is_read→EntryRead spec needed c l from here.0 (ap needed same ∙ need))
all_read→EntryRead spec needed (c ∷ codes) (l ∷ lens) from (suc i) e hc hl need =
    let here =
      and_both (is_read spec needed c l from) (all_read spec needed codes lens (suc from)) e in
    let same : suc from + i ≡ from + suc i = omega arith in
    subst (EntryRead spec (get_or codes i 0) (get_or lens i 0)) same (
      all_read→EntryRead spec needed codes lens (suc from) i here.1 (omega arith) (omega arith)
        (ap needed same ∙ need))

-- A table of the encoder and the reader that has its specification.
abbrev pub IsTable : JpegHuffmanSpec → (ℕ → Bool) → Type 0
IsTable spec needed =
    (s : ℕ)
    → s < 256
    → needed s ≡ true
    → EntryRead spec (get_or (build spec).code s 0) (get_or (build spec).length s 0) s

table_read :
    (spec : JpegHuffmanSpec) (needed : ℕ → Bool) → TableRead spec needed → IsTable spec needed
table_read spec needed (all, codes, lens) s h need =
    let same : 0 + s ≡ s = omega arith in
    subst (EntryRead spec (get_or (build spec).code s 0) (get_or (build spec).length s 0)) same (
      all_read→EntryRead spec needed (build spec).code (build spec).length 0 s all
        (omega (arith, codes)) (omega (arith, lens)) (ap needed same ∙ need))

-- In each of the four tables the code of every symbol that the encoder can need has at most
-- sixteen bits and is decoded by the rules of T.81, whatever stands behind it.
pub build-IsTable :
    IsTable jpeg_dc_luminance is_dc_symbol
    × IsTable jpeg_dc_chrominance is_dc_symbol
    × IsTable jpeg_ac_luminance is_ac_symbol
    × IsTable jpeg_ac_chrominance is_ac_symbol
build-IsTable = (
  table_read _ _ dc_luminance_read,
  table_read _ _ dc_chrominance_read,
  table_read _ _ ac_luminance_read,
  table_read _ _ ac_chrominance_read,
)
