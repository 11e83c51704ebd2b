-- ===== src/Jpeg/Runs.antt =====
-- Coefficients and their runs of zeros: long_runs, put_coefficient and ac_loop as the loops of
-- encode_block of src/jpeg.cpp, read by the rules of T.81.
use hh_cpp.Base.{
  ℕ, zero, suc, ◌+◌, ◌-◌, ◌*◌, ◌/◌, ◌%◌, ◌≤◌, ◌<◌, ◌≡◌, refl, sym, subst, ap, ◌∙◌, arith,
}
use hh_cpp.Base.{inl, inr, Bool, true, false, leb, leb→le, leb-false→lt, ◌==◌, if◌then◌else◌}
use hh_cpp.Base.{
  Bool-cases, Option, none, some, List, [], ◌∷◌, ◌++◌, append_assoc, append-nil, get_or, replicate,
  replicate-append,
}
use hh_cpp.Base.Int.{ℤ, pos}
use hh_cpp.Base.Streams.{code_bits, after}
use hh_cpp.Jpeg.Tables.{JpegHuffmanSpec}
use hh_cpp.Jpeg.Scan.{ScanWriter, build, put_entry, long_runs}
use hh_cpp.Jpeg.Written.{Wrote, put-Wrote}
use hh_cpp.Jpeg.Huffman.{decode_entry, is_ac_symbol, IsTable}
use hh_cpp.Jpeg.Values.{read_value, ValueBits}

abbrev pub zeros : ℕ → List ℤ
zeros n = replicate n (pos 0)

-- Section F.2.2.2: the coefficients of a block after the first, of which `left` are left. A symbol
-- is a run of zeros and the category of the value behind it; the category 0 ends the block, or
-- stands for sixteen zeros. The fuel bounds the number of symbols.
unfoldable pub read_ac : JpegHuffmanSpec → ℕ → ℕ → List ℕ → Option (List ℤ × List ℕ)
read_ac spec fuel zero bits = some ([], bits)
read_ac spec zero (suc left) bits = none
read_ac spec (suc fuel) (suc left) bits = after (decode_entry spec bits) (λ symbol.
    let run = symbol.0 / 16 in
    if symbol.0 % 16 == 0
    then if run == 15
      then after (read_ac spec fuel (suc left - 16) symbol.1) (λ r. some (zeros 16 ++ r.0, r.1))
      else some (zeros (suc left), symbol.1)
    else after (read_value (symbol.0 % 16) symbol.1) (λ v.
      after (read_ac spec fuel (left - run) v.1) (λ r. some (zeros run ++ (v.0 ∷ r.0), r.1))))

-- `n` coefficients are read, and the bits behind them are left. A symbol is spent on one
-- coefficient at least, so that fuel for each is enough.
abbrev pub Reads : JpegHuffmanSpec → ℕ → List ℕ → List ℤ → List ℕ → Type 0
Reads spec n bits coefficients more =
    (fuel : ℕ) → n ≤ fuel → read_ac spec fuel n bits ≡ some (coefficients, more)

abbrev pub SymbolBits : JpegHuffmanSpec → ℕ → List ℕ → Type 0
SymbolBits spec symbol bits =
    (more : List ℕ) → decode_entry spec (bits ++ more) ≡ some (symbol, more)

pub put_entry-Wrote :
    (spec : JpegHuffmanSpec) (needed : ℕ → Bool) (symbol : ℕ) (before s : List ℕ) (w : ScanWriter)
    → IsTable spec needed
    → symbol < 256
    → needed symbol ≡ true
    → Wrote before w s
    → (bits : List ℕ) × Wrote before (put_entry (build spec) symbol w) (s ++ bits)
      × SymbolBits spec symbol bits
put_entry-Wrote spec needed symbol before s w table small need wrote =
    let code = get_or (build spec).code symbol 0 in
    let len = get_or (build spec).length symbol 0 in
    let (few, read) = table symbol small need in
    (code_bits len code, put-Wrote code len before s w few wrote, read)

value_step :
    (spec : JpegHuffmanSpec) (run t fuel left : ℕ) (v : ℤ) (entry bits more : List ℕ)
    → t < 16
    → 0 < t
    → SymbolBits spec (run * 16 + t) entry
    → ValueBits v t bits
    → read_ac spec (suc fuel) (suc left) (entry ++ (bits ++ more))
      ≡ after (read_ac spec fuel (left - run) more) (λ r. some (zeros run ++ (v ∷ r.0), r.1))
unfolding read_ac
value_step spec run t fuel left v entry bits more ht some_ symbol value =
    let low : (run * 16 + t) % 16 ≡ t = omega arith in
    let high : (run * 16 + t) / 16 ≡ run = omega arith in
    let test : (t == 0) ≡ false = ground arith in
    rw (symbol (bits ++ more)) (rw low (rw high (rw test (rw (value more) refl))))

-- A value behind a run of zeros.
pub read_value_lem :
    (spec : JpegHuffmanSpec) (run t n : ℕ) (v : ℤ) (entry bits more tail : List ℕ) (rest : List ℤ)
    → t < 16
    → 0 < t
    → SymbolBits spec (run * 16 + t) entry
    → ValueBits v t bits
    → Reads spec n more rest tail
    → Reads spec (run + suc n) (entry ++ (bits ++ more)) (zeros run ++ (v ∷ rest)) tail
read_value_lem spec run t n v entry bits more tail rest ht some_ symbol value reads zero le =
    absurd (omega arith)
read_value_lem spec run t n v entry bits more tail rest ht some_ symbol value reads (suc fuel) le =
    let left : run + suc n ≡ suc (run + n) = omega arith in
    let rest_left : run + n - run ≡ n = omega arith in
    ap (λ k. read_ac spec (suc fuel) k (entry ++ (bits ++ more))) left
    ∙ value_step spec run t fuel (run + n) v entry bits more ht some_ symbol value
    ∙ ap (λ k. after (read_ac spec fuel k more) (λ r. some (zeros run ++ (v ∷ r.0), r.1))) rest_left
    ∙ ap (λ o. after o (λ r. some (zeros run ++ (v ∷ r.0), r.1))) (reads fuel (omega arith))

zeros_step :
    (spec : JpegHuffmanSpec) (fuel left : ℕ) (entry more : List ℕ)
    → SymbolBits spec 0xf0 entry
    → read_ac spec (suc fuel) (suc left) (entry ++ more)
      ≡ after (read_ac spec fuel (suc left - 16) more) (λ r. some (zeros 16 ++ r.0, r.1))
unfolding read_ac
zeros_step spec fuel left entry more symbol = rw (symbol more) refl

-- Sixteen zeros.
read_zeros_lem :
    (spec : JpegHuffmanSpec) (n : ℕ) (entry more tail : List ℕ) (rest : List ℤ)
    → SymbolBits spec 0xf0 entry
    → Reads spec n more rest tail
    → Reads spec (16 + n) (entry ++ more) (zeros 16 ++ rest) tail
read_zeros_lem spec n entry more tail rest symbol reads zero le = absurd (omega arith)
read_zeros_lem spec n entry more tail rest symbol reads (suc fuel) le =
    let left : 16 + n ≡ suc (15 + n) = omega arith in
    let rest_left : suc (15 + n) - 16 ≡ n = omega arith in
    ap (λ k. read_ac spec (suc fuel) k (entry ++ more)) left
    ∙ zeros_step spec fuel (15 + n) entry more symbol
    ∙ ap (λ k. after (read_ac spec fuel k more) (λ r. some (zeros 16 ++ r.0, r.1))) rest_left
    ∙ ap (λ o. after o (λ r. some (zeros 16 ++ r.0, r.1))) (reads fuel (omega arith))

-- The end of a block.
pub read_end_lem :
    (spec : JpegHuffmanSpec) (n : ℕ) (entry more : List ℕ)
    → SymbolBits spec 0 entry
    → Reads spec (suc n) (entry ++ more) (zeros (suc n)) more
unfolding read_ac
read_end_lem spec n entry more symbol zero le = absurd (omega arith)
read_end_lem spec n entry more symbol (suc fuel) le = rw (symbol more) refl

-- What the long runs have written: the reader of the rest goes on with a short run.
abbrev pub Shortened : JpegHuffmanSpec → ℕ → ℕ → List ℕ → Type 0
Shortened spec run short bits =
    (n : ℕ) (more tail : List ℕ) (rest : List ℤ)
    → Reads spec (short + n) more (zeros short ++ rest) tail
    → Reads spec (run + n) (bits ++ more) (zeros run ++ rest) tail

abbrev pub LongRuns : JpegHuffmanSpec → ℕ → List ℕ → List ℕ → ScanWriter × ℕ → Type 0
LongRuns spec run before s r =
    (bits : List ℕ) × Wrote before r.0 (s ++ bits) × (r.1 < 16) × Shortened spec run r.1 bits

already_short :
    (spec : JpegHuffmanSpec) (run : ℕ) (before s : List ℕ) (w : ScanWriter)
    → run < 16
    → Wrote before w s
    → LongRuns spec run before s (w, run)
already_short spec run before s w h wrote =
    ([], subst (Wrote before w) (sym (append-nil s)) wrote, h, λ n more tail rest reads. reads)

sixteen_shorter :
    (spec : JpegHuffmanSpec) (run short : ℕ) (entry bits : List ℕ)
    → 16 ≤ run
    → SymbolBits spec 0xf0 entry
    → Shortened spec (run - 16) short bits
    → Shortened spec run short (entry ++ bits)
sixteen_shorter spec run short entry bits le symbol shorter n more tail rest reads =
    let joined : zeros 16 ++ (zeros (run - 16) ++ rest) ≡ zeros run ++ rest =
      sym (append_assoc (zeros 16) (zeros (run - 16)) rest)
      ∙ ap (λ z. z ++ rest)
          (replicate-append 16 (run - 16) (pos 0)
            ∙ ap zeros (let e : 16 + (run - 16) ≡ run = omega arith in e)) in
    let count : 16 + (run - 16 + n) ≡ run + n = omega arith in
    subst (λ k. Reads spec k ((entry ++ bits) ++ more) (zeros run ++ rest) tail) count
      (subst (λ c. Reads spec (16 + (run - 16 + n)) ((entry ++ bits) ++ more) c tail) joined
        (subst
          (λ b. Reads spec (16 + (run - 16 + n)) b (zeros 16 ++ (zeros (run - 16) ++ rest)) tail)
          (sym (append_assoc entry bits more))
          (read_zeros_lem spec (run - 16 + n) entry (bits ++ more) tail _ symbol
            (shorter n more tail rest reads))))

pub long_runs_lem :
    (spec : JpegHuffmanSpec) (fuel run : ℕ) (before s : List ℕ) (w : ScanWriter)
    → IsTable spec is_ac_symbol
    → run ≤ fuel
    → Wrote before w s
    → LongRuns spec run before s (long_runs fuel (build spec) run w)
unfolding long_runs
long_runs_lem spec zero run before s w table le wrote =
    already_short spec run before s w (omega arith) wrote
long_runs_lem spec (suc fuel) run before s w table le wrote = elim (Bool-cases (leb 16 run)) [
  | inr e ↦ rw e (already_short spec run before s w (leb-false→lt 16 run e) wrote)
  | inl e ↦
      let (entry, put_one, symbol) =
        put_entry-Wrote spec is_ac_symbol 0xf0 before s w table (omega arith)
          (unfold is_ac_symbol in refl) wrote in
      let long = leb→le 16 run e in
      let (bits, put_all, short, shorter) =
        long_runs_lem spec fuel (run - 16) before (s ++ entry) (put_entry (build spec) 0xf0 w) table
          (omega arith) put_one in
      rw e (
        entry ++ bits,
        subst (Wrote before _) (append_assoc s entry bits) put_all,
        short,
        sixteen_shorter spec run _ entry bits long symbol shorter,
      )
]
