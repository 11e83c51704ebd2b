-- ===== src/Jpeg/Blocks.antt =====
-- The coefficients of a block after the first: put_coefficient and ac_loop as the loop of encode_block
-- of src/jpeg.cpp, read by the rules of T.81.
use hh_cpp.Base.{ℕ, zero, suc, ◌+◌, ◌*◌, ◌%◌, ◌^◌, ◌≤◌, ◌<◌, ◌≡◌, refl, sym, subst, ap, ◌∙◌, arith}
use hh_cpp.Base.{inl, inr, true, false, ltb, leb, leb→le, lt→ltb, leb-false→lt, ◌==◌}
use hh_cpp.Base.{
  Bool-cases, suc-==-zero, List, [], ◌∷◌, ◌++◌, append_assoc, append-nil, length, replicate,
  replicate-append,
}
use hh_cpp.Base.Int.{ℤ, pos, negsuc}
use native.Mathlib.Nat.{pow-suc, pow-le-pow_right}
use hh_cpp.Jpeg.Tables.{JpegHuffmanSpec}
use hh_cpp.Jpeg.Scan.{
  ScanWriter, build, put_entry, category, long_runs, is_zero, put_coefficient, ac_loop,
}
use hh_cpp.Jpeg.Written.{Wrote}
use hh_cpp.Jpeg.Huffman.{is_ac_symbol, IsTable}
use hh_cpp.Jpeg.Values.{size_of_value, put_value-Wrote, IsCategory, category-IsCategory}
use hh_cpp.Jpeg.Runs.{
  zeros, read_ac, Reads, put_entry-Wrote, read_value_lem, read_end_lem, long_runs_lem,
}

-- The category is no larger than the number of bits that the values have.
pub category_le : (v : ℤ) (t k : ℕ) → IsCategory v t → size_of_value v < 2 ^ k → t ≤ k
category_le v t k (small, inl z) h = omega arith
category_le v t k (small, inr large) h = elim (Bool-cases (leb t k)) [
  | inl e ↦ leb→le t k e
  | inr e ↦
      let over : 2 ^ suc k ≤ 2 ^ t =
        pow-le-pow_right (let two : 0 < 2 = omega arith in two)
          (let more : suc k ≤ t = omega (arith, leb-false→lt t k e) in more) in
      absurd (omega (arith, over, large, h, pow-suc 2 k))
]

some_category : (v : ℤ) (t : ℕ) → is_zero v ≡ false → IsCategory v t → 0 < t
some_category (pos zero) t e h = absurd cc
some_category (pos (suc n)) zero e (small, _) = absurd (omega arith)
some_category (pos (suc n)) (suc t) e h = omega arith
some_category (negsuc n) zero e (small, _) = absurd (omega arith)
some_category (negsuc n) (suc t) e h = omega arith

is_zero→eq : (v : ℤ) → is_zero v ≡ true → pos 0 ≡ v
is_zero→eq (pos zero) e = refl
is_zero→eq (pos (suc n)) e = absurd cc
is_zero→eq (negsuc n) e = absurd cc

value_symbol : (r t : ℕ) → r < 16 → 0 < t → t ≤ 10 → is_ac_symbol (r * 16 + t) ≡ true
unfolding is_ac_symbol
value_symbol r t hr some_ ht =
    let low : (r * 16 + t) % 16 ≡ t = omega arith in
    let byte : ltb (r * 16 + t) 256 ≡ true = lt→ltb (r * 16 + t) 256 (omega arith) in
    let first : leb 1 t ≡ true = ground arith in
    let last : leb t 10 ≡ true = ground arith in
    let not_end : (r * 16 + t == 0) ≡ false = ground arith in
    rw not_end (rw low (rw byte (rw first (rw last (ground arith)))))

-- The coefficients that the entropy coder takes: those of ten bits at most.
pub data AllSmall : List ℤ → Type 0 where
  no_more : AllSmall []
  and_more :
      {v : ℤ} {rest : List ℤ} → size_of_value v < 2 ^ 10 → AllSmall rest → AllSmall (v ∷ rest)

-- What has been written is read as `run` zeros and the coefficients.
abbrev AcWritten : JpegHuffmanSpec → List ℤ → ℕ → List ℕ → List ℕ → ScanWriter → Type 0
AcWritten spec values run before s w =
    (bits : List ℕ) × Wrote before w (s ++ bits)
    × ((more : List ℕ) → Reads spec (run + length values) (bits ++ more) (zeros run ++ values) more)

coefficient_lem :
    (spec : JpegHuffmanSpec) (run : ℕ) (v : ℤ) (rest : List ℤ) (before s : List ℕ) (w : ScanWriter)
    → IsTable spec is_ac_symbol
    → is_zero v ≡ false
    → size_of_value v < 2 ^ 10
    → Wrote before w s
    → (bits : List ℕ) × Wrote before (put_coefficient (build spec) run v w) (s ++ bits)
      × ((n : ℕ) (more tail : List ℕ)
          → Reads spec n more rest tail
          → Reads spec (run + suc n) (bits ++ more) (zeros run ++ (v ∷ rest)) tail)
unfolding put_coefficient
coefficient_lem spec run v rest before s w table e small wrote =
    let t = category v in
    let is_category = category-IsCategory v (omega arith) in
    let few = category_le v t 10 is_category small in
    let some_ = some_category v t e is_category in
    let (skipped, put_long, short, shorter) =
      long_runs_lem spec run run before s w table (omega arith) wrote in
    let run' = (long_runs run (build spec) run w).1 in
    let (entry, put_one, symbol) =
      put_entry-Wrote spec is_ac_symbol (run' * 16 + t) before (s ++ skipped) _ table (omega arith)
        (value_symbol run' t short some_ few) put_long in
    let (bits, put_all, value) =
      put_value-Wrote v t before ((s ++ skipped) ++ entry) _ is_category (omega arith) put_one in
    (
      skipped ++ (entry ++ bits),
      subst (Wrote before (put_coefficient (build spec) run v w))
          (append_assoc (s ++ skipped) entry bits ∙ append_assoc s skipped (entry ++ bits)) put_all,
      λ n more tail reads.
          subst (λ b. Reads spec (run + suc n) b (zeros run ++ (v ∷ rest)) tail)
            (sym (append_assoc skipped (entry ++ bits) more))
            (shorter (suc n) ((entry ++ bits) ++ more) tail (v ∷ rest) (
              subst (λ b. Reads spec (run' + suc n) b (zeros run' ++ (v ∷ rest)) tail)
                (sym (append_assoc entry bits more))
                (read_value_lem spec run' t n v entry bits more tail rest (omega arith) some_ symbol
                  value reads))),
    )

none_written :
    (spec : JpegHuffmanSpec) (before s : List ℕ) (w : ScanWriter)
    → Wrote before w s
    → AcWritten spec [] 0 before s w
unfolding read_ac replicate
none_written spec before s w wrote =
    ([], subst (Wrote before w) (sym (append-nil s)) wrote, λ more fuel le. refl)

end_written :
    (spec : JpegHuffmanSpec) (run : ℕ) (before s : List ℕ) (w : ScanWriter)
    → IsTable spec is_ac_symbol
    → Wrote before w s
    → AcWritten spec [] (suc run) before s (put_entry (build spec) 0 w)
end_written spec run before s w table wrote =
    let (bits, done, symbol) =
      put_entry-Wrote spec is_ac_symbol 0 before s w table (omega arith)
        (unfold is_ac_symbol in refl) wrote in
    (
      bits,
      done,
      λ more.
          subst (λ n. Reads spec n (bits ++ more) (zeros (suc run) ++ []) more)
            (let e : suc run ≡ suc run + 0 = omega arith in e)
            (subst (λ c. Reads spec (suc run) (bits ++ more) c more)
              (sym (append-nil (zeros (suc run)))) (read_end_lem spec run bits more symbol)),
    )

pub same-Reads :
    (spec : JpegHuffmanSpec) (n m : ℕ) (bits bits' tail : List ℕ) (c d : List ℤ)
    → n ≡ m
    → bits ≡ bits'
    → c ≡ d
    → Reads spec n bits c tail
    → Reads spec m bits' d tail
same-Reads spec n m bits bits' tail c d en eb ec reads =
    subst (λ k. Reads spec k bits' d tail) en
      (subst (λ b. Reads spec n b d tail) eb (subst (λ x. Reads spec n bits x tail) ec reads))

pub no_zeros : (rest : List ℤ) → zeros 0 ++ rest ≡ rest
unfolding replicate
no_zeros rest = refl

-- One zero more in the run is one less in front of what follows.
zero_joins :
    (run : ℕ) (v : ℤ) (rest : List ℤ)
    → is_zero v ≡ true
    → zeros (suc run) ++ rest ≡ zeros run ++ (v ∷ rest)
unfolding replicate
zero_joins run v rest e =
    ap (λ z. z ++ rest)
      (ap zeros (let e : suc run ≡ run + 1 = omega arith in e)
        ∙ sym (replicate-append run 1 (pos 0)))
    ∙ append_assoc (zeros run) (zeros 1) rest
    ∙ ap (λ x. zeros run ++ (x ∷ rest)) (is_zero→eq v e)

pub ac_loop_lem :
    (spec : JpegHuffmanSpec) (values : List ℤ) (run : ℕ) (before s : List ℕ) (w : ScanWriter)
    → IsTable spec is_ac_symbol
    → AllSmall values
    → Wrote before w s
    → AcWritten spec values run before s (ac_loop (build spec) values run w)
unfolding ac_loop
ac_loop_lem spec [] zero before s w table small wrote = none_written spec before s w wrote
ac_loop_lem spec [] (suc run) before s w table small wrote =
    rw (suc-==-zero run) (end_written spec run before s w table wrote)
ac_loop_lem spec (v ∷ rest) run before s w table (and_more v_small small) wrote =
    elim (Bool-cases (is_zero v)) [
      | inl e ↦ rw e (
          let (bits, done, reads) = ac_loop_lem spec rest (suc run) before s w table small wrote in
          (
            bits,
            done,
            λ more.
                same-Reads spec _ _ (bits ++ more) (bits ++ more) more _ _
                  (let n : suc run + length rest ≡ run + suc (length rest) = omega arith in n) refl
                  (zero_joins run v rest e) (reads more),
          ))
      | inr e ↦ rw e (
          let (bits, put_one, step) =
            coefficient_lem spec run v rest before s w table e v_small wrote in
          let (others, done, reads) =
            ac_loop_lem spec rest 0 before (s ++ bits) (put_coefficient (build spec) run v w) table
              small put_one in
          (
            bits ++ others,
            subst (Wrote before _) (append_assoc s bits others) done,
            λ more.
                same-Reads spec (run + suc (length rest)) _ _ _ more _ _ refl
                  (sym (append_assoc bits others more)) refl
                  (step (length rest) (others ++ more) more (
                    same-Reads spec _ (length rest) _ (others ++ more) more _ rest
                      (let n : 0 + length rest ≡ length rest = omega arith in n) refl
                      (no_zeros rest) (reads more))),
          ))
    ]
