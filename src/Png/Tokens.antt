-- ===== src/Png/Tokens.antt =====
-- What a symbol or a match that src/png.cpp writes does to a reader of the stream.
use hh_cpp.Base.Streams.{after, code_bits, length-code_bits, length-low_bits, low_bits}
use hh_cpp.Base.{ℕ, suc, ◌+◌, ◌-◌, ◌^◌, ◌≤◌, ◌<◌, ◌≡◌, refl, subst, ap, ap₂, ◌∙◌, arith}
use hh_cpp.Base.{true, false, ltb, lt→ltb, ◌==◌}
use hh_cpp.Base.{
  Option, none, some, List, [], ◌∷◌, ◌++◌, append_assoc, length, get_or, length-append,
}
use hh_cpp.Png.Bits.{BitWriter, put, put_code, put_symbol, put_match, base_index}
use hh_cpp.Png.Bits.{length_base, length_extra, dist_base, dist_extra}
use hh_cpp.Png.Stream.{IsTidy, put-stream}
use hh_cpp.Png.Codes.{put_code-stream}
use hh_cpp.Png.Inflate.{read_symbol, read_match, base_of_length, extra_of_length}
use hh_cpp.Png.Inflate.{base_of_distance, extra_of_distance, meaning, literal, end_of_block}
use hh_cpp.Png.Inflate.{Meaning, unused, match_of, copy, inflate_block}
use hh_cpp.Png.Symbols.{Writes, Writes-trans, SymbolWritten, put_symbol-read_symbol}
use hh_cpp.Png.Fields.{IsField, length_row_lem, dist_row_lem, search_lem, read_match_lem}

meaning-literal : (s : ℕ) → s < 256 → meaning s ≡ literal s
unfolding meaning
meaning-literal s h = rw (lt→ltb s 256 h) refl

meaning-match : (c : ℕ) → c ≤ 28 → meaning (257 + c) ≡ match_of c
unfolding meaning
meaning-match c h =
    let over : ltb (257 + c) 256 ≡ false = ground arith in
    let other : (257 + c == 256) ≡ false = ground arith in
    let used : ltb (257 + c) 286 ≡ true = ground arith in
    rw (over, other, used) (ap match_of (omega arith))

-- What the reader does with a symbol, `rest` standing behind it.
abbrev act : Meaning → ℕ → List ℕ → List ℕ → Option (List ℕ × List ℕ)
act m fuel rest out = elim m [
  | literal b ↦ inflate_block fuel rest (out ++ (b ∷ []))
  | end_of_block ↦ some (out, rest)
  | match_of c ↦
      after (read_match c rest)
        (λ r. after (copy r.0.0 r.0.1 out) (λ longer. inflate_block fuel r.1 longer))
  | unused ↦ none
]

block_step :
    (fuel s : ℕ) (bits rest out : List ℕ)
    → read_symbol bits ≡ some (s, rest)
    → inflate_block (suc fuel) bits out ≡ act (meaning s) fuel rest out
unfolding inflate_block
block_step fuel s bits rest out symbol = rw symbol refl

-- A byte that is written is appended by the reader.
abbrev pub LiteralWritten : ℕ → BitWriter → Type 0
LiteralWritten b w =
    (bits : List ℕ) × ((0 < length bits) × (length bits ≤ 9))
    × Writes w (put_symbol b w) bits
    × ((fuel : ℕ) (rest out : List ℕ)
        → inflate_block (suc fuel) (bits ++ rest) out ≡ inflate_block fuel rest (out ++ (b ∷ [])))

pub put_symbol-literal : (b : ℕ) (w : BitWriter) → IsTidy w → b < 256 → LiteralWritten b w
put_symbol-literal b w tidy h =
    let s : SymbolWritten b w = put_symbol-read_symbol b w tidy (omega arith) in
    (
      s.0,
      s.1,
      s.2,
      λ fuel rest out.
          block_step fuel b (s.0 ++ rest) rest out (s.3 rest)
          ∙ ap (λ m. act m fuel rest out) (meaning-literal b h),
    )

abbrev pub EndWritten : BitWriter → Type 0
EndWritten w =
    (bits : List ℕ) × ((0 < length bits) × (length bits ≤ 9))
    × Writes w (put_symbol 256 w) bits
    × ((fuel : ℕ) (rest out : List ℕ)
        → inflate_block (suc fuel) (bits ++ rest) out ≡ some (out, rest))

pub put_symbol-end : (w : BitWriter) → IsTidy w → EndWritten w
unfolding meaning
put_symbol-end w tidy =
    let s : SymbolWritten 256 w = put_symbol-read_symbol 256 w tidy (omega arith) in
    (s.0, s.1, s.2, λ fuel rest out. block_step fuel 256 (s.0 ++ rest) rest out (s.3 rest))

-- A match that is written is copied by the reader.
abbrev pub MatchWritten : ℕ → ℕ → BitWriter → Type 0
MatchWritten len dist w =
    (bits : List ℕ) × ((0 < length bits) × (length bits ≤ 40))
    × Writes w (put_match len dist w) bits
    × ((fuel : ℕ) (rest out : List ℕ)
        → inflate_block (suc fuel) (bits ++ rest) out
          ≡ after (copy len dist out) (λ longer. inflate_block fuel rest longer))

four_append :
    (a b c d rest : List ℕ) → (((a ++ b) ++ c) ++ d) ++ rest ≡ a ++ (b ++ (c ++ (d ++ rest)))
four_append a b c d rest =
    append_assoc ((a ++ b) ++ c) d rest
    ∙ append_assoc (a ++ b) c (d ++ rest)
    ∙ append_assoc a b (c ++ (d ++ rest))

match_size :
    (a b c d : List ℕ)
    → (0 < length a) × (length a ≤ 9)
    → length b ≤ 13
    → length c ≤ 5
    → length d ≤ 13
    → (0 < length (((a ++ b) ++ c) ++ d)) × (length (((a ++ b) ++ c) ++ d) ≤ 40)
match_size a b c d (some_, la) lb lc ld =
    let e : length (((a ++ b) ++ c) ++ d) ≡ length a + length b + length c + length d =
      omega (arith, length-append ((a ++ b) ++ c) d, length-append (a ++ b) c, length-append a b) in
    (omega (arith, e), omega (arith, e))

-- The two searches of `put_match`.
length_found :
    (len : ℕ)
    → 3 ≤ len
    → len ≤ 258
    → (base_index length_base len 28 ≤ 28)
      × IsField length_base length_extra len (base_index length_base len 28)
length_found len lo hi =
    search_lem length_base length_extra len 28 (λ c h. (length_row_lem c (omega arith)).2)
      (omega arith) (omega arith)

dist_found :
    (dist : ℕ)
    → 1 ≤ dist
    → dist ≤ 32768
    → (base_index dist_base dist 29 ≤ 29)
      × IsField dist_base dist_extra dist (base_index dist_base dist 29)
dist_found dist lo hi =
    search_lem dist_base dist_extra dist 29 (λ d h. (dist_row_lem d (omega arith)).2) (omega arith)
      (omega arith)

-- A symbol for a length and its fields, read in turn.
matched :
    (c : ℕ) (bits fields rest : List ℕ) (len dist fuel : ℕ) (out : List ℕ)
    → c ≤ 28
    → read_symbol bits ≡ some (257 + c, fields)
    → read_match c fields ≡ some ((len, dist), rest)
    → inflate_block (suc fuel) bits out
      ≡ after (copy len dist out) (λ longer. inflate_block fuel rest longer)
matched c bits fields rest len dist fuel out h symbol found =
    block_step fuel (257 + c) bits fields out symbol
    ∙ ap (λ m. act m fuel fields out) (meaning-match c h)
    ∙ ap
        (λ o. after o (λ r. after (copy r.0.0 r.0.1 out) (λ longer. inflate_block fuel r.1 longer)))
        found

match_bits :
    (c x e base d y f from : ℕ) (rest : List ℕ)
    → base ≡ base_of_length c
    → e ≡ extra_of_length c
    → from ≡ base_of_distance d
    → f ≡ extra_of_distance d
    → x < 2 ^ e
    → d < 30
    → y < 2 ^ f
    → read_match c (low_bits e x ++ (code_bits 5 d ++ (low_bits f y ++ rest)))
      ≡ some ((base + x, from + y), rest)
match_bits c x e base d y f from rest eb ee ef_ ff hx hd hy =
    let hx' = subst (λ n. x < 2 ^ n) ee hx in
    let hy' = subst (λ n. y < 2 ^ n) ff hy in
    rw (eb, ee, ef_, ff) (read_match_lem c x d y rest hx' hd hy')

pub put_match-copy :
    (len dist : ℕ) (w : BitWriter)
    → IsTidy w
    → 3 ≤ len
    → len ≤ 258
    → 1 ≤ dist
    → dist ≤ 32768
    → MatchWritten len dist w
unfolding put_match
put_match-copy len dist w tidy l3 l258 d1 dmax =
    let c = base_index length_base len 28 in
    let d = base_index dist_base dist 29 in
    let cf = length_found len l3 l258 in
    let df = dist_found dist d1 dmax in
    let crow = length_row_lem c (omega (arith, cf.0)) in
    let drow = dist_row_lem d (omega (arith, df.0)) in
    let x = len - get_or length_base c 0 in
    let y = dist - get_or dist_base d 0 in
    let s : SymbolWritten (257 + c) w =
      put_symbol-read_symbol (257 + c) w tidy (omega (arith, cf.0)) in
    let w1 = put_symbol (257 + c) w in
    let p1 : Writes w w1 s.0 = s.2 in
    let w2 = put x (get_or length_extra c 0) w1 in
    let p2 : Writes w1 w2 (low_bits (get_or length_extra c 0) x) =
      put-stream x (get_or length_extra c 0) w1 p1.1 cf.1.1 crow.3 in
    let w3 = put_code d 5 w2 in
    let p3 : Writes w2 w3 (code_bits 5 d) = put_code-stream d 5 w2 p2.1 (omega arith) in
    let w4 = put y (get_or dist_extra d 0) w3 in
    let p4 : Writes w3 w4 (low_bits (get_or dist_extra d 0) y) =
      put-stream y (get_or dist_extra d 0) w3 p3.1 df.1.1 drow.3 in
    let lb = low_bits (get_or length_extra c 0) x in
    let db = low_bits (get_or dist_extra d 0) y in
    (
      ((s.0 ++ lb) ++ code_bits 5 d) ++ db,
      match_size s.0 lb (code_bits 5 d) db s.1
          (omega (arith, length-low_bits (get_or length_extra c 0) x, crow.3))
          (omega (arith, length-code_bits 5 d))
          (omega (arith, length-low_bits (get_or dist_extra d 0) y, drow.3)),
      Writes-trans w w3 w4 _ db
          (Writes-trans w w2 w3 _ (code_bits 5 d) (Writes-trans w w1 w2 s.0 lb p1 p2) p3) p4,
      λ fuel rest out.
          let fields = lb ++ (code_bits 5 d ++ (db ++ rest)) in
          let symbol : read_symbol (s.0 ++ fields) ≡ some (257 + c, fields) = s.3 fields in
          let found : read_match c fields ≡ some ((len, dist), rest) =
            match_bits c x _ _ d y _ _ rest crow.0 crow.1 drow.0 drow.1 cf.1.1 (omega (arith, df.0))
              df.1.1
            ∙ ap₂ (λ l e. some ((l, e), rest)) (omega (arith, cf.1.0)) (omega (arith, df.1.0)) in
          ap (λ bits. inflate_block (suc fuel) bits out)
            (four_append s.0 lb (code_bits 5 d) db rest)
          ∙ matched c (s.0 ++ fields) fields rest len dist fuel out (omega (arith, cf.0)) symbol
              found,
    )
