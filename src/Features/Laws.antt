-- ===== src/Features/Laws.antt =====
-- What a fingerprint shows (src/features.cpp): the cells and the tag, and what they tell.
use hh_cpp.Base.{map, take, length-take-le}
use hh_cpp.Features.{cells_of}
use hh_cpp.Base.{ltb-false→le, sym, ap, ◌∙◌, ◌↔◌, bit_and}
use hh_cpp.Base.{
  ℕ, zero, suc, ◌+◌, ◌-◌, ◌*◌, ◌/◌, ◌%◌, ◌^◌, ◌<◌, ◌≤◌, ◌≡◌, ◌≢◌, ◌⊎◌, inl, inr, refl, ap, ◌∙◌,
  arith,
}
use hh_cpp.Base.{
  true, false, List, [], ◌∷◌, length, get_or, IsByte, ◌>>>◌, ◌==◌, ltb, if◌then◌else◌,
}
use hh_cpp.Base.{==→eq, ltb→lt, Bool-cases}
use hh_cpp.Base.Bits.{bit_and-3, bit_and-31, bit_or_word, passes_below, passes_below_lem}
use hh_cpp.Types.{Fingerprint}
use hh_cpp.Features.{
  tag_chars, Figure, none, square, circle, triangle_up, triangle_right, triangle_down,
  triangle_left, Cell, figure_table, colour_of, cell_of, crockford, tag_value, tag_char, tag_of,
}

-- The value of a character of the tag: how many characters of the alphabet stand before it.
index_of : ℕ → List ℕ → ℕ
index_of c [] = 0
index_of c (x ∷ xs) = if c == x then 0 else suc (index_of c xs)

-- The 30 bits behind a tag.
pub decode_tag : List ℕ → ℕ
unfolding index_of
decode_tag [] = 0
decode_tag (c ∷ rest) =
    if c == 0 then 0 else index_of c crockford * 32 ^ (length rest - 1) + decode_tag rest

index_table : passes_below (λ i. index_of (get_or crockford i 0) crockford == i) 32 ≡ true
unfolding passes_below index_of
index_table = refl

nonzero_table : passes_below (λ i. ltb 0 (get_or crockford i 0)) 32 ≡ true
unfolding passes_below
nonzero_table = refl

index_of-tag_char : (v i : ℕ) → index_of (tag_char v i) crockford ≡ (v >>> (25 - 5 * i)) % 32
unfolding tag_char
index_of-tag_char v i =
    rw (bit_and-31 (v >>> (25 - 5 * i)))
      (==→eq _ _ (passes_below_lem _ 32 ((v >>> (25 - 5 * i)) % 32) (omega arith) index_table))

tag_char-pos : (v i : ℕ) → 0 < tag_char v i
unfolding tag_char
tag_char-pos v i =
    rw (bit_and-31 (v >>> (25 - 5 * i)))
      (ltb→lt _ _ (passes_below_lem _ 32 ((v >>> (25 - 5 * i)) % 32) (omega arith) nonzero_table))

decode_tag-cons :
    (v i : ℕ) (rest : List ℕ)
    → decode_tag (tag_char v i ∷ rest)
      ≡ (v >>> (25 - 5 * i)) % 32 * 32 ^ (length rest - 1) + decode_tag rest
unfolding decode_tag
decode_tag-cons v i rest =
    let p = tag_char-pos v i in
    let e : (tag_char v i == 0) ≡ false = ground arith in rw (e, index_of-tag_char v i) refl

decode_tag-end : decode_tag (0 ∷ []) ≡ 0
unfolding decode_tag
decode_tag-end = refl

six_digits :
    (v : ℕ)
    → v < 2 ^ 30
    → v / 2 ^ 25 % 32 * 32 ^ 5
        + (v / 2 ^ 20 % 32 * 32 ^ 4
            + (v / 2 ^ 15 % 32 * 32 ^ 3
                + (v / 2 ^ 10 % 32 * 32 ^ 2 + (v / 2 ^ 5 % 32 * 32 + (v / 2 ^ 0 % 32 * 1 + 0)))))
      ≡ v
six_digits v h = omega arith

-- The tag is a reading of the first 30 bits behind the cells: six characters of the alphabet and
-- a zero, from which the bits are had back.
pub decode_tag-tag_of :
    (fp : List ℕ)
    → IsByte (get_or fp 16 0)
    → IsByte (get_or fp 17 0)
    → IsByte (get_or fp 18 0)
    → IsByte (get_or fp 19 0)
    → (length (tag_of fp) ≡ 7)
      × (decode_tag (tag_of fp)
          ≡ (get_or fp 16 0 * 2 ^ 24
              + get_or fp 17 0 * 2 ^ 16
              + get_or fp 18 0 * 2 ^ 8
              + get_or fp 19 0)
            / 4)
unfolding tag_of
decode_tag-tag_of fp a b c d =
    let v = tag_value fp in
    let e : v ≡ _ = unfold tag_value in ap (λ t. t / 4) (bit_or_word _ _ _ _ a b c d) in
    (
      refl,
      rw
          (
            decode_tag-cons v 0,
            decode_tag-cons v 1,
            decode_tag-cons v 2,
            decode_tag-cons v 3,
            decode_tag-cons v 4,
            decode_tag-cons v 5,
          )
          (rw decode_tag-end (six_digits v (omega (arith, e, a, b, c, d)) ∙ e)),
    )

-- A cell of a byte: the figure by the top three bits, the colour by the next two, and no colour
-- where there is no figure.
pub data IsCell (b : ℕ) : Cell → Type 0 where
  empty_cell : b < 64 → IsCell b (record { figure = none; colour = 0 })
  filled_cell :
      (f : Figure) → f ≢ none → 64 ≤ b → IsCell b (record { figure = f; colour = b / 8 % 4 })

cell_at : ℕ → ℕ → Cell
unfolding figure_table colour_of
cell_at q b = let f = get_or figure_table q none in record { figure = f; colour = colour_of f b }

cell_at-IsCell : (q b : ℕ) → b < 256 → b / 32 ≡ q → IsCell b (cell_at q b)
unfolding cell_at
cell_at-IsCell zero b h e = empty_cell (omega arith)
cell_at-IsCell (suc zero) b h e = empty_cell (omega arith)
cell_at-IsCell (suc (suc zero)) b h e =
    rw (bit_and-3 (b / 8)) (filled_cell square (λ p. cc p) (omega arith))
cell_at-IsCell (suc (suc (suc zero))) b h e =
    rw (bit_and-3 (b / 8)) (filled_cell circle (λ p. cc p) (omega arith))
cell_at-IsCell (suc (suc (suc (suc zero)))) b h e =
    rw (bit_and-3 (b / 8)) (filled_cell triangle_up (λ p. cc p) (omega arith))
cell_at-IsCell (suc (suc (suc (suc (suc zero))))) b h e =
    rw (bit_and-3 (b / 8)) (filled_cell triangle_right (λ p. cc p) (omega arith))
cell_at-IsCell (suc (suc (suc (suc (suc (suc zero)))))) b h e =
    rw (bit_and-3 (b / 8)) (filled_cell triangle_down (λ p. cc p) (omega arith))
cell_at-IsCell (suc (suc (suc (suc (suc (suc (suc zero))))))) b h e =
    rw (bit_and-3 (b / 8)) (filled_cell triangle_left (λ p. cc p) (omega arith))
cell_at-IsCell (suc (suc (suc (suc (suc (suc (suc (suc q)))))))) b h e = absurd (omega arith)

-- A byte gives an empty cell of colour 0 if it is below 64, and else a cell with a figure and the
-- colour of the two bits below the top three.
pub cell_of-IsCell : (b : ℕ) → b < 256 → IsCell b (cell_of b)
unfolding cell_of cell_at
cell_of-IsCell b h = cell_at-IsCell (b / 32) b h refl

-- What is seen of a cell gives the top five bits of its byte back, unless it is empty.
figure_number : Figure → ℕ
figure_number none = 0
figure_number square = 2
figure_number circle = 3
figure_number triangle_up = 4
figure_number triangle_right = 5
figure_number triangle_down = 6
figure_number triangle_left = 7

five_bits : Cell → ℕ
unfolding figure_number
five_bits c = figure_number c.figure * 4 + c.colour

cell_at-five_bits : (q b : ℕ) → b < 256 → b / 32 ≡ q → 2 ≤ q → five_bits (cell_at q b) ≡ b / 8
unfolding cell_at five_bits
cell_at-five_bits zero b h e two = absurd (omega arith)
cell_at-five_bits (suc zero) b h e two = absurd (omega arith)
cell_at-five_bits (suc (suc zero)) b h e two = omega (arith, bit_and-3 (b / 8))
cell_at-five_bits (suc (suc (suc zero))) b h e two = omega (arith, bit_and-3 (b / 8))
cell_at-five_bits (suc (suc (suc (suc zero)))) b h e two = omega (arith, bit_and-3 (b / 8))
cell_at-five_bits (suc (suc (suc (suc (suc zero))))) b h e two = omega (arith, bit_and-3 (b / 8))
cell_at-five_bits (suc (suc (suc (suc (suc (suc zero)))))) b h e two =
    omega (arith, bit_and-3 (b / 8))
cell_at-five_bits (suc (suc (suc (suc (suc (suc (suc zero))))))) b h e two =
    omega (arith, bit_and-3 (b / 8))
cell_at-five_bits (suc (suc (suc (suc (suc (suc (suc (suc q)))))))) b h e two = absurd (omega arith)

cell_at-five_bits_empty : (q b : ℕ) → q < 2 → five_bits (cell_at q b) ≡ 0
unfolding cell_at five_bits
cell_at-five_bits_empty zero b h = refl
cell_at-five_bits_empty (suc zero) b h = refl
cell_at-five_bits_empty (suc (suc q)) b h = absurd (omega arith)

cell_of-injective :
    (b c : ℕ) → b < 256 → c < 256 → cell_of b ≡ cell_of c → (b / 8 ≡ c / 8) ⊎ ((b < 64) × (c < 64))
unfolding cell_of cell_at
cell_of-injective b c hb hc e =
    let f : five_bits (cell_at (b / 32) b) ≡ five_bits (cell_at (c / 32) c) = ap five_bits e in
    elim (Bool-cases (ltb b 64)) [
      | inl lb ↦ elim (Bool-cases (ltb c 64)) [
        | inl lc ↦ inr (ltb→lt b 64 lb, ltb→lt c 64 lc)
        | inr gc ↦
            let b2 = ltb→lt b 64 lb in
            let c2 = ltb-false→le c 64 gc in
            absurd (
              omega (
                arith,
                cell_at-five_bits_empty (b / 32) b (omega arith),
                cell_at-five_bits (c / 32) c hc refl (omega arith),
              ))
      ]
      | inr gb ↦
          let b2 = ltb-false→le b 64 gb in
          let eb = cell_at-five_bits (b / 32) b hb refl (omega arith) in
          elim (Bool-cases (ltb c 64)) [
            | inl lc ↦
                let c2 = ltb→lt c 64 lc in
                absurd (omega (arith, eb, cell_at-five_bits_empty (c / 32) c (omega arith)))
            | inr gc ↦
                let c2 = ltb-false→le c 64 gc in
                inl (omega (arith, eb, cell_at-five_bits (c / 32) c hc refl (omega arith)))
          ]
    ]

-- Cells are read off the figure's bits and the colour's.
same_colour : (f : Figure) (b c : ℕ) → b / 8 ≡ c / 8 → colour_of f b ≡ colour_of f c
unfolding colour_of
same_colour none b c e = refl
same_colour square b c e = ap (λ n. bit_and n 3) e
same_colour circle b c e = ap (λ n. bit_and n 3) e
same_colour triangle_up b c e = ap (λ n. bit_and n 3) e
same_colour triangle_right b c e = ap (λ n. bit_and n 3) e
same_colour triangle_down b c e = ap (λ n. bit_and n 3) e
same_colour triangle_left b c e = ap (λ n. bit_and n 3) e

filled_same : (q b c : ℕ) → b / 8 ≡ c / 8 → cell_at q b ≡ cell_at q c
unfolding cell_at
filled_same q b c e =
    let f = get_or figure_table q none in
    ap (λ k. record { figure = f; colour = k }) (same_colour f b c e)

empty_at : (q b : ℕ) → q < 2 → cell_at q b ≡ record { figure = none; colour = 0 }
unfolding cell_at
empty_at zero b h = refl
empty_at (suc zero) b h = refl
empty_at (suc (suc q)) b h = absurd (omega arith)

same_shown : (b c : ℕ) → (b / 8 ≡ c / 8) ⊎ ((b < 64) × (c < 64)) → cell_of b ≡ cell_of c
unfolding cell_of cell_at
same_shown b c (inl e) =
    let q : b / 32 ≡ c / 32 = omega (arith, e) in
    ap (λ k. cell_at k b) q ∙ filled_same (c / 32) b c e
same_shown b c (inr (hb, hc)) =
    empty_at (b / 32) b (omega arith) ∙ sym (empty_at (c / 32) c (omega arith))

-- Two bytes are shown as the same cell exactly if they agree in their top five bits or are both
-- below 64.
pub cell_of-equal :
    (b c : ℕ)
    → b < 256
    → c < 256
    → (cell_of b ≡ cell_of c) ↔ ((b / 8 ≡ c / 8) ⊎ ((b < 64) × (c < 64)))
cell_of-equal b c hb hc = (cell_of-injective b c hb hc, same_shown b c)

length-map_cells : (bytes : List ℕ) → length (map cell_of bytes) ≡ length bytes
length-map_cells [] = refl
length-map_cells (b ∷ bytes) = ap suc (length-map_cells bytes)

pub length-cells_of : (fp : List ℕ) → length (cells_of fp) ≤ 16
unfolding cells_of
length-cells_of fp = omega (arith, length-map_cells (take 16 fp), length-take-le 16 fp)

pub length-tag_chars : (fp : Fingerprint) → length (tag_chars fp) ≤ 7
unfolding tag_chars tag_of
length-tag_chars fp = omega arith
