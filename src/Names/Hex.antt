-- ===== src/Names/Hex.antt =====
-- Hexadecimal text, and what is written in it: to_hex, from_hex, parse_rgba and rgba_text of
-- tools/names.hpp, with the names of shapes and frames.
use hh_cpp.Base.{ℕ, zero, suc, ◌+◌, ◌*◌, ◌%◌, ◌<◌, ◌≡◌, refl, sym, ap, ◌∙◌, arith}
use hh_cpp.Base.{bit_and, Bool, true, false, ◌&&◌, ◌==◌, ==→eq, and_both, Option, none, some}
use hh_cpp.Base.{List, [], ◌∷◌, ◌++◌, append_assoc, append-nil, length, get_or, All, u8, ◌>>>◌}
use hh_cpp.Base.Bits.{bit_and-15}
use hh_cpp.Types.{Rgb}
use hh_cpp.Names.{digits, to_hex, nibble, from_hex_loop, from_hex, parse_rgba, rgba_text}

-- Whether the digits are read as their positions.
is_value : Option ℕ → ℕ → Bool
is_value none d = false
is_value (some v) d = v == d

is_value→eq : (o : Option ℕ) (d : ℕ) → is_value o d ≡ true → o ≡ some d
unfolding is_value
is_value→eq none d e = absurd cc
is_value→eq (some v) d e = ap some (==→eq v d e)

all_values : List ℕ → ℕ → Bool
all_values [] d = true
all_values (c ∷ rest) d = is_value (nibble c) d && all_values rest (suc d)

digits_read : all_values digits 0 ≡ true
unfolding all_values is_value nibble
digits_read = refl

all_values→eq :
    (cs : List ℕ) (from i : ℕ)
    → all_values cs from ≡ true
    → i < length cs
    → nibble (get_or cs i 0) ≡ some (from + i)
unfolding all_values
all_values→eq [] from i e h = absurd (omega arith)
all_values→eq (c ∷ cs) from zero e h =
    let (here, rest) = and_both (is_value (nibble c) from) (all_values cs (suc from)) e in
    is_value→eq (nibble c) from here ∙ ap some (let same : from ≡ from + 0 = omega arith in same)
all_values→eq (c ∷ cs) from (suc i) e h =
    let (here, rest) = and_both (is_value (nibble c) from) (all_values cs (suc from)) e in
    all_values→eq cs (suc from) i rest (omega arith)
    ∙ ap some (let same : suc from + i ≡ from + suc i = omega arith in same)

nibble-digits : (d : ℕ) → d < 16 → nibble (get_or digits d 0) ≡ some d
nibble-digits d h =
    all_values→eq digits 0 d digits_read h ∙ ap some (let same : 0 + d ≡ d = omega arith in same)

loop-pair :
    (hi lo h l : ℕ) (hex out : List ℕ)
    → nibble hi ≡ some h
    → nibble lo ≡ some l
    → from_hex_loop (hi ∷ lo ∷ hex) out ≡ from_hex_loop hex (out ++ (u8 (h * 16 + l) ∷ []))
unfolding from_hex_loop
loop-pair hi lo h l hex out eh el = rw (eh, el, from_hex_loop) refl

loop-to_hex :
    (data_ out : List ℕ)
    → All (λ b. b < 256) data_
    → from_hex_loop (to_hex data_) out ≡ (true, out ++ data_)
unfolding to_hex
loop-to_hex [] out all = unfold from_hex_loop in ap (λ o. (true, o)) (sym (append-nil out))
loop-to_hex (b ∷ data_) out (small, all) =
    let low : bit_and b 0x0f < 16 = omega (arith, bit_and-15 b) in
    let byte : u8 ((b >>> 4) * 16 + bit_and b 0x0f) ≡ b = omega (arith, bit_and-15 b, small) in
    loop-pair _ _ (b >>> 4) (bit_and b 0x0f) (to_hex data_) out
      (nibble-digits (b >>> 4) (omega (arith, small))) (nibble-digits (bit_and b 0x0f) low)
    ∙ ap (λ x. from_hex_loop (to_hex data_) (out ++ (x ∷ []))) byte
    ∙ loop-to_hex data_ (out ++ (b ∷ [])) all
    ∙ ap (λ o. (true, o)) (append_assoc out (b ∷ []) data_)

length-to_hex : (data_ : List ℕ) → length (to_hex data_) ≡ 2 * length data_
unfolding to_hex
length-to_hex [] = refl
length-to_hex (b ∷ data_) = omega (arith, length-to_hex data_)

-- Bytes that are written in hexadecimal are read back, without an error.
pub from_hex-to_hex :
    (data_ : List ℕ) → All (λ b. b < 256) data_ → from_hex (to_hex data_) ≡ (true, data_)
unfolding from_hex
from_hex-to_hex data_ all =
    let even : (length (to_hex data_) % 2 == 0) ≡ true =
      (let e : length (to_hex data_) % 2 ≡ 0 = omega (arith, length-to_hex data_) in
        ground arith) in
    rw even (loop-to_hex data_ [] all)

-- A colour with its alpha that is written as text is read back.
parse_rgba-rgba_text :
    (c : Rgb) (alpha : ℕ)
    → c.r < 256
    → c.g < 256
    → c.b < 256
    → alpha < 256
    → parse_rgba (rgba_text c alpha) ≡ some (c, alpha)
unfolding parse_rgba rgba_text
parse_rgba-rgba_text c alpha hr hg hb ha =
    rw (from_hex-to_hex (c.r ∷ c.g ∷ c.b ∷ alpha ∷ []) (hr, (hg, (hb, (ha, tt))))) refl
