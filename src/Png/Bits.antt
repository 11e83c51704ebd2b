-- ===== src/Png/Bits.antt =====
-- Bits and symbols of deflate: bit_writer, put_symbol and put_match of src/png.cpp.
use hh_cpp.Base.{ℕ, zero, suc, ◌+◌, ◌-◌, bit_and, bit_or, ltb, leb, ◌==◌, if◌then◌else◌}
use hh_cpp.Base.{List, [], ◌∷◌, ◌++◌, get_or, u8, u32, ◌<<<◌, ◌>>>◌}

pub record BitWriter : Type 0 where
  pub out : List ℕ
  pub acc : ℕ
  pub used : ℕ

-- `while (used_ >= 8)`, with fuel. A round takes eight from `used_`.
unfoldable pub drain : ℕ → BitWriter → BitWriter
drain zero w = w
drain (suc fuel) w =
    let rest = drain fuel (record {
      out = w.out ++ (u8 (bit_and w.acc 0xff) ∷ []);
      acc = w.acc >>> 8;
      used = w.used - 8;
    }) in
    if leb 8 w.used then rest else w

unfoldable pub put : ℕ → ℕ → BitWriter → BitWriter
unfolding drain
put bits count w =
    let used = w.used + count in
    drain used (record { out = w.out; acc = bit_or w.acc (u32 (bits <<< w.used)); used = used })

-- The loop of `put_code`.
unfoldable pub reverse_bits : ℕ → ℕ → ℕ → ℕ → ℕ
reverse_bits code zero i reversed = reversed
reverse_bits code (suc left) i reversed =
    reverse_bits code left (suc i) (bit_or (u32 (reversed <<< 1)) (bit_and (code >>> i) 1))

unfoldable pub put_code : ℕ → ℕ → BitWriter → BitWriter
unfolding reverse_bits
put_code code count w = put (reverse_bits code count 0 0) count w

unfoldable pub flush : BitWriter → BitWriter
flush w =
    if w.used == 0
    then w
    else record { out = w.out ++ (u8 (bit_and w.acc 0xff) ∷ []); acc = 0; used = 0 }

unfoldable pub put_symbol : ℕ → BitWriter → BitWriter
put_symbol symbol w =
    if ltb symbol 144
    then put_code (0x30 + symbol) 8 w
    else if ltb symbol 256
    then put_code (0x190 + (symbol - 144)) 9 w
    else if ltb symbol 280
    then put_code (symbol - 256) 7 w
    else put_code (0xc0 + (symbol - 280)) 8 w

abbrev pub length_base : List ℕ
length_base =
    3 ∷ 4 ∷ 5 ∷ 6 ∷ 7 ∷ 8 ∷ 9 ∷ 10 ∷ 11 ∷ 13 ∷ 15 ∷ 17 ∷ 19 ∷ 23 ∷ 27 ∷ 31 ∷ 35 ∷ 43 ∷ 51 ∷ 59 ∷ 67
    ∷ 83 ∷ 99 ∷ 115 ∷ 131 ∷ 163 ∷ 195 ∷ 227 ∷ 258 ∷ []

abbrev pub length_extra : List ℕ
length_extra =
    0 ∷ 0 ∷ 0 ∷ 0 ∷ 0 ∷ 0 ∷ 0 ∷ 0 ∷ 1 ∷ 1 ∷ 1 ∷ 1 ∷ 2 ∷ 2 ∷ 2 ∷ 2 ∷ 3 ∷ 3 ∷ 3 ∷ 3 ∷ 4 ∷ 4 ∷ 4 ∷ 4
    ∷ 5 ∷ 5 ∷ 5 ∷ 5 ∷ 0 ∷ []

abbrev pub dist_base : List ℕ
dist_base =
    1 ∷ 2 ∷ 3 ∷ 4 ∷ 5 ∷ 7 ∷ 9 ∷ 13 ∷ 17 ∷ 25 ∷ 33 ∷ 49 ∷ 65 ∷ 97 ∷ 129 ∷ 193 ∷ 257 ∷ 385 ∷ 513 ∷ 769
    ∷ 1025 ∷ 1537 ∷ 2049 ∷ 3073 ∷ 4097 ∷ 6145 ∷ 8193 ∷ 12289 ∷ 16385 ∷ 24577 ∷ []

abbrev pub dist_extra : List ℕ
dist_extra =
    0 ∷ 0 ∷ 0 ∷ 0 ∷ 1 ∷ 1 ∷ 2 ∷ 2 ∷ 3 ∷ 3 ∷ 4 ∷ 4 ∷ 5 ∷ 5 ∷ 6 ∷ 6 ∷ 7 ∷ 7 ∷ 8 ∷ 8 ∷ 9 ∷ 9 ∷ 10 ∷ 10
    ∷ 11 ∷ 11 ∷ 12 ∷ 12 ∷ 13 ∷ 13 ∷ []

-- `while (base[i] > v) --i`: a length is 3 at least and a distance 1, so that it stops at 0.
unfoldable pub base_index : List ℕ → ℕ → ℕ → ℕ
base_index base v zero = zero
base_index base v (suc i) =
    let rest = base_index base v i in if ltb v (get_or base (suc i) 0) then rest else suc i

unfoldable pub put_match : ℕ → ℕ → BitWriter → BitWriter
unfolding put_symbol base_index
put_match length dist w =
    let li = base_index length_base length 28 in
    let di = base_index dist_base dist 29 in
    let w1 = put_symbol (257 + li) w in
    let w2 = put (length - get_or length_base li 0) (get_or length_extra li 0) w1 in
    let w3 = put_code di 5 w2 in put (dist - get_or dist_base di 0) (get_or dist_extra di 0) w3
