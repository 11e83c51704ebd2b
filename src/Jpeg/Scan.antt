-- ===== src/Jpeg/Scan.antt =====
-- Entropy coding: build, scan_writer, category, put_value and encode_block of src/jpeg.cpp.
use hh_cpp.Base.{ℕ, zero, suc, ◌+◌, ◌-◌, ◌*◌, ◌%◌, ◌^◌, bit_and, bit_or, Bool, true, false, leb}
use hh_cpp.Base.{
  ◌==◌, if◌then◌else◌, List, [], ◌∷◌, ◌++◌, get_or, set, replicate, u8, u32, ◌<<<◌, ◌>>>◌,
}
use hh_cpp.Base.Int.{ℤ, pos, negsuc, ◌+ℤ◌, ◌-ℤ◌}
use hh_cpp.Jpeg.Tables.{JpegHuffmanSpec}

pub record HuffmanEncoder : Type 0 where
  pub code : List ℕ
  pub length : List ℕ

-- The locals of `build`: the next code, `k`, and the tables.
pub record Building : Type 0 where
  pub code : ℕ
  pub k : ℕ
  pub tables : HuffmanEncoder

-- The loop over the codes of one length.
unfoldable pub build_length : JpegHuffmanSpec → ℕ → ℕ → Building → Building
build_length spec len zero s = s
build_length spec len (suc left) s =
    let symbol = get_or spec.symbols s.k 0 in
    build_length spec len left (record {
      code = u32 (suc s.code);
      k = suc s.k;
      tables = record {
        code = set s.tables.code symbol (s.code % 2 ^ 16);
        length = set s.tables.length symbol (u8 len);
      };
    })

-- The loop over the lengths, of the counts that are left.
unfoldable pub build_loop : JpegHuffmanSpec → List ℕ → ℕ → Building → Building
unfolding build_length
build_loop spec [] len s = s
build_loop spec (count ∷ counts) len s =
    let done = build_length spec len count s in
    build_loop spec counts (suc len)
      (record { code = u32 (done.code <<< 1); k = done.k; tables = done.tables })

unfoldable pub build : JpegHuffmanSpec → HuffmanEncoder
unfolding build_loop
build spec =
    let empty : HuffmanEncoder = record { code = replicate 256 0; length = replicate 256 0 } in
    (build_loop spec spec.counts 1 (record { code = 0; k = 0; tables = empty })).tables

pub record ScanWriter : Type 0 where
  pub out : List ℕ
  pub acc : ℕ
  pub used : ℕ

-- One byte of the scan: 0xff is followed by a zero.
unfoldable pub stuffed : ℕ → List ℕ
stuffed b = if b == 0xff then b ∷ 0 ∷ [] else b ∷ []

-- `while (used_ >= 8)`, with fuel. A round takes eight from `used_`.
unfoldable pub emit : ℕ → ScanWriter → ScanWriter
unfolding stuffed
emit zero w = w
emit (suc fuel) w =
    let b = u8 (bit_and (w.acc >>> (w.used - 8)) 0xff) in
    let rest = emit fuel (record { out = w.out ++ stuffed b; acc = w.acc; used = w.used - 8 }) in
    if leb 8 w.used then rest else w

unfoldable pub put : ℕ → ℕ → ScanWriter → ScanWriter
unfolding emit
put bits count w =
    let used = w.used + count in
    emit used (record {
      out = w.out;
      acc = bit_or (u32 (w.acc <<< count)) (bit_and bits (2 ^ count - 1));
      used = used;
    })

unfoldable pub finish : ScanWriter → ScanWriter
unfolding put
finish w = if w.used == 0 then w else put (2 ^ (8 - w.used) - 1) (8 - w.used) w

-- `while (a != 0)`, with fuel: 32 rounds bring a 32-bit word to 0.
unfoldable pub category_loop : ℕ → ℕ → ℕ → ℕ
category_loop zero a n = n
category_loop (suc fuel) a n =
    let rest = category_loop fuel (a >>> 1) (suc n) in if a == 0 then n else rest

unfoldable pub category : ℤ → ℕ
category (pos v) = category_loop 32 v 0
category (negsuc v) = category_loop 32 (suc v) 0

-- `static_cast<std::uint32_t>`.
abbrev pub word_of : ℤ → ℕ
word_of (pos v) = u32 v
word_of (negsuc v) = 2 ^ 32 - 1 - v % 2 ^ 32

unfoldable pub encoded_value : ℤ → ℕ → ℤ
encoded_value (pos v) bits = pos v
encoded_value (negsuc v) bits = negsuc v +ℤ pos (2 ^ bits) -ℤ pos 1

unfoldable pub put_value : ℤ → ℕ → ScanWriter → ScanWriter
unfolding encoded_value put
put_value v bits w = if bits == 0 then w else put (word_of (encoded_value v bits)) bits w

abbrev pub put_entry : HuffmanEncoder → ℕ → ScanWriter → ScanWriter
put_entry e symbol w = put (get_or e.code symbol 0) (get_or e.length symbol 0) w

-- `while (run >= 16)`, with fuel: the writer and the run after it.
unfoldable pub long_runs : ℕ → HuffmanEncoder → ℕ → ScanWriter → ScanWriter × ℕ
unfolding put
long_runs zero ac run w = (w, run)
long_runs (suc fuel) ac run w =
    let rest = long_runs fuel ac (run - 16) (put_entry ac 0xf0 w) in
    if leb 16 run then rest else (w, run)

abbrev pub is_zero : ℤ → Bool
is_zero (pos zero) = true
is_zero _ = false

-- One coefficient that is not zero.
unfoldable pub put_coefficient : HuffmanEncoder → ℕ → ℤ → ScanWriter → ScanWriter
unfolding long_runs put_value category
put_coefficient ac run v w =
    let long : ScanWriter × ℕ = long_runs run ac run w in
    let bits = category v in put_value v bits (put_entry ac (long.1 * 16 + bits) long.0)

-- The loop over `k`, of the coefficients that are left.
unfoldable pub ac_loop : HuffmanEncoder → List ℤ → ℕ → ScanWriter → ScanWriter
unfolding put_coefficient
ac_loop ac [] run w = if run == 0 then w else put_entry ac 0 w
ac_loop ac (v ∷ rest) run w =
    if is_zero v
    then ac_loop ac rest (suc run) w
    else ac_loop ac rest 0 (put_coefficient ac run v w)

-- The writer and `previous_dc` after the block.
unfoldable pub encode_block :
    List ℤ → ℤ → HuffmanEncoder → HuffmanEncoder → ScanWriter → ScanWriter × ℤ
unfolding ac_loop
encode_block [] previous_dc dc ac w = (w, previous_dc)
encode_block (first ∷ rest) previous_dc dc ac w =
    let diff = first -ℤ previous_dc in
    let dc_bits = category diff in
    (ac_loop ac rest 0 (put_value diff dc_bits (put_entry dc dc_bits w)), first)
