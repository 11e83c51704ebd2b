-- ===== src/Png/Codes.antt =====
-- Huffman codes and the end of the stream: put_code and flush of src/png.cpp.
use hh_cpp.Base.Streams.{code_bits, length-low_bits, low_bits}
use hh_cpp.Base.{
  ℕ, zero, suc, ◌+◌, ◌-◌, ◌*◌, ◌/◌, ◌%◌, ◌^◌, ◌≤◌, ◌<◌, ◌≡◌, refl, sym, subst, ap, ap₂, ◌∙◌, arith,
}
use hh_cpp.Base.{List, [], ◌∷◌, ◌++◌, append_assoc, append-nil, length, u8, u32, ◌<<<◌, ◌>>>◌}
use hh_cpp.Base.{bit_and, bit_or, ◌==◌, ==→eq, ==-false→ne, Bool-cases, inl, inr}
use native.Mathlib.Nat.{pow-suc, div-div-eq-div-mul, pow-le-pow_right}
use hh_cpp.Base.Bits.{bit_and-1, bit_or_shifted}
use hh_cpp.Png.Bits.{BitWriter, reverse_bits, put_code, flush}
use hh_cpp.Png.Stream.{bytes_bits, stream, IsTidy, put-stream, low_bits-join, low_bits-mod}
use hh_cpp.Png.Stream.{bytes_bits-append, byte_out, one_byte}

-- One more bit on the right of those that are reversed.
pushed :
    (i code reversed : ℕ)
    → reversed < 2 ^ i
    → i < 31
    → bit_or (u32 (reversed <<< 1)) (bit_and (code >>> i) 1) ≡ reversed * 2 + (code >>> i) % 2
pushed i code reversed h le =
    let low : 2 ^ i ≤ 2 ^ 31 = pow-le-pow_right (omega arith) {i = i} {j = 31} (omega arith) in
    let fits : u32 (reversed <<< 1) ≡ reversed * 2 ^ 1 = omega arith in
    ap₂ bit_or fits (bit_and-1 (code >>> i))
    ∙ bit_or_shifted 1 reversed ((code >>> i) % 2) (omega arith)

pushed_bits :
    (i reversed b : ℕ) → b < 2 → low_bits (suc i) (reversed * 2 + b) ≡ b ∷ low_bits i reversed
unfolding low_bits
pushed_bits i reversed b h =
    ap₂ ◌∷◌ (let e : (reversed * 2 + b) % 2 ≡ b = omega arith in e)
      (ap (low_bits i) (let e : (reversed * 2 + b) / 2 ≡ reversed = omega arith in e))

-- The reversed code has the bits of the code, the most significant first.
reverse_bits-stream :
    (code left i reversed : ℕ)
    → reversed < 2 ^ i
    → i + left < 32
    → (low_bits (i + left) (reverse_bits code left i reversed)
        ≡ code_bits left (code >>> i) ++ low_bits i reversed)
      × (reverse_bits code left i reversed < 2 ^ (i + left))
unfolding reverse_bits code_bits
reverse_bits-stream code zero i reversed h le =
    let same : i + 0 ≡ i = omega arith in rw same (refl, h)
reverse_bits-stream code (suc left) i reversed h le =
    let next = bit_or (u32 (reversed <<< 1)) (bit_and (code >>> i) 1) in
    let bit = (code >>> i) % 2 in
    let value : next ≡ reversed * 2 + bit = pushed i code reversed h (omega arith) in
    let rest =
      reverse_bits-stream code left (suc i) next (omega (arith, value, pow-suc 2 i))
        (omega arith) in
    let count : i + suc left ≡ suc i + left = omega arith in
    let above : code >>> suc i ≡ (code >>> i) / 2 =
      ap (λ n. code / n) (pow-suc 2 i) ∙ sym (div-div-eq-div-mul code (2 ^ i) 2) in
    rw count (
      rest.0
          ∙ ap₂ (λ v bits. code_bits left v ++ bits) above
              (ap (low_bits (suc i)) value ∙ pushed_bits i reversed bit (omega arith))
          ∙ sym (append_assoc (code_bits left ((code >>> i) / 2)) (bit ∷ []) (low_bits i reversed)),
      rest.1,
    )

-- A code is appended behind what has been written, the most significant bit first.
pub put_code-stream :
    (code count : ℕ) (w : BitWriter)
    → IsTidy w
    → count ≤ 13
    → (stream (put_code code count w) ≡ stream w ++ code_bits count code)
      × IsTidy (put_code code count w)
unfolding put_code low_bits
put_code-stream code count w tidy le =
    let r = reverse_bits-stream code count 0 0 (omega arith) (omega arith) in
    let size : 0 + count ≡ count = omega arith in
    let small : reverse_bits code count 0 0 < 2 ^ count =
      subst (λ n. reverse_bits code count 0 0 < 2 ^ n) size r.1 in
    let done = put-stream (reverse_bits code count 0 0) count w tidy small le in
    (
      done.0
          ∙ ap (λ bits. stream w ++ bits)
              (ap (λ n. low_bits n (reverse_bits code count 0 0)) (sym size)
                ∙ r.0
                ∙ append-nil (code_bits count (code / 1))
                ∙ ap (code_bits count) (let e : code / 1 ≡ code = omega arith in e)),
      done.1,
    )

last_byte :
    (w : BitWriter)
    → w.acc < 2 ^ w.used
    → w.used < 8
    → low_bits 8 (u8 (bit_and w.acc 0xff)) ≡ low_bits w.used w.acc ++ low_bits (8 - w.used) 0
last_byte w small few =
    ap (low_bits 8) (byte_out w.acc)
    ∙ low_bits-mod 8 w.acc
    ∙ ap₂ low_bits (let e : 8 ≡ w.used + (8 - w.used) = omega arith in e)
        (let e : w.acc ≡ 0 * 2 ^ w.used + w.acc = omega arith in e)
    ∙ low_bits-join w.used (8 - w.used) 0 w.acc small

-- The end of the stream fills the last byte with zeros.
pub flush-stream :
    (w : BitWriter)
    → IsTidy w
    → (pad : List ℕ) × (length pad < 8) × (bytes_bits (flush w).out ≡ stream w ++ pad)
unfolding flush stream low_bits
flush-stream w (small, few) = elim (Bool-cases (w.used == 0)) [
  | inl e ↦
      let none : w.used ≡ 0 = ==→eq w.used 0 e in
      rw e (
        [],
        omega arith,
        sym (append-nil (bytes_bits w.out))
            ∙ sym (append-nil (bytes_bits w.out ++ []))
            ∙ ap (λ n. (bytes_bits w.out ++ low_bits n w.acc) ++ []) (sym none),
      )
  | inr e ↦ rw e (
    low_bits (8 - w.used) 0,
    omega (arith, length-low_bits (8 - w.used) 0, ==-false→ne w.used 0 e),
    bytes_bits-append w.out (u8 (bit_and w.acc 0xff) ∷ [])
        ∙ ap (λ r. bytes_bits w.out ++ r)
            (one_byte (u8 (bit_and w.acc 0xff)) ∙ last_byte w small few)
        ∙ sym (append_assoc (bytes_bits w.out) (low_bits w.used w.acc) (low_bits (8 - w.used) 0)),
  )
]
