-- ===== src/Png/RoundTrip.antt =====
-- The block that deflate_fixed of src/png.cpp writes, read by the rules of RFC 1951.
use hh_cpp.Base.Streams.{low_bits, read_bits}
use hh_cpp.Base.{ℕ, suc, ◌+◌, ◌-◌, ◌*◌, ◌≤◌, ◌<◌, ◌≡◌, refl, sym, ap, ap₂, ◌∙◌, arith}
use hh_cpp.Base.{some, List, [], ◌∷◌, ◌++◌, append_assoc, append-nil, length, length-append}
use hh_cpp.Base.{take, take-all, take-zero, All, IsByte}
use hh_cpp.Png.{deflate_loop, deflate_fixed}
use hh_cpp.Png.Bits.{BitWriter, put, put_symbol}
use hh_cpp.Png.Stream.{bytes_bits, stream, put-stream}
use hh_cpp.Png.Codes.{flush-stream}
use hh_cpp.Png.Inflate.{inflate_block, inflate}
use hh_cpp.Png.Symbols.{Writes, Writes-trans}
use hh_cpp.Png.Tokens.{EndWritten, put_symbol-end}
use hh_cpp.Png.Matches.{InWindow}
use hh_cpp.Png.Deflated.{Looped, deflate_loop-Looped}

-- The three bits before the symbols.
three_bits :
    (bits : List ℕ)
    → inflate (low_bits 1 1 ++ (low_bits 2 1 ++ bits))
      ≡ inflate_block (suc (suc (suc (length bits)))) bits []
unfolding inflate low_bits read_bits
three_bits bits = refl

regroup :
    (o a b c d e : List ℕ)
    → ((o ++ []) ++ (((a ++ b) ++ c) ++ d)) ++ e ≡ o ++ (a ++ (b ++ (c ++ (d ++ e))))
regroup o a b c d e =
    ap (λ r. (r ++ (((a ++ b) ++ c) ++ d)) ++ e) (append-nil o)
    ∙ append_assoc o (((a ++ b) ++ c) ++ d) e
    ∙ ap (λ r. o ++ r)
        (append_assoc ((a ++ b) ++ c) d e
          ∙ append_assoc (a ++ b) c (d ++ e)
          ∙ append_assoc a b (c ++ (d ++ e)))

five_append :
    (a b c d e more : List ℕ)
    → (a ++ (b ++ (c ++ (d ++ e)))) ++ more ≡ a ++ (b ++ (c ++ (d ++ (e ++ more))))
five_append a b c d e more =
    append_assoc a (b ++ (c ++ (d ++ e))) more
    ∙ ap (λ r. a ++ r)
        (append_assoc b (c ++ (d ++ e)) more
          ∙ ap (λ r. b ++ r)
              (append_assoc c (d ++ e) more ∙ ap (λ r. c ++ r) (append_assoc d e more)))

-- The reader has fuel enough for the symbols of the block and its end.
block_read :
    (raw body end rest : List ℕ) (n : ℕ)
    → n ≤ length body
    → ((k : ℕ) (more : List ℕ)
        → inflate_block (n + k) (body ++ more) (take 0 raw)
          ≡ inflate_block k more (take (length raw) raw))
    → ((k : ℕ) (more out : List ℕ) → inflate_block (suc k) (end ++ more) out ≡ some (out, more))
    → inflate (low_bits 1 1 ++ (low_bits 2 1 ++ (body ++ (end ++ rest)))) ≡ some (raw, rest)
block_read raw body end rest n h reads ends =
    let bits = body ++ (end ++ rest) in
    let k = 2 + length bits - n in
    let fuel : suc (suc (suc (length bits))) ≡ n + suc k =
      omega (arith, h, length-append body (end ++ rest)) in
    three_bits bits
    ∙ ap₂ (λ f out. inflate_block f bits out) fuel (sym (take-zero raw))
    ∙ reads (suc k) (end ++ rest)
    ∙ ends k rest (take (length raw) raw)
    ∙ ap (λ out. some (out, rest)) (take-all (length raw) raw (omega arith))

-- The vector after the call is what was there, followed by bits that give `raw` back with fewer
-- than eight bits of padding, whatever stands behind them.
abbrev pub Deflated : List ℕ → List ℕ → List ℕ → Type 0
Deflated raw out result =
    (body : List ℕ) × (pad : List ℕ) × (length pad < 8)
    × (length body ≤ 14 * length raw + 19)
    × (bytes_bits result ≡ bytes_bits out ++ body)
    × ((more : List ℕ) → inflate (body ++ more) ≡ some (raw, pad ++ more))

-- Decompressing the block that `deflate_fixed` appends to a vector gives the bytes back, for
-- distances in the window of 32768 bytes; the padding is shorter than a byte, and the block takes
-- at most 14 bits for each byte and 19 more.
pub deflate_fixed-Deflated :
    (raw : List ℕ) (bpp stride : ℕ) (out : List ℕ)
    → All IsByte raw
    → InWindow bpp
    → InWindow stride
    → Deflated raw out (deflate_fixed raw bpp stride out)
unfolding deflate_fixed stream low_bits
deflate_fixed-Deflated raw bpp stride out bytes near far =
    let w0 : BitWriter = record { out = out; acc = 0; used = 0 } in
    let w1 = put 1 1 w0 in
    let p1 : Writes w0 w1 (low_bits 1 1) =
      put-stream 1 1 w0 (omega arith, omega arith) (omega arith) (omega arith) in
    let w2 = put 1 2 w1 in
    let p2 : Writes w1 w2 (low_bits 2 1) = put-stream 1 2 w1 p1.1 (omega arith) (omega arith) in
    let w3 = deflate_loop (length raw) raw (bpp ∷ stride ∷ []) 0 w2 in
    let (body, n, p3, (size, reads)) : Looped raw 0 w2 w3 =
      deflate_loop-Looped (length raw) raw (bpp ∷ stride ∷ []) 0 w2 (near, (far, tt)) bytes p2.1
        (omega arith) (omega arith) in
    let w4 = put_symbol 256 w3 in
    let (end, end_size, p4, ends) : EndWritten w3 = put_symbol-end w3 p3.1 in
    let (pad, short, flushed) = flush-stream w4 p4.1 in
    let header = low_bits 1 1 ++ low_bits 2 1 in
    let all : Writes w0 w4 ((header ++ body) ++ end) =
      Writes-trans w0 w3 w4 (header ++ body) end
        (Writes-trans w0 w2 w3 header body
          (Writes-trans w0 w1 w2 (low_bits 1 1) (low_bits 2 1) p1 p2) p3)
        p4 in
    (
      low_bits 1 1 ++ (low_bits 2 1 ++ (body ++ (end ++ pad))),
      pad,
      short,
      omega (arith, size, end_size, short, length-append body (end ++ pad), length-append end pad),
      flushed
          ∙ ap (λ r. r ++ pad) all.0
          ∙ regroup (bytes_bits out) (low_bits 1 1) (low_bits 2 1) body end pad,
      λ more.
          ap inflate (five_append (low_bits 1 1) (low_bits 2 1) body end pad more)
          ∙ block_read raw body end (pad ++ more) n size.0 reads ends,
    )
