-- ===== src/Png/Written.antt =====
-- What the writer of src/png.cpp puts into the vector are bytes.
use hh_cpp.Base.{ℕ, zero, suc, ◌+◌, ◌-◌, min, arith, ltb, leb, if_both}
use hh_cpp.Base.{List, [], ◌∷◌, ◌++◌, length, get_or, u8, u32, ◌<<<◌, ◌>>>◌, All, IsByte}
use hh_cpp.Base.{bit_and, bit_or, ◌==◌}
use hh_cpp.Png.{find_match, deflate_loop, deflate_fixed, put_be32}
use hh_cpp.Png.Bits.{BitWriter, drain, put, reverse_bits, put_code, flush, put_symbol, put_match}
use hh_cpp.Png.Bits.{base_index, length_base}
use hh_cpp.Base.{All-append}

IsWritten : BitWriter → Type 0
IsWritten w = All IsByte w.out

pushed :
    (w : BitWriter) (b acc used : ℕ)
    → IsWritten w
    → IsWritten (record { out = w.out ++ (u8 b ∷ []); acc = acc; used = used })
unfolding IsWritten
pushed w b acc used h = All-append _ w.out (u8 b ∷ []) h (omega arith, tt)

same_out :
    (w : BitWriter) (acc used : ℕ)
    → IsWritten w
    → IsWritten (record { out = w.out; acc = acc; used = used })
unfolding IsWritten
same_out w acc used h = h

drain-IsWritten : (fuel : ℕ) (w : BitWriter) → IsWritten w → IsWritten (drain fuel w)
unfolding drain
drain-IsWritten zero w h = h
drain-IsWritten (suc fuel) w h =
    if_both IsWritten (leb 8 w.used) _ w
      (drain-IsWritten fuel
        (record {
          out = w.out ++ (u8 (bit_and w.acc 0xff) ∷ []);
          acc = w.acc >>> 8;
          used = w.used - 8;
        })
        (pushed w (bit_and w.acc 0xff) _ _ h))
      h

put-IsWritten : (bits count : ℕ) (w : BitWriter) → IsWritten w → IsWritten (put bits count w)
unfolding put
put-IsWritten bits count w h =
    drain-IsWritten (w.used + count) _
      (same_out w (bit_or w.acc (u32 (bits <<< w.used))) (w.used + count) h)

put_code-IsWritten :
    (code count : ℕ) (w : BitWriter) → IsWritten w → IsWritten (put_code code count w)
unfolding put_code
put_code-IsWritten code count w h = put-IsWritten (reverse_bits code count 0 0) count w h

flush-IsWritten : (w : BitWriter) → IsWritten w → IsWritten (flush w)
unfolding flush
flush-IsWritten w h = if_both IsWritten (w.used == 0) w _ h (pushed w (bit_and w.acc 0xff) 0 0 h)

put_symbol-IsWritten : (s : ℕ) (w : BitWriter) → IsWritten w → IsWritten (put_symbol s w)
unfolding put_symbol
put_symbol-IsWritten s w h = if_both IsWritten (ltb s 144) _ _ (put_code-IsWritten _ 8 w h) (
    if_both IsWritten (ltb s 256) _ _ (put_code-IsWritten _ 9 w h)
      (if_both IsWritten (ltb s 280) _ _ (put_code-IsWritten _ 7 w h) (put_code-IsWritten _ 8 w h)))

put_match-IsWritten :
    (len dist : ℕ) (w : BitWriter) → IsWritten w → IsWritten (put_match len dist w)
unfolding put_match
put_match-IsWritten len dist w h = put-IsWritten _ _ _ (
    put_code-IsWritten _ 5 _
      (put-IsWritten _ _ _ (put_symbol-IsWritten (257 + base_index length_base len 28) w h)))

deflate_loop-IsWritten :
    (fuel : ℕ) (raw distances : List ℕ) (i : ℕ) (w : BitWriter)
    → IsWritten w
    → IsWritten (deflate_loop fuel raw distances i w)
unfolding deflate_loop
deflate_loop-IsWritten zero raw distances i w h = h
deflate_loop-IsWritten (suc fuel) raw distances i w h =
    let m = find_match raw i (min 258 (length raw - i)) distances (record { best = 0; dist = 0 }) in
    if_both IsWritten (ltb i (length raw)) _ w
      (deflate_loop-IsWritten fuel raw distances _ _ (
        if_both IsWritten (leb 3 m.best) _ _ (put_match-IsWritten m.best m.dist w h)
          (put_symbol-IsWritten (get_or raw i 0) w h)))
      h

pub deflate_fixed-All :
    (raw : List ℕ) (bpp stride : ℕ) (out : List ℕ)
    → All IsByte out
    → All IsByte (deflate_fixed raw bpp stride out)
unfolding deflate_fixed IsWritten
deflate_fixed-All raw bpp stride out h = flush-IsWritten _ (
    put_symbol-IsWritten 256 _ (
      deflate_loop-IsWritten (length raw) raw _ 0 _
        (put-IsWritten 1 2 _ (put-IsWritten 1 1 (record { out = out; acc = 0; used = 0 }) h))))

pub put_be32-All : (v : ℕ) → All IsByte (put_be32 v)
unfolding put_be32
put_be32-All v = (omega arith, (omega arith, (omega arith, (omega arith, tt))))
