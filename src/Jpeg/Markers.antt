-- ===== src/Jpeg/Markers.antt =====
-- The scan of a JPEG file holds no marker: scan_writer and its callers in src/jpeg.cpp.
use hh_cpp.Base.{ℕ, zero, suc, ◌+◌, ◌-◌, ◌*◌, ◌/◌, ◌≡◌, ◌≢◌, subst, sym}
use hh_cpp.Base.{Bool-cases, ==→eq, ==-false→ne, ◌==◌, leb, inl, inr, if_both}
use hh_cpp.Base.{List, [], ◌∷◌, ◌++◌, append_assoc, append-nil, u8, bit_and, ◌>>>◌}
use hh_cpp.Base.Int.{ℤ, pos, ◌-ℤ◌}
use hh_cpp.Types.{Rgb}
use hh_cpp.Encode.{PixelView}
use hh_cpp.Jpeg.Scan.{HuffmanEncoder, ScanWriter, stuffed, emit, put, finish, put_value, long_runs}
use hh_cpp.Jpeg.Scan.{put_coefficient, ac_loop, encode_block, category, put_entry, is_zero}
use hh_cpp.Jpeg.{
  ScanState, encode_components, encode_unit, encode_columns, encode_rows, jpeg_bytes, jpeg_header,
}

-- Bytes in which a zero stands behind every 0xff.
pub data IsStuffed : List ℕ → Type 0 where
  ended : IsStuffed []
  plain_byte : (b : ℕ) (rest : List ℕ) → b ≢ 0xff → IsStuffed rest → IsStuffed (b ∷ rest)
  escaped_byte : (rest : List ℕ) → IsStuffed rest → IsStuffed (0xff ∷ 0 ∷ rest)

append-IsStuffed : (xs ys : List ℕ) → IsStuffed xs → IsStuffed ys → IsStuffed (xs ++ ys)
append-IsStuffed xs ys ended t = t
append-IsStuffed xs ys (plain_byte b rest h s) t =
    plain_byte b (rest ++ ys) h (append-IsStuffed rest ys s t)
append-IsStuffed xs ys (escaped_byte rest s) t =
    escaped_byte (rest ++ ys) (append-IsStuffed rest ys s t)

stuffed-IsStuffed : (b : ℕ) → IsStuffed (stuffed b)
unfolding stuffed
stuffed-IsStuffed b = elim (Bool-cases (b == 0xff)) [
  | inl e ↦ rw (e, ==→eq b 0xff e) (escaped_byte [] ended)
  | inr e ↦ rw (e) (plain_byte b [] (==-false→ne b 0xff e) ended)
]

-- The first output is continued by stuffed bytes to the second.
pub data Continued (out : List ℕ) : List ℕ → Type 0 where
  by_bytes : (bytes : List ℕ) → IsStuffed bytes → Continued out (out ++ bytes)

Continued-refl : (out : List ℕ) → Continued out out
Continued-refl out = subst (Continued out) (append-nil out) (by_bytes [] ended)

Continued-trans : (x y z : List ℕ) → Continued x y → Continued y z → Continued x z
Continued-trans x y z (by_bytes s p) (by_bytes t q) =
    subst (Continued x) (sym (append_assoc x s t)) (by_bytes (s ++ t) (append-IsStuffed s t p q))

emit-Continued : (fuel : ℕ) (w : ScanWriter) → Continued w.out (emit fuel w).out
unfolding emit
emit-Continued zero w = Continued-refl w.out
emit-Continued (suc fuel) w =
    let b = u8 (bit_and (w.acc >>> (w.used - 8)) 0xff) in
    let next : ScanWriter = record { out = w.out ++ stuffed b; acc = w.acc; used = w.used - 8 } in
    if_both (λ (u : ScanWriter). Continued w.out u.out) (leb 8 w.used) (emit fuel next) w
      (Continued-trans w.out next.out (emit fuel next).out
        (by_bytes (stuffed b) (stuffed-IsStuffed b)) (emit-Continued fuel next))
      (Continued-refl w.out)

put-Continued : (bits count : ℕ) (w : ScanWriter) → Continued w.out (put bits count w).out
unfolding put
put-Continued bits count w = emit-Continued (w.used + count) _

put_entry-Continued :
    (e : HuffmanEncoder) (symbol : ℕ) (w : ScanWriter) → Continued w.out (put_entry e symbol w).out
put_entry-Continued e symbol w = put-Continued _ _ w

finish-Continued : (w : ScanWriter) → Continued w.out (finish w).out
unfolding finish
finish-Continued w =
    if_both (λ (v : ScanWriter). Continued w.out v.out) (w.used == 0) w _ (Continued-refl w.out)
      (put-Continued _ _ w)

put_value-Continued : (v : ℤ) (bits : ℕ) (w : ScanWriter) → Continued w.out (put_value v bits w).out
unfolding put_value
put_value-Continued v bits w =
    if_both (λ (u : ScanWriter). Continued w.out u.out) (bits == 0) w _ (Continued-refl w.out)
      (put-Continued _ bits w)

long_runs-Continued :
    (fuel : ℕ) (ac : HuffmanEncoder) (run : ℕ) (w : ScanWriter)
    → Continued w.out (long_runs fuel ac run w).0.out
unfolding long_runs
long_runs-Continued zero ac run w = Continued-refl w.out
long_runs-Continued (suc fuel) ac run w =
    if_both (λ (r : ScanWriter × ℕ). Continued w.out r.0.out) (leb 16 run) _ (w, run)
      (Continued-trans _ _ _ (put-Continued _ _ w)
        (long_runs-Continued fuel ac (run - 16) (put_entry ac 0xf0 w)))
      (Continued-refl w.out)

put_coefficient-Continued :
    (ac : HuffmanEncoder) (run : ℕ) (v : ℤ) (w : ScanWriter)
    → Continued w.out (put_coefficient ac run v w).out
unfolding put_coefficient
put_coefficient-Continued ac run v w =
    let long : ScanWriter × ℕ = long_runs run ac run w in
    let entry = put_entry ac (long.1 * 16 + category v) long.0 in
    Continued-trans w.out long.0.out _ (long_runs-Continued run ac run w) (
      Continued-trans long.0.out entry.out _
        (put_entry-Continued ac (long.1 * 16 + category v) long.0)
        (put_value-Continued v (category v) entry))

ac_loop-Continued :
    (ac : HuffmanEncoder) (values : List ℤ) (run : ℕ) (w : ScanWriter)
    → Continued w.out (ac_loop ac values run w).out
unfolding ac_loop
ac_loop-Continued ac [] run w =
    if_both (λ (u : ScanWriter). Continued w.out u.out) (run == 0) w _ (Continued-refl w.out)
      (put-Continued _ _ w)
ac_loop-Continued ac (v ∷ rest) run w =
    if_both (λ (u : ScanWriter). Continued w.out u.out) (is_zero v) _ _
      (ac_loop-Continued ac rest (suc run) w)
      (Continued-trans _ _ _ (put_coefficient-Continued ac run v w)
        (ac_loop-Continued ac rest 0 (put_coefficient ac run v w)))

-- Whatever the coefficients and the tables, a block appends stuffed bytes only.
pub encode_block-Continued :
    (zz : List ℤ) (previous_dc : ℤ) (dc ac : HuffmanEncoder) (w : ScanWriter)
    → Continued w.out (encode_block zz previous_dc dc ac w).0.out
unfolding encode_block
encode_block-Continued [] previous_dc dc ac w = Continued-refl w.out
encode_block-Continued (first ∷ rest) previous_dc dc ac w =
    let diff = first -ℤ previous_dc in
    let entry = put_entry dc (category diff) w in
    let value = put_value diff (category diff) entry in
    Continued-trans w.out entry.out _ (put_entry-Continued dc (category diff) w) (
      Continued-trans entry.out value.out _ (put_value-Continued diff (category diff) entry)
        (ac_loop-Continued ac rest 0 value))

components-Continued :
    (luma blue red : List ℤ) (dc0 ac0 dc1 ac1 : HuffmanEncoder) (s : ScanState)
    → Continued s.writer.out (encode_components luma blue red dc0 ac0 dc1 ac1 s).writer.out
unfolding encode_components
components-Continued luma blue red dc0 ac0 dc1 ac1 s =
    let w1 = (encode_block luma s.dc_luma dc0 ac0 s.writer).0 in
    let w2 = (encode_block blue s.dc_blue dc1 ac1 w1).0 in
    Continued-trans s.writer.out w1.out _ (encode_block-Continued luma s.dc_luma dc0 ac0 s.writer) (
      Continued-trans w1.out w2.out _ (encode_block-Continued blue s.dc_blue dc1 ac1 w1)
        (encode_block-Continued red s.dc_red dc1 ac1 w2))

unit-Continued :
    (img : PixelView) (matte : Rgb) (quality by bx : ℕ) (s : ScanState)
    → Continued s.writer.out (encode_unit img matte quality by bx s).writer.out
unfolding encode_unit
unit-Continued img matte quality by bx s = components-Continued _ _ _ _ _ _ _ s

columns-Continued :
    (img : PixelView) (matte : Rgb) (quality by left bx : ℕ) (s : ScanState)
    → Continued s.writer.out (encode_columns img matte quality by left bx s).writer.out
unfolding encode_columns
columns-Continued img matte quality by zero bx s = Continued-refl s.writer.out
columns-Continued img matte quality by (suc left) bx s =
    Continued-trans s.writer.out (encode_unit img matte quality by bx s).writer.out _
      (unit-Continued img matte quality by bx s)
      (columns-Continued img matte quality by left (bx + 8) (encode_unit img matte quality by bx s))

rows-Continued :
    (img : PixelView) (matte : Rgb) (quality left by : ℕ) (s : ScanState)
    → Continued s.writer.out (encode_rows img matte quality left by s).writer.out
unfolding encode_rows
rows-Continued img matte quality zero by s = Continued-refl s.writer.out
rows-Continued img matte quality (suc left) by s =
    let next = encode_columns img matte quality by ((img.width + 7) / 8) 0 s in
    Continued-trans s.writer.out next.writer.out _
      (columns-Continued img matte quality by ((img.width + 7) / 8) 0 s)
      (rows-Continued img matte quality left (by + 8) next)

ending :
    (header : List ℕ) (out : List ℕ)
    → Continued header out
    → (scan : List ℕ) × IsStuffed scan
      × (out ++ (0xff ∷ 0xd9 ∷ []) ≡ header ++ (scan ++ (0xff ∷ 0xd9 ∷ [])))
ending header out (by_bytes scan s) = (scan, s, append_assoc header scan (0xff ∷ 0xd9 ∷ []))

-- A JPEG file is its header, entropy-coded bytes in which a zero stands behind every 0xff, so
-- that no marker is among them, and the end marker.
pub jpeg_bytes-IsStuffed :
    (img : PixelView) (quality : ℕ) (matte : Rgb)
    → (scan : List ℕ) × IsStuffed scan
      × (jpeg_bytes img quality matte ≡ jpeg_header img quality ++ (scan ++ (0xff ∷ 0xd9 ∷ [])))
unfolding jpeg_bytes
jpeg_bytes-IsStuffed img quality matte =
    let writer : ScanWriter = record { out = jpeg_header img quality; acc = 0; used = 0 } in
    let start : ScanState = record {
      writer = writer;
      dc_luma = pos 0;
      dc_blue = pos 0;
      dc_red = pos 0;
    } in
    let done = encode_rows img matte quality ((img.height + 7) / 8) 0 start in
    ending (jpeg_header img quality) (finish done.writer).out (
      Continued-trans (jpeg_header img quality) done.writer.out _
        (rows-Continued img matte quality ((img.height + 7) / 8) 0 start)
        (finish-Continued done.writer))
