-- ===== src/Jpeg/Written.antt =====
-- What scan_writer of src/jpeg.cpp has written, byte stuffing taken out.
use hh_cpp.Base.{ℕ, zero, suc, ◌+◌, ◌-◌, ◌*◌, ◌%◌, ◌^◌, ◌≤◌, ◌≡◌, refl, sym, ap, ◌∙◌, arith}
use hh_cpp.Base.{
  false, List, [], ◌∷◌, ◌++◌, append_assoc, append-nil, length, length-append, u8, ◌>>>◌,
}
use hh_cpp.Base.{bit_and, leb, leb→le, leb-false→lt, ◌==◌, ==→eq, ==-false→ne, if◌then◌else◌}
use hh_cpp.Base.{Bool-cases, inl, inr}
use hh_cpp.Base.Bits.{bit_and-255}
use hh_cpp.Base.Streams.{code_bits, length-code_bits}
use hh_cpp.Jpeg.Scan.{ScanWriter, stuffed, emit, put, finish}
use hh_cpp.Jpeg.Stream.{code_bits-split, code_bits-lower, put_acc}

-- The bits of some bytes, the most significant first.
unfoldable pub byte_bits : List ℕ → List ℕ
byte_bits [] = []
byte_bits (b ∷ bytes) = code_bits 8 b ++ byte_bits bytes

unfoldable pub stuff : List ℕ → List ℕ
stuff [] = []
stuff (b ∷ bytes) = stuffed b ++ stuff bytes

-- A reader of the entropy-coded data: a zero behind 0xff is dropped, and another byte behind it
-- makes a marker, at which the data ends.
unfoldable pub unstuff : List ℕ → List ℕ
unstuff [] = []
unstuff (b ∷ []) = b ∷ []
unstuff (b ∷ c ∷ rest) =
    let plain = unstuff (c ∷ rest) in
    let behind = unstuff rest in if b == 0xff then if c == 0 then b ∷ behind else [] else b ∷ plain

unstuff-plain :
    (b c : ℕ) (rest : List ℕ)
    → (b == 0xff) ≡ false
    → unstuff (b ∷ c ∷ rest) ≡ b ∷ unstuff (c ∷ rest)
unfolding unstuff
unstuff-plain b c rest e = rw e refl

unstuff-stuffed :
    (b c : ℕ) (rest : List ℕ) → unstuff (stuffed b ++ (c ∷ rest)) ≡ b ∷ unstuff (c ∷ rest)
unfolding stuffed
unstuff-stuffed b c rest = elim (Bool-cases (b == 0xff)) [
  | inr e ↦ rw e (unstuff-plain b c rest e)
  | inl e ↦ rw e (unfold unstuff in rw e refl)
]

byte-append :
    (bytes : List ℕ) (b : ℕ) → byte_bits (bytes ++ (b ∷ [])) ≡ byte_bits bytes ++ code_bits 8 b
unfolding byte_bits
byte-append [] b = append-nil (code_bits 8 b)
byte-append (x ∷ bytes) b =
    ap (λ r. code_bits 8 x ++ r) (byte-append bytes b)
    ∙ sym (append_assoc (code_bits 8 x) (byte_bits bytes) (code_bits 8 b))

stuff-append : (bytes : List ℕ) (b : ℕ) → stuff (bytes ++ (b ∷ [])) ≡ stuff bytes ++ stuffed b
unfolding stuff
stuff-append [] b = append-nil (stuffed b)
stuff-append (x ∷ bytes) b =
    ap (λ r. stuffed x ++ r) (stuff-append bytes b)
    ∙ sym (append_assoc (stuffed x) (stuff bytes) (stuffed b))

-- The writer has put the bits `s` behind the bytes `before`: whole bytes stand in the vector with
-- their stuffing, and `limit` bits at most wait.
abbrev Holding : ℕ → List ℕ → ScanWriter → List ℕ → Type 0
Holding limit before w s =
    (bytes : List ℕ) × (w.out ≡ before ++ stuff bytes)
    × (w.used ≤ limit)
    × (byte_bits bytes ++ code_bits w.used w.acc ≡ s)

abbrev pub Wrote : List ℕ → ScanWriter → List ℕ → Type 0
Wrote before w s = Holding 7 before w s

byte_out :
    (w : ScanWriter)
    → 8 ≤ w.used
    → code_bits 8 (u8 (bit_and (w.acc >>> (w.used - 8)) 0xff)) ++ code_bits (w.used - 8) w.acc
      ≡ code_bits w.used w.acc
byte_out w le =
    let high = w.acc >>> (w.used - 8) in
    let byte : u8 (bit_and high 0xff) ≡ high % 2 ^ 8 = omega (arith, bit_and-255 high) in
    ap (λ bits. bits ++ code_bits (w.used - 8) w.acc)
      (ap (code_bits 8) byte ∙ code_bits-lower 8 8 high (omega arith))
    ∙ sym (code_bits-split 8 (w.used - 8) w.acc)
    ∙ ap (λ n. code_bits n w.acc) (let e : 8 + (w.used - 8) ≡ w.used = omega arith in e)

emit-Wrote :
    (fuel : ℕ) (before s : List ℕ) (w : ScanWriter)
    → w.used ≤ fuel
    → Holding fuel before w s
    → Wrote before (emit fuel w) s
unfolding emit
emit-Wrote zero before s w le (bytes, out, few, all) = (bytes, out, omega arith, all)
emit-Wrote (suc fuel) before s w le (bytes, out, few, all) =
    let b = u8 (bit_and (w.acc >>> (w.used - 8)) 0xff) in
    elim (Bool-cases (leb 8 w.used)) [
      | inr e ↦ rw e (bytes, out, omega (arith, leb-false→lt 8 w.used e), all)
      | inl e ↦
          let big = leb→le 8 w.used e in
          rw e (
            emit-Wrote fuel before s
              (record { out = w.out ++ stuffed b; acc = w.acc; used = w.used - 8 }) (omega arith)
              (
                bytes ++ (b ∷ []),
                ap (λ o. o ++ stuffed b) out
                    ∙ append_assoc before (stuff bytes) (stuffed b)
                    ∙ ap (λ r. before ++ r) (sym (stuff-append bytes b)),
                omega arith,
                ap (λ r. r ++ code_bits (w.used - 8) w.acc) (byte-append bytes b)
                    ∙ append_assoc (byte_bits bytes) (code_bits 8 b) (code_bits (w.used - 8) w.acc)
                    ∙ ap (λ r. byte_bits bytes ++ r) (byte_out w big)
                    ∙ all,
              ))
    ]

-- A field is appended behind what has been written, the most significant bit first.
pub put-Wrote :
    (bits count : ℕ) (before s : List ℕ) (w : ScanWriter)
    → count ≤ 16
    → Wrote before w s
    → Wrote before (put bits count w) (s ++ code_bits count bits)
unfolding put
put-Wrote bits count before s w le (bytes, out, few, all) =
    emit-Wrote (w.used + count) before _ _ (omega arith) (
      bytes,
      out,
      omega arith,
      ap (λ r. byte_bits bytes ++ r) (put_acc bits count w.acc w.used (omega arith) le)
          ∙ sym (append_assoc (byte_bits bytes) (code_bits w.used w.acc) (code_bits count bits))
          ∙ ap (λ r. r ++ code_bits count bits) all,
    )

not_empty : (xs : List ℕ) → (c : ℕ) × (rest : List ℕ) × (xs ++ (0xff ∷ 0xd9 ∷ []) ≡ c ∷ rest)
not_empty [] = (0xff, 0xd9 ∷ [], refl)
not_empty (x ∷ xs) = (x, xs ++ (0xff ∷ 0xd9 ∷ []), refl)

-- The reader finds the bytes again, up to the marker at the end of the image.
pub unstuff-stuff : (bytes : List ℕ) → unstuff (stuff bytes ++ (0xff ∷ 0xd9 ∷ [])) ≡ bytes
unfolding stuff
unstuff-stuff [] = unfold unstuff in refl
unstuff-stuff (b ∷ bytes) =
    let (c, rest, e) = not_empty (stuff bytes) in
    ap unstuff
      (append_assoc (stuffed b) (stuff bytes) (0xff ∷ 0xd9 ∷ []) ∙ ap (λ r. stuffed b ++ r) e)
    ∙ unstuff-stuffed b c rest
    ∙ ap (λ r. b ∷ unstuff r) (sym e)
    ∙ ap (λ r. b ∷ r) (unstuff-stuff bytes)

length-byte_bits : (bytes : List ℕ) → length (byte_bits bytes) ≡ 8 * length bytes
unfolding byte_bits
length-byte_bits [] = refl
length-byte_bits (b ∷ bytes) = omega (
  arith,
  length-append (code_bits 8 b) (byte_bits bytes),
  length-code_bits 8 b,
  length-byte_bits bytes,
)

length-Wrote :
    (before s : List ℕ) (w : ScanWriter) (h : Wrote before w s) → length s ≡ 8 * length h.0 + w.used
length-Wrote before s w (bytes, out, few, all) =
    ap length (sym all)
    ∙ length-append (byte_bits bytes) (code_bits w.used w.acc)
    ∙ omega (arith, length-byte_bits bytes, length-code_bits w.used w.acc)

-- What a finished scan is: whole bytes, the last of them filled up.
abbrev pub Finished : List ℕ → ScanWriter → List ℕ → Type 0
Finished before w s =
    (bytes : List ℕ) × (pad : List ℕ) × (w.out ≡ before ++ stuff bytes)
    × (byte_bits bytes ≡ s ++ pad)

whole :
    (before s pad : List ℕ) (w : ScanWriter)
    → w.used ≡ 0
    → Wrote before w (s ++ pad)
    → Finished before w s
unfolding code_bits
whole before s pad w none (bytes, out, few, all) = (
  bytes,
  pad,
  out,
  sym (append-nil (byte_bits bytes))
      ∙ ap (λ n. byte_bits bytes ++ code_bits n w.acc) (sym none)
      ∙ all,
)

-- The end of the scan fills the last byte with ones.
pub finish-Wrote :
    (before s : List ℕ) (w : ScanWriter) → Wrote before w s → Finished before (finish w) s
unfolding finish
finish-Wrote before s w h = elim (Bool-cases (w.used == 0)) [
  | inl e ↦ rw e (whole before s [] w (==→eq w.used 0 e) (h.0, h.1, h.2, h.3 ∙ sym (append-nil s)))
  | inr e ↦
      let count = 8 - w.used in
      let ones = 2 ^ count - 1 in
      let done = put-Wrote ones count before s w (omega arith) h in
      let aligned : (put ones count w).used ≡ 0 = omega (
        arith,
        length-Wrote before s w h,
        length-Wrote before (s ++ code_bits count ones) (put ones count w) done,
        length-append s (code_bits count ones),
        length-code_bits count ones,
        ==-false→ne w.used 0 e,
        h.2,
        done.2,
      ) in
      rw e (whole before s (code_bits count ones) (put ones count w) aligned done)
]
