-- ===== src/Png/Stream.antt =====
-- The bit writer of src/png.cpp as a stream of bits: what put, put_code and flush append to it.
use hh_cpp.Base.Streams.{low_bits}
use hh_cpp.Base.{
  ℕ, zero, suc, ◌+◌, ◌-◌, ◌*◌, ◌/◌, ◌%◌, ◌^◌, ◌≤◌, ◌<◌, ◌≡◌, refl, sym, ap, ap₂, ◌∙◌, arith,
}
use hh_cpp.Base.{List, [], ◌∷◌, ◌++◌, append_assoc, append-nil, u8, u32, ◌<<<◌, ◌>>>◌}
use hh_cpp.Base.{bit_and, bit_or, leb, leb→le, leb-false→lt, Bool-cases, inl, inr}
use native.Mathlib.Nat.{pow-suc, mod-lt, div-add-mod', mul-le-mul, pow-le-pow_right}
use hh_cpp.Base.Bits.{bit_and-255, bit_or_above, doubled}
use hh_cpp.Png.Bits.{BitWriter, drain, put}

-- The bits of some bytes in the order of deflate.
unfoldable pub bytes_bits : List ℕ → List ℕ
unfolding low_bits
bytes_bits [] = []
bytes_bits (b ∷ bytes) = low_bits 8 b ++ bytes_bits bytes

-- Everything that has been written.
unfoldable pub stream : BitWriter → List ℕ
stream w = bytes_bits w.out ++ low_bits w.used w.acc

-- Fewer than eight bits wait, and nothing stands above them.
abbrev pub IsTidy : BitWriter → Type 0
IsTidy w = (w.acc < 2 ^ w.used) × (w.used < 8)

-- Two fields, one above the other.
pub low_bits-join :
    (low count q r : ℕ)
    → r < 2 ^ low
    → low_bits (low + count) (q * 2 ^ low + r) ≡ low_bits low r ++ low_bits count q
unfolding low_bits
low_bits-join zero count q r h =
    ap₂ low_bits (let e : 0 + count ≡ count = omega arith in e)
      (let e : q * 2 ^ 0 + r ≡ q = omega arith in e)
low_bits-join (suc low) count q r h =
    let v = q * 2 ^ suc low + r in
    let last : v % 2 ≡ r % 2 = omega (arith, doubled q low) in
    let rest : v / 2 ≡ q * 2 ^ low + r / 2 = omega (arith, doubled q low) in
    ap (λ n. low_bits n v) (let e : suc low + count ≡ suc (low + count) = omega arith in e)
    ∙ ap₂ ◌∷◌ last (
        ap (low_bits (low + count)) rest
        ∙ low_bits-join low count q (r / 2) (omega (arith, pow-suc 2 low)))

join-lt : (low count q r : ℕ) → r < 2 ^ low → q < 2 ^ count → q * 2 ^ low + r < 2 ^ (low + count)
join-lt zero count q r hr hq = rw (let e : 0 + count ≡ count = omega arith in e) (omega arith)
join-lt (suc low) count q r hr hq =
    rw (let e : suc low + count ≡ suc (low + count) = omega arith in e) (
      omega (
        arith,
        doubled q low,
        pow-suc 2 low,
        pow-suc 2 (low + count),
        join-lt low count q (r / 2) (omega (arith, pow-suc 2 low)) hq,
      ))

pub pow-pos : (k : ℕ) → 0 < 2 ^ k
pow-pos zero = omega arith
pow-pos (suc k) = omega (arith, pow-suc 2 k, pow-pos k)

pub low_bits-mod : (count v : ℕ) → low_bits count (v % 2 ^ count) ≡ low_bits count v
unfolding low_bits
low_bits-mod count v =
    let r = v % 2 ^ count in
    let q = v / 2 ^ count in
    let small : r < 2 ^ count = mod-lt v (pow-pos count) in
    let whole : q * 2 ^ count + r ≡ v = div-add-mod' v (2 ^ count) in
    let same : count + 0 ≡ count = omega arith in
    sym (append-nil (low_bits count r))
    ∙ sym (low_bits-join count 0 q r small)
    ∙ ap₂ low_bits same whole

pow-8 : (m : ℕ) → 2 ^ (m + 8) ≡ 2 ^ m * 256
pow-8 m =
    ap (λ n. 2 ^ n)
      (let e : m + 8 ≡ suc (suc (suc (suc (suc (suc (suc (suc m))))))) = omega arith in e)
    ∙ omega (
      arith,
      pow-suc 2 m,
      pow-suc 2 (suc m),
      pow-suc 2 (suc (suc m)),
      pow-suc 2 (suc (suc (suc m))),
      pow-suc 2 (suc (suc (suc (suc m)))),
      pow-suc 2 (suc (suc (suc (suc (suc m))))),
      pow-suc 2 (suc (suc (suc (suc (suc (suc m)))))),
      pow-suc 2 (suc (suc (suc (suc (suc (suc (suc m))))))),
    )

pub byte_out : (acc : ℕ) → u8 (bit_and acc 0xff) ≡ acc % 2 ^ 8
byte_out acc = omega (arith, bit_and-255 acc)

-- A byte and what stands above it.
low_bits-byte :
    (used acc : ℕ)
    → 8 ≤ used
    → low_bits 8 (u8 (bit_and acc 0xff)) ++ low_bits (used - 8) (acc >>> 8) ≡ low_bits used acc
low_bits-byte used acc le =
    let small : acc % 2 ^ 8 < 2 ^ 8 = omega arith in
    ap (λ b. low_bits 8 b ++ low_bits (used - 8) (acc >>> 8)) (byte_out acc)
    ∙ sym (low_bits-join 8 (used - 8) (acc >>> 8) (acc % 2 ^ 8) small)
    ∙ ap₂ low_bits (let e : 8 + (used - 8) ≡ used = omega arith in e)
        (let e : (acc >>> 8) * 2 ^ 8 + acc % 2 ^ 8 ≡ acc = omega arith in e)

pub bytes_bits-append : (a b : List ℕ) → bytes_bits (a ++ b) ≡ bytes_bits a ++ bytes_bits b
unfolding bytes_bits
bytes_bits-append [] b = refl
bytes_bits-append (x ∷ a) b =
    ap (λ r. low_bits 8 x ++ r) (bytes_bits-append a b)
    ∙ sym (append_assoc (low_bits 8 x) (bytes_bits a) (bytes_bits b))

pub one_byte : (b : ℕ) → bytes_bits (b ∷ []) ≡ low_bits 8 b
unfolding bytes_bits
one_byte b = append-nil (low_bits 8 b)

moved :
    (w : BitWriter)
    → 8 ≤ w.used
    → bytes_bits (w.out ++ (u8 (bit_and w.acc 0xff) ∷ [])) ++ low_bits (w.used - 8) (w.acc >>> 8)
      ≡ bytes_bits w.out ++ low_bits w.used w.acc
moved w le =
    let b = u8 (bit_and w.acc 0xff) in
    let above = low_bits (w.used - 8) (w.acc >>> 8) in
    ap (λ r. r ++ above)
      (bytes_bits-append w.out (b ∷ []) ∙ ap (λ r. bytes_bits w.out ++ r) (one_byte b))
    ∙ append_assoc (bytes_bits w.out) (low_bits 8 b) above
    ∙ ap (λ r. bytes_bits w.out ++ r) (low_bits-byte w.used w.acc le)

-- Moving whole bytes to the vector changes nothing of what has been written.
drain-stream :
    (fuel : ℕ) (w : BitWriter)
    → w.used ≤ fuel
    → w.acc < 2 ^ w.used
    → (stream (drain fuel w) ≡ stream w) × IsTidy (drain fuel w)
unfolding drain stream bytes_bits
drain-stream zero w h small = (refl, (small, omega arith))
drain-stream (suc fuel) w h small =
    let b = u8 (bit_and w.acc 0xff) in
    let next : BitWriter = record {
      out = w.out ++ (b ∷ []);
      acc = w.acc >>> 8;
      used = w.used - 8;
    } in
    elim (Bool-cases (leb 8 w.used)) [
      | inr e ↦ rw e (refl, (small, leb-false→lt 8 w.used e))
      | inl e ↦
          let le = leb→le 8 w.used e in
          let split : 2 ^ w.used ≡ 2 ^ (w.used - 8) * 256 =
            ap (λ n. 2 ^ n) (let q : w.used ≡ w.used - 8 + 8 = omega arith in q)
            ∙ pow-8 (w.used - 8) in
          let r = drain-stream fuel next (omega arith) (omega arith) in rw e (r.0 ∙ moved w le, r.1)
    ]

-- A field is appended behind what has been written, the least significant bit first.
pub put-stream :
    (bits count : ℕ) (w : BitWriter)
    → IsTidy w
    → bits < 2 ^ count
    → count ≤ 13
    → (stream (put bits count w) ≡ stream w ++ low_bits count bits) × IsTidy (put bits count w)
unfolding put stream
put-stream bits count w (small, few) h le =
    let low : 2 ^ w.used ≤ 128 =
      pow-le-pow_right (omega arith) {i = w.used} {j = 7} (omega arith) in
    let high : 2 ^ count ≤ 8192 =
      pow-le-pow_right (omega arith) {i = count} {j = 13} (omega arith) in
    let product : bits * 2 ^ w.used ≤ 8192 * 128 = mul-le-mul {n₂ = 8192} (omega arith) low in
    let fits : u32 (bits <<< w.used) ≡ bits * 2 ^ w.used = omega arith in
    let joined : bit_or w.acc (u32 (bits <<< w.used)) ≡ bits * 2 ^ w.used + w.acc =
      ap (bit_or w.acc) fits ∙ bit_or_above w.used bits w.acc small in
    let next : BitWriter = record {
      out = w.out;
      acc = bit_or w.acc (u32 (bits <<< w.used));
      used = w.used + count;
    } in
    let r =
      drain-stream (w.used + count) next (omega arith)
        (rw joined (join-lt w.used count bits w.acc small h)) in
    (
      r.0
          ∙ ap (λ a. bytes_bits w.out ++ low_bits (w.used + count) a) joined
          ∙ ap (λ r. bytes_bits w.out ++ r) (low_bits-join w.used count bits w.acc small)
          ∙ sym (append_assoc (bytes_bits w.out) (low_bits w.used w.acc) (low_bits count bits)),
      r.1,
    )
