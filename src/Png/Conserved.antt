-- ===== src/Png/Conserved.antt =====
-- The bit writer keeps every bit: bit_writer of src/png.cpp.
use hh_cpp.Base.{ℕ, zero, suc, ◌+◌, ◌-◌, ◌*◌, ◌≤◌, ◌<◌, ◌≡◌, refl, arith, leb, leb→le, leb-false→lt}
use hh_cpp.Base.{
  Bool-cases, inl, inr, [], ◌∷◌, ◌++◌, length, length-append, u8, u32, bit_and, bit_or,
}
use hh_cpp.Base.{◌<<<◌, ◌>>>◌}
use hh_cpp.Png.Bits.{BitWriter, drain, put}

-- The number of bits that are written.
abbrev pub bits_of : BitWriter → ℕ
bits_of w = 8 * length w.out + w.used

drain-bits :
    (fuel : ℕ) (w : BitWriter)
    → w.used ≤ fuel
    → (bits_of (drain fuel w) ≡ bits_of w) × ((drain fuel w).used < 8)
unfolding drain
drain-bits zero w h = (refl, omega arith)
drain-bits (suc fuel) w h =
    let b = u8 (bit_and w.acc 0xff) in
    let next : BitWriter = record {
      out = w.out ++ (b ∷ []);
      acc = w.acc >>> 8;
      used = w.used - 8;
    } in
    elim (Bool-cases (leb 8 w.used)) [
      | inl e ↦
          let le = leb→le 8 w.used e in
          let r = drain-bits fuel next (omega arith) in
          rw (e) (omega (arith, r.0, length-append w.out (b ∷ [])), r.1)
      | inr e ↦ rw (e) (refl, leb-false→lt 8 w.used e)
    ]

-- Writing some bits adds that many to those written, and leaves fewer than eight of them out of
-- the vector.
pub put-bits :
    (bits count : ℕ) (w : BitWriter)
    → (bits_of (put bits count w) ≡ bits_of w + count) × ((put bits count w).used < 8)
unfolding put
put-bits bits count w =
    let next : BitWriter = record {
      out = w.out;
      acc = bit_or w.acc (u32 (bits <<< w.used));
      used = w.used + count;
    } in
    let r = drain-bits (w.used + count) next (omega arith) in (omega (arith, r.0), r.1)
