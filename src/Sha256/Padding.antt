-- ===== src/Sha256/Padding.antt =====
-- `finish` of src/sha256.cpp against the padding of FIPS 180-4.
use hh_cpp.Base.{ℕ, ◌+◌, ◌-◌, ◌*◌, ◌%◌, ◌<◌, ◌≤◌, ◌≡◌, refl, sym, ap, ap₂, ◌∙◌}
use native.Mathlib.Nat.{div-one}
use hh_cpp.Base.{List, [], ◌∷◌, ◌++◌, append_assoc, arith, Bool-cases, inl, inr}
use hh_cpp.Base.{length, take, drop, set, replicate, write_at, ltb, u64}
use hh_cpp.Base.{length-append, length-drop, length-take, length-set, length-replicate}
use hh_cpp.Base.{
  take-append_eq, drop-append_eq, set-append, take-set, write_at_end, replicate-append,
  take-append-drop,
}
use hh_cpp.Base.{ltb→lt, ltb-false→le, take-write_at, take-zero, length-write_at, take-all}
use hh_cpp.Sha256.Compress.{sha256_compress, sha256_store}
use hh_cpp.Sha256.{Sha256, length_loop, spill, finish}
use hh_cpp.Sha256.Fips.{absorb, be64, padding, padded_blocks}
use hh_cpp.Sha256.Fips.{absorb-append, absorb_zero, absorb-suc}
use hh_cpp.Sha256.Streaming.{Absorbed, compress_state, compress_lem}

last_eight :
    (n : ℕ) (p q : List ℕ) → length p ≡ 56 → length q ≡ 8 → length_loop 8 0 n (p ++ q) ≡ p ++ be64 n
unfolding length_loop
last_eight n p [] lp lq = absurd (omega arith)
last_eight n p (q0 ∷ []) lp lq = absurd (omega arith)
last_eight n p (q0 ∷ q1 ∷ []) lp lq = absurd (omega arith)
last_eight n p (q0 ∷ q1 ∷ q2 ∷ []) lp lq = absurd (omega arith)
last_eight n p (q0 ∷ q1 ∷ q2 ∷ q3 ∷ []) lp lq = absurd (omega arith)
last_eight n p (q0 ∷ q1 ∷ q2 ∷ q3 ∷ q4 ∷ []) lp lq = absurd (omega arith)
last_eight n p (q0 ∷ q1 ∷ q2 ∷ q3 ∷ q4 ∷ q5 ∷ []) lp lq = absurd (omega arith)
last_eight n p (q0 ∷ q1 ∷ q2 ∷ q3 ∷ q4 ∷ q5 ∷ q6 ∷ []) lp lq = absurd (omega arith)
last_eight n p (q0 ∷ q1 ∷ q2 ∷ q3 ∷ q4 ∷ q5 ∷ q6 ∷ q7 ∷ q8 ∷ q) lp lq = absurd (omega arith)
last_eight n p (q0 ∷ q1 ∷ q2 ∷ q3 ∷ q4 ∷ q5 ∷ q6 ∷ q7 ∷ []) lp lq =
    rw
      (
        set-append p _ 63 7 _ (omega arith),
        set-append p _ 62 6 _ (omega arith),
        set-append p _ 61 5 _ (omega arith),
        set-append p _ 60 4 _ (omega arith),
        set-append p _ 59 3 _ (omega arith),
        set-append p _ 58 2 _ (omega arith),
        set-append p _ 57 1 _ (omega arith),
        set-append p _ 56 0 _ (omega arith),
      )
      (rw div-one)

-- The eight stores write the length over the end of the block.
length_loop_lem :
    (n : ℕ) (buffer : List ℕ)
    → length buffer ≡ 64
    → length_loop 8 0 n buffer ≡ take 56 buffer ++ be64 n
length_loop_lem n buffer e =
    ap (length_loop 8 0 n) (sym (take-append-drop 56 buffer))
    ∙ last_eight n (take 56 buffer) (drop 56 buffer) (length-take 56 buffer (omega arith))
        (omega (arith, length-drop 56 buffer))

be64-u64 : (n : ℕ) → be64 (u64 n) ≡ be64 n
be64-u64 n = ground arith

regroup : (r : List ℕ) (x : ℕ) (z l : List ℕ) → ((r ++ (x ∷ [])) ++ z) ++ l ≡ r ++ (x ∷ (z ++ l))
regroup r x z l = append_assoc (r ++ (x ∷ [])) z l ∙ append_assoc r (x ∷ []) (z ++ l)

-- `set` of the terminator in a buffer that holds `rest`.
module _ (s0 : List ℕ) (base : ℕ) (m : List ℕ) (h : Sha256) (a : Absorbed s0 base m h) where
  marked : Sha256
  marked = record h { buffer = set h.buffer h.buffered 0x80; buffered = h.buffered + 1 }

  take-marked : take marked.buffered marked.buffer ≡ a.rest ++ (0x80 ∷ [])
  unfolding marked
  take-marked =
      take-set h.buffer h.buffered 0x80 (omega (arith, a.buffered_eq, a.partial, a.buffer_size))
      ∙ ap (λ t. t ++ (0x80 ∷ [])) (rw a.buffered_eq a.buffer_eq)

  length-marked : length marked.buffer ≡ 64
  unfolding marked
  length-marked = length-set h.buffer h.buffered 0x80 ∙ a.buffer_size

  size_split : length m ≡ 64 * a.blocks + length a.rest
  size_split = ap (λ t. length t) a.splits ∙ omega (arith, length-append a.front a.rest, a.whole)

  rest_size : length a.rest ≡ length m % 64
  rest_size = omega (arith, size_split, a.partial)

  final_block : List ℕ → ℕ → List ℕ
  final_block buffer at =
      length_loop 8 0 (u64 (h.length_ * 8)) (write_at buffer at (replicate (56 - at) 0))

  final_block_lem :
      (buffer : List ℕ) (at : ℕ)
      → length buffer ≡ 64
      → at ≤ 56
      → final_block buffer at
        ≡ (take at buffer ++ replicate (56 - at) 0) ++ be64 (8 * (base + length m))
  unfolding final_block
  final_block_lem buffer at size low =
      let zeros : List ℕ = replicate (56 - at) 0 in
      let fits : at + length zeros ≡ 56 = omega (arith, length-replicate {A = ℕ} (56 - at) 0) in
      length_loop_lem _ (write_at buffer at zeros)
        (length-write_at buffer at zeros (omega (arith, fits, size)) ∙ size)
      ∙ ap₂ ◌++◌
          (ap (λ n. take n (write_at buffer at zeros)) (omega (arith, low))
            ∙ take-write_at buffer at (56 - at) zeros (length-replicate (56 - at) 0) (omega arith))
          (ap be64 (omega (arith, a.length_eq)) ∙ be64-u64 (8 * (base + length m)))

  length-final_block :
      (buffer : List ℕ) (at : ℕ)
      → length buffer ≡ 64
      → at ≤ 56
      → length (final_block buffer at) ≡ 64
  length-final_block buffer at size low =
      ap (λ t. length t) (final_block_lem buffer at size low)
      ∙ omega (
        arith,
        length-append (take at buffer ++ replicate (56 - at) 0) (be64 (8 * (base + length m))),
        length-append (take at buffer) (replicate (56 - at) 0),
        length-take at buffer (omega arith),
        length-replicate {A = ℕ} (56 - at) 0,
      )

  -- One block behind the front.
  absorb_last :
      (b : List ℕ)
      → length b ≡ 64
      → absorb (a.blocks + 1) s0 (a.front ++ b) ≡ sha256_compress h.state b
  absorb_last b size =
      absorb-append a.blocks 1 s0 a.front b a.whole
      ∙ rw (absorb-suc, absorb_zero, take-all 64 b (omega arith), ← a.state_eq)

  absorb_last_two :
      (b c : List ℕ)
      → length b ≡ 64
      → length c ≡ 64
      → absorb (a.blocks + 2) s0 (a.front ++ (b ++ c))
        ≡ sha256_compress (sha256_compress h.state b) c
  absorb_last_two b c sb sc =
      absorb-append a.blocks 2 s0 a.front (b ++ c) a.whole
      ∙ rw (
        absorb-suc,
        absorb-suc,
        absorb_zero,
        take-append_eq 64 b c sb,
        drop-append_eq 64 b c sb,
        take-all 64 c (omega arith),
        ← a.state_eq,
      )

  -- What stands behind the front in the padded message.
  tail_of_padded : ℕ → List ℕ
  tail_of_padded k = a.rest ++ (0x80 ∷ (replicate k 0 ++ be64 (8 * (base + length m))))

  padded-split :
      (k : ℕ)
      → (119 - (base + length m) % 64) % 64 ≡ k
      → m ++ padding (base + length m) ≡ a.front ++ tail_of_padded k
  unfolding padding tail_of_padded
  padded-split k e =
      ap (λ t. t ++ padding (base + length m)) a.splits ∙ append_assoc a.front a.rest _ ∙ rw e refl

  marked_count : marked.buffered ≡ h.buffered + 1
  unfolding marked
  marked_count = refl

  low_tail :
      h.buffered < 56 → tail_of_padded (55 - h.buffered) ≡ final_block marked.buffer marked.buffered
  unfolding tail_of_padded
  low_tail low =
      let count : 56 - marked.buffered ≡ 55 - h.buffered = omega (arith, marked_count) in
      sym (
        final_block_lem marked.buffer marked.buffered length-marked (omega (arith, marked_count))
        ∙ rw (take-marked, count) (regroup a.rest 0x80 (replicate (55 - h.buffered) 0) _))

  -- The block that the terminator overfills.
  first_block : List ℕ
  first_block = write_at marked.buffer marked.buffered (replicate (64 - marked.buffered) 0)

  first_block_lem :
      56 ≤ h.buffered → first_block ≡ (a.rest ++ (0x80 ∷ [])) ++ replicate (63 - h.buffered) 0
  unfolding first_block
  first_block_lem high =
      let zeros : List ℕ = replicate (64 - marked.buffered) 0 in
      let count : 64 - marked.buffered ≡ 63 - h.buffered = omega (arith, marked_count) in
      write_at_end marked.buffer marked.buffered zeros (
        omega (
          arith,
          length-replicate {A = ℕ} (64 - marked.buffered) 0,
          length-marked,
          marked_count,
          a.partial,
          a.buffered_eq,
        ))
      ∙ rw (take-marked, count) refl

  length-first_block : 56 ≤ h.buffered → length first_block ≡ 64
  length-first_block high =
      ap (λ t. length t) (first_block_lem high)
      ∙ omega (
        arith,
        length-append (a.rest ++ (0x80 ∷ [])) (replicate (63 - h.buffered) 0),
        length-append a.rest (0x80 ∷ []),
        length-replicate {A = ℕ} (63 - h.buffered) 0,
        a.partial,
        a.buffered_eq,
      )

  high_tail :
      56 ≤ h.buffered → tail_of_padded (119 - h.buffered) ≡ first_block ++ final_block first_block 0
  unfolding tail_of_padded
  high_tail high =
      let size = length-first_block high in
      let count : 119 - h.buffered ≡ (63 - h.buffered) + 56 =
        omega (arith, a.partial, a.buffered_eq) in
      let Z : List ℕ = replicate (63 - h.buffered) 0 in
      let L : List ℕ = be64 (8 * (base + length m)) in
      sym (
        ap₂ ◌++◌ (first_block_lem high) (final_block_lem first_block 0 size (omega arith))
        ∙ rw (take-zero) (
            regroup a.rest 0x80 Z (replicate 56 0 ++ L)
            ∙ rw (count, ← replicate-append {A = ℕ} (63 - h.buffered) 56 0, append_assoc) refl))

  spill_low : h.buffered < 56 → spill marked ≡ marked
  unfolding spill
  spill_low low = elim (Bool-cases (ltb 56 marked.buffered)) [
    | inl e ↦ absurd (omega (arith, ltb→lt _ _ e, marked_count))
    | inr e ↦ rw e
  ]

  spilled : Sha256
  spilled = record h {
    state = sha256_compress h.state first_block;
    buffer = first_block;
    buffered = 0;
  }

  spill_high : 56 ≤ h.buffered → spill marked ≡ spilled
  unfolding spill spilled first_block
  spill_high high = elim (Bool-cases (ltb 56 marked.buffered)) [
    | inl e ↦ rw (e, compress_lem) (unfold marked in refl)
    | inr e ↦ absurd (omega (arith, ltb-false→le _ _ e, marked_count))
  ]

  finish_output :
      (t : Sha256)
      → spill marked ≡ t
      → (finish h).1 ≡ sha256_store (sha256_compress t.state (final_block t.buffer t.buffered))
  unfolding finish marked final_block
  finish_output t e = rw (← e) (ap sha256_store (compress_state _ _))

  -- `finish` writes the hash of the message with the padding of the whole input behind it.
  pub finish-Absorbed :
      base % 64 ≡ 0
      → (finish h).1
        ≡ sha256_store (absorb (padded_blocks (length m)) s0 (m ++ padding (base + length m)))
  finish-Absorbed z = elim (Bool-cases (ltb h.buffered 56)) [
    | inl e ↦
        let low = ltb→lt _ _ e in
        let blocks : padded_blocks (length m) ≡ a.blocks + 1 =
          omega (arith, rest_size, a.buffered_eq, size_split) in
        finish_output marked (spill_low low)
        ∙ ap sha256_store (
            rw
              (
                blocks,
                padded-split (55 - h.buffered) (omega (arith, rest_size, a.buffered_eq, z)),
                low_tail low,
              )
              (unfold marked in
                sym (
                  absorb_last _ (
                    length-final_block marked.buffer marked.buffered length-marked
                      (omega (arith, marked_count))))))
    | inr e ↦
        let high = ltb-false→le _ _ e in
        let blocks : padded_blocks (length m) ≡ a.blocks + 2 =
          omega (arith, rest_size, a.buffered_eq, size_split) in
        finish_output spilled (spill_high high)
        ∙ ap sha256_store (
            rw
              (
                blocks,
                padded-split (119 - h.buffered) (omega (arith, rest_size, a.buffered_eq, z)),
                high_tail high,
              )
              (unfold spilled in
                sym (
                  absorb_last_two first_block _ (length-first_block high)
                    (length-final_block first_block 0 (length-first_block high) (omega arith)))))
  ]
