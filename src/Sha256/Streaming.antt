-- ===== src/Sha256/Streaming.antt =====
-- `update` of src/sha256.cpp against the message that it has been given: the state covers the
-- whole blocks, the buffer holds the rest.
use hh_cpp.Base.{ℕ, zero, suc, ◌+◌, ◌-◌, ◌*◌, ◌/◌, ◌<◌, ◌≤◌, ◌≡◌, refl, sym, ap, ◌∙◌}
use hh_cpp.Base.{◌≡⟨◌⟩◌, ◌∎}
use hh_cpp.Base.{List, [], ◌∷◌, ◌++◌, append_assoc, append-nil, arith, Bool-cases, inl, inr}
use hh_cpp.Base.{length, take, drop, write_at, leb, ltb, ◌==◌, u64, min}
use hh_cpp.Base.{length-append, length-drop, length-take}
use hh_cpp.Base.{take-append-drop, drop-drop, take-all}
use hh_cpp.Base.{leb→le, leb-false→lt, ltb→lt, ltb-false→le, ==→eq, suc-==-zero}
use hh_cpp.Base.{take-zero, take-write_at_front, length-zero}
use hh_cpp.Base.{length-write_at, take-write_at}
use hh_cpp.Sha256.Compress.{sha256_compress, sha256_compress_secret-eq}
use hh_cpp.Sha256.{Sha256, Secrecy, compress, compress_with, compress_loop, keep_rest}
use hh_cpp.Sha256.{update_aligned, update_buffered, update}
use hh_cpp.Sha256.Fips.{absorb, absorb-append, absorb_zero, absorb-suc, absorb-take}

-- `h` has been given the bytes `m` since it stood at state `s0` with `base` bytes behind it.
pub record Absorbed (s0 : List ℕ) (base : ℕ) (m : List ℕ) (h : Sha256) : Type 0 where
  pub blocks : ℕ
  pub front : List ℕ
  pub rest : List ℕ
  pub splits : m ≡ front ++ rest
  pub whole : length front ≡ 64 * blocks
  pub partial : length rest < 64
  pub state_eq : h.state ≡ absorb blocks s0 front
  pub buffered_eq : h.buffered ≡ length rest
  pub buffer_size : length h.buffer ≡ 64
  pub buffer_eq : take (length rest) h.buffer ≡ rest
  pub length_eq : h.length_ ≡ u64 (base + length m)

-- Which compression runs is a matter of wiping alone.
pub compress_state :
    (h : Sha256) (block : List ℕ) → (compress h block).state ≡ sha256_compress h.state block
unfolding compress
compress_state h block = go h.secrecy
  where
    go : (s : Secrecy) → compress_with s h.state block ≡ sha256_compress h.state block
    go Secrecy.public_data = refl
    go Secrecy.secret_data = sha256_compress_secret-eq h.state block

-- A compression changes the state and nothing else.
pub compress_lem :
    (h : Sha256) (block : List ℕ)
    → compress h block ≡ record h { state = sha256_compress h.state block }
unfolding compress
compress_lem h block = λ i. record h { state = compress_state h block i }

-- The loop absorbs every whole block and hands back what is left.
compress_loop_lem :
    (fuel : ℕ) (h : Sha256) (d : List ℕ)
    → length d ≤ fuel
    → compress_loop fuel h d
      ≡ (record h { state = absorb (length d / 64) h.state d }, drop (64 * (length d / 64)) d)
unfolding compress_loop drop
compress_loop_lem zero h [] le = rw absorb_zero
compress_loop_lem zero h (x ∷ d) le = absurd (omega arith)
compress_loop_lem (suc fuel) h d le = elim (Bool-cases (leb 64 (length d))) [
  | inl more ↦
      let h' = record h { state = sha256_compress h.state (take 64 d) } in
      let k = length (drop 64 d) / 64 in
      let e : length d / 64 ≡ suc k = omega (arith, leb→le 64 (length d) more, length-drop 64 d) in
      let e' : 64 * suc k ≡ 64 + 64 * k = omega arith in
      let ih = compress_loop_lem fuel h' (drop 64 d) (omega (arith, length-drop 64 d)) in
      rw (more, compress_lem, ih, e, e', ← drop-drop 64 (64 * k) d, absorb-suc)
  | inr done ↦
      let e : length d / 64 ≡ 0 = omega (arith, leb-false→lt 64 (length d) done) in
      rw (done, e, absorb_zero)
]

-- A buffer that holds `rest` in front.
record Holds (rest : List ℕ) (h : Sha256) : Type 0 where
  buffered_eq : h.buffered ≡ length rest
  buffer_size : length h.buffer ≡ 64
  buffer_eq : take (length rest) h.buffer ≡ rest

keep_rest-cons :
    (x : ℕ) (rest : List ℕ) (h : Sha256)
    → keep_rest (x ∷ rest) h
      ≡ record h { buffer = write_at h.buffer 0 (x ∷ rest); buffered = suc (length rest) }
unfolding keep_rest
keep_rest-cons x rest h = rw suc-==-zero

keep_rest-Holds :
    (rest : List ℕ) (h : Sha256)
    → length rest < 64
    → h.buffered ≡ 0
    → length h.buffer ≡ 64
    → Holds rest (keep_rest rest h)
keep_rest-Holds [] h fits empty size =
    unfold keep_rest in
    record { buffered_eq = empty; buffer_size = size; buffer_eq = take-zero h.buffer }
keep_rest-Holds (x ∷ rest) h fits empty size = rw (keep_rest-cons x rest h) record {
  buffered_eq = refl;
  buffer_size = length-write_at h.buffer 0 (x ∷ rest) (omega arith) ∙ size;
  buffer_eq = take-write_at_front h.buffer (x ∷ rest);
}

keep_rest-state :
    (rest : List ℕ) (h : Sha256)
    → ((keep_rest rest h).state ≡ h.state) × ((keep_rest rest h).length_ ≡ h.length_)
keep_rest-state [] h = unfold keep_rest in (refl, refl)
keep_rest-state (x ∷ rest) h = rw (keep_rest-cons x rest h) (refl, refl)

-- `update` with an empty buffer, when `front` has gone into the state.
aligned-Absorbed :
    (s0 : List ℕ) (base n : ℕ) (front d : List ℕ) (h : Sha256)
    → length front ≡ 64 * n
    → h.state ≡ absorb n s0 front
    → h.buffered ≡ 0
    → length h.buffer ≡ 64
    → h.length_ ≡ u64 (base + length (front ++ d))
    → Absorbed s0 base (front ++ d) (update_aligned h d)
aligned-Absorbed s0 base n front d h whole st empty size len =
    let k = length d / 64 in
    let rest = drop (64 * k) d in
    let taken = take (64 * k) d in
    let h' = record h { state = absorb k h.state d } in
    let e : update_aligned h d ≡ keep_rest rest h' =
      unfold update_aligned in
      ap (λ (p : Sha256 × List ℕ). keep_rest p.1 p.0)
        (compress_loop_lem (length d) h d (omega arith)) in
    let few : length rest < 64 = omega (arith, length-drop (64 * k) d) in
    let held = keep_rest-Holds rest h' few empty size in
    let kept = keep_rest-state rest h' in
    let taken_size : length taken ≡ 64 * k = length-take (64 * k) d (omega arith) in
    rw e (record {
      blocks = n + k;
      front = front ++ taken;
      rest = rest;
      splits =
          ap (λ t. front ++ t) (sym (take-append-drop (64 * k) d))
          ∙ sym (append_assoc front taken rest);
      whole = omega (arith, length-append front taken);
      partial = few;
      state_eq =
          kept.0
          ∙ rw (st, ← absorb-take k (absorb n s0 front) d (omega arith))
              (sym (absorb-append n k s0 front taken whole));
      buffered_eq = held.buffered_eq;
      buffer_size = held.buffer_size;
      buffer_eq = held.buffer_eq;
      length_eq = kept.1 ∙ len;
    })

module _ (s0 : List ℕ) (base : ℕ) (m d : List ℕ) (h : Sha256) (a : Absorbed s0 base m h) where
  -- How much of the input goes into the buffer, and the buffer then.
  room : ℕ
  room = min (length d) (64 - h.buffered)

  filled : List ℕ
  unfolding room
  filled = write_at h.buffer h.buffered (take room d)

  length-filled : length filled ≡ 64
  unfolding filled
  length-filled =
      length-write_at h.buffer h.buffered (take room d)
        (omega (arith, a.buffered_eq, a.buffer_size, a.partial, length-take room d (omega arith)))
      ∙ a.buffer_size

  take-filled : take (h.buffered + room) filled ≡ a.rest ++ take room d
  unfolding filled
  take-filled =
      take-write_at h.buffer h.buffered room (take room d)
        (length-take room d (unfold room in omega arith))
        (omega (arith, a.buffered_eq, a.buffer_size, a.partial))
      ∙ ap (λ t. t ++ take room d) (rw a.buffered_eq a.buffer_eq)

  counted : u64 (h.length_ + length d) ≡ u64 (base + length (m ++ d))
  counted = omega (arith, a.length_eq, length-append m d)

  -- The input does not fill the block.
  short-Absorbed :
      h.buffered + room < 64
      → Absorbed s0 base (m ++ d) (record h {
        buffer = filled;
        buffered = h.buffered + room;
        length_ = u64 (h.length_ + length d);
      })
  unfolding room
  short-Absorbed fits =
      let all : take room d ≡ d = take-all room d (omega arith) in
      record {
        blocks = a.blocks;
        front = a.front;
        rest = a.rest ++ d;
        splits = ap (λ t. t ++ d) a.splits ∙ append_assoc a.front a.rest d;
        whole = a.whole;
        partial = omega (arith, length-append a.rest d, a.buffered_eq);
        state_eq = a.state_eq;
        buffered_eq = omega (arith, length-append a.rest d, a.buffered_eq);
        buffer_size = length-filled;
        buffer_eq =
            rw (length-append a.rest d, ← a.buffered_eq)
              (ap (λ n. take (h.buffered + n) filled) (omega arith) ∙ take-filled ∙ rw all);
        length_eq = counted;
      }

  filled-block : 64 ≤ h.buffered + room → filled ≡ a.rest ++ take room d
  filled-block full =
      sym (take-all (h.buffered + room) filled (omega (arith, length-filled))) ∙ take-filled

  full-state :
      (full : 64 ≤ h.buffered + room)
      → sha256_compress h.state filled ≡ absorb (a.blocks + 1) s0 (a.front ++ filled)
  full-state full = sym (
      absorb-append a.blocks 1 s0 a.front filled a.whole
      ∙ rw (absorb-suc, absorb_zero, take-all 64 filled (omega (arith, length-filled)), a.state_eq))

  full-splits : 64 ≤ h.buffered + room → m ++ d ≡ (a.front ++ filled) ++ drop room d
  full-splits full =
      m ++ d
      ≡⟨ ap (λ t. t ++ d) a.splits ∙ append_assoc a.front a.rest d ⟩ a.front ++ (a.rest ++ d)
      ≡⟨ ap (λ t. a.front ++ (a.rest ++ t)) (sym (take-append-drop room d)) ⟩
        a.front ++ (a.rest ++ (take room d ++ drop room d))
      ≡⟨ ap (λ t. a.front ++ t) (sym (append_assoc a.rest (take room d) (drop room d))) ⟩
        a.front ++ ((a.rest ++ take room d) ++ drop room d)
      ≡⟨ rw (filled-block full) (sym (append_assoc a.front _ (drop room d))) ⟩
        (a.front ++ filled) ++ drop room d ∎

  -- The input fills the block, which is compressed; the rest goes on with an empty buffer.
  full-Absorbed :
      64 ≤ h.buffered + room
      → Absorbed s0 base (m ++ d) (
          update_aligned
            (record h {
              state = sha256_compress h.state filled;
              buffer = filled;
              buffered = 0;
              length_ = u64 (h.length_ + length d);
            })
            (drop room d))
  full-Absorbed full = rw (full-splits full) (
      aligned-Absorbed s0 base (a.blocks + 1) (a.front ++ filled) (drop room d) _
        (omega (arith, length-append a.front filled, length-filled, a.whole)) (full-state full) refl
        length-filled (rw (← full-splits full) counted))

  -- `update` without its test for an empty input.
  buffered-Absorbed :
      Absorbed s0 base
        (m ++ d)
        (update_buffered (record h { length_ = u64 (h.length_ + length d) }) d)
  unfolding update_buffered room filled
  buffered-Absorbed = elim (Bool-cases (ltb (h.buffered + room) 64)) [
    | inl e ↦ rw e (short-Absorbed (ltb→lt _ _ e))
    | inr e ↦ rw (e, compress_lem) (full-Absorbed (ltb-false→le _ _ e))
  ]

  -- `update` where the buffer is empty.
  empty-Absorbed :
      h.buffered ≡ 0
      → Absorbed s0 base
          (m ++ d)
          (update_aligned (record h { length_ = u64 (h.length_ + length d) }) d)
  empty-Absorbed e =
      let none_left : a.rest ≡ [] = length-zero a.rest (omega (arith, a.buffered_eq)) in
      let fr : m ≡ a.front = a.splits ∙ rw none_left (append-nil a.front) in
      rw fr (
        aligned-Absorbed s0 base a.blocks a.front d _ a.whole a.state_eq e a.buffer_size
          (rw (← fr) counted))

  -- `update` extends the message that the hasher stands for, whatever the sizes.
  pub update-Absorbed : Absorbed s0 base (m ++ d) (update h d)
  unfolding update
  update-Absorbed = elim (Bool-cases (length d == 0)) [
    | inl e ↦ rw (e, length-zero d (==→eq _ _ e), append-nil) a
    | inr e ↦ elim (Bool-cases (h.buffered == 0)) [
      | inl z ↦ rw (e, z) (empty-Absorbed (==→eq _ _ z))
      | inr z ↦ rw (e, z) buffered-Absorbed
    ]
  ]
