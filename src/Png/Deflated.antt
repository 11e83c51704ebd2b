-- ===== src/Png/Deflated.antt =====
-- Reading back what the loop of deflate_fixed of src/png.cpp writes.
use hh_cpp.Base.Streams.{after}
use hh_cpp.Base.{
  ℕ, zero, suc, ◌+◌, ◌-◌, ◌*◌, min, ◌≤◌, ◌<◌, ◌≡◌, refl, sym, ap, ap₂, ◌∙◌, inl, inr, arith,
}
use hh_cpp.Base.{ltb, ltb→lt, ltb-false→le, leb, leb→le, Bool-cases}
use hh_cpp.Base.{List, [], ◌∷◌, ◌++◌, append_assoc, append-nil, length, length-append}
use hh_cpp.Base.{get_or, take, All, IsByte}
use hh_cpp.Png.{Match, find_match, deflate_loop}
use hh_cpp.Png.Bits.{BitWriter, put_symbol, put_match}
use hh_cpp.Png.Stream.{stream, IsTidy}
use hh_cpp.Png.Inflate.{inflate_block}
use hh_cpp.Png.Symbols.{Writes, Writes-trans}
use hh_cpp.Png.Tokens.{LiteralWritten, put_symbol-literal, MatchWritten, put_match-copy}
use hh_cpp.Png.Matches.{IsMatch, InWindow, find_match-IsMatch, take-suc, copy-take}

-- Bits that take a reader who has the first `i` bytes to the first `j` bytes, in `n` symbols.
abbrev pub Reads : List ℕ → ℕ → ℕ → List ℕ → ℕ → Type 0
Reads raw i j bits n =
    ((n ≤ length bits) × (length bits + 14 * i ≤ 14 * j))
    × ((k : ℕ) (rest : List ℕ)
        → inflate_block (n + k) (bits ++ rest) (take i raw) ≡ inflate_block k rest (take j raw))

Reads-nothing : (raw : List ℕ) (i j : ℕ) → i ≤ j → take i raw ≡ take j raw → Reads raw i j [] 0
Reads-nothing raw i j le same = (
  (omega arith, omega arith),
  λ k rest. ap₂ (λ f out. inflate_block f rest out) (let e : 0 + k ≡ k = omega arith in e) same,
)

Reads-trans :
    (raw : List ℕ) (h i j : ℕ) (a b : List ℕ) (n m : ℕ)
    → Reads raw h i a n
    → Reads raw i j b m
    → Reads raw h j (a ++ b) (n + m)
Reads-trans raw h i j a b n m (p, f) (q, g) = (
  (omega (arith, length-append a b, p), omega (arith, length-append a b, p, q)),
  λ k rest.
      ap₂ (λ t bits. inflate_block t bits (take h raw))
        (let e : n + m + k ≡ n + (m + k) = omega arith in e) (append_assoc a b rest)
      ∙ f (m + k) (b ++ rest)
      ∙ g k rest,
)

-- One round writes a byte or a match.
abbrev Round : List ℕ → ℕ → ℕ → BitWriter → BitWriter → Type 0
Round raw i j w w' =
    (bits : List ℕ) × (j ≤ length raw) × (i < j) × Writes w w' bits × Reads raw i j bits 1

literal-Round :
    (raw : List ℕ) (i : ℕ) (w : BitWriter)
    → IsTidy w
    → All IsByte raw
    → i < length raw
    → Round raw i (suc i) w (put_symbol (get_or raw i 0) w)
literal-Round raw i w tidy bytes h =
    let (bits, size, writes, reads) : LiteralWritten (get_or raw i 0) w =
      put_symbol-literal (get_or raw i 0) w tidy (byte_at raw i bytes) in
    (
      bits,
      omega arith,
      omega arith,
      writes,
      (
        (omega (arith, size), omega (arith, size)),
        λ k rest.
            ap (λ f. inflate_block f (bits ++ rest) (take i raw))
              (let e : 1 + k ≡ suc k = omega arith in e)
            ∙ reads k rest (take i raw)
            ∙ ap (inflate_block k rest) (take-suc raw i h),
      ),
    )
  where
    byte_at : (raw : List ℕ) (i : ℕ) → All IsByte raw → get_or raw i 0 < 256
    byte_at [] i all = omega arith
    byte_at (x ∷ raw) zero (hx, all) = hx
    byte_at (x ∷ raw) (suc i) (hx, all) = byte_at raw i all

match-Round :
    (raw : List ℕ) (i : ℕ) (m : Match) (w : BitWriter)
    → IsTidy w
    → i < length raw
    → 3 ≤ m.best
    → IsMatch raw i (min 258 (length raw - i)) m
    → Round raw i (i + m.best) w (put_match m.best m.dist w)
match-Round raw i m w tidy h long (inl none) = absurd (omega arith)
match-Round raw i m w tidy h long (inr (short, near, inside, window, same)) =
    let (bits, size, writes, reads) : MatchWritten m.best m.dist w =
      put_match-copy m.best m.dist w tidy long (omega arith) near window in
    (
      bits,
      omega arith,
      omega arith,
      writes,
      (
        (omega (arith, size), omega (arith, size)),
        λ k rest.
            ap (λ f. inflate_block f (bits ++ rest) (take i raw))
              (let e : 1 + k ≡ suc k = omega arith in e)
            ∙ reads k rest (take i raw)
            ∙ ap (λ o. after o (λ longer. inflate_block k rest longer))
                (copy-take raw i m.dist m.best near inside (omega arith) same),
      ),
    )

-- What the loop writes brings the reader to the whole of `raw`.
abbrev pub Looped : List ℕ → ℕ → BitWriter → BitWriter → Type 0
Looped raw i w w' = (bits : List ℕ) × (n : ℕ) × Writes w w' bits × Reads raw i (length raw) bits n

after-Round :
    (raw : List ℕ) (i j : ℕ) (w1 w2 w3 : BitWriter)
    → Round raw i j w1 w2
    → Looped raw j w2 w3
    → Looped raw i w1 w3
after-Round raw i j w1 w2 w3 (a, top, more, writes, reads) (b, n, writes', reads') = (
  a ++ b,
  1 + n,
  Writes-trans w1 w2 w3 a b writes writes',
  Reads-trans raw i j (length raw) a b 1 n reads reads',
)

finished : (raw : List ℕ) (i : ℕ) (w : BitWriter) → IsTidy w → i ≡ length raw → Looped raw i w w
finished raw i w tidy h = (
  [],
  0,
  (sym (append-nil (stream w)), tidy),
  Reads-nothing raw i (length raw) (omega arith) (ap (λ j. take j raw) h),
)

pub deflate_loop-Looped :
    (fuel : ℕ) (raw distances : List ℕ) (i : ℕ) (w : BitWriter)
    → All InWindow distances
    → All IsByte raw
    → IsTidy w
    → i ≤ length raw
    → length raw ≤ i + fuel
    → Looped raw i w (deflate_loop fuel raw distances i w)
unfolding deflate_loop
deflate_loop-Looped zero raw distances i w window bytes tidy inside enough =
    finished raw i w tidy (omega arith)
deflate_loop-Looped (suc fuel) raw distances i w window bytes tidy inside enough =
    let m = find_match raw i (min 258 (length raw - i)) distances (record { best = 0; dist = 0 }) in
    let found : IsMatch raw i (min 258 (length raw - i)) m =
      find_match-IsMatch raw i _ distances (record { best = 0; dist = 0 }) window (inl refl) in
    elim (Bool-cases (ltb i (length raw))) [
      | inr e ↦ rw e (finished raw i w tidy (omega (arith, ltb-false→le i (length raw) e)))
      | inl e ↦
          let h = ltb→lt i (length raw) e in
          elim (Bool-cases (leb 3 m.best)) [
            | inl long ↦
                let w' = put_match m.best m.dist w in
                let round = match-Round raw i m w tidy h (leb→le 3 m.best long) found in
                rw (e, long)
                  (after-Round raw i (i + m.best) w w' _ round (
                    deflate_loop-Looped fuel raw distances (i + m.best) w' window bytes round.3.1
                      round.1 (omega (arith, round.2))))
            | inr short ↦
                let w' = put_symbol (get_or raw i 0) w in
                let round = literal-Round raw i w tidy bytes h in
                rw (e, short)
                  (after-Round raw i (suc i) w w' _ round (
                    deflate_loop-Looped fuel raw distances (suc i) w' window bytes round.3.1 round.1
                      (omega arith)))
          ]
    ]
