-- ===== src/Jpeg/Picture.antt =====
-- A whole JPEG file: encode of src/jpeg.cpp, read by the rules of T.81.
mod Tests
pub mod File
use hh_cpp.Base.{ℕ, zero, suc, ◌+◌, ◌*◌, ◌/◌, ◌^◌, ◌<◌, ◌≡◌, refl, sym, subst, ap, ap₂, ◌∙◌, arith}
use hh_cpp.Base.{
  Bool, true, false, Bool-cases, inl, inr, if◌then◌else◌, ltb, ltb-false→le, Option, some, List, [],
  ◌∷◌, ◌++◌, append_assoc, length, length-append, map, All, All-append,
}
use hh_cpp.Base.Int.{ℤ, pos, negsuc, ◌<ℤ◌, ◌-ℤ◌}
use hh_cpp.Types.{Rgb}
use hh_cpp.Encode.{PixelView}
use hh_cpp.Jpeg.Tables.{jpeg_zigzag}
use hh_cpp.Jpeg.{
  Component, luma, blue_difference, red_difference, ScanState, component_block, zigzag, quantised,
  clamp_ac, block_rows, eight,
}
use hh_cpp.Jpeg.Dct.{forward_dct}
use hh_cpp.Jpeg.Tables.{jpeg_dc_luminance, jpeg_dc_chrominance}
use hh_cpp.Jpeg.Tables.{jpeg_ac_luminance, jpeg_ac_chrominance}
use hh_cpp.Jpeg.Scan.{build, finish}
use hh_cpp.Jpeg.{
  encode_components, encode_unit, encode_columns, encode_rows, jpeg_header, jpeg_bytes,
  luminance_table, chrominance_table,
}
use hh_cpp.Jpeg.Written.{unstuff, byte_bits}
use hh_cpp.Jpeg.Values.{size_of_value}
use hh_cpp.Jpeg.Blocks.{AllSmall, no_more, and_more}
use hh_cpp.Base.Streams.{after}
use hh_cpp.Jpeg.Header.{standard, read_header, read_header-jpeg_header}
use hh_cpp.Jpeg.Units.{
  Block, Previous, firsts, coefficients_of, McuBlocks, encode_blocks, blocks_of,
}
use hh_cpp.Jpeg.Scans.{
  encode_all, AllCodable, no_unit, next_unit, no_previous, scan_start, read_all, finish-encode_all,
}

block_from : List ℤ → Block
block_from [] = record { first = pos 0; rest = [] }
block_from (v ∷ rest) = record { first = v; rest = rest }

coefficients_of-block_from : (zz : List ℤ) → length zz ≡ 64 → coefficients_of (block_from zz) ≡ zz
unfolding block_from
coefficients_of-block_from [] e = absurd (omega (arith, e))
coefficients_of-block_from (v ∷ rest) e = refl

length-map_clamped :
    (block : List ℤ) (q is : List ℕ)
    → length (map (λ i. clamp_ac (quantised block q i)) is) ≡ length is
length-map_clamped block q [] = refl
length-map_clamped block q (i ∷ is) = ap suc (length-map_clamped block q is)

length-zigzag : (block : List ℤ) (q ks : List ℕ) → length (zigzag block q ks) ≡ length ks
unfolding zigzag
length-zigzag block q [] = refl
length-zigzag block q (k ∷ ks) = ap suc (length-map_clamped block q ks)

length-component_block :
    (img : PixelView) (matte : Rgb) (c : Component) (bx by : ℕ) (q : List ℕ)
    → length (component_block img matte c bx by q) ≡ 64
unfolding component_block
length-component_block img matte c bx by q =
    length-zigzag (forward_dct (block_rows img matte c bx by eight)) q jpeg_zigzag

clamp_ac-small : (v : ℤ) → size_of_value (clamp_ac v) < 2 ^ 10
clamp_ac-small v = elim (Bool-cases (v <ℤ negsuc 1022)) [
  | inl e ↦ rw e (omega arith)
  | inr e ↦ elim (Bool-cases (pos 1023 <ℤ v)) [
    | inl f ↦ rw e (rw f (omega arith))
    | inr f ↦ rw e (rw f (within v e f))
  ]
]
  where
    within :
        (v : ℤ) → (v <ℤ negsuc 1022) ≡ false → (pos 1023 <ℤ v) ≡ false → size_of_value v < 2 ^ 10
    within (pos n) low high = omega (arith, ltb-false→le _ _ high)
    within (negsuc n) low high = omega (arith, ltb-false→le _ _ low)

-- What the clamp gives the entropy coder.
abbrev Clamped : Block → Type 0
Clamped b = AllSmall b.rest × (length b.rest ≡ 63)

map-AllSmall :
    (block : List ℤ) (q ks : List ℕ) → AllSmall (map (λ i. clamp_ac (quantised block q i)) ks)
map-AllSmall block q [] = no_more
map-AllSmall block q (k ∷ ks) =
    and_more (clamp_ac-small (quantised block q k)) (map-AllSmall block q ks)

block_from-Clamped :
    (block : List ℤ) (q ks : List ℕ) → length ks ≡ 64 → Clamped (block_from (zigzag block q ks))
unfolding zigzag block_from
block_from-Clamped block q [] e = absurd (omega (arith, e))
block_from-Clamped block q (k ∷ ks) e =
    (map-AllSmall block q ks, length-map_clamped block q ks ∙ omega (arith, e))

block_at : PixelView → Rgb → Component → ℕ → ℕ → List ℕ → Block
block_at img matte c bx by q = block_from (component_block img matte c bx by q)

block_at_lem :
    (img : PixelView) (matte : Rgb) (c : Component) (bx by : ℕ) (q : List ℕ)
    → coefficients_of (block_at img matte c bx by q) ≡ component_block img matte c bx by q
unfolding block_at
block_at_lem img matte c bx by q =
    coefficients_of-block_from _ (length-component_block img matte c bx by q)

block_at-Clamped :
    (img : PixelView) (matte : Rgb) (c : Component) (bx by : ℕ) (q : List ℕ)
    → Clamped (block_at img matte c bx by q)
unfolding block_at component_block
block_at-Clamped img matte c bx by q =
    block_from-Clamped (forward_dct (block_rows img matte c bx by eight)) q jpeg_zigzag refl

-- The quantised coefficients of the three components at a block of pixels.
unit_at : PixelView → Rgb → ℕ → ℕ → ℕ → McuBlocks
unit_at img matte quality by bx = record {
  luma = block_at img matte luma bx by (luminance_table quality);
  blue = block_at img matte blue_difference bx by (chrominance_table quality);
  red = block_at img matte red_difference bx by (chrominance_table quality);
}

abbrev with_tables : List ℤ → List ℤ → List ℤ → ScanState → ScanState
with_tables y b r s =
    encode_components y b r (build jpeg_dc_luminance) (build jpeg_ac_luminance)
      (build jpeg_dc_chrominance) (build jpeg_ac_chrominance) s

encode_unit_lem :
    (img : PixelView) (matte : Rgb) (quality by bx : ℕ) (s : ScanState)
    → encode_unit img matte quality by bx s ≡ encode_blocks (unit_at img matte quality by bx) s
unfolding encode_unit unit_at
encode_unit_lem img matte quality by bx s =
    let lt = luminance_table quality in
    let ct = chrominance_table quality in
    let b = component_block img matte blue_difference bx by ct in
    let r = component_block img matte red_difference bx by ct in
    ap (λ x. with_tables x b r s) (sym (block_at_lem img matte luma bx by lt))
    ∙ ap₂ (λ x y. with_tables (coefficients_of (block_at img matte luma bx by lt)) x y s)
        (sym (block_at_lem img matte blue_difference bx by ct))
        (sym (block_at_lem img matte red_difference bx by ct))

pub column_units : PixelView → Rgb → ℕ → ℕ → ℕ → ℕ → List McuBlocks
column_units img matte quality by zero bx = []
column_units img matte quality by (suc left) bx =
    unit_at img matte quality by bx ∷ column_units img matte quality by left (bx + 8)

columns_lem :
    (img : PixelView) (matte : Rgb) (quality by left bx : ℕ) (s : ScanState)
    → encode_columns img matte quality by left bx s
      ≡ encode_all (column_units img matte quality by left bx) s
unfolding encode_columns column_units encode_all
columns_lem img matte quality by zero bx s = refl
columns_lem img matte quality by (suc left) bx s =
    columns_lem img matte quality by left (bx + 8) (encode_unit img matte quality by bx s)
    ∙ ap (encode_all (column_units img matte quality by left (bx + 8)))
        (encode_unit_lem img matte quality by bx s)

pub row_units : PixelView → Rgb → ℕ → ℕ → ℕ → List McuBlocks
row_units img matte quality zero by = []
row_units img matte quality (suc left) by =
    column_units img matte quality by ((img.width + 7) / 8) 0
    ++ row_units img matte quality left (by + 8)

encode_all-append :
    (xs ys : List McuBlocks) (s : ScanState)
    → encode_all (xs ++ ys) s ≡ encode_all ys (encode_all xs s)
unfolding encode_all
encode_all-append [] ys s = refl
encode_all-append (u ∷ xs) ys s = encode_all-append xs ys (encode_blocks u s)

pub rows_lem :
    (img : PixelView) (matte : Rgb) (quality left by : ℕ) (s : ScanState)
    → encode_rows img matte quality left by s ≡ encode_all (row_units img matte quality left by) s
unfolding encode_rows row_units
rows_lem img matte quality zero by s = unfold encode_all in refl
rows_lem img matte quality (suc left) by s =
    let columns = column_units img matte quality by ((img.width + 7) / 8) 0 in
    rows_lem img matte quality left (by + 8)
      (encode_columns img matte quality by ((img.width + 7) / 8) 0 s)
    ∙ ap (encode_all (row_units img matte quality left (by + 8)))
        (columns_lem img matte quality by ((img.width + 7) / 8) 0 s)
    ∙ sym (encode_all-append columns (row_units img matte quality left (by + 8)) s)

-- The units of a picture, row by row.
pub image_units : PixelView → Rgb → ℕ → List McuBlocks
image_units img matte quality = row_units img matte quality ((img.height + 7) / 8) 0

abbrev pub ClampedUnit : McuBlocks → Type 0
ClampedUnit u = Clamped u.luma × Clamped u.blue × Clamped u.red

unit_at-Clamped :
    (img : PixelView) (matte : Rgb) (quality by bx : ℕ)
    → ClampedUnit (unit_at img matte quality by bx)
unfolding unit_at
unit_at-Clamped img matte quality by bx = (
  block_at-Clamped img matte luma bx by (luminance_table quality),
  block_at-Clamped img matte blue_difference bx by (chrominance_table quality),
  block_at-Clamped img matte red_difference bx by (chrominance_table quality),
)

columns-Clamped :
    (img : PixelView) (matte : Rgb) (quality by left bx : ℕ)
    → All ClampedUnit (column_units img matte quality by left bx)
unfolding column_units
columns-Clamped img matte quality by zero bx = tt
columns-Clamped img matte quality by (suc left) bx =
    (unit_at-Clamped img matte quality by bx, columns-Clamped img matte quality by left (bx + 8))

pub rows-Clamped :
    (img : PixelView) (matte : Rgb) (quality left by : ℕ)
    → All ClampedUnit (row_units img matte quality left by)
unfolding row_units
rows-Clamped img matte quality zero by = tt
rows-Clamped img matte quality (suc left) by =
    All-append ClampedUnit (column_units img matte quality by ((img.width + 7) / 8) 0)
      (row_units img matte quality left (by + 8))
      (columns-Clamped img matte quality by ((img.width + 7) / 8) 0)
      (rows-Clamped img matte quality left (by + 8))

-- The difference of two DC values fits eleven bits.
abbrev SmallStep : ℤ → Block → Type 0
SmallStep previous b = size_of_value (b.first -ℤ previous) < 2 ^ 11

-- Those of every unit to the one before.
pub data SmallSteps : Previous → List McuBlocks → Type 0 where
  no_step : {p : Previous} → SmallSteps p []
  next_step :
      {p : Previous} (u : McuBlocks) (units : List McuBlocks)
      → SmallStep p.luma u.luma × SmallStep p.blue u.blue × SmallStep p.red u.red
      → SmallSteps (firsts u) units
      → SmallSteps p (u ∷ units)

pub clamped-AllCodable :
    (p : Previous) (units : List McuBlocks)
    → All ClampedUnit units
    → SmallSteps p units
    → AllCodable p units
clamped-AllCodable p [] all steps = no_unit
clamped-AllCodable p (u ∷ units) ((y, b, r), all) (next_step u' units' (dy, db, dr) steps) =
    next_unit u units ((dy, y.0, y.1), (db, b.0, b.1), (dr, r.0, r.1))
      (clamped-AllCodable (firsts u) units all steps)
