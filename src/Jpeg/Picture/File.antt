-- ===== src/Jpeg/Picture/File.antt =====
-- A whole JPEG file: encode of src/jpeg.cpp, read by the rules of T.81 from its first byte.
use hh_cpp.Base.{ℕ, zero, suc, ◌+◌, ◌*◌, ◌/◌, ◌<◌, ◌≡◌, refl, sym, ap, ap₂, ◌∙◌, arith}
use hh_cpp.Base.{Option, some, List, [], ◌∷◌, ◌++◌, length, length-append, map}
use hh_cpp.Base.Int.{ℤ}
use hh_cpp.Types.{Rgb}
use hh_cpp.Encode.{PixelView}
use hh_cpp.Jpeg.{ScanState}
use hh_cpp.Jpeg.Scan.{finish}
use hh_cpp.Jpeg.{jpeg_header, jpeg_bytes}
use hh_cpp.Jpeg.Written.{unstuff, byte_bits}
use hh_cpp.Base.Streams.{after}
use hh_cpp.Jpeg.Header.{standard, read_header, read_header-jpeg_header}
use hh_cpp.Jpeg.Units.{blocks_of}
use hh_cpp.Jpeg.Scans.{no_previous, scan_start, read_all, finish-encode_all}
use hh_cpp.Jpeg.Picture.{
  row_units, column_units, rows_lem, rows-Clamped, clamped-AllCodable, image_units, SmallSteps,
}

suc-mul : (n m : ℕ) → suc n * m ≡ m + n * m
suc-mul n m = ground arith

length-column_units :
    (img : PixelView) (matte : Rgb) (quality by left bx : ℕ)
    → length (column_units img matte quality by left bx) ≡ left
unfolding column_units
length-column_units img matte quality by zero bx = refl
length-column_units img matte quality by (suc left) bx =
    ap suc (length-column_units img matte quality by left (bx + 8))

length-row_units :
    (img : PixelView) (matte : Rgb) (quality left by : ℕ)
    → length (row_units img matte quality left by) ≡ left * ((img.width + 7) / 8)
unfolding row_units
length-row_units img matte quality zero by = omega arith
length-row_units img matte quality (suc left) by =
    let columns = column_units img matte quality by ((img.width + 7) / 8) 0 in
    let first_ = length-column_units img matte quality by ((img.width + 7) / 8) 0 in
    let others = length-row_units img matte quality left (by + 8) in
    length-append columns (row_units img matte quality left (by + 8))
    ∙ ap₂ (λ a b. a + b) first_ others
    ∙ sym (suc-mul left ((img.width + 7) / 8))

-- A picture that has been read: its size and its blocks.
pub record Read : Type 0 where
  pub height : ℕ
  pub width : ℕ
  pub blocks : List (List (List ℤ))

-- A reader of files: the header, as many units as its size says, with the tables that it says, of
-- the bits behind it without the stuffed zeros, and the bits that are left.
unfoldable pub read_file : List ℕ → Option (Read × List ℕ)
read_file bytes = after (read_header bytes) (λ found.
    let size = ((found.0.height + 7) / 8) * ((found.0.width + 7) / 8) in
    after (read_all found.0.tables size no_previous (byte_bits (unstuff found.1))) (λ blocks.
      some
        (record { height = found.0.height; width = found.0.width; blocks = blocks.0 }, blocks.1)))

-- What is found in the file of a picture.
abbrev pub FileRead : PixelView → ℕ → Rgb → Type 0
FileRead img quality matte =
    (pad : List ℕ) × (read_file (jpeg_bytes img quality matte)
      ≡ some (
        record {
          height = img.height;
          width = img.width;
          blocks = map blocks_of (image_units img matte quality);
        },
        pad,
      ))

read_file-header :
    (img : PixelView) (blocks : List (List (List ℤ))) (bytes rest pad : List ℕ)
    → read_header bytes
      ≡ some (record { height = img.height; width = img.width; tables = standard }, rest)
    → read_all standard
        (((img.height + 7) / 8) * ((img.width + 7) / 8))
        no_previous
        (byte_bits (unstuff rest))
      ≡ some (blocks, pad)
    → read_file bytes
      ≡ some (record { height = img.height; width = img.width; blocks = blocks }, pad)
unfolding read_file
read_file-header img blocks bytes rest pad eh er = rw eh (rw er refl)

-- A JPEG file of a picture of less than 65536 rows and columns is read: a reader that takes the
-- size and the code tables of each component from the segments of the header finds the picture's
-- size and the quantised coefficients of all its blocks, row by row. It is a premise that the
-- difference of every DC value to the one of the same component before fits eleven bits.
pub jpeg_bytes-read_file :
    (img : PixelView) (quality : ℕ) (matte : Rgb)
    → img.width < 65536
    → img.height < 65536
    → SmallSteps no_previous (image_units img matte quality)
    → FileRead img quality matte
unfolding jpeg_bytes image_units
jpeg_bytes-read_file img quality matte w h steps =
    let units = image_units img matte quality in
    let codable =
      clamped-AllCodable no_previous units (rows-Clamped img matte quality ((img.height + 7) / 8) 0)
        steps in
    let header = jpeg_header img quality in
    let (scan, pad, out, read) = finish-encode_all units header codable in
    let ending = scan ++ (0xff ∷ 0xd9 ∷ []) in
    let whole : jpeg_bytes img quality matte ≡ header ++ ending =
      ap (λ (s : ScanState). (finish s.writer).out ++ (0xff ∷ 0xd9 ∷ []))
        (rows_lem img matte quality ((img.height + 7) / 8) 0 (scan_start header))
      ∙ out in
    let count = length-row_units img matte quality ((img.height + 7) / 8) 0 in
    (
      pad,
      read_file-header img (map blocks_of units) (jpeg_bytes img quality matte) ending pad
          (ap read_header whole ∙ read_header-jpeg_header img quality ending w h)
          (sym (ap (λ n. read_all standard n no_previous (byte_bits (unstuff ending))) count)
            ∙ read),
    )
