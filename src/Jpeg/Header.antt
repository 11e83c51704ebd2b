-- ===== src/Jpeg/Header.antt =====
-- The header of a JPEG file, read segment by segment by the rules of T.81: what encode of
-- src/jpeg.cpp writes in front of the scan.
use hh_cpp.Base.{ℕ, suc, ◌+◌, ◌*◌, ◌-◌, ◌/◌, ◌%◌, ◌<◌, ◌≡◌, refl, ap₂, ◌∙◌, arith}
use hh_cpp.Base.{
  Bool, false, ◌&&◌, not, ◌==◌, if◌then◌else◌, Option, none, some, List, [], ◌∷◌, ◌++◌, length,
  take, drop, u8, ◌>>>◌,
}
use hh_cpp.Base.Streams.{after}
use hh_cpp.Encode.{PixelView}
use hh_cpp.Jpeg.{jpeg_header}
use hh_cpp.Jpeg.Tables.{JpegHuffmanSpec, jpeg_dc_luminance, jpeg_dc_chrominance}
use hh_cpp.Jpeg.Tables.{jpeg_ac_luminance, jpeg_ac_chrominance}

-- The tables that the three components of a scan select.
pub record CodeTables : Type 0 where
  pub luma_dc : JpegHuffmanSpec
  pub luma_ac : JpegHuffmanSpec
  pub blue_dc : JpegHuffmanSpec
  pub blue_ac : JpegHuffmanSpec
  pub red_dc : JpegHuffmanSpec
  pub red_ac : JpegHuffmanSpec

-- What the segments up to the scan say.
pub record Header : Type 0 where
  pub height : ℕ
  pub width : ℕ
  pub tables : CodeTables

-- What has been found so far: the tables, each behind its class and number, and the size.
record Found : Type 0 where
  known : List (ℕ × JpegHuffmanSpec)
  lines : ℕ
  samples : ℕ
  is_plain : Bool

-- DHT: one table.
with_table : List ℕ → Found → Found
with_table [] f = f
with_table (id ∷ bytes) f = record {
  known =
      (
        id,
        record {
          counts = take 16 bytes;
          symbols = drop 16 bytes;
          symbol_count = length (drop 16 bytes);
        },
      )
      ∷ f.known;
  lines = f.lines;
  samples = f.samples;
  is_plain = f.is_plain;
}

-- SOF0: the precision, the number of lines and of samples in each, and the components, of which a
-- plain frame has three, 1, 2 and 3, that are sampled alike.
with_frame : List ℕ → Found → Found
with_frame (p ∷ h ∷ l ∷ h' ∷ l' ∷ count ∷ y ∷ ys ∷ yq ∷ b ∷ bs ∷ bq ∷ r ∷ rs ∷ rq ∷ []) f = record {
  known = f.known;
  lines = h * 256 + l;
  samples = h' * 256 + l';
  is_plain =
      (p == 8)
      && (count == 3)
      && (y == 1)
      && (b == 2)
      && (r == 3)
      && (ys == 0x11)
      && (bs == 0x11)
      && (rs == 0x11);
}
with_frame _ f = f

step : ℕ → List ℕ → Found → Found
step marker bytes f =
    if marker == 0xc4 then with_table bytes f else if marker == 0xc0 then with_frame bytes f else f

table_at : List (ℕ × JpegHuffmanSpec) → ℕ → Option JpegHuffmanSpec
table_at [] id = none
table_at ((k, spec) ∷ known) id =
    let rest = table_at known id in if k == id then some spec else rest

-- The two tables of a selector: the DC table's number is its upper half, the AC table's the lower.
both_tables : Found → ℕ → Option (JpegHuffmanSpec × JpegHuffmanSpec)
both_tables f s =
    after (table_at f.known (s / 16))
      (λ dc. after (table_at f.known (0x10 + s % 16)) (λ ac. some (dc, ac)))

-- SOS: three components, 1, 2 and 3, with their selectors, and all coefficients in one scan.
scan_tables : List ℕ → Found → Option Header
scan_tables (count ∷ y ∷ s ∷ b ∷ s' ∷ r ∷ s'' ∷ from ∷ to ∷ bits ∷ []) f =
    if not (
      f.is_plain
      && (count == 3)
      && (y == 1)
      && (b == 2)
      && (r == 3)
      && (from == 0)
      && (to == 63)
      && (bits == 0))
    then none
    else after (both_tables f s) (λ luma. after (both_tables f s') (λ blue.
      after (both_tables f s'') (λ red. some (record {
        height = f.lines;
        width = f.samples;
        tables = record {
          luma_dc = luma.0;
          luma_ac = luma.1;
          blue_dc = blue.0;
          blue_ac = blue.1;
          red_dc = red.0;
          red_ac = red.1;
        };
      }))))
scan_tables _ f = none

-- Segments, each a marker, its length and its bytes, up to the scan's, and what is behind it.
read_segments : ℕ → Found → List ℕ → Option (Header × List ℕ)
read_segments (suc fuel) f (a ∷ marker ∷ h ∷ l ∷ rest) =
    let size = h * 256 + l - 2 in
    let later = read_segments fuel (step marker (take size rest) f) (drop size rest) in
    if not (a == 0xff)
    then none
    else if marker == 0xda
    then after (scan_tables (take size rest) f) (λ header. some (header, drop size rest))
    else later
read_segments _ f _ = none

-- SOI and at most sixteen segments.
unfoldable pub read_header : List ℕ → Option (Header × List ℕ)
unfolding read_segments step with_table with_frame scan_tables both_tables table_at
read_header (a ∷ b ∷ rest) =
    if (a == 0xff) && (b == 0xd8)
    then read_segments 16 (record { known = []; lines = 0; samples = 0; is_plain = false }) rest
    else none
read_header _ = none

-- The tables of the encoder: one pair for the luminance, one for both colour differences.
abbrev pub standard : CodeTables
standard = record {
  luma_dc = jpeg_dc_luminance;
  luma_ac = jpeg_ac_luminance;
  blue_dc = jpeg_dc_chrominance;
  blue_ac = jpeg_ac_chrominance;
  red_dc = jpeg_dc_chrominance;
  red_ac = jpeg_ac_chrominance;
}

read_header-bytes :
    (img : PixelView) (quality : ℕ) (rest : List ℕ)
    → read_header (jpeg_header img quality ++ rest)
      ≡ some (
        record {
          height = u8 (img.height >>> 8) * 256 + u8 img.height;
          width = u8 (img.width >>> 8) * 256 + u8 img.width;
          tables = standard;
        },
        rest,
      )
unfolding read_header jpeg_header take drop
read_header-bytes img quality rest = refl

word : (v : ℕ) → v < 65536 → u8 (v >>> 8) * 256 + u8 v ≡ v
word v h = omega arith

-- The header says the picture's size and the tables that its scan is coded with.
pub read_header-jpeg_header :
    (img : PixelView) (quality : ℕ) (rest : List ℕ)
    → img.width < 65536
    → img.height < 65536
    → read_header (jpeg_header img quality ++ rest)
      ≡ some (record { height = img.height; width = img.width; tables = standard }, rest)
read_header-jpeg_header img quality rest w h =
    read_header-bytes img quality rest
    ∙ ap₂ (λ a b. some (record { height = a; width = b; tables = standard }, rest))
        (word img.height h) (word img.width w)
