-- ===== src/Jpeg/Units.antt =====
-- The units of a scan: the blocks of the three components of encode in src/jpeg.cpp, read by the
-- rules of T.81.
use hh_cpp.Base.{ℕ, ◌<◌, ◌^◌, ◌≡◌, refl, subst, ap, ◌∙◌}
use hh_cpp.Base.{Option, some, List, [], ◌∷◌, ◌++◌, append_assoc, length}
use hh_cpp.Base.Int.{ℤ, ◌-ℤ◌}
use hh_cpp.Base.Streams.{after}
use hh_cpp.Jpeg.Tables.{jpeg_dc_luminance, jpeg_dc_chrominance}
use hh_cpp.Jpeg.Tables.{jpeg_ac_luminance, jpeg_ac_chrominance}
use hh_cpp.Jpeg.Scan.{build, encode_block}
use hh_cpp.Jpeg.{ScanState, encode_components}
use hh_cpp.Jpeg.Written.{Wrote}
use hh_cpp.Jpeg.Huffman.{build-IsTable}
use hh_cpp.Jpeg.Values.{size_of_value}
use hh_cpp.Jpeg.Blocks.{AllSmall}
use hh_cpp.Jpeg.Header.{CodeTables, standard}
use hh_cpp.Jpeg.Decoded.{read_block, encode_block-read_block}

-- The coefficients of a block, the first of which is the DC value.
pub record Block : Type 0 where
  pub first : ℤ
  pub rest : List ℤ

abbrev pub coefficients_of : Block → List ℤ
coefficients_of b = b.first ∷ b.rest

-- The three components of one block of pixels.
pub record McuBlocks : Type 0 where
  pub luma : Block
  pub blue : Block
  pub red : Block

-- The previous DC values.
pub record Previous : Type 0 where
  pub luma : ℤ
  pub blue : ℤ
  pub red : ℤ

abbrev pub firsts : McuBlocks → Previous
firsts u = record { luma = u.luma.first; blue = u.blue.first; red = u.red.first }

-- What the entropy coder takes.
abbrev pub Codable : ℤ → Block → Type 0
Codable previous b =
    (size_of_value (b.first -ℤ previous) < 2 ^ 11) × AllSmall b.rest × (length b.rest ≡ 63)

abbrev pub CodableUnit : Previous → McuBlocks → Type 0
CodableUnit p u = Codable p.luma u.luma × Codable p.blue u.blue × Codable p.red u.red

-- A unit is a block of each component, coded with the tables that the component selects.
unfoldable pub read_unit : CodeTables → Previous → List ℕ → Option (List (List ℤ) × List ℕ)
read_unit t p bits = after (read_block t.luma_dc t.luma_ac p.luma bits) (λ y.
    after (read_block t.blue_dc t.blue_ac p.blue y.1)
      (λ b. after (read_block t.red_dc t.red_ac p.red b.1) (λ r. some (y.0 ∷ b.0 ∷ r.0 ∷ [], r.1))))

abbrev pub blocks_of : McuBlocks → List (List ℤ)
blocks_of u = coefficients_of u.luma ∷ coefficients_of u.blue ∷ coefficients_of u.red ∷ []

abbrev pub previous_of : ScanState → Previous
previous_of s = record { luma = s.dc_luma; blue = s.dc_blue; red = s.dc_red }

-- encode_components with the four tables of the encoder.
abbrev pub encode_blocks : McuBlocks → ScanState → ScanState
encode_blocks u s =
    encode_components (coefficients_of u.luma) (coefficients_of u.blue) (coefficients_of u.red)
      (build jpeg_dc_luminance) (build jpeg_ac_luminance) (build jpeg_dc_chrominance)
      (build jpeg_ac_chrominance) s

unit_step :
    (p : Previous) (u : McuBlocks) (y b r more : List ℕ)
    → read_block jpeg_dc_luminance jpeg_ac_luminance p.luma (y ++ (b ++ (r ++ more)))
      ≡ some (coefficients_of u.luma, b ++ (r ++ more))
    → read_block jpeg_dc_chrominance jpeg_ac_chrominance p.blue (b ++ (r ++ more))
      ≡ some (coefficients_of u.blue, r ++ more)
    → read_block jpeg_dc_chrominance jpeg_ac_chrominance p.red (r ++ more)
      ≡ some (coefficients_of u.red, more)
    → read_unit standard p (y ++ (b ++ (r ++ more))) ≡ some (blocks_of u, more)
unfolding read_unit
unit_step p u y b r more ey eb er = rw ey (rw eb (rw er refl))

abbrev pub UnitWritten : McuBlocks → List ℕ → List ℕ → ScanState → Type 0
UnitWritten u before t s =
    (bits : List ℕ) × Wrote before (encode_blocks u s).writer (t ++ bits)
    × ((more : List ℕ)
        → read_unit standard (previous_of s) (bits ++ more) ≡ some (blocks_of u, more))

pub encode_blocks-read_unit :
    (u : McuBlocks) (before t : List ℕ) (s : ScanState)
    → CodableUnit (previous_of s) u
    → Wrote before s.writer t
    → UnitWritten u before t s
unfolding encode_components
encode_blocks-read_unit u before t s (luma, blue, red) wrote =
    let (y, put_y, read_y) =
      encode_block-read_block jpeg_dc_luminance jpeg_ac_luminance u.luma.first s.dc_luma u.luma.rest
        before t s.writer build-IsTable.0 build-IsTable.2 luma.0 luma.1 luma.2 wrote in
    let (b, put_b, read_b) =
      encode_block-read_block jpeg_dc_chrominance jpeg_ac_chrominance u.blue.first s.dc_blue
        u.blue.rest before (t ++ y) _ build-IsTable.1 build-IsTable.3 blue.0 blue.1 blue.2 put_y in
    let (r, put_r, read_r) =
      encode_block-read_block jpeg_dc_chrominance jpeg_ac_chrominance u.red.first s.dc_red
        u.red.rest before ((t ++ y) ++ b) _ build-IsTable.1 build-IsTable.3 red.0 red.1 red.2
        put_b in
    (
      y ++ (b ++ r),
      subst (Wrote before _) (append_assoc (t ++ y) b r ∙ append_assoc t y (b ++ r)) put_r,
      λ more.
          ap (read_unit standard (previous_of s))
            (append_assoc y (b ++ r) more ∙ ap (λ x. y ++ x) (append_assoc b r more))
          ∙ unit_step (previous_of s) u y b r more (read_y (b ++ (r ++ more))) (read_b (r ++ more))
              (read_r more),
    )

-- The DC values of a unit are those that the next one is compared with.
pub previous_of-encode_blocks :
    (u : McuBlocks) (s : ScanState) → previous_of (encode_blocks u s) ≡ firsts u
unfolding encode_components encode_block
previous_of-encode_blocks u s = refl
