-- ===== src/CApi/Drawing.antt =====
-- What hh_render of src/c_api.cpp does with the caller's buffer, and how its options are read.
use hh_cpp.Base.{ℕ, ◌*◌, ◌≤◌, ◌≡◌, ◌≢◌, false, not, Option, some, List}
use hh_cpp.Base.{drop, length, ltb, ltb-false→le, ◌==◌, inl, inr, Bool-cases, ==-false→ne, arith}
use hh_cpp.Base.{if◌then◌else◌, if_both}
use native.Mathlib.Nat.{mul-le-mul}
use hh_cpp.Base.Int.{ℤ}
use hh_cpp.Error.{ErrorCode, ok, to_int, buffer_too_small}
use hh_cpp.Raster.{rasterise}
use hh_cpp.Raster.Render.{Prepared, refused, ready, render_into, buffer_size}
use hh_cpp.Raster.Outcomes.{Rasterised, left_alone, filled, rasterise-Rasterised, Checked, refusal}
use hh_cpp.Raster.Outcomes.{checked, prepare-Checked}
use hh_cpp.CApi.Digests.{Answer, make_fingerprint}
use hh_cpp.CApi.Pictures.{HhRenderOptions, options_of, hh_render}

-- A call fails and leaves the buffer, or draws a picture of an admitted size for which the
-- capacity is enough; the bytes behind the picture stay as they are.
pub data Drawn (size capacity : ℕ) (rgba : List ℕ) : Answer → Type 0 where
  kept : (code : ℕ) → code ≢ 0 → Drawn size capacity rgba (code, some rgba)
  drawn :
      (picture : List ℕ)
      → 16 ≤ size
      → size ≤ 1024
      → size * size * 4 ≤ capacity
      → length picture ≡ length rgba
      → drop (size * size * 4) picture ≡ drop (size * size * 4) rgba
      → Drawn size capacity rgba (0, some picture)

abbrev coded : ErrorCode × Option (List ℕ) → Answer
coded done = (to_int done.0, done.1)

rasterised-Drawn :
    (size capacity : ℕ) (rgba : List ℕ) (done : ErrorCode × Option (List ℕ))
    → buffer_size size ≤ capacity
    → Rasterised size rgba done
    → Drawn size capacity rgba (coded done)
unfolding to_int
rasterised-Drawn size capacity rgba done room (left_alone code h) = kept (to_int code) h
rasterised-Drawn size capacity rgba done room (filled picture low high e tail) =
    let q : size * size ≤ 1024 * 1024 = mul-le-mul high high in
    drawn picture low high (omega arith) e tail

into-Drawn :
    (size capacity : ℕ) (rgba : List ℕ) (p : Prepared)
    → Checked p
    → Drawn size capacity rgba (
        coded (elim p [
          | refused code ↦ (code, some rgba)
          | ready job ↦
              if ltb capacity (buffer_size size)
              then (buffer_too_small, some rgba)
              else rasterise job size (some rgba) false
        ]))
unfolding to_int
into-Drawn size capacity rgba p (refusal code h) = kept (to_int code) h
into-Drawn size capacity rgba p (checked job few) =
    elim (Bool-cases (ltb capacity (buffer_size size))) [
      | inl e ↦ rw e (kept 12 (omega arith))
      | inr e ↦ rw e (
          rasterised-Drawn size capacity rgba _ (ltb-false→le capacity (buffer_size size) e)
            (rasterise-Rasterised job size rgba false few))
    ]

-- `hh_render` returns a code that is not 0 and leaves the buffer as it is, or returns 0 for a
-- size from 16 to 1024 whose picture, size * size * 4 bytes, fits the capacity, and then every byte
-- behind the picture is as it was, whatever the fingerprint, the mode and the options are.
pub hh_render-Drawn :
    (fingerprint : Option (List ℕ)) (mode : ℤ) (size : ℕ) (options : Option HhRenderOptions)
    (rgba : List ℕ) (capacity : ℕ)
    → Drawn size capacity rgba (hh_render fingerprint mode size options (some rgba) capacity)
unfolding hh_render render_into to_int
hh_render-Drawn fingerprint mode size options rgba capacity =
    let made = make_fingerprint fingerprint mode in
    let o = options_of options in
    elim (Bool-cases (to_int made.0 == to_int ok)) [
      | inr e ↦ rw e (kept (to_int made.0) (==-false→ne (to_int made.0) 0 e))
      | inl e ↦ rw e (
          if_both (Drawn size capacity rgba) (not o.0) _ _ (kept 14 (omega arith))
            (into-Drawn size capacity rgba _ (prepare-Checked made.1 size o.1)))
    ]
