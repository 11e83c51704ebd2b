-- ===== src/Jpeg/Quantiser.antt =====
-- Quantisation tables: scale_quantiser of src/jpeg.cpp.
use hh_cpp.Base.{ℕ, ◌-◌, ◌*◌, ◌+◌, ◌/◌, ◌≤◌, arith, List, [], ◌∷◌, All}
use hh_cpp.Base.{u8}
use hh_cpp.Jpeg.{scale_quantiser, clamp}

IsDivisor : ℕ → Type 0
IsDivisor q = (1 ≤ q) × (q ≤ 255)

clamp-IsDivisor : (v : ℕ) → IsDivisor (u8 (clamp v 1 255))
unfolding IsDivisor
clamp-IsDivisor v = (ground arith, ground arith)

-- Every entry of a scaled table is from 1 to 255, so that it fits a byte and divides.
pub scale_quantiser-All :
    (base : List ℕ) (quality : ℕ) → All (λ q. (1 ≤ q) × (q ≤ 255)) (scale_quantiser base quality)
unfolding scale_quantiser IsDivisor
scale_quantiser-All [] quality = tt
scale_quantiser-All (q ∷ rest) quality =
    (clamp-IsDivisor ((q * (200 - 2 * quality) + 50) / 100), scale_quantiser-All rest quality)
