-- ===== src/Jpeg/Dct.antt =====
-- The forward transform: descale, dct_pass and forward_dct of src/jpeg.cpp.
use hh_cpp.Base.{ℕ, zero, suc, ◌+◌, ◌-◌, ◌*◌, ◌/◌, ◌^◌, Bool, true, false, if◌then◌else◌}
use hh_cpp.Base.{List, get_or, set}
use hh_cpp.Base.Int.{ℤ, pos, negsuc, ◌+ℤ◌, ◌-ℤ◌, ◌*ℤ◌, difference}

abbrev pub negated : ℤ → ℤ
negated x = pos 0 -ℤ x

-- The last lines of `descale`, of `v`.
unfoldable pub shift_down : ℕ → ℤ → ℤ
shift_down n (pos v) = pos (v / 2 ^ n)
shift_down n (negsuc v) = difference 0 ((suc v + 2 ^ n - 1) / 2 ^ n)

unfoldable pub descale : ℤ → ℕ → ℤ
unfolding shift_down
descale x n = shift_down n (x +ℤ pos (2 ^ (n - 1)))

-- `d[k * step]` of the array that starts at `base`.
abbrev value_at : List ℤ → ℕ → ℕ → ℕ → ℤ
value_at block base step k = get_or block (base + k * step) (pos 0)

-- The stores of a pass.
abbrev store : List ℤ → ℕ → ℕ → ℕ → ℤ → List ℤ
store block base step k v = set block (base + k * step) v

-- `t0 + t3` and so on to the outputs 0, 4, 2 and 6.
unfoldable pub even_part : List ℤ → ℕ → ℕ → Bool → ℤ → ℤ → ℤ → ℤ → List ℤ
unfolding descale
even_part block base step first t10 t11 t12 t13 =
    let n = if first then 11 else 15 in
    let z1 = (t12 +ℤ t13) *ℤ pos 4433 in
    let d0 = if first then (t10 +ℤ t11) *ℤ pos 4 else descale (t10 +ℤ t11) 2 in
    let d4 = if first then (t10 -ℤ t11) *ℤ pos 4 else descale (t10 -ℤ t11) 2 in
    let b1 = store (store block base step 0 d0) base step 4 d4 in
    let b2 = store b1 base step 2 (descale (z1 +ℤ t13 *ℤ pos 6270) n) in
    store b2 base step 6 (descale (z1 -ℤ t12 *ℤ pos 15137) n)

unfoldable pub odd_part : List ℤ → ℕ → ℕ → Bool → ℤ → ℤ → ℤ → ℤ → List ℤ
unfolding descale
odd_part block base step first t4 t5 t6 t7 =
    let n = if first then 11 else 15 in
    let z5 = (t4 +ℤ t6 +ℤ (t5 +ℤ t7)) *ℤ pos 9633 in
    let z1 = negated (t4 +ℤ t7) *ℤ pos 7373 in
    let z2 = negated (t5 +ℤ t6) *ℤ pos 20995 in
    let z3 = negated (t4 +ℤ t6) *ℤ pos 16069 +ℤ z5 in
    let z4 = negated (t5 +ℤ t7) *ℤ pos 3196 +ℤ z5 in
    let b1 = store block base step 7 (descale (t4 *ℤ pos 2446 +ℤ z1 +ℤ z3) n) in
    let b2 = store b1 base step 5 (descale (t5 *ℤ pos 16819 +ℤ z2 +ℤ z4) n) in
    let b3 = store b2 base step 3 (descale (t6 *ℤ pos 25172 +ℤ z2 +ℤ z3) n) in
    store b3 base step 1 (descale (t7 *ℤ pos 12299 +ℤ z1 +ℤ z4) n)

-- `d` is `block + base`.
unfoldable pub dct_pass : List ℤ → ℕ → ℕ → Bool → List ℤ
unfolding even_part odd_part
dct_pass block base step first =
    let d = value_at block base step in
    let t0 = d 0 +ℤ d 7 in
    let t7 = d 0 -ℤ d 7 in
    let t1 = d 1 +ℤ d 6 in
    let t6 = d 1 -ℤ d 6 in
    let t2 = d 2 +ℤ d 5 in
    let t5 = d 2 -ℤ d 5 in
    let t3 = d 3 +ℤ d 4 in
    let t4 = d 3 -ℤ d 4 in
    let even = even_part block base step first (t0 +ℤ t3) (t1 +ℤ t2) (t1 -ℤ t2) (t0 -ℤ t3) in
    odd_part even base step first t4 t5 t6 t7

unfoldable pub dct_rows : ℕ → ℕ → List ℤ → List ℤ
unfolding dct_pass
dct_rows zero row block = block
dct_rows (suc left) row block = dct_rows left (suc row) (dct_pass block (8 * row) 1 true)

unfoldable pub dct_columns : ℕ → ℕ → List ℤ → List ℤ
unfolding dct_pass
dct_columns zero column block = block
dct_columns (suc left) column block = dct_columns left (suc column) (dct_pass block column 8 false)

unfoldable pub forward_dct : List ℤ → List ℤ
unfolding dct_rows dct_columns
forward_dct block = dct_columns 8 0 (dct_rows 8 0 block)
