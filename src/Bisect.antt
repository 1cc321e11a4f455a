-- ===== src/Bisect.antt =====
-- The binary search that include/mmpack/table.hpp writes five times: for the slots of a directory
-- (slot_lower_bound, slot_floor) and for the records of a partition (search_lower_narrow,
-- search_upper_narrow, search_wide). The loops differ only in the test on `mid`.
pub mod Laws
mod Examples
use mmpack.Prelude.{ℕ, zero, suc, ◌+◌, ◌-◌, ◌/◌, Bool, ltb, if◌then◌else◌}

-- `while (len > 0)`: each round leaves a smaller `len`, so `len` rounds are enough.
unfoldable pub bisect_loop : ℕ → (ℕ → Bool) → ℕ → ℕ → ℕ
bisect_loop zero test lo len = lo
bisect_loop (suc rounds) test lo len =
    let half = len / 2 in
    let mid = lo + half in
    let after = bisect_loop rounds test (mid + 1) (len - (half + 1)) in
    let before = bisect_loop rounds test lo half in
    if ltb 0 len then (if test mid then after else before) else lo

unfoldable pub bisect : ℕ → (ℕ → Bool) → ℕ
unfolding bisect_loop
bisect count test = bisect_loop count test 0 count
