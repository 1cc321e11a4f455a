-- ===== src/Bisect/Examples.antt =====
-- The search on a table of four entries.
use mmpack.Prelude.{ℕ, ◌≡◌, refl, Bool, ltb, arith}
use mmpack.Bisect.{bisect_loop, bisect}
use mmpack.Bisect.Laws.{IsDownward}

abbrev below_three : ℕ → Bool
below_three i = ltb i 3

found : bisect 4 below_three ≡ 3
unfolding bisect bisect_loop
found = refl

below_three-IsDownward : IsDownward 4 below_three
below_three-IsDownward i j h l e = ground arith
