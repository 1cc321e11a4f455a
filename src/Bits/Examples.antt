-- ===== src/Bits/Examples.antt =====
-- The functions of bits.hpp at inputs, and each theorem on them at one.
use mmpack.Prelude.{ℕ, ◌≤◌, ◌≡◌, refl, true, [], ◌∷◌, drop, length, arith}
use mmpack.Bits.{
  Bytes, AreBytes, of_bytes, to_bytes, load, store, load_uint, store_uint, exact_width_loop,
  exact_width_for, width_for, mask_for_width, load_uint_masked, max_for_width, is_valid_width,
  align_up,
}
use mmpack.Bits.Memory.{load_uint-store_uint}
use mmpack.Bits.Widths.{width_for_least}

program : Unit {0}
unfolding of_bytes to_bytes load store load_uint store_uint exact_width_loop exact_width_for
    width_for mask_for_width load_uint_masked align_up
program = tt

abbrev buffer : Bytes
buffer = 1 ∷ 2 ∷ 3 ∷ 4 ∷ 5 ∷ 6 ∷ 7 ∷ 8 ∷ 9 ∷ []

stored : store_uint buffer 3 0x0a0b0c ≡ 12 ∷ 11 ∷ 10 ∷ 4 ∷ 5 ∷ 6 ∷ 7 ∷ 8 ∷ 9 ∷ []
unfolding program
stored = refl

masked : load_uint_masked buffer (mask_for_width 3) ≡ 0x030201
unfolding program
masked = refl

widths : (width_for 70_000 ≡ 4) × (exact_width_for 70_000 ≡ 3)
unfolding program
widths = (refl, refl)

-- A position is not rounded to a multiple of an alignment that is no power of two.
unrounded : align_up 1 3 ≡ 1
unfolding program
unrounded = refl

load_uint-store_uint_example :
    (load_uint (store_uint buffer 3 0x0a0b0c) 3 ≡ 0x0a0b0c)
    × (drop 3 (store_uint buffer 3 0x0a0b0c) ≡ drop 3 buffer)
    × (length (store_uint buffer 3 0x0a0b0c) ≡ length buffer)
load_uint-store_uint_example =
    load_uint-store_uint buffer 3 0x0a0b0c (omega arith) (omega arith) (omega arith)

width_for_least_example :
    (is_valid_width (width_for 70_000) ≡ true)
    × (70_000 ≤ max_for_width (width_for 70_000))
    × ((w : ℕ) → is_valid_width w ≡ true → 70_000 ≤ max_for_width w → width_for 70_000 ≤ w)
width_for_least_example = width_for_least 70_000 (omega arith)

buffer-AreBytes : AreBytes buffer
buffer-AreBytes = (
  omega arith,
  (
    omega arith,
    (
      omega arith,
      (omega arith, (omega arith, (omega arith, (omega arith, (omega arith, (omega arith, tt)))))),
    ),
  ),
)
