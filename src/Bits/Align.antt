-- ===== src/Bits/Align.antt =====
-- `align_up` never moves a position back, and at a power of two it is the next multiple.
use mmpack.Prelude.{ℕ, ◌+◌, ◌-◌, ◌*◌, ◌/◌, ◌%◌, ◌^◌, ◌≤◌, ◌<◌, ◌≡◌, ap, ◌∙◌, bit_and, arith}
use mmpack.Prelude.BitAnd.{bit_and_split, bit_and-le_right, bit_and_mask}
use mmpack.Prelude.Division.{pow-pos}
use mmpack.Bits.{align_up}
use native.Mathlib.Nat.{div-add-mod, mul-mod_right}

align_up_parts :
    (v a : ℕ) → 1 ≤ a → v + a ≤ 2 ^ 64 → bit_and (v + (a - 1)) (a - 1) + align_up v a ≡ v + (a - 1)
unfolding align_up
align_up_parts v a pos h =
    let e : (v + (a - 1)) % 2 ^ 64 ≡ v + (a - 1) = omega arith in
    rw e (bit_and_split 64 (v + (a - 1)) (a - 1) (omega arith) (omega arith))

-- For every alignment that is not 0, where the sum does not pass 2 ^ 64, the aligned position is
-- at or behind the position, and less than the alignment away.
pub align_up_bounds :
    (v a : ℕ) → 1 ≤ a → v + a ≤ 2 ^ 64 → (v ≤ align_up v a) × (align_up v a < v + a)
align_up_bounds v a pos h =
    omega (arith, align_up_parts v a pos h, bit_and-le_right 64 (v + (a - 1)) (a - 1) (omega arith))

align_up_multiple :
    (v k : ℕ) → v + 2 ^ k ≤ 2 ^ 64 → align_up v (2 ^ k) ≡ 2 ^ k * ((v + (2 ^ k - 1)) / 2 ^ k)
align_up_multiple v k h =
    rest (div-add-mod (v + (2 ^ k - 1)) (2 ^ k)) (align_up_parts v (2 ^ k) (pow-pos k) h)
      (bit_and_mask k (v + (2 ^ k - 1)))
  where
    rest : {q r x a m : ℕ} → q + r ≡ x → m + a ≡ x → m ≡ r → a ≡ q
    rest d e f = omega arith

-- At a power of two, where the sum does not pass 2 ^ 64, the result is a multiple of it, at or
-- behind the position and less than the alignment away.
pub align_up-pow :
    (v k : ℕ)
    → v + 2 ^ k ≤ 2 ^ 64
    → (align_up v (2 ^ k) % 2 ^ k ≡ 0) × (v ≤ align_up v (2 ^ k)) × (align_up v (2 ^ k) < v + 2 ^ k)
align_up-pow v k h =
    let (lo, hi) = align_up_bounds v (2 ^ k) (pow-pos k) h in
    (
      ap (λ (t : ℕ). t % 2 ^ k) (align_up_multiple v k h)
          ∙ mul-mod_right (2 ^ k) ((v + (2 ^ k - 1)) / 2 ^ k),
      lo,
      hi,
    )
