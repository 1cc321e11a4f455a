-- ===== src/Bits/Widths.antt =====
-- The width chosen for a value holds it, and no narrower one does.
use mmpack.Prelude.{
  ℕ, zero, suc, ◌+◌, ◌*◌, ◌/◌, ◌^◌, ◌≤◌, ◌<◌, ◌≡◌, ap, ◌≢◌, Bool-cases, true, ◌==◌, inl, inr, arith,
}
use mmpack.Prelude.Division.{pow_mono, pow-pos}
use mmpack.Bits.{width_for, max_for_width, is_valid_width, exact_width_loop, exact_width_for}
use native.Mathlib.Decide.{dec_le}
use native.Mathlib.Nat.{div-eq_of_lt, lt-div-mul-add}

-- On every uint64 `width_for` returns one of the widths 1, 2, 4 and 8, that width holds the value,
-- and every other of these widths that holds it is at least as large.
pub width_for_least :
    (v : ℕ)
    → v < 2 ^ 64
    → (is_valid_width (width_for v) ≡ true)
      × (v ≤ max_for_width (width_for v))
      × ((w : ℕ) → is_valid_width w ≡ true → v ≤ max_for_width w → width_for v ≤ w)
unfolding width_for max_for_width is_valid_width
width_for_least v h = (ground arith, ground arith, λ w valid fits. ground arith)

pub width_for-fits : (v : ℕ) → v < 2 ^ 64 → (v < 2 ^ (8 * width_for v)) × (width_for v ≤ 8)
unfolding width_for
width_for-fits v h = (ground arith, ground arith)

shift_zero : (v p : ℕ) → 0 < p → v / p ≡ 0 → v < p
shift_zero v p pos e = omega (arith, ap (λ (t : ℕ). t * p) e, lt-div-mul-add {a = v} pos)

shift_pos : (v p : ℕ) → v / p ≢ 0 → p ≤ v
shift_pos v p h = elim (dec_le p v) [ yes q ↦ q | no q ↦ absurd (h (div-eq_of_lt (omega arith))) ]

wider_least : (w u v : ℕ) → 2 ^ (8 * w) ≤ v → w ≤ u → v < 2 ^ (8 * u) → w + 1 ≤ u
wider_least w u v large le fits = elim (dec_le (w + 1) u) [
  | yes q ↦ q
  | no q ↦ absurd (omega (arith, pow_mono (8 * u) (8 * w) (omega arith)))
]

-- While the loop runs, every narrower width is too small.
exact_width_loop_least :
    (rounds w v : ℕ)
    → 1 ≤ w
    → w + rounds ≡ 8
    → v < 2 ^ 64
    → ((u : ℕ) → 1 ≤ u → v < 2 ^ (8 * u) → w ≤ u)
    → (v < 2 ^ (8 * exact_width_loop rounds w v))
      × (1 ≤ exact_width_loop rounds w v)
      × (exact_width_loop rounds w v ≤ 8)
      × ((u : ℕ) → 1 ≤ u → v < 2 ^ (8 * u) → exact_width_loop rounds w v ≤ u)
unfolding exact_width_loop
exact_width_loop_least zero w v pos e h least =
    let f : w ≡ 8 = omega arith in (rw f (omega arith), omega arith, omega arith, least)
exact_width_loop_least (suc rounds) w v pos e h least = elim (Bool-cases (v / 2 ^ (8 * w) == 0)) [
  | inl done ↦
      let small : v < 2 ^ (8 * w) = shift_zero v _ (pow-pos (8 * w)) (ground arith) in
      (ground arith, ground arith, ground arith, λ u p q. ground (arith, least u))
  | inr more ↦
      let large : 2 ^ (8 * w) ≤ v = shift_pos v _ (ground arith) in
      ground (
        arith,
        exact_width_loop_least rounds (w + 1) v (omega arith) (omega arith) h
            (λ u p q. wider_least w u v large (least u p q) q),
      )
]

-- On every uint64 `exact_width_for` returns a width from 1 to 8, that width holds the value, and
-- every width of at least 1 byte that holds it is at least as large.
pub exact_width_for_least :
    (v : ℕ)
    → v < 2 ^ 64
    → (v < 2 ^ (8 * exact_width_for v))
      × (1 ≤ exact_width_for v)
      × (exact_width_for v ≤ 8)
      × ((u : ℕ) → 1 ≤ u → v < 2 ^ (8 * u) → exact_width_for v ≤ u)
unfolding exact_width_for
exact_width_for_least v h = exact_width_loop_least 7 1 v (omega arith) (omega arith) h (λ u p q. p)
