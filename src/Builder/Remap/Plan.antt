-- ===== src/Builder/Remap/Plan.antt =====
-- When a remap table is planned.
use mmpack.Prelude.{
  ℕ, ◌+◌, ◌-◌, ◌*◌, ◌%◌, ◌^◌, ◌≤◌, ◌<◌, ◌≡◌, ◌⊎◌, refl, sym, ap, ◌∙◌, Bool, Bool-cases, not, ◌||◌,
  leb, ltb, ◌==◌, inl, inr, arith,
}
use mmpack.Bits.{width_for}
use mmpack.Builder.Remap.{plan_remap}
use native.Mathlib.Nat.{mod-eq_of_lt, lt_of_le_of_lt, mul-le-mul_left, mul-add}

width_for-narrow :
    (d : ℕ)
    → 0 < d
    → width_for (d - 1) ≤ 2
    → (1 ≤ width_for (d - 1)) × (d ≤ 2 ^ (8 * width_for (d - 1)))
unfolding width_for
width_for-narrow d pos h = ground arith

saved_exact : (c r l : ℕ) → r ≤ 8 → c * 8 < 2 ^ 64 → c * (r - l) % 2 ^ 64 ≡ c * (r - l)
saved_exact c r l h b =
    mod-eq_of_lt (lt_of_le_of_lt (mul-le-mul_left {m = r - l} {n = 8} c (omega arith)) b)

split_width : (c r l : ℕ) → l < r → c * l + c * (r - l) ≡ c * r
split_width c r l h =
    let e : r ≡ l + (r - l) = omega arith in sym (ap (λ (x : ℕ). c * x) e ∙ mul-add c l (r - l))

-- Where 8 bytes for each record and 4 for each distinct tuple stay below 2 ^ 64, and a reference has
-- at most 8 bytes: either no remap is planned and nothing is saved, or the local width is 1 or
-- 2 and less than the global one, every local index below the distinct count fits it, and the
-- records with the table are exactly the savings, which are not 0, smaller than before.
pub plan_remap-pays :
    (enabled : Bool) (ref_width distinct count : ℕ)
    → distinct * 4 < 2 ^ 64
    → count * 8 < 2 ^ 64
    → ref_width ≤ 8
    → let r = plan_remap enabled ref_width distinct count in
      ((r.0 ≡ 0) × (r.1 ≡ 0))
      ⊎ ((1 ≤ r.0)
          × (r.0 ≤ 2)
          × (r.0 < ref_width)
          × (distinct ≤ 2 ^ (8 * r.0))
          × (0 < r.1)
          × (count * r.0 + distinct * 4 + r.1 ≡ count * ref_width))
unfolding plan_remap
plan_remap-pays enabled ref_width distinct count d c w =
    elim (Bool-cases (not enabled || distinct == 0)) [
      | inl b ↦ rw b (inl (refl, refl))
      | inr b ↦ rw b (elim (Bool-cases (leb ref_width local || ltb 2 local)) [
        | inl n ↦ rw n (inl (refl, refl))
        | inr n ↦
            let less : local < ref_width = ground arith in
            let narrow : local ≤ 2 = ground arith in
            let wide = width_for-narrow distinct (ground arith) narrow in
            rw (n, saved_exact count ref_width local w c, mod-eq_of_lt d)
              (elim (Bool-cases (leb (count * (ref_width - local)) (distinct * 4))) [
                | inl p ↦ rw p (inl (refl, refl))
                | inr p ↦ rw p (
                    inr (
                      wide.0,
                      narrow,
                      less,
                      wide.1,
                      ground arith,
                      balance _ _ _ _ (ground arith) (split_width count ref_width local less),
                    ))
              ])
      ])
    ]
  where
    local : ℕ
    local = width_for (distinct - 1)

    balance : (x s t r : ℕ) → t < s → x + s ≡ r → x + t + (s - t) ≡ r
    balance x s t r h e = omega arith
