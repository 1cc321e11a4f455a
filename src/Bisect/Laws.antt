-- ===== src/Bisect/Laws.antt =====
-- The range that the search splits.
use mmpack.Prelude.{
  ℕ, zero, suc, ◌+◌, ◌-◌, ◌/◌, ◌≤◌, ◌<◌, ◌≡◌, sym, ◌∙◌, Bool, true, false, Bool-cases, ltb, inl,
  inr, arith,
}
use mathlib.Core.Bool.{false≢true}
use mmpack.Bisect.{bisect_loop, bisect}

-- Once the test fails it fails at every later index.
abbrev pub IsDownward : ℕ → (ℕ → Bool) → Type 0
IsDownward n test = (i j : ℕ) → i ≤ j → j < n → test j ≡ true → test i ≡ true

-- `r` splits the indices below `n` into those that pass and those that fail.
abbrev pub Splits : ℕ → (ℕ → Bool) → ℕ → Type 0
Splits n test r =
    (r ≤ n) × ((i : ℕ) → i < r → test i ≡ true) × ((i : ℕ) → r ≤ i → i < n → test i ≡ false)

module _ (n : ℕ) (test : ℕ → Bool) (down : IsDownward n test) where
  passes_below : (mid : ℕ) → mid < n → test mid ≡ true → (i : ℕ) → i < mid + 1 → test i ≡ true
  passes_below mid h e i p = down i mid (omega arith) h e

  fails_above : (mid : ℕ) → test mid ≡ false → (i : ℕ) → mid ≤ i → i < n → test i ≡ false
  fails_above mid e i p q = elim (Bool-cases (test i)) [
    | inl t ↦ absurd (false≢true (sym e ∙ down mid i p q t))
    | inr f ↦ f
  ]

  bisect_loop-Splits :
      (rounds lo len : ℕ)
      → len ≤ rounds
      → lo + len ≤ n
      → ((i : ℕ) → i < lo → test i ≡ true)
      → ((i : ℕ) → lo + len ≤ i → i < n → test i ≡ false)
      → Splits n test (bisect_loop rounds test lo len)
  unfolding bisect_loop
  bisect_loop-Splits zero lo len h inside below above =
      (omega arith, below, λ i p q. above i (omega arith) q)
  bisect_loop-Splits (suc rounds) lo zero h inside below above =
      (omega arith, below, λ i p q. above i (omega arith) q)
  bisect_loop-Splits (suc rounds) lo (suc len) h inside below above =
      let half : ℕ = suc len / 2 in
      let more : ltb 0 (suc len) ≡ true = ground arith in
      elim (Bool-cases (test (lo + half))) [
        | inl e ↦
            rw (more, e)
              (bisect_loop-Splits rounds (lo + half + 1) (suc len - (half + 1)) (omega arith)
                (omega arith) (passes_below (lo + half) (omega arith) e)
                (λ i p q. above i (omega arith) q))
        | inr e ↦
            rw (more, e)
              (bisect_loop-Splits rounds lo half (omega arith) (omega arith) below
                (λ i p q. fails_above (lo + half) e i p q))
      ]

  -- Where the indices that pass the test come first, the search returns the split point.
  pub bisect-Splits : Splits n test (bisect n test)
  unfolding bisect
  bisect-Splits =
      bisect_loop-Splits n 0 n (omega arith) (omega arith) (λ i p. elim p [ ])
        (λ i p q. absurd (omega arith))

-- Tests that agree on the range have the same split points.
pub Splits-ext :
    (n : ℕ) (test test' : ℕ → Bool) (r : ℕ)
    → ((i : ℕ) → i < n → test i ≡ test' i)
    → Splits n test r
    → Splits n test' r
Splits-ext n test test' r agree s =
    (s.0, λ i p. sym (agree i (omega (arith, s.0))) ∙ s.1 i p, λ i p q. sym (agree i q) ∙ s.2 i p q)
