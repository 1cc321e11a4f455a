-- ===== src/Prelude/Digits.antt =====
-- The lowest digit of a digitwise operation: fuel that is left over changes nothing.
use Prim.Native.Nat.{ℕ, zero, suc, ◌+◌, ◌-◌, ◌*◌, ◌/◌, ◌%◌, ◌≤◌, digits, bitwise}
use mathlib.Core.Path.{◌≡◌, refl, sym, ap, ◌∙◌}
use native.Mathlib.Omega.{arith}

module _ (stop : ℕ → ℕ) (join : ℕ → ℕ → ℕ) where
  -- One round more than the first number needs.
  spare_round :
      (rounds a b : ℕ)
      → a ≤ rounds
      → digits stop join (suc rounds) a b ≡ digits stop join rounds a b
  spare_round zero zero b enough = refl
  spare_round (suc rounds) zero b enough = refl
  spare_round zero (suc a) b enough = absurd (omega arith)
  spare_round (suc rounds) (suc a) b enough =
      ap (λ (high : ℕ). high * 2 + join (suc a % 2) (b % 2))
        (spare_round rounds (suc a / 2) (b / 2) (omega arith))

  spare_rounds : (more a b : ℕ) → digits stop join (a + more) a b ≡ bitwise stop join a b
  spare_rounds zero a b = let e : a + 0 ≡ a = omega arith in rw e refl
  spare_rounds (suc more) a b =
      let e : a + suc more ≡ suc (a + more) = omega arith in
      rw e (spare_round (a + more) a b (omega arith) ∙ spare_rounds more a b)

  -- With a first number of 0 that gives the same digits as any other, an operation is its
  -- lowest digit and the operation on the halves.
  pub bitwise_halves :
      (a b : ℕ)
      → stop b ≡ stop (b / 2) * 2 + join 0 (b % 2)
      → bitwise stop join a b ≡ bitwise stop join (a / 2) (b / 2) * 2 + join (a % 2) (b % 2)
  bitwise_halves zero b ends = ends
  bitwise_halves (suc a) b ends =
      let e : suc a / 2 + (a - suc a / 2) ≡ a = omega arith in
      ap (λ (high : ℕ). high * 2 + join (suc a % 2) (b % 2))
        (ap (λ (rounds : ℕ). digits stop join rounds (suc a / 2) (b / 2)) (sym e)
          ∙ spare_rounds (a - suc a / 2) (suc a / 2) (b / 2))
