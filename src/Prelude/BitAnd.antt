-- ===== src/Prelude/BitAnd.antt =====
-- Laws of `bit_and` at variables: one binary digit, masks of low bits, complements.
use Prim.Native.Nat.{
  ℕ, zero, suc, ◌+◌, ◌-◌, ◌*◌, ◌/◌, ◌%◌, ◌^◌, ◌≤◌, ◌<◌, min, bit_and, digits, bit_and-bitwise,
}
use mathlib.Core.Path.{◌≡◌, refl, sym, ap, ap₂, ◌∙◌}
use native.Mathlib.Omega.{arith}
use native.Mathlib.Nat.{pow-suc, one-le-pow}
use mmpack.Prelude.Digits.{bitwise_halves}
use mmpack.Prelude.Division.{mod-mul}

bit_and_halves : (a b : ℕ) → bit_and a b ≡ bit_and (a / 2) (b / 2) * 2 + min (a % 2) (b % 2)
bit_and_halves a b =
    let lowest : ℕ → ℕ = λ high. high * 2 + min (a % 2) (b % 2) in
    bit_and-bitwise a b
    ∙ bitwise_halves (λ rest. zero) min a b (omega arith)
    ∙ ap lowest (sym (bit_and-bitwise (a / 2) (b / 2)))

empty-bit_and : (b : ℕ) → bit_and 0 b ≡ 0
empty-bit_and b = bit_and-bitwise 0 b

-- The digits of `a` under `m` and under its complement add up to `a`.
pub bit_and_split :
    (n a m : ℕ) → a < 2 ^ n → m < 2 ^ n → bit_and a m + bit_and a (2 ^ n - 1 - m) ≡ a
bit_and_split zero zero m p q = omega (arith, empty-bit_and m, empty-bit_and (1 - 1 - m))
bit_and_split zero (suc a) m p q = absurd (omega arith)
bit_and_split (suc n) a m p q =
    let e : 2 ^ suc n ≡ 2 ^ n * 2 = pow-suc 2 n in
    let half : (2 ^ suc n - 1 - m) / 2 ≡ 2 ^ n - 1 - m / 2 = omega arith in
    omega (
      arith,
      half,
      bit_and_halves a m,
      bit_and_halves a (2 ^ suc n - 1 - m),
      bit_and_split n (a / 2) (m / 2) (omega arith) (omega arith),
      ap (bit_and (a / 2)) half,
    )

no_digits : (rounds a : ℕ) → digits (λ rest. zero) min rounds a 0 ≡ 0
no_digits zero a = refl
no_digits (suc rounds) zero = refl
no_digits (suc rounds) (suc a) = omega (arith, no_digits rounds (suc a / 2))

bit_and-empty : (a : ℕ) → bit_and a 0 ≡ 0
bit_and-empty a = bit_and-bitwise a 0 ∙ no_digits a a

-- A masked value is at most the mask.
pub bit_and-le_right : (n a m : ℕ) → m < 2 ^ n → bit_and a m ≤ m
bit_and-le_right zero a m q = let e : m ≡ 0 = omega arith in rw e (omega (arith, bit_and-empty a))
bit_and-le_right (suc n) a m q =
    let e : 2 ^ suc n ≡ 2 ^ n * 2 = pow-suc 2 n in
    omega (arith, bit_and_halves a m, bit_and-le_right n (a / 2) (m / 2) (omega arith))

bit_and_odd_mask :
    (n a : ℕ)
    → bit_and (a / 2) (2 ^ n - 1) ≡ a / 2 % 2 ^ n
    → bit_and a (2 ^ suc n - 1) ≡ a / 2 % 2 ^ n * 2 + a % 2
bit_and_odd_mask n a ih =
    let e : 2 ^ suc n ≡ 2 ^ n * 2 = pow-suc 2 n in
    let p : 0 < 2 ^ n = one-le-pow n 2 (omega arith) in
    let half : (2 ^ suc n - 1) / 2 ≡ 2 ^ n - 1 = omega arith in
    bit_and_halves a (2 ^ suc n - 1)
    ∙ ap₂ (λ (x y : ℕ). x * 2 + y) (ap (bit_and (a / 2)) half ∙ ih) (omega arith)

-- A mask of the low `n` bits is the remainder by `2 ^ n`.
pub bit_and_mask : (n a : ℕ) → bit_and a (2 ^ n - 1) ≡ a % 2 ^ n
bit_and_mask zero a = omega (arith, bit_and-empty a)
bit_and_mask (suc n) a =
    bit_and_odd_mask n a (bit_and_mask n (a / 2))
    ∙ sym (
        ap (λ (t : ℕ). a % t) (pow-suc 2 n)
        ∙ mod-mul (2 ^ n) 2 a (one-le-pow n 2 (omega arith)) (omega arith))
