-- ===== src/Prelude/BitOr.antt =====
-- Laws of `bit_or` at variables: it keeps the bits of both sides, and joins disjoint ones.
use Prim.Native.Nat.{
  ℕ, zero, suc, ◌+◌, ◌*◌, ◌/◌, ◌%◌, ◌^◌, ◌≤◌, ◌<◌, max, bit_or, digits, bit_or-bitwise,
}
use mathlib.Core.Path.{◌≡◌, refl, sym, ap, ap₂, ◌∙◌}
use native.Mathlib.Omega.{arith}
use native.Mathlib.Nat.{pow-suc, mod-one}
use mmpack.Prelude.Digits.{bitwise_halves}
use mmpack.Prelude.Division.{mod-mul, pow-pos}

bit_or_halves : (a b : ℕ) → bit_or a b ≡ bit_or (a / 2) (b / 2) * 2 + max (a % 2) (b % 2)
bit_or_halves a b =
    let lowest : ℕ → ℕ = λ high. high * 2 + max (a % 2) (b % 2) in
    bit_or-bitwise a b
    ∙ bitwise_halves (λ rest. rest) max a b (omega arith)
    ∙ ap lowest (sym (bit_or-bitwise (a / 2) (b / 2)))

empty-bit_or : (b : ℕ) → bit_or 0 b ≡ b
empty-bit_or b = bit_or-bitwise 0 b

-- Both sides are at most the union.
bit_or-ge_fuel : (n a b : ℕ) → a ≤ n → b ≤ n → (a ≤ bit_or a b) × (b ≤ bit_or a b)
bit_or-ge_fuel zero a b p q = let e : a ≡ 0 = omega arith in rw e (omega (arith, empty-bit_or b))
bit_or-ge_fuel (suc n) a b p q =
    omega (arith, bit_or_halves a b, bit_or-ge_fuel n (a / 2) (b / 2) (omega arith) (omega arith))

pub bit_or-ge : (a b : ℕ) → (a ≤ bit_or a b) × (b ≤ bit_or a b)
bit_or-ge a b = bit_or-ge_fuel (a + b) a b (omega arith) (omega arith)

-- Words stay words.
pub bit_or-lt : (n a b : ℕ) → a < 2 ^ n → b < 2 ^ n → bit_or a b < 2 ^ n
bit_or-lt zero a b p q = let e : a ≡ 0 = omega arith in rw e (omega (arith, empty-bit_or b))
bit_or-lt (suc n) a b p q =
    let e : 2 ^ suc n ≡ 2 ^ n * 2 = pow-suc 2 n in
    omega (arith, bit_or_halves a b, bit_or-lt n (a / 2) (b / 2) (omega arith) (omega arith))

halve_mod : (n a : ℕ) → a % 2 ^ suc n ≡ a / 2 % 2 ^ n * 2 + a % 2
halve_mod n a = ap (λ (t : ℕ). a % t) (pow-suc 2 n) ∙ mod-mul (2 ^ n) 2 a (pow-pos n) (omega arith)

-- Low bits that the union lacks, both sides lack.
pub bit_or-low_zero : (n a b : ℕ) → bit_or a b % 2 ^ n ≡ 0 → (a % 2 ^ n ≡ 0) × (b % 2 ^ n ≡ 0)
bit_or-low_zero zero a b e = (mod-one a, mod-one b)
bit_or-low_zero (suc n) a b e =
    rest (bit_or_halves a b) (sym (halve_mod n (bit_or a b)) ∙ e)
      (bit_or-low_zero n (a / 2) (b / 2))
  where
    zeros : {x y : ℕ} → x * 2 + y ≡ 0 → (x ≡ 0) × (y ≡ 0)
    zeros h = omega arith

    rest :
        {o : ℕ}
        → o ≡ bit_or (a / 2) (b / 2) * 2 + max (a % 2) (b % 2)
        → o / 2 % 2 ^ n * 2 + o % 2 ≡ 0
        → (bit_or (a / 2) (b / 2) % 2 ^ n ≡ 0 → (a / 2 % 2 ^ n ≡ 0) × (b / 2 % 2 ^ n ≡ 0))
        → (a % 2 ^ suc n ≡ 0) × (b % 2 ^ suc n ≡ 0)
    rest {o} s z ih =
        let (high, low) = zeros z in
        let half : o / 2 ≡ bit_or (a / 2) (b / 2) = omega arith in
        let (ha, hb) = ih (ap (λ (t : ℕ). t % 2 ^ n) (sym half) ∙ high) in
        let la : a % 2 ≡ 0 = omega arith in
        let lb : b % 2 ≡ 0 = omega arith in
        (
          halve_mod n a ∙ ap₂ (λ (x y : ℕ). x * 2 + y) ha la,
          halve_mod n b ∙ ap₂ (λ (x y : ℕ). x * 2 + y) hb lb,
        )

own_digits : (rounds a : ℕ) → a ≤ rounds → digits (λ rest. rest) max rounds a 0 ≡ a
own_digits zero a enough = omega arith
own_digits (suc rounds) zero enough = refl
own_digits (suc rounds) (suc a) enough = omega (arith, own_digits rounds (suc a / 2))

bit_or-empty : (a : ℕ) → bit_or a 0 ≡ a
bit_or-empty a = bit_or-bitwise a 0 ∙ own_digits a a (omega arith)

-- A value above `n` bits and a value of `n` bits are joined to their sum.
pub bit_or_disjoint : (n x a : ℕ) → a < 2 ^ n → bit_or (x * 2 ^ n) a ≡ x * 2 ^ n + a
bit_or_disjoint zero x a h =
    let e : a ≡ 0 = omega arith in
    let f : x * 2 ^ 0 ≡ x = omega arith in rw (e, f) (bit_or-empty x ∙ omega arith)
bit_or_disjoint (suc n) x a h =
    let p : 2 ^ suc n ≡ 2 ^ n * 2 = pow-suc 2 n in
    let e : x * 2 ^ suc n ≡ x * 2 ^ n * 2 = ap (λ (t : ℕ). x * t) p ∙ omega arith in
    let half : x * 2 ^ suc n / 2 ≡ x * 2 ^ n = omega (arith, e) in
    bit_or_halves (x * 2 ^ suc n) a
    ∙ ap₂ (λ (u v : ℕ). bit_or u (a / 2) * 2 + v) half (omega (arith, e))
    ∙ ap (λ (u : ℕ). u * 2 + a % 2) (bit_or_disjoint n x (a / 2) (omega (arith, p)))
    ∙ omega (arith, e)
