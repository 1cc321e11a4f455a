-- ===== src/Prelude/Division.antt =====
-- Quotients and remainders by a product, and powers of 256 written as powers of two.
use Prim.Native.Nat.{ℕ, zero, suc, ◌+◌, ◌*◌, ◌/◌, ◌%◌, ◌^◌, ◌≤◌, ◌<◌}
use mathlib.Core.Path.{◌≡◌, sym, ap, ◌∙◌}
use native.Mathlib.Omega.{arith}
use native.Mathlib.Nat.{
  div-add-mod, mul-add-mod_self_right, mod-eq_of_lt, mod-lt, div-eq_of_lt-le, one-le-pow,
  pow-le-pow_right, pow-suc, mul_assoc,
}
use native.Mathlib.Numerals.{towards_suc}

pub mod_unique : (q d r : ℕ) {a : ℕ} → q * d + r ≡ a → r < d → a % d ≡ r
mod_unique q d r {a} e h =
    ap (λ (t : ℕ). t % d) (omega arith) ∙ mul-add-mod_self_right q d r ∙ mod-eq_of_lt h

pub div_unique : (q d r : ℕ) {a : ℕ} → q * d + r ≡ a → r < d → a / d ≡ q
div_unique q d r {a} e h = div-eq_of_lt-le d {m = a} (grind arith) (grind arith)

digit_bound : (b c x y : ℕ) → x < b → y < c → x * c + y < b * c
digit_bound b c x y p q = grind arith

pub mod-mul : (b c a : ℕ) → 0 < b → 0 < c → a % (b * c) ≡ a / c % b * c + a % c
mod-mul b c a p q =
    mod_unique (a / c / b) (b * c) (a / c % b * c + a % c)
      (omega (arith, ap (λ (t : ℕ). t * c) (div-add-mod (a / c) b), div-add-mod a c))
      (digit_bound b c (a / c % b) (a % c) (mod-lt (a / c) p) (mod-lt a q))

-- The bound of one more byte.
pub pow_byte : (w : ℕ) → 2 ^ (8 * suc w) ≡ 256 * 2 ^ (8 * w)
pow_byte w =
    let e : 8 * suc w ≡ 8 * w + 8 = omega arith in
    ap (λ (n : ℕ). 2 ^ n) e ∙ simp towards_suc (omega arith)

pub pow-pos : (n : ℕ) → 0 < 2 ^ n
pow-pos n = one-le-pow n 2 (omega arith)

pub pow_mono : (m n : ℕ) → m ≤ n → 2 ^ m ≤ 2 ^ n
pow_mono m n h = pow-le-pow_right (omega arith) h

pub pow_add : (m n : ℕ) → 2 ^ (m + n) ≡ 2 ^ m * 2 ^ n
pow_add m zero = let e : m + zero ≡ m = omega arith in ap (λ (k : ℕ). 2 ^ k) e ∙ omega arith
pow_add m (suc n) =
    let e : m + suc n ≡ suc (m + n) = omega arith in
    ap (λ (k : ℕ). 2 ^ k) e
    ∙ pow-suc 2 (m + n)
    ∙ ap (λ (k : ℕ). k * 2) (pow_add m n)
    ∙ mul_assoc (2 ^ m) (2 ^ n) 2
    ∙ ap (λ (k : ℕ). 2 ^ m * k) (sym (pow-suc 2 n))

-- A value of `b` bytes that is shifted up by `a` bytes has `a + b` bytes.
pub shifted_lt : (a b x : ℕ) → x < 2 ^ (8 * b) → x * 2 ^ (8 * a) < 2 ^ (8 * (a + b))
shifted_lt a b x h =
    let e : 8 * (a + b) ≡ 8 * b + 8 * a = omega arith in
    rw (e, pow_add (8 * b) (8 * a)) (scaled x (2 ^ (8 * b)) (2 ^ (8 * a)) h (pow-pos (8 * a)))
  where
    scaled : (x b a : ℕ) → x < b → 0 < a → x * a < b * a
    scaled x b a h p = grind arith
