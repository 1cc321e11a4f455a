-- ===== src/Prelude/Early.antt =====
-- Early returns: a check that ends a function with no result, and the rest of the function.
use mathlib.Core.Path.{◌≡◌, refl}
use mathlib.Core.Bool.{Bool, true, false}
use mathlib.Core.Option.{Option, none, some}

infixl 5 ◌>>=◌ ◌>>◌
abbrev pub ◌>>=◌ {ℓ κ} : {A : Type ℓ} {B : Type κ} → Option A → (A → Option B) → Option B
none >>= f = none
some a >>= f = f a

abbrev pub ◌>>◌ {ℓ} : {B : Type ℓ} → Option (Unit {0}) → Option B → Option B
m >> k = m >>= λ _. k

-- `if (test) return std::nullopt;`
abbrev pub reject_if : Bool → Option (Unit {0})
reject_if true = none
reject_if false = some tt

-- A function that got past its check did not reject.
pub reject_if-eq_some {ℓ} :
    {B : Type ℓ} (test : Bool) (rest : Option B) {b : B}
    → (reject_if test >> rest) ≡ some b
    → (test ≡ false) × (rest ≡ some b)
reject_if-eq_some true rest e = cc
reject_if-eq_some false rest e = (refl, e)
