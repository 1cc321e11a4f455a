-- ===== src/Builder/Staging/Wide.antt =====
-- builder.hpp: wide_staging, which keeps the parts of a caller-split key apart.
use mmpack.Prelude.{
  ℕ, ◌-◌, Bool, true, not, ◌&&◌, List, [], ◌∷◌, ◌++◌, length, get_or, ltb, ◌==◌, if◌then◌else◌,
}

-- wide_staging::row
pub record Row : Type 0 where
  pub partition : ℕ
  pub address : ℕ
  pub tuple : ℕ

-- What a row past the end is read as.
abbrev pub no_row : Row
no_row = record { partition = 0; address = 0; tuple = 0 }

pub record WideStaging : Type 0 where
  pub rows : List Row
  pub sorted : Bool

abbrev pub fresh : WideStaging
fresh = record { rows = []; sorted = true }

-- `rows_[i]`
abbrev pub row : WideStaging → ℕ → Row
row s i = get_or s.rows i no_row

unfoldable pub size : WideStaging → ℕ
size s = length s.rows

unfoldable pub before : (pa aa pb ab : ℕ) → Bool
before pa aa pb ab = if not (pa == pb) then ltb pa pb else ltb aa ab

unfoldable pub push : WideStaging → ℕ → ℕ → ℕ → WideStaging
unfolding before size
push s partition address tuple =
    let back = row s (size s - 1) in
    record s {
      rows = s.rows ++ (record { partition = partition; address = address; tuple = tuple } ∷ []);
      sorted =
          s.sorted
          && not (not (size s == 0) && not (before back.partition back.address partition address));
    }

unfoldable pub partition_at : WideStaging → ℕ → ℕ
partition_at s i = (row s i).partition

unfoldable pub address_at : WideStaging → ℕ → ℕ
address_at s i = (row s i).address

unfoldable pub tuple_at : WideStaging → ℕ → ℕ
tuple_at s i = (row s i).tuple

unfoldable pub sort : ((A : Type 0) → (A → A → Bool) → List A → List A) → WideStaging → WideStaging
unfolding before
sort std_sort s = record s {
  rows = std_sort Row (λ a b. before a.partition a.address b.partition b.address) s.rows;
  sorted = true;
}
