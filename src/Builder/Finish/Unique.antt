-- ===== src/Builder/Finish/Unique.antt =====
-- What check_sorted_unique says of the rows, and of the one that it refuses.
use mmpack.Prelude.{
  ℕ, zero, suc, ◌+◌, ◌-◌, ◌≤◌, ◌<◌, ◌≡◌, ◌⊎◌, refl, sym, ap, subst, ◌∙◌, Bool, true, false, not,
  ◌&&◌, ◌||◌, some, ltb, ◌==◌, if◌then◌else◌, if-true, if-false, inl, inr, arith,
}
use native.Mathlib.Decide.{dec_lt}
use mmpack.Error.{BuildError, duplicate_key, Result, done, fail, ◌>>◌, fail_if-eq_done}
use mmpack.Builder.Staging.{Staging, memory, wide, blob, size}
use mmpack.Builder.Staging.Blob.{less_bytes}
use mmpack.Builder.Staging.Rows.{Coords, coords_at, address_less, row_less, Ascends}
use mmpack.Builder.State.{TableBuilder}
use mmpack.Builder.Commit.View.{View, view}
use mmpack.Builder.Commit.Invariant.{Agrees}
use mmpack.Error.{fail_if}
use mmpack.Builder.Finish.{increasing_at, check_rows, check_sorted_unique}

check_rows-each :
    (rounds : ℕ) (b : TableBuilder) (s : Staging) (i j : ℕ) {u : Unit {0}}
    → check_rows rounds b s i ≡ done u
    → i ≤ j
    → j < i + rounds
    → increasing_at b s j ≡ true
unfolding check_rows
check_rows-each zero b s i j e l h = absurd (omega arith)
check_rows-each (suc rounds) b s i j e l h =
    let (fine, rest) = fail_if-eq_done (not (increasing_at b s i)) duplicate_key _ e in
    elim (dec_lt i j) [
      | yes later ↦ check_rows-each rounds b s (i + 1) j rest (omega arith) (omega arith)
      | no here ↦
          let same : i ≡ j = omega arith in
          subst (λ n. increasing_at b s n ≡ true) same (kept (increasing_at b s i) fine)
    ]
  where
    kept : (t : Bool) → not t ≡ false → t ≡ true
    kept true e = refl
    kept false e = cc

address_test :
    (v : View) (s : Staging) (a b : Coords)
    → Agrees v (some s)
    → (if v.blob then less_bytes v.wide_width a.bytes b.bytes else ltb a.address b.address)
      ≡ address_less s a b
unfolding address_less
address_test v (memory s) a b (m, flag, w) = if-false v.blob _ _ flag
address_test v (wide s) a b (m, flag) = if-false v.blob _ _ flag
address_test v (blob s) a b (m, flag, w, p) =
    if-true v.blob _ _ flag ∙ ap (λ n. less_bytes n a.bytes b.bytes) (sym w)

-- The test of check_sorted_unique is the order of the staging.
increasing_at-row_less :
    (b : TableBuilder) (s : Staging) (i : ℕ)
    → Agrees (view b) (some s)
    → increasing_at b s (i + 1) ≡ row_less s (coords_at s i) (coords_at s (i + 1))
unfolding increasing_at row_less coords_at
increasing_at-row_less b s i agrees =
    let back : i + 1 - 1 ≡ i = omega arith in
    let next = coords_at s (i + 1) in
    ap
      (λ k.
        ltb (coords_at s k).partition next.partition
        || ((coords_at s k).partition == next.partition
            && (if b.blob
                then less_bytes b.wide_width (coords_at s k).bytes next.bytes
                else ltb (coords_at s k).address next.address)))
      back
    ∙ ap
        (λ t.
          ltb (coords_at s i).partition next.partition
          || ((coords_at s i).partition == next.partition && t))
        (address_test (view b) s (coords_at s i) next agrees)

-- Rows that check_sorted_unique lets pass ascend.
pub check_sorted_unique-Ascends :
    (b : TableBuilder) (s : Staging) {u : Unit {0}}
    → Agrees (view b) (some s)
    → check_sorted_unique b s ≡ done u
    → Ascends s
unfolding check_sorted_unique
check_sorted_unique-Ascends b s agrees e i h =
    sym (increasing_at-row_less b s i agrees)
    ∙ check_rows-each (size s - 1) b s 1 (i + 1) e (omega arith) (omega arith)

if_failed :
    (test : Bool) (rest : Result BuildError (Unit {0})) {e : BuildError}
    → (fail_if test duplicate_key >> rest) ≡ fail e
    → ((test ≡ true) × (e ≡ duplicate_key)) ⊎ (rest ≡ fail e)
if_failed true rest h = inl (refl, cc)
if_failed false rest h = inr h

-- The only exception of check_sorted_unique, and the row that it is thrown for.
check_rows-duplicate :
    (rounds : ℕ) (b : TableBuilder) (s : Staging) (i : ℕ) {e : BuildError}
    → check_rows rounds b s i ≡ fail e
    → (e ≡ duplicate_key) × (j : ℕ) × (i ≤ j) × (j < i + rounds) × (increasing_at b s j ≡ false)
unfolding check_rows
check_rows-duplicate zero b s i h = cc
check_rows-duplicate (suc rounds) b s i {e = e} h =
    elim (if_failed (not (increasing_at b s i)) (check_rows rounds b s (i + 1)) h) [
      | inl (here, same) ↦ (same, i, omega arith, omega arith, fallen (increasing_at b s i) here)
      | inr later ↦
          let (same, j, low, high, found) = check_rows-duplicate rounds b s (i + 1) later in
          (same, j, omega arith, omega arith, found)
    ]
  where
    fallen : (t : Bool) → not t ≡ true → t ≡ false
    fallen true k = cc
    fallen false k = refl

pub check_sorted_unique-duplicate :
    (b : TableBuilder) (s : Staging) {e : BuildError}
    → Agrees (view b) (some s)
    → check_sorted_unique b s ≡ fail e
    → (e ≡ duplicate_key)
      × (i : ℕ) × (i + 1 < size s)
      × (row_less s (coords_at s i) (coords_at s (i + 1)) ≡ false)
unfolding check_sorted_unique
check_sorted_unique-duplicate b s agrees h =
    let (same, j, low, high, found) = check_rows-duplicate (size s - 1) b s 1 h in
    let before : j ≡ (j - 1) + 1 = omega arith in
    (
      same,
      j - 1,
      omega arith,
      sym (increasing_at-row_less b s (j - 1) agrees) ∙ ap (increasing_at b s) (sym before) ∙ found,
    )
