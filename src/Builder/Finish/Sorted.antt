-- ===== src/Builder/Finish/Sorted.antt =====
-- The order of the rows that finish lays out.
use mmpack.Prelude.{
  ℕ, ◌+◌, ◌<◌, ◌≡◌, refl, sym, ap, subst, ◌∙◌, Bool, true, false, some, Option-cases, List, [],
  length, if-true, if-false, if-elim, inl, inr, arith,
}
use mmpack.Error.{BuildError, duplicate_key, Result, done, fail, ◌>>◌}
use mmpack.Schema.Declare.{SchemaBuilder}
use mmpack.Builder.Staging.{Staging, memory, wide, blob, size, is_sorted, sort}
use mmpack.Builder.Staging.Memory
use mmpack.Builder.Staging.Wide
use mmpack.Builder.Staging.Blob
use mmpack.Builder.Staging.Blob.{less_bytes}
use mathlib.Core.Bool.{true≢false}
use mathlib.Core.List.{Perm}
use mathlib.Core.List.Perm
use mmpack.Builder.Staging.Sort.{entries, Permutes, sort-permutes}
use mmpack.Builder.Staging.Sorted.{Sorts, sort-twice}
use mmpack.Builder.Staging.Rows.{IsStaging, Coords, coords_at, address_less, row_less, Ascends}
use mmpack.Builder.State.{assume_sorted, BuildOptions, keyed, RecordRef, TableBuilder}
use mmpack.Builder.Commit.{make_staging, assumes_sorted}
use mmpack.Builder.Commit.Steps.{Reach}
use mmpack.Builder.Commit.View.{View, view}
use mmpack.Builder.Commit.Invariant.{Agrees, AreRows, RowsOf, IsRun}
use mmpack.Builder.Commit.Staged.{same_order}
use mmpack.Builder.Commit.Runs.{Reach-IsRun}
use mmpack.Builder.Commit.Log.{Committed, log, Holds}
use mmpack.Builder.Commit.Logged.{Reach-Holds}
use mmpack.Builder.Finish.{
  BuildReport, check_sorted_unique, or_made, first_report, order_rows, prepare,
}
use mmpack.Builder.Finish.Unique.{check_sorted_unique-Ascends, check_sorted_unique-duplicate}

-- The staging that finish starts from.
abbrev pub starting : TableBuilder → Staging
starting b = or_made b.staging (make_staging b keyed)

module _ (std_sort : (A : Type 0) → (A → A → Bool) → List A → List A) where
  sort-Agrees : (v : View) (s : Staging) → Agrees v (some s) → Agrees v (some (sort std_sort s))
  unfolding sort Memory.sort Wide.sort Blob.sort
  sort-Agrees v (memory s) h = h
  sort-Agrees v (wide s) h = h
  sort-Agrees v (blob s) h = h

  starting-parts :
      (b : TableBuilder) (hs : List RecordRef)
      → IsRun (view b) hs
      → (is_sorted (starting b) ≡ true → Ascends (starting b))
        × (b.options.order ≡ assume_sorted → is_sorted (starting b) ≡ true)
        × (is_sorted (starting b) ≡ false → Agrees (view b) (some (starting b)))
        × IsStaging (starting b)
  unfolding make_staging size Memory.size
  starting-parts b hs run = elim (Option-cases b.staging) [
    | inl e ↦
        let made : starting b ≡ memory (Memory.fresh b.options.address_bits) =
          ap (λ o. or_made o (make_staging b keyed)) e in
        subst
          (λ s.
            (is_sorted s ≡ true → Ascends s)
            × (b.options.order ≡ assume_sorted → is_sorted s ≡ true)
            × (is_sorted s ≡ false → Agrees (view b) (some s))
            × IsStaging s)
          (sym made) (λ h i q. absurd (omega arith), λ h. refl, λ h. cc, tt)
    | inr (s, e) ↦
        let there : starting b ≡ s = ap (λ o. or_made o (make_staging b keyed)) e in
        let rows : AreRows b.options.order b.count _ s = subst (RowsOf (view b)) e run.rows in
        subst
          (λ s.
            (is_sorted s ≡ true → Ascends s)
            × (b.options.order ≡ assume_sorted → is_sorted s ≡ true)
            × (is_sorted s ≡ false → Agrees (view b) (some s))
            × IsStaging s)
          (sym there)
          (rows.ascends, rows.in_order, λ h. subst (Agrees (view b)) e run.agrees, rows.sound)
  ]

  sort-order : (s : Staging) (a b : Coords) → row_less (sort std_sort s) a b ≡ row_less s a b
  unfolding sort Memory.sort Wide.sort Blob.sort row_less address_less
  sort-order (memory s) a b = refl
  sort-order (wide s) a b = refl
  sort-order (blob s) a b = refl

  -- What finish makes of the staging `first`: rows to lay out, or the exception of a key that two of its rows have, which
  -- are neighbours once they are sorted.
  abbrev pub AreLaidOut : Staging → TableBuilder × Result BuildError BuildReport → Type 0
  AreLaidOut first (c, fail e) =
      (e ≡ duplicate_key)
      × (is_sorted first ≡ false)
      × (s : Staging) × Perm (entries s) (entries first)
      × (i : ℕ) × (i + 1 < size s)
      × (coords_at s i ≡ coords_at s (i + 1))
  AreLaidOut first (c, done report) =
      (s : Staging) × (c.staging ≡ some s) × Ascends s × Perm (entries s) (entries first)

  checked-AreLaidOut :
      (b c : TableBuilder) (first : Staging) (report : BuildReport)
      → Permutes std_sort
      → Sorts std_sort
      → IsStaging first
      → Agrees (view b) (some (sort std_sort first))
      → c.staging ≡ some (sort std_sort first)
      → is_sorted first ≡ false
      → AreLaidOut first (c, check_sorted_unique b (sort std_sort first) >> done report)
  checked-AreLaidOut b c first report permutes sorts whole agrees has unsorted =
      passed (check_sorted_unique b s) refl
    where
      s : Staging
      s = sort std_sort first

      kept : Perm (entries s) (entries first)
      kept = sort-permutes std_sort permutes first whole

      passed :
          (m : Result BuildError (Unit {0}))
          → check_sorted_unique b s ≡ m
          → AreLaidOut first (c, m >> done report)
      passed (fail e) same =
          let (dup, i, h, level) = check_sorted_unique-duplicate b s agrees same in
          (
            dup,
            unsorted,
            s,
            kept,
            i,
            h,
            sort-twice std_sort permutes sorts first i whole h
                (sym (sort-order first (coords_at s i) (coords_at s (i + 1))) ∙ level),
          )
      passed (done u) same = (s, has, check_sorted_unique-Ascends b s agrees same, kept)

  order_rows-AreLaidOut :
      (b : TableBuilder) (s : Staging)
      → (is_sorted s ≡ true → Ascends s)
      → (b.options.order ≡ assume_sorted → is_sorted s ≡ true)
      → (is_sorted s ≡ false → Agrees (view b) (some s))
      → Permutes std_sort
      → Sorts std_sort
      → IsStaging s
      → AreLaidOut s (order_rows std_sort b s)
  unfolding order_rows
  order_rows-AreLaidOut b s flagged ordered agrees permutes sorts whole =
      let started : TableBuilder = record b { finished = true; staging = some s } in
      let sorted = sort std_sort s in
      if-elim (AreLaidOut s) (is_sorted s) _ _ (λ e. (s, refl, flagged e, Perm.refl (entries s)))
        (λ e.
          if-elim (AreLaidOut s) (assumes_sorted b.options.order) _ _
            (λ h. absurd (true≢false (sym (ordered (same_order b.options.order h)) ∙ e)))
            (λ h.
              checked-AreLaidOut started (record started { staging = some sorted }) s _ permutes
                sorts whole (sort-Agrees (view started) s (started-Agrees s (agrees e))) refl e))
    where
      started-Agrees :
          (o : Staging)
          → Agrees (view b) (some o)
          → Agrees (view (record b { finished = true; staging = some s })) (some o)
      started-Agrees (memory t) h = h
      started-Agrees (wide t) h = h
      started-Agrees (blob t) h = h

  -- Whatever the order of the input, where std::sort permutes and sorts by every strict weak order: finish goes on to lay
  -- out exactly the rows that were staged, ascending strictly by partition and address; or else it throws duplicate_key, and then
  -- the input was out of order and two of its rows have the same partition and address.
  pub prepare-AreLaidOut :
      {at_most_ratio : ℕ → ℕ → Bool} {schema : SchemaBuilder} {options : BuildOptions}
      {b : TableBuilder} {hs : List RecordRef}
      → Permutes std_sort
      → Sorts std_sort
      → Reach at_most_ratio schema options b hs
      → AreLaidOut (starting b) (prepare std_sort b)
  unfolding prepare order_rows
  prepare-AreLaidOut {b = b} {hs = hs} permutes sorts reach =
      let run = Reach-IsRun reach in
      let (flagged, ordered, agrees, whole) = starting-parts b hs run in
      let s = starting b in
      subst (AreLaidOut s) (sym (if-false b.finished _ (order_rows std_sort b s) run.going))
        (order_rows-AreLaidOut b s flagged ordered agrees permutes sorts whole)

  starting-Holds :
      (b : TableBuilder) (records : List Committed)
      → Holds b b.staging records
      → Holds b (some (starting b)) records
  unfolding make_staging size Memory.size
  starting-Holds b records holds = elim (Option-cases b.staging) [
    | inl e ↦
        let made : starting b ≡ memory (Memory.fresh b.options.address_bits) =
          ap (λ o. or_made o (make_staging b keyed)) e in
        let nothing : records ≡ [] = subst (λ o. Holds b o records) e holds in
        subst (λ s. Holds b (some s) records) (sym made)
          (sym (ap length nothing), λ i h. absurd (omega (arith, h, ap length nothing)))
    | inr (s, e) ↦
        let there : starting b ≡ s = ap (λ o. or_made o (make_staging b keyed)) e in
        subst (λ s. Holds b (some s) records) (sym there) (subst (λ o. Holds b o records) e holds)
  ]

  -- A build that is assumed to be sorted goes on to its layout with what was committed: finish throws nothing, the builder is
  -- the one before but for the flag that it is finished and an empty staging if it had none, and the rows of its staging are the
  -- records that the run committed, in their order, in which they ascend.
  pub prepare-done :
      {at_most_ratio : ℕ → ℕ → Bool} {schema : SchemaBuilder} {options : BuildOptions}
      {b : TableBuilder} {hs : List RecordRef} (r : Reach at_most_ratio schema options b hs)
      → b.options.order ≡ assume_sorted
      → (prepare std_sort b
          ≡ (record b { finished = true; staging = some (starting b) }, done (first_report b)))
        × Holds b (some (starting b)) (log r)
        × Ascends (starting b)
  unfolding prepare order_rows
  prepare-done {b = b} {hs = hs} reach assumed =
      let run = Reach-IsRun reach in
      let (flagged, ordered, agrees, whole) = starting-parts b hs run in
      let s = starting b in
      (
        if-false b.finished _ (order_rows std_sort b s) run.going
            ∙ if-true (is_sorted s) _ _ (ordered assumed),
        starting-Holds b (log reach) (Reach-Holds reach).0,
        flagged (ordered assumed),
      )
