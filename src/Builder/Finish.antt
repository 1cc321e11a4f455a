-- ===== src/Builder/Finish.antt =====
-- The part of finish before the layout (builder.hpp: finish, check_sorted_unique).
pub mod Unique
pub mod Sorted
use mmpack.Prelude.{
  ℕ, zero, suc, ◌+◌, ◌-◌, Bool, true, false, not, ◌&&◌, ◌||◌, Option, none, some, List, ltb, ◌==◌,
  if◌then◌else◌,
}
use mmpack.Error.{
  BuildError, finish_twice, not_sorted, duplicate_key, Result, done, fail, ◌>>=◌, ◌>>◌, fail_if,
}
use mmpack.Builder.Staging.{
  Staging, size, is_sorted, partition_at, address_at, address_bytes_at, sort,
}
use mmpack.Builder.Staging.Blob.{less_bytes}
use mmpack.Builder.State.{KeyMode, undecided, keyed, TableBuilder, tuple_count}
use mmpack.Builder.Commit.{make_staging, same_mode, assumes_sorted}

-- The members of build_report that are set before the layout.
pub record BuildReport : Type 0 where
  pub records : ℕ
  pub distinct_values : ℕ
  pub dedup_abandoned : Bool
  pub has_key_mapping : Bool
  pub sorted_during_finish : Bool

-- Are the rows `i - 1` and `i` in order?
unfoldable pub increasing_at : TableBuilder → Staging → ℕ → Bool
unfolding partition_at address_at address_bytes_at less_bytes
increasing_at b s i =
    let same_partition = partition_at s (i - 1) == partition_at s i in
    let address_increases =
      if b.blob
      then less_bytes b.wide_width (address_bytes_at s (i - 1)) (address_bytes_at s i)
      else ltb (address_at s (i - 1)) (address_at s i) in
    ltb (partition_at s (i - 1)) (partition_at s i) || (same_partition && address_increases)

-- The rows from `i` on, `rounds` of them.
unfoldable pub check_rows : ℕ → TableBuilder → Staging → ℕ → Result BuildError (Unit {0})
unfolding increasing_at
check_rows zero b s i = done tt
check_rows (suc rounds) b s i = do
  fail_if (not (increasing_at b s i)) duplicate_key
  check_rows rounds b s (i + 1)

unfoldable pub check_sorted_unique : TableBuilder → Staging → Result BuildError (Unit {0})
unfolding check_rows size
check_sorted_unique b s = check_rows (size s - 1) b s 1

abbrev pub or_made : Option Staging → Staging → Staging
or_made none made = made
or_made (some s) made = s

unfoldable pub first_report : TableBuilder → BuildReport
unfolding tuple_count
first_report b = record {
  records = b.count;
  distinct_values = tuple_count b;
  dedup_abandoned = not b.dedup_active;
  has_key_mapping = same_mode b.mode keyed || same_mode b.mode undecided;
  sorted_during_finish = false;
}

module _ (std_sort : (A : Type 0) → (A → A → Bool) → List A → List A) where
  -- What follows once there is a staging.
  unfoldable pub order_rows : TableBuilder → Staging → TableBuilder × Result BuildError BuildReport
  unfolding sort check_sorted_unique first_report
  order_rows b staging =
      let started = record b { finished = true; staging = some staging } in
      let sorted = sort std_sort staging in
      if is_sorted staging
      then (started, done (first_report b))
      else if assumes_sorted b.options.order
      then (started, fail not_sorted)
      else (
        record started { staging = some sorted },
        check_sorted_unique started sorted
            >> done (record (first_report b) { sorted_during_finish = true }),
      )

  -- The builder when the layout is chosen, or when finish throws before.
  unfoldable pub prepare : TableBuilder → TableBuilder × Result BuildError BuildReport
  unfolding make_staging order_rows
  prepare b =
      if b.finished
      then (b, fail finish_twice)
      else order_rows b (or_made b.staging (make_staging b keyed))
