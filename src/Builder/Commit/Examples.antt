-- ===== src/Builder/Commit/Examples.antt =====
-- Builds of two records, run, and the theorems on staging at them.
use mmpack.Prelude.{
  ℕ, ◌<◌, ◌≡◌, ◌≢◌, ◌⊎◌, refl, inl, inr, Bool, true, false, some, none, List, [], ◌∷◌, length,
  arith,
}
use mmpack.Error.{
  BuildError, not_increasing, mixed_modes, width_changed, duplicate_key, Result, done, fail,
}
use mmpack.Schema.{uint, is_text}
use mmpack.Schema.Declare.{SchemaBuilder}
use mmpack.Bits.{Bytes}
use mmpack.Table.Search.{memcmp}
use mmpack.Builder.Fields.{observe}
use mmpack.Builder.Staging.{
  Staging, memory, blob, push, size, partition_at, address_at, address_bytes_at, tuple_at, sort,
}
use mmpack.Builder.Staging.Memory
use mmpack.Builder.Staging.Wide
use mmpack.Builder.Staging.Blob
use mmpack.Builder.Staging.Blob.{BlobStaging}
use mmpack.Builder.Staging.Insertion.{insert, std_sort, std_sort-Permutes, std_sort-Sorts}
use mmpack.Builder.Staging.Rows.{Ascends, Pushed}
use mmpack.Builder.Staging.Push.Keys.{push-memory}
use mmpack.Builder.Staging.Push.Arena.{push_bytes-Pushed}
use mmpack.Builder.State.{
  assume_sorted, sort_if_needed, BuildOptions, RecordRef, TableBuilder, tuple_count, tuple_words,
  same_words, tuple_equal, find_equal, maybe_give_up_on_dedup, settle_tuple, intern_tuple,
}
use mmpack.Builder.State.Tuples.{AreTuples, tuple_of}
use mmpack.Builder.State.Interning.{Interned, intern_tuple_lem}
use mmpack.Builder.Commit.{
  fresh_dicts, table_builder, make_staging, enter_mode, enter_wide_mode, partition_of, address_of,
  begin_record, begin_record_at, begin_wide_record_at, increasing, push_wide, stage, stage_tuple,
  commit,
}
use mmpack.Builder.Commit.Setters.{check_field, observed, set_uint}
use mmpack.Builder.Commit.Steps.{Reach, start, begin, set, commits, uint_set}
use mmpack.Builder.Commit.View.{view}
use mmpack.Builder.Commit.Invariant.{IsRun}
use mmpack.Builder.Commit.Staged.{IsCommitted, IsRefused, commits-or_throws}
use mmpack.Builder.Commit.Runs.{Reach-IsRun}
use mmpack.Builder.Commit.Log.{log, Holds}
use mmpack.Builder.Commit.Logged.{Reach-Holds}
use mmpack.Builder.Finish.{
  increasing_at, check_rows, check_sorted_unique, first_report, order_rows, prepare,
}
use mmpack.Builder.Finish.Sorted.{AreLaidOut, starting, prepare-AreLaidOut, prepare-done}

program : Unit {0}
unfolding is_text memcmp observe push size partition_at address_at address_bytes_at tuple_at sort
    Memory.pack Memory.push Memory.size Memory.partition_at Memory.address_at Memory.tuple_at
    Memory.sort Wide.before Wide.push Wide.size Wide.partition_at Wide.address_at Wide.tuple_at
    Wide.sort Blob.slot Blob.less_bytes Blob.before Blob.push_bytes Blob.size Blob.partition_at
    Blob.address_bytes_at Blob.tuple_at Blob.indices Blob.index_before Blob.gather Blob.sort
    tuple_count tuple_words same_words tuple_equal find_equal maybe_give_up_on_dedup settle_tuple
    intern_tuple tuple_of fresh_dicts table_builder make_staging enter_mode enter_wide_mode
    partition_of address_of begin_record begin_record_at begin_wide_record_at increasing push_wide
    stage stage_tuple commit check_field observed set_uint increasing_at check_rows
    check_sorted_unique first_report order_rows prepare
program = tt

-- One uint field named "a", and eight bits of a key for the address.
abbrev schema : SchemaBuilder
schema = record { name = 97 ∷ []; kind = uint; fixed_width = 0 } ∷ []

abbrev options : BuildOptions
options = record { address_bits = 8; order = assume_sorted; dedup_sample = 100 }

abbrev never : ℕ → ℕ → Bool
never n m = false

-- The value of a call that returns.
abbrev value {ℓ} : {A : Type ℓ} → A → Result BuildError A → A
value d (done a) = a
value d (fail e) = d

abbrev nothing : TableBuilder
unfolding program
nothing = record {
  schema = schema;
  options = options;
  staging = none;
  slots = [];
  tuples = [];
  stats = [];
  text_dicts = [];
  index = [];
  count = 0;
  last_partition = 0;
  last_address = 0;
  mode = mmpack.Builder.State.undecided;
  blob = false;
  wide_width = 0;
  pending_address = [];
  last_wide = [];
  dedup_active = true;
  finished = false;
}

abbrev handle : ℕ → ℕ → RecordRef
handle partition address = record { partition = partition; address = address }

abbrev new : TableBuilder
unfolding program
new = value nothing (table_builder schema options)

abbrev began : TableBuilder
unfolding program
began = (value (nothing, handle 0 0) (begin_record new 0x0305)).0

abbrev filled : TableBuilder
unfolding program
filled = value nothing (set_uint began 0 7)

abbrev one : TableBuilder
unfolding program
one = value nothing (commit never filled (handle 3 5))

abbrev again : TableBuilder
unfolding program
again = (value (nothing, handle 0 0) (begin_record one 0x0401)).0

one-Reach : Reach never schema options one (handle 3 5 ∷ [])
unfolding program
one-Reach =
    commits (handle 3 5) (set (begin 0x0305 (start refl) (omega arith) refl) (uint_set 0 7 refl))
      (inl refl) refl

again-Reach : Reach never schema options again (handle 4 1 ∷ handle 3 5 ∷ [])
unfolding program
again-Reach = begin 0x0401 one-Reach (omega arith) refl

-- What may go wrong: an old handle, the other key world.
refused :
    (commit never again (handle 3 5) ≡ fail not_increasing)
    × (begin_record_at again 4 1 ≡ fail mixed_modes)
    × ((value nothing (commit never again (handle 4 1))).count ≡ 2)
unfolding program
refused = (refl, refl, refl)

-- Two wide addresses out of order, sorted; the same address twice.
abbrev wide_rows : List ℕ → Staging
unfolding program
wide_rows last =
    let first = value (Blob.fresh 2) (Blob.push_bytes (Blob.fresh 2) 1 (9 ∷ 8 ∷ []) 0) in
    blob (value first (Blob.push_bytes first 1 last 1))

abbrev unsorted : List ℕ → TableBuilder
unsorted last = record one {
  options = record options { order = sort_if_needed };
  staging = some (wide_rows last);
  blob = true;
  wide_width = 2;
}

prepared :
    (value (first_report one) (prepare std_sort (unsorted (9 ∷ 7 ∷ []))).1
      ≡ record (first_report one) { sorted_during_finish = true; has_key_mapping = true })
    × ((prepare std_sort (unsorted (9 ∷ 8 ∷ []))).1 ≡ fail duplicate_key)
unfolding program std_sort insert
prepared = (refl, refl)

one-AreTuples : AreTuples one
unfolding program
one-AreTuples = record {
  filled = omega arith;
  whole = refl;
  known = known;
  covers = λ e id h. inl (omega arith);
  distinct = λ e i j h q. absurd (omega arith);
}
  where
    known : (id : ℕ) → (0 ≡ id) ⊎ ⊥ → id < 1
    known id (inl e) = omega arith
    known id (inr e) = absurd e

intern_tuple_lem_example : Interned one (intern_tuple never one)
intern_tuple_lem_example = intern_tuple_lem never one one-AreTuples

again-IsRun : IsRun (view again) (handle 4 1 ∷ handle 3 5 ∷ [])
again-IsRun = Reach-IsRun again-Reach

commits-or_throws_example :
    IsCommitted never again (handle 4 1) (handle 4 1 ∷ handle 3 5 ∷ [])
    ⊎ IsRefused never again (handle 4 1)
commits-or_throws_example =
    commits-or_throws never again (handle 4 1) (handle 4 1 ∷ handle 3 5 ∷ []) again-IsRun (inl refl)

Reach-Holds_example : Holds one one.staging (log one-Reach) × IsRun (view one) (handle 3 5 ∷ [])
Reach-Holds_example = Reach-Holds one-Reach

prepare-AreLaidOut_example : AreLaidOut std_sort (starting one) (prepare std_sort one)
prepare-AreLaidOut_example = prepare-AreLaidOut std_sort std_sort-Permutes std_sort-Sorts one-Reach

one-assumed : one.options.order ≡ assume_sorted
unfolding one filled began new program
one-assumed = refl

prepare-done_example :
    (prepare std_sort one
      ≡ (record one { finished = true; staging = some (starting one) }, done (first_report one)))
    × Holds one (some (starting one)) (log one-Reach)
    × Ascends (starting one)
prepare-done_example = prepare-done std_sort one-Reach one-assumed

push-memory_example :
    Pushed
      (memory (Memory.fresh 8))
      (record { partition = 3; address = 5; bytes = [] })
      0
      (memory (Memory.push (Memory.fresh 8) 3 5 0))
push-memory_example =
    push-memory (Memory.fresh 8) 3 5 0 (λ h. (omega arith, omega arith), λ h. absurd (omega arith))

abbrev two_bytes : Bytes
two_bytes = 9 ∷ 8 ∷ []

push_bytes-Pushed_example :
    ((length two_bytes ≡ 2)
      × (t : BlobStaging) × (Blob.push_bytes (Blob.fresh 2) 3 two_bytes 0 ≡ done t)
      × (t.width ≡ 2)
      × Pushed
          (blob (Blob.fresh 2))
          (record { partition = 3; address = 0; bytes = two_bytes })
          0
          (blob t))
    ⊎ ((length two_bytes ≢ 2) × (Blob.push_bytes (Blob.fresh 2) 3 two_bytes 0 ≡ fail width_changed))
push_bytes-Pushed_example = push_bytes-Pushed (Blob.fresh 2) 3 two_bytes 0 refl
