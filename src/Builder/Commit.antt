-- ===== src/Builder/Commit.antt =====
-- The calls that stage records (builder.hpp: the constructor, set_staging, begin_record, begin_record_at, commit, enter_mode,
-- enter_wide_mode, make_staging). A call that throws leaves the members as
-- they were, but for a first wide address of 2 ^ 32 bytes or more, where the source has entered the wide mode then.
pub mod Setters
pub mod Steps
pub mod View
pub mod Invariant
pub mod Staged
pub mod Runs
pub mod Log
pub mod Recorded
pub mod Logged
mod Examples
use mmpack.Prelude.{
  ℕ, ◌+◌, ◌-◌, ◌/◌, ◌%◌, ◌^◌, bit_and, Bool, true, false, not, ◌&&◌, ◌||◌, Option, none, some, List,
  [], ◌∷◌, length, map, replicate, leb, ltb, ◌==◌, if◌then◌else◌,
}
use mmpack.Error.{
  BuildError, needs_bytes, staging_late, no_fields, too_many_bits, empty_address, width_differs,
  mixed_modes, after_finish, commit_after_finish, not_increasing, Result, done, fail, ◌>>=◌, ◌>>◌,
  fail_if,
}
use mmpack.Bits.{Bytes}
use mmpack.Dictionary.{BlobBuilder}
use mmpack.Schema.{is_text}
use mmpack.Schema.Declare.{FieldDecl, SchemaBuilder}
use mmpack.Builder.Fields.{fresh_stats}
use mmpack.Builder.Staging.{Staging, memory, wide, blob, push, size}
use mmpack.Builder.Staging.Memory
use mmpack.Builder.Staging.Wide
use mmpack.Builder.Staging.Blob
use mmpack.Builder.State.{
  InputOrder, assume_sorted, sort_if_needed, BuildOptions, KeyMode, undecided, keyed, explicit,
  explicit_wide, RecordRef, TableBuilder, intern_tuple,
}

-- The text dictionaries of a new builder, one for each text field.
unfoldable pub fresh_dicts : SchemaBuilder → List BlobBuilder
unfolding is_text
fresh_dicts [] = []
fresh_dicts (f ∷ fields) =
    let rest = fresh_dicts fields in
    if is_text f.kind then record { index = []; order = []; blob_size = 0 } ∷ rest else rest

unfoldable pub table_builder : SchemaBuilder → BuildOptions → Result BuildError TableBuilder
unfolding fresh_dicts
table_builder schema options = do
  fail_if (length schema == 0) no_fields
  fail_if (ltb 64 options.address_bits) too_many_bits
  done (record {
    schema = schema;
    options = options;
    staging = none;
    slots = replicate (length schema) 0;
    tuples = [];
    stats = replicate (length schema) fresh_stats;
    text_dicts = fresh_dicts schema;
    index = [];
    count = 0;
    last_partition = 0;
    last_address = 0;
    mode = undecided;
    blob = false;
    wide_width = 0;
    pending_address = [];
    last_wide = [];
    dedup_active = true;
    finished = false;
  })

abbrev pub is_used : Option Staging → Bool
unfolding size
is_used none = false
is_used (some s) = not (size s == 0)

-- blob_ is not touched, and dangles where it pointed to the staging that is dropped.
unfoldable pub set_staging : TableBuilder → Staging → Result BuildError TableBuilder
set_staging b staging = do
  fail_if (is_used b.staging) staging_late
  done (record b { staging = some staging })

unfoldable pub make_staging : TableBuilder → KeyMode → Staging
make_staging b explicit = wide Wide.fresh
make_staging b _ = memory (Memory.fresh b.options.address_bits)

-- `if (!staging_) staging_ = s`
abbrev pub or_staging : Option Staging → Staging → Option Staging
or_staging none s = some s
or_staging (some t) s = some t

abbrev pub same_mode : KeyMode → KeyMode → Bool
same_mode undecided undecided = true
same_mode keyed keyed = true
same_mode explicit explicit = true
same_mode explicit_wide explicit_wide = true
same_mode _ _ = false

unfoldable pub enter_mode : TableBuilder → KeyMode → Result BuildError TableBuilder
unfolding make_staging
enter_mode b wanted = do
  fail_if b.finished after_finish
  (if same_mode b.mode undecided
      then done (record b { mode = wanted; staging = or_staging b.staging (make_staging b wanted) })
      else (fail_if (not (same_mode b.mode wanted)) mixed_modes >> done b))

-- The staging and blob_ of a wide build.
abbrev pub wide_staging : TableBuilder → ℕ → Option Staging → TableBuilder
wide_staging b width none = record b { staging = some (blob (Blob.fresh width)); blob = true }
wide_staging b width (some s) = b

unfoldable pub enter_wide_mode : TableBuilder → ℕ → Result BuildError TableBuilder
enter_wide_mode b width = do
  fail_if b.finished after_finish
  (if same_mode b.mode undecided
      then done
          (wide_staging (record b { mode = explicit_wide; wide_width = width }) width b.staging)
      else (fail_if (not (same_mode b.mode explicit_wide)) mixed_modes >> done b))

abbrev pub clear_slots : TableBuilder → TableBuilder
clear_slots b = record b { slots = replicate (length b.slots) 0 }

unfoldable pub partition_of : TableBuilder → ℕ → ℕ
partition_of b key = if leb 64 b.options.address_bits then 0 else key / 2 ^ b.options.address_bits

unfoldable pub address_of : TableBuilder → ℕ → ℕ
address_of b key =
    if leb 64 b.options.address_bits then key else bit_and key (2 ^ b.options.address_bits - 1)

-- The builder after the call, with the handle.
unfoldable pub begin_record : TableBuilder → ℕ → Result BuildError (TableBuilder × RecordRef)
unfolding enter_mode partition_of address_of
begin_record b key = do
  entered ← enter_mode b keyed
  done (
    clear_slots entered,
    record { partition = partition_of entered key; address = address_of entered key },
  )

-- begin_record_at, with an integer for an address.
unfoldable pub begin_record_at : TableBuilder → ℕ → ℕ → Result BuildError (TableBuilder × RecordRef)
unfolding enter_mode
begin_record_at b partition address = do
  entered ← enter_mode b explicit
  done (clear_slots entered, record { partition = partition; address = address })

-- begin_record_at, with the bytes of an address.
unfoldable pub begin_wide_record_at :
    TableBuilder → ℕ → Bytes → Result BuildError (TableBuilder × RecordRef)
unfolding enter_wide_mode
begin_wide_record_at b partition address = do
  fail_if (length address == 0) empty_address
  entered ← enter_wide_mode b (length address % 2 ^ 32)
  fail_if (not (length address == entered.wide_width)) width_differs
  done (
    clear_slots (record entered { pending_address = address }),
    record { partition = partition; address = 0 },
  )

-- Is the record behind the one that was committed last?
unfoldable pub increasing : TableBuilder → RecordRef → Bool
unfolding Blob.less_bytes
increasing b rec =
    ltb b.last_partition rec.partition
    || (b.last_partition == rec.partition
        && (if b.blob
            then Blob.less_bytes b.wide_width b.last_wide b.pending_address
            else ltb b.last_address rec.address))

abbrev pub assumes_sorted : InputOrder → Bool
assumes_sorted assume_sorted = true
assumes_sorted sort_if_needed = false

-- `blob_->push_bytes`. A blob_ that points to no blob staging dangles, which is undefined in the source.
unfoldable pub push_wide : Staging → ℕ → Bytes → ℕ → Result BuildError Staging
unfolding Blob.push_bytes
push_wide (blob s) partition address tuple = do
  pushed ← Blob.push_bytes s partition address tuple
  done (blob pushed)
push_wide (memory s) partition address tuple = fail needs_bytes
push_wide (wide s) partition address tuple = fail needs_bytes

-- A handle comes from a builder with a staging; without one the source is undefined.
unfoldable pub stage :
    TableBuilder → RecordRef → ℕ → Option Staging → Result BuildError TableBuilder
unfolding push_wide push
stage b rec tuple none = fail needs_bytes
stage b rec tuple (some staging) =
    if b.blob
    then (do
      pushed ← push_wide staging rec.partition b.pending_address tuple
      done (record b { staging = some pushed; last_wide = b.pending_address }))
    else (do
      pushed ← push staging rec.partition rec.address tuple
      done (record b { staging = some pushed }))

module _ (at_most_ratio : ℕ → ℕ → Bool) where
  -- The part of commit behind its checks.
  unfoldable pub stage_tuple : TableBuilder → RecordRef → Result BuildError TableBuilder
  unfolding intern_tuple stage
  stage_tuple b rec = do
    let interned = intern_tuple at_most_ratio b
    staged ← stage interned.0 rec interned.1 interned.0.staging
    done (record staged {
      last_partition = rec.partition;
      last_address = rec.address;
      count = staged.count + 1;
    })

  unfoldable pub commit : TableBuilder → RecordRef → Result BuildError TableBuilder
  unfolding increasing stage_tuple
  commit b rec = do
    fail_if b.finished commit_after_finish
    fail_if (assumes_sorted b.options.order && not (b.count == 0) && not (increasing b rec))
        not_increasing
    stage_tuple b rec
