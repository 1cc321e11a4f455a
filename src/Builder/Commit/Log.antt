-- ===== src/Builder/Commit/Log.antt =====
-- The records that the calls of a run committed.
use mmpack.Prelude.{
  Bool, ℕ, ◌<◌, ◌≡◌, if◌then◌else◌, none, some, Option, List, [], ◌∷◌, ◌++◌, length, get_or,
}
use mmpack.Builder.Staging.{Staging, size, tuple_at}
use mmpack.Builder.Staging.Rows.{Coords, coords_at}
use mmpack.Builder.State.{RecordRef, TableBuilder, tuple_count, BuildOptions}
use mmpack.Builder.State.Tuples.{tuple_of}
use mmpack.Schema.Declare.{SchemaBuilder}
use mmpack.Builder.Commit.Steps.{Reach, start, begin, begin_at, begin_wide, set, commits}

-- A committed record: its place, and the fields that were open when it was committed.
pub record Committed : Type 0 where
  pub coords : Coords
  pub fields : List ℕ

-- What a record past the end is read as.
abbrev pub no_record : Committed
no_record = record { coords = record { partition = 0; address = 0; bytes = [] }; fields = [] }

-- The place of a record: its handle's, with the open address in a wide build.
abbrev pub place : TableBuilder → RecordRef → Coords
place b rec =
    if b.blob
    then record { partition = rec.partition; address = 0; bytes = b.pending_address }
    else record { partition = rec.partition; address = rec.address; bytes = [] }

-- The records that a run committed, in the order of its commits.
unfoldable pub log :
    {at_most_ratio : ℕ → ℕ → Bool} {schema : SchemaBuilder} {options : BuildOptions}
    {b : TableBuilder} {hs : List RecordRef}
    → Reach at_most_ratio schema options b hs
    → List Committed
log (start e) = []
log (begin key r h e) = log r
log (begin_at partition address r e) = log r
log (begin_wide partition address r e) = log r
log (set r s) = log r
log (commits {b = b} rec r handle e) =
    log r ++ (record { coords = place b rec; fields = b.slots } ∷ [])

-- Row `i` of a staging reads back a record: its place, and its fields as the tuple of the row.
abbrev pub IsRow : TableBuilder → Staging → ℕ → Committed → Type 0
IsRow b s i r =
    (coords_at s i ≡ r.coords)
    × (tuple_at s i < tuple_count b)
    × (tuple_of b (tuple_at s i) ≡ r.fields)

-- The rows of the staging are the records, in their order.
abbrev pub Holds : TableBuilder → Option Staging → List Committed → Type 0
Holds b none records = records ≡ []
Holds b (some s) records =
    (size s ≡ length records)
    × ((i : ℕ) → i < length records → IsRow b s i (get_or records i no_record))
