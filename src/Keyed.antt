-- ===== src/Keyed.antt =====
-- include/mmpack/keyed.hpp: lookups and records by keys of any type, which the caller splits and joins.
pub mod Laws
mod Examples
use mmpack.Prelude.{ℕ, Bool, not, Option, none, some, take}
use mmpack.Error.{BuildError, Result}
use mmpack.Bits.{Bytes}
use mmpack.Builder.State.{RecordRef, TableBuilder}
use mmpack.Builder.Commit.{begin_record_at, begin_wide_record_at, commit}
use mmpack.Table.Layout.{Table}
use mmpack.Table.Cursor.{
  Cursor, finish, same_position, cursor_partition, cursor_address, cursor_address_into,
}
use mmpack.Table.Lookup.{
  lower_bound_at, upper_bound_at, floor_at, find_at, lower_bound_bytes_at, upper_bound_bytes_at,
  floor_bytes_at, find_bytes_at,
}

-- What a split returns; the type of the address chooses the overload of a call.
pub data Parts : Type 0 where
  integer_parts : ℕ → ℕ → Parts
  byte_parts : ℕ → Bytes → Parts

-- What a join takes.
pub data Join (Key : Type 0) : Type 0 where
  join_integer : (ℕ → ℕ → Key) → Join Key
  join_bytes : (ℕ → Bytes → Key) → Join Key

abbrev pub by_parts : (ℕ → ℕ → Cursor) → (ℕ → Bytes → Cursor) → Parts → Cursor
by_parts lookup lookup_bytes (integer_parts partition address) = lookup partition address
by_parts lookup lookup_bytes (byte_parts partition address) = lookup_bytes partition address

-- class keyed_table
module _ {Key : Type 0} (t : Table) (split : Key → Parts) where
  unfoldable pub keyed_find : Key → Cursor
  unfolding find_at find_bytes_at
  keyed_find key = by_parts (find_at t) (find_bytes_at t) (split key)

  unfoldable pub keyed_lower_bound : Key → Cursor
  unfolding lower_bound_at lower_bound_bytes_at
  keyed_lower_bound key = by_parts (lower_bound_at t) (lower_bound_bytes_at t) (split key)

  unfoldable pub keyed_upper_bound : Key → Cursor
  unfolding upper_bound_at upper_bound_bytes_at
  keyed_upper_bound key = by_parts (upper_bound_at t) (upper_bound_bytes_at t) (split key)

  unfoldable pub keyed_floor : Key → Cursor
  unfolding floor_at floor_bytes_at
  keyed_floor key = by_parts (floor_at t) (floor_bytes_at t) (split key)

  unfoldable pub keyed_contains : Key → Bool
  unfolding keyed_find same_position finish
  keyed_contains key = not (same_position t (keyed_find key) (finish t))

-- What a buffer holds after a call that may write it.
abbrev pub written : Bytes → Option Bytes → Bytes
written buffer none = buffer
written buffer (some bytes) = bytes

-- `address().value()`, and the join of it.
abbrev pub join_value : {Key : Type 0} → (ℕ → Key) → Option ℕ → Option Key
join_value join none = none
join_value join (some address) = some (join address)

-- key: nothing where the optional address has no value. `buffer` is what the stack holds.
unfoldable pub joined_key : {Key : Type 0} → Table → Join Key → Bytes → Cursor → Option Key
unfolding cursor_partition cursor_address cursor_address_into
joined_key t (join_integer join) buffer it =
    join_value (join (cursor_partition t it)) (cursor_address t it)
joined_key t (join_bytes join) buffer it =
    let full = take t.address_width buffer in
    some (join (cursor_partition t it) (written full (cursor_address_into t it full)))

-- class keyed_builder; its commit is the builder's.
unfoldable pub begin_parts : TableBuilder → Parts → Result BuildError (TableBuilder × RecordRef)
unfolding begin_record_at begin_wide_record_at
begin_parts b (integer_parts partition address) = begin_record_at b partition address
begin_parts b (byte_parts partition address) = begin_wide_record_at b partition address

unfoldable pub keyed_begin_record :
    {Key : Type 0}
    → (Key → Parts)
    → TableBuilder
    → Key
    → Result BuildError (TableBuilder × RecordRef)
unfolding begin_parts
keyed_begin_record split b key = begin_parts b (split key)
