-- ===== src/Table/Lookup.antt =====
-- The lookups (table.hpp: lower_bound .. find_at and the *_parts behind them).
use mmpack.Prelude.{
  ℕ, ◌-◌, Bool, true, false, ◌&&◌, ◌||◌, not, leb, ltb, ◌==◌, length, if◌then◌else◌,
}
use Prim.Native.Nat.{Ordering}
use mmpack.Bits.{Bytes, load_uint}
use mmpack.Schema.{narrow_address, has_key_mapping, partition_of, address_of}
use mmpack.Table.Layout.{
  Table, PartitionLayout, layout_of, record_bytes, stored_address, slot_partition,
}
use mmpack.Table.Search.{
  Query, narrow, wide, probe_narrow, probe_wide, memcmp, search_lower_narrow, search_wide,
  search_above, search_lower, slot_lower_bound, slot_exact, slot_floor,
}
use mmpack.Table.Cursor.{Cursor, finish, normalize, floor_at_or_before, floor_before}

module _ (t : Table) where
  unfoldable pub lower_bound_parts : ℕ → Query → Cursor
  unfolding slot_lower_bound search_lower normalize layout_of
  lower_bound_parts partition q =
      let slot = slot_lower_bound t partition in
      let here = search_lower t.address_width (layout_of t slot) q in
      normalize t slot
        (if ltb slot t.dir_count && slot_partition t slot == partition then here else 0)

  unfoldable pub upper_bound_parts : ℕ → Query → Cursor
  unfolding slot_lower_bound search_above normalize layout_of
  upper_bound_parts partition q =
      let slot = slot_lower_bound t partition in
      let here = search_above t.address_width (layout_of t slot) q in
      normalize t slot
        (if ltb slot t.dir_count && slot_partition t slot == partition then here else 0)

  unfoldable pub floor_parts : ℕ → Query → Cursor
  unfolding slot_floor search_above floor_at_or_before floor_before layout_of finish
  floor_parts partition q =
      let slot = slot_floor t partition in
      let p = layout_of t slot in
      let above = search_above t.address_width p q in
      if leb t.dir_count slot
      then finish t
      else if slot_partition t slot == partition
      then (if not (p.count == 0) && not (above == 0)
          then record { slot = slot; index = above - 1 }
          else floor_before t slot)
      else floor_at_or_before t slot

  -- `memcmp(p.records + index * p.stride, bytes, p.address_width) == 0`
  unfoldable pub stores_bytes : PartitionLayout → ℕ → Bytes → Bool
  unfolding memcmp record_bytes
  stores_bytes p i bytes = elim (memcmp p.address_width (record_bytes p i) bytes) [
    | Ordering.eq ↦ true
    | _ ↦ false
  ]

  unfoldable pub find_in : ℕ → PartitionLayout → Query → Cursor
  unfolding search_lower_narrow search_wide probe_narrow probe_wide stores_bytes finish
  find_in slot p (narrow value) =
      let q = probe_narrow p value in
      let index = search_lower_narrow p q.value in
      if q.tail
      then finish t
      else if leb p.count index
      then finish t
      else if stored_address p index == q.value
      then record { slot = slot; index = index }
      else finish t
  find_in slot p (wide bytes) =
      let q = probe_wide t.address_width p bytes in
      let index = search_wide p q.bytes false in
      if q.head || q.tail
      then finish t
      else if leb p.count index
      then finish t
      else if stores_bytes p index q.bytes
      then record { slot = slot; index = index }
      else finish t

  unfoldable pub find_parts : ℕ → Query → Cursor
  unfolding slot_exact layout_of find_in finish
  find_parts partition q =
      let slot = slot_exact t partition in
      let p = layout_of t slot in
      if leb t.dir_count slot then finish t else if p.count == 0 then finish t else find_in slot p q

  -- The integer forms find nothing on an image with wide addresses; the byte forms serve both,
  -- and reject a probe of another length than the address field.
  unfoldable pub value_form : (ℕ → Query → Cursor) → ℕ → ℕ → Cursor
  unfolding finish
  value_form lookup partition address =
      if not (narrow_address t.schema) then finish t else lookup partition (narrow address)

  unfoldable pub bytes_form : (ℕ → Query → Cursor) → ℕ → Bytes → Cursor
  unfolding finish
  bytes_form lookup partition address =
      if not (length address == t.address_width)
      then finish t
      else if narrow_address t.schema
      then lookup partition (narrow (load_uint address t.address_width))
      else lookup partition (wide address)

  -- The forms that take a 64-bit key find nothing on an image that defines no key space.
  unfoldable pub key_form : (ℕ → ℕ → Cursor) → ℕ → Cursor
  unfolding finish partition_of address_of
  key_form lookup_at key =
      if not (has_key_mapping t.schema)
      then finish t
      else lookup_at (partition_of t.schema key) (address_of t.schema key)

  unfoldable pub lower_bound_at : ℕ → ℕ → Cursor
  unfolding value_form lower_bound_parts
  lower_bound_at = value_form lower_bound_parts

  unfoldable pub upper_bound_at : ℕ → ℕ → Cursor
  unfolding value_form upper_bound_parts
  upper_bound_at = value_form upper_bound_parts

  unfoldable pub floor_at : ℕ → ℕ → Cursor
  unfolding value_form floor_parts
  floor_at = value_form floor_parts

  unfoldable pub find_at : ℕ → ℕ → Cursor
  unfolding value_form find_parts
  find_at = value_form find_parts

  unfoldable pub lower_bound_bytes_at : ℕ → Bytes → Cursor
  unfolding bytes_form lower_bound_parts
  lower_bound_bytes_at = bytes_form lower_bound_parts

  unfoldable pub upper_bound_bytes_at : ℕ → Bytes → Cursor
  unfolding bytes_form upper_bound_parts
  upper_bound_bytes_at = bytes_form upper_bound_parts

  unfoldable pub floor_bytes_at : ℕ → Bytes → Cursor
  unfolding bytes_form floor_parts
  floor_bytes_at = bytes_form floor_parts

  unfoldable pub find_bytes_at : ℕ → Bytes → Cursor
  unfolding bytes_form find_parts
  find_bytes_at = bytes_form find_parts

  unfoldable pub lower_bound : ℕ → Cursor
  unfolding key_form lower_bound_at
  lower_bound = key_form lower_bound_at

  unfoldable pub upper_bound : ℕ → Cursor
  unfolding key_form upper_bound_at
  upper_bound = key_form upper_bound_at

  unfoldable pub floor : ℕ → Cursor
  unfolding key_form floor_at
  floor = key_form floor_at

  unfoldable pub find : ℕ → Cursor
  unfolding key_form find_at
  find = key_form find_at

  unfoldable pub contains : ℕ → Bool
  unfolding find finish
  contains key = let c = find key in not (c.slot == t.dir_count && c.index == 0)
