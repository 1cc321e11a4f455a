-- ===== src/Table/Cursor.antt =====
-- Positions and how they move over empty slots (table.hpp: const_iterator, normalize, retreat,
-- floor_at_or_before, floor_before).
use mmpack.Prelude.{ℕ, zero, suc, ◌+◌, ◌-◌, ◌&&◌, leb, ltb, ◌==◌, if◌then◌else◌}
use mmpack.Prelude.{Bool, not, Option, none, some}
use mmpack.Bits.{Bytes}
use mmpack.Schema.{narrow_address, has_key_mapping}
use mmpack.Table.Layout.{
  Table, slot_count, slot_partition, address_at, address_bytes_at, address_skip_at, address_into_at,
  key_at,
}

pub record Cursor : Type 0 where
  pub slot : ℕ
  pub index : ℕ

module _ (t : Table) where
  unfoldable pub finish : Cursor
  finish = record { slot = t.dir_count; index = 0 }

  -- The loop of `normalize`; at most the slots that are left are skipped.
  unfoldable pub normalize_loop : ℕ → ℕ → ℕ → Cursor
  normalize_loop zero s i = record { slot = s; index = i }
  normalize_loop (suc rounds) s i =
      let next = normalize_loop rounds (s + 1) 0 in
      if ltb s t.dir_count && leb (slot_count t s) i then next else record { slot = s; index = i }

  unfoldable pub normalize : ℕ → ℕ → Cursor
  unfolding normalize_loop finish slot_count
  normalize s i =
      let c = normalize_loop (t.dir_count - s) s i in if leb t.dir_count c.slot then finish else c

  -- The loop of `retreat`: the last record of the nearest slot before `s` that has any.
  unfoldable pub retreat_loop : ℕ → Cursor
  unfolding slot_count
  retreat_loop zero = record { slot = 0; index = 0 }
  retreat_loop (suc s) =
      let before = retreat_loop s in
      if slot_count t s == 0 then before else record { slot = s; index = slot_count t s - 1 }

  unfoldable pub retreat : Cursor → Cursor
  unfolding retreat_loop
  retreat c =
      if ltb 0 c.index then record { slot = c.slot; index = c.index - 1 } else retreat_loop c.slot

  -- operator++, operator--, begin
  unfoldable pub advance : Cursor → Cursor
  unfolding normalize
  advance c = normalize c.slot (c.index + 1)

  unfoldable pub begin : Cursor
  unfolding normalize
  begin = normalize 0 0

  unfoldable pub floor_at_or_before : ℕ → Cursor
  unfolding slot_count finish
  floor_at_or_before zero =
      if slot_count t 0 == 0 then finish else record { slot = 0; index = slot_count t 0 - 1 }
  floor_at_or_before (suc s) =
      let before = floor_at_or_before s in
      if slot_count t (suc s) == 0
      then before
      else record { slot = suc s; index = slot_count t (suc s) - 1 }

  unfoldable pub floor_before : ℕ → Cursor
  unfolding floor_at_or_before finish
  floor_before s = if s == 0 then finish else floor_at_or_before (s - 1)

  -- operator==
  unfoldable pub same_position : Cursor → Cursor → Bool
  same_position a b = a.slot == b.slot && a.index == b.index

  -- The accessors of const_iterator.
  unfoldable pub cursor_partition : Cursor → ℕ
  cursor_partition c = slot_partition t c.slot

  unfoldable pub cursor_address : Cursor → Option ℕ
  cursor_address c =
      if not (narrow_address t.schema) then none else some (address_at t c.slot c.index)

  unfoldable pub cursor_address_bytes : Cursor → Bytes
  cursor_address_bytes c = address_bytes_at t c.slot c.index

  unfoldable pub cursor_address_skip : Cursor → ℕ
  cursor_address_skip c = address_skip_at t c.slot

  unfoldable pub cursor_address_into : Cursor → Bytes → Option Bytes
  cursor_address_into c out = address_into_at t c.slot c.index out

  unfoldable pub cursor_key : Cursor → Option ℕ
  cursor_key c = if not (has_key_mapping t.schema) then none else some (key_at t c.slot c.index)
