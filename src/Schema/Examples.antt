-- ===== src/Schema/Examples.antt =====
-- A schema block of one field, and each theorem on a schema at an input.
use mmpack.Prelude.{ℕ, ◌<◌, ◌≡◌, ◌⊎◌, ◌↔◌, refl, [], ◌∷◌, ◌++◌, some, none, replicate, arith}
use mmpack.Bits.{Bytes, of_bytes, to_bytes, load, is_valid_width}
use mmpack.Schema.{
  SchemaView, kind_of, load_schema_header, load_field_desc, field, partition_of, address_of,
  width_ok, is_text, terminated, field_ok, fields_ok, header_ok, mode_ok, view_of, open_schema,
}
use mmpack.Dictionary.{same_bytes}
use mmpack.Schema.Names.{until_nul, name, find_field_loop, find_field, IsFirst, find_field-IsFirst}
use mmpack.Schema.KeySplit.{split-order}
use mmpack.Schema.Open.{IsSound, open_schema-IsSound}

program : Unit {0}
unfolding of_bytes to_bytes load is_valid_width kind_of load_schema_header load_field_desc field
    partition_of address_of width_ok is_text terminated field_ok fields_ok header_ok mode_ok view_of
    open_schema
program = tt

-- A two-byte address of 16 key bits, and a value of one uint field named "a" that is a byte wide.
abbrev block_with : ℕ → Bytes
block_with width =
    to_bytes 4 0x4d534348
    ++ (1 ∷ 0 ∷ 0 ∷ 0 ∷ [])
    ++ replicate 4 0
    ++ (3 ∷ 0 ∷ 0 ∷ 0 ∷ [])
    ++ (1 ∷ 0 ∷ 0 ∷ 0 ∷ [])
    ++ (2 ∷ 0 ∷ 0 ∷ 0 ∷ [])
    ++ (2 ∷ 16 ∷ 0 ∷ 0 ∷ [])
    ++ replicate 4 0
    ++ (1 ∷ 1 ∷ 1 ∷ 0 ∷ 0 ∷ 0 ∷ 0 ∷ 0 ∷ [])
    ++ replicate 16 0
    ++ (width ∷ 0 ∷ 0 ∷ 0 ∷ 0 ∷ 0 ∷ 0 ∷ 0 ∷ [])
    ++ (97 ∷ 0 ∷ [])

abbrev view : SchemaView
view = view_of (block_with 1) (load_schema_header (block_with 1))

opened : open_schema (block_with 1) ≡ some view
unfolding program
opened = refl

-- A field that is wider than the values is rejected.
rejected : open_schema (block_with 2) ≡ none
unfolding program
rejected = refl

open_schema-IsSound_example : IsSound (block_with 1) view
open_schema-IsSound_example = open_schema-IsSound (block_with 1) view opened

split-order_example : (0x030a00 < 0x070105) ↔ (
    (partition_of view 0x030a00 < partition_of view 0x070105)
    ⊎ ((partition_of view 0x030a00 ≡ partition_of view 0x070105)
        × (address_of view 0x030a00 < address_of view 0x070105)))
split-order_example = split-order view 0x030a00 0x070105 (omega arith) (omega arith)

naming : Unit {0}
unfolding program until_nul name same_bytes find_field_loop find_field
naming = tt

named : (find_field view (97 ∷ []) ≡ some 0) × (find_field view (98 ∷ []) ≡ none)
unfolding naming
named = (refl, refl)

find_field-IsFirst_example :
    IsFirst view (97 ∷ []) 0 view.head.field_count (find_field view (97 ∷ []))
find_field-IsFirst_example = find_field-IsFirst view (97 ∷ [])
