-- ===== src/Table/Examples.antt =====
-- A small image of two partitions, run, and each theorem on a table at it.
use mmpack.Prelude.{
  replicate, none, List, ◌++◌, get_elem?, some, true, ℕ, zero, suc, ◌+◌, ◌*◌, ◌<◌, ◌≡◌, ◌⊎◌, ◌↔◌,
  refl, false, not, [], ◌∷◌, drop, if◌then◌else◌, ◌==◌, arith,
}
use mmpack.Bits.{Bytes, AreBytes, of_bytes, load, load_uint, load_uint_masked, mask_for_width}
use mmpack.Format.{make_dir_layout, load_present32, decode_dir_entry}
use mmpack.Schema.{SchemaHeader, SchemaView, partition_of, address_of, load_schema_header}
use mmpack.Bisect.{bisect_loop, bisect}
use mmpack.Table.Layout.{
  Table, slot_bytes, slot, slot_partition, slot_offset, slot_count, layout_of, load_address,
  record_bytes, stored_address, address_at, key_at,
}
use mmpack.Table.Search.{
  narrow, probe_narrow, search_lower_narrow, search_upper_narrow, search_lower, search_above,
  slot_lower_bound, slot_exact, slot_floor,
}
use mmpack.Table.Cursor.{
  Cursor, cursor_key, finish, normalize_loop, normalize, retreat_loop, retreat, advance,
  floor_at_or_before, floor_before,
}
use mmpack.Table.Lookup.{
  lower_bound_parts, upper_bound_parts, floor_parts, find_in, find_parts, find, floor, lower_bound,
  upper_bound, contains,
}
use mmpack.Table.Narrow.{IsNarrow}
use mmpack.Table.Order.{IsPosition, Before, Below, AtMost, IsOrdered, normalize_lem}
use mmpack.Table.Steps.{retreat-advance}
use mmpack.Table.Bounds.{Divides, lower_bound_parts-Divides, upper_bound_parts-Divides}
use mmpack.Table.Find.{HasKey, IsFound, find_parts-IsFound}
use mmpack.Table.Floor.{IsFloor, floor_parts-IsFloor}
use mmpack.Table.Accessors.{layout_of-slot, make_dir_layout-AreMasks}
use mmpack.Table.KeyLookup.{IsKeyed, find_lem, key_form_lem}
use mmpack.Builder.Fields.{Shape, store_fields, encode_tuple, read_field}
use mmpack.Format.{store_at, clear}
use mmpack.Bits.{store, store_uint, to_bytes}
use mmpack.Schema.{uint, field, load_field_desc}
use mmpack.Table.Values.{
  Reads, kind_code, value_base, read_scalar, uint_value, read_scalar-encode_tuple,
}

program : Unit {0}
unfolding of_bytes load load_uint load_uint_masked mask_for_width make_dir_layout load_present32
    decode_dir_entry partition_of address_of load_schema_header bisect_loop bisect slot_bytes slot
    slot_partition slot_offset slot_count layout_of load_address record_bytes stored_address
    address_at key_at probe_narrow search_lower_narrow search_upper_narrow search_lower search_above
    slot_lower_bound slot_exact slot_floor finish normalize_loop normalize retreat_loop retreat
    floor_at_or_before floor_before lower_bound_parts upper_bound_parts floor_parts find_in
    find_parts
program = tt

-- Partitions 3 and 7; the first stores the upper byte of its two-byte addresses only.
abbrev head : SchemaHeader
head = record {
  magic = 0;
  field_count = 1;
  dict_count = 0;
  record_stride = 3;
  value_stride = 1;
  name_bytes = 0;
  address_width = 2;
  address_bits = 16;
  mode = 0;
  ref_width = 0;
  value_dict = 0;
  dir_partition_width = 1;
  dir_offset_width = 1;
  dir_count_width = 1;
  dir_remap_width = 0;
  dir_addr_width = 1;
  dir_skip_width = 1;
}

-- One uint field, a byte wide, at the start of the values.
abbrev descriptor : Bytes
descriptor = replicate 16 0 ++ (1 ∷ replicate 7 0)

abbrev view : SchemaView
view = record { head = head; fields = descriptor; dicts = []; names = [] }

-- Slot 0: partition 3, records at 0, two of them, width 1, skip 1. Slot 1: partition 7, at 4, one.
abbrev slots : Bytes
slots = 3 ∷ 0 ∷ 2 ∷ 1 ∷ 1 ∷ 7 ∷ 4 ∷ 1 ∷ 2 ∷ 0 ∷ []

-- Addresses 0x0a00 and 0x1400, then 0x0105, each with a value of a byte.
abbrev records : Bytes
records = 10 ∷ 100 ∷ 20 ∷ 101 ∷ 5 ∷ 1 ∷ 102 ∷ []

abbrev pub image : Table
image = record {
  base = records;
  size = 7;
  schema = view;
  directory = slots;
  dir_count = 2;
  record_count = 3;
  dir = make_dir_layout 1 1 1 0 0 1 1;
  blob_dicts = [];
  value_dict = record { elements = []; count = 0; elem_size = 0 };
  record_stride = 3;
  value_part = 1;
  address_width = 2;
  ref_width = 0;
  dense = false;
  interned = false;
}

-- 0x1300 lies between the two addresses of partition 3.
runs :
    (floor_parts image 3 (narrow 0x1300) ≡ record { slot = 0; index = 0 })
    × (lower_bound_parts image 3 (narrow 0x1300) ≡ record { slot = 0; index = 1 })
    × (upper_bound_parts image 3 (narrow 0x1400) ≡ record { slot = 1; index = 0 })
    × (find_parts image 7 (narrow 0x0105) ≡ record { slot = 1; index = 0 })
    × (find_parts image 3 (narrow 0x1401) ≡ record { slot = 2; index = 0 })
unfolding program
runs = (refl, refl, refl, refl, refl)

increasing_below_two : (f : ℕ → ℕ) → f 0 < f 1 → (i j : ℕ) → i < j → j < 2 → f i < f j
increasing_below_two f h zero zero l q = absurd (omega arith)
increasing_below_two f h zero (suc zero) l q = h
increasing_below_two f h (suc i) (suc zero) l q = absurd (omega arith)
increasing_below_two f h i (suc (suc j)) l q = absurd (omega arith)
increasing_below_two f h (suc i) zero l q = absurd (omega arith)

first-IsNarrow : IsNarrow (layout_of image 0)
unfolding program
first-IsNarrow = record {
  range = omega arith;
  fits = fits;
  increasing = increasing_below_two (stored_address (layout_of image 0)) (omega arith);
}
  where
    fits : (i : ℕ) → i < 2 → stored_address (layout_of image 0) i < 256
    fits zero h = omega arith
    fits (suc zero) h = omega arith
    fits (suc (suc i)) h = absurd (omega arith)

second-IsNarrow : IsNarrow (layout_of image 1)
unfolding program
second-IsNarrow = record {
  range = omega arith;
  fits = fits;
  increasing = λ i j l q. absurd (omega arith);
}
  where
    fits : (i : ℕ) → i < 1 → stored_address (layout_of image 1) i < 65536
    fits zero h = omega arith
    fits (suc i) h = absurd (omega arith)

pub image-IsOrdered : IsOrdered image
unfolding program
image-IsOrdered = record {
  partitions = increasing_below_two (slot_partition image) (omega arith);
  dense = λ e. cc;
  narrow = each;
}
  where
    each : (s : ℕ) → s < 2 → IsNarrow (layout_of image s)
    each zero h = first-IsNarrow
    each (suc zero) h = second-IsNarrow
    each (suc (suc s)) h = absurd (omega arith)

slots-AreBytes : AreBytes slots
slots-AreBytes = (
  omega arith,
  (
    omega arith,
    (
      omega arith,
      (
        omega arith,
        (
          omega arith,
          (omega arith, (omega arith, (omega arith, (omega arith, (omega arith, tt))))),
        ),
      ),
    ),
  ),
)

floor_parts-IsFloor_example : IsFloor image 3 0x1300 (floor_parts image 3 (narrow 0x1300))
floor_parts-IsFloor_example = floor_parts-IsFloor image image-IsOrdered 3 0x1300

find_parts-IsFound_example : IsFound image 7 0x0105 (find_parts image 7 (narrow 0x0105))
find_parts-IsFound_example = find_parts-IsFound image image-IsOrdered 7 0x0105

lower_bound_parts-Divides_example :
    Divides image (Below image 3 0x1300) (lower_bound_parts image 3 (narrow 0x1300))
lower_bound_parts-Divides_example = lower_bound_parts-Divides image image-IsOrdered 3 0x1300

upper_bound_parts-Divides_example :
    Divides image (AtMost image 3 0x1400) (upper_bound_parts image 3 (narrow 0x1400))
upper_bound_parts-Divides_example = upper_bound_parts-Divides image image-IsOrdered 3 0x1400

layout_of-slot_example :
    (slot_partition image 0 ≡ (slot image 0).partition)
    × (slot_offset image 0 ≡ (slot image 0).offset)
    × (slot_count image 0 ≡ (slot image 0).count)
    × ((layout_of image 0).count ≡ (slot image 0).count)
    × ((layout_of image 0).remapped ≡ not ((slot image 0).schema_id == 0))
    × ((layout_of image 0).remap_count ≡ (slot image 0).remap_count)
    × ((layout_of image 0).address_width ≡ (slot image 0).address_width)
    × ((layout_of image 0).address_skip ≡ (slot image 0).address_skip)
    × ((layout_of image 0).stride
        ≡ (slot image 0).address_width
          + (if not ((slot image 0).schema_id == 0)
              then (slot image 0).schema_id
              else image.value_part))
    × ((layout_of image 0).records
        ≡ drop
            ((slot image 0).offset
              + (if not ((slot image 0).schema_id == 0) then (slot image 0).remap_count * 4 else 0))
            image.base)
    × ((layout_of image 0).remap ≡ (
        if not ((slot image 0).schema_id == 0)
        then some (drop (slot image 0).offset image.base)
        else none))
    × ((layout_of image 0).ref_width ≡ (
        if not ((slot image 0).schema_id == 0) then (slot image 0).schema_id else image.ref_width))
layout_of-slot_example =
    layout_of-slot image slots-AreBytes
      (make_dir_layout-AreMasks 1 1 1 0 0 1 1 (omega arith) (omega arith) (omega arith)
        (omega arith) (omega arith) (omega arith) (omega arith))
      0

parts_of_key : (partition_of view 0x071400 ≡ 7) × (address_of view 0x030a00 ≡ 0x0a00)
unfolding program
parts_of_key = (refl, refl)

same_partition : slot_partition image 0 ≡ partition_of image.schema 0x030a00
unfolding program
same_partition = refl

same_address : address_at image 0 0 ≡ address_of image.schema 0x030a00
unfolding program
same_address = refl

normalize_lem_example :
    ((normalize image 0 2 ≡ finish image) ⊎ IsPosition image (normalize image 0 2))
    × ((e : Cursor)
        → IsPosition image e
        → Before e (normalize image 0 2) ↔ Before e (record { slot = 0; index = 2 }))
normalize_lem_example = normalize_lem image 0 2

-- From the last element of partition 3 over the slot's end.
last_of_first : IsPosition image (record { slot = 0; index = 1 })
unfolding program
last_of_first = (omega arith, omega arith)

retreat-advance_example :
    retreat image (advance image (record { slot = 0; index = 1 })) ≡ record { slot = 0; index = 1 }
retreat-advance_example = retreat-advance image (record { slot = 0; index = 1 }) last_of_first

image-IsKeyed : IsKeyed image
image-IsKeyed = record { ordered = image-IsOrdered; mapped = refl; integers = refl }

find_lem_example :
    ((find image 0x030a00 ≡ finish image)
      × (contains image 0x030a00 ≡ false)
      × ((e : Cursor)
          → IsPosition image e
          → ¬ HasKey image (partition_of view 0x030a00) (address_of view 0x030a00) e))
    ⊎ (IsPosition image (find image 0x030a00)
        × (cursor_key image (find image 0x030a00) ≡ some 0x030a00)
        × (contains image 0x030a00 ≡ true))
find_lem_example = find_lem image image-IsKeyed 0x030a00 (omega arith)

key_form_lem_example :
    IsFloor image (partition_of view 0x031300) (address_of view 0x031300) (floor image 0x031300)
    × Divides image
        (Below image (partition_of view 0x031300) (address_of view 0x031300))
        (lower_bound image 0x031300)
    × Divides image
        (AtMost image (partition_of view 0x031300) (address_of view 0x031300))
        (upper_bound image 0x031300)
key_form_lem_example = key_form_lem image image-IsKeyed 0x031300

-- The values of the first record, as they were encoded.
abbrev values : List (Shape × ℕ)
values = (record { offset = 0; width = 1; bias = 0 }, 100) ∷ []

abbrev behind : Bytes
behind = 0 ∷ 20 ∷ 101 ∷ 5 ∷ 1 ∷ 102 ∷ []

reading : Unit {0}
unfolding program store store_uint to_bytes store_at clear store_fields encode_tuple read_field
    field load_field_desc kind_code value_base read_scalar uint_value
reading = tt

first_values :
    value_base image (record { slot = 0; index = 0 }) ≡ some (encode_tuple 1 behind values)
unfolding reading
first_values = refl

first_kind : (field view 0).kind ≡ kind_code uint
unfolding reading
first_kind = refl

first_shape :
    get_elem? values 0
    ≡ some (
      record {
        offset = (field view 0).offset;
        width = (field view 0).width;
        bias = (field view 0).bias;
      },
      100,
    )
unfolding reading
first_shape = refl

-- The other record of partition 3, and a field that is not there.
read_values :
    (uint_value image (record { slot = 0; index = 1 }) 0 ≡ some 101)
    × (uint_value image (record { slot = 0; index = 1 }) 1 ≡ none)
unfolding reading
read_values = (refl, refl)

read_scalar-encode_tuple_example : Reads image (record { slot = 0; index = 0 }) 0 uint 100
read_scalar-encode_tuple_example =
    read_scalar-encode_tuple image (record { slot = 0; index = 0 }) 0 uint values 1 behind 100
      first_values (λ h. first_shape) ((omega arith, omega arith, omega arith, omega arith), tt)
      (omega arith, omega arith) (omega arith)
