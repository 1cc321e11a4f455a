-- ===== src/Table/Open.antt =====
-- Attaching to an image (table.hpp: try_open; format.hpp: header, footer).
pub mod Slots
pub mod Dicts
pub mod Accept
pub mod Reasons
pub mod Ordered
mod Examples
use mmpack.Prelude.{
  ℕ, zero, suc, ◌+◌, ◌-◌, ◌*◌, ◌/◌, ◌%◌, Bool, true, false, not, ◌&&◌, ◌||◌, Option, none, some,
  List, [], ◌∷◌, take, drop, length, ltb, leb, ◌==◌, if◌then◌else◌,
}
use mmpack.Error.{
  Status, too_small, bad_magic, bad_version, bad_size, bad_directory, bad_schema, bad_dictionary,
  Result, done, fail, ◌>>=◌, ◌>>◌, fail_if, or_fail,
}
use mmpack.Bits.{Bytes, load}
use mmpack.Dictionary.{same_bytes, BlobView, FixedView, open_fixed, open_blob}
use mmpack.Format.{magic, format_version, dense_directory, remap_none, max_local_width, DirEntry}
use mmpack.Schema.{
  SchemaView, kind_of, is_text, field, dictionary, interned, narrow_address, has_key_mapping,
  directory_layout, open_schema,
}
use mmpack.Table.Layout.{Table, slot}

-- sizeof(header), sizeof(footer)
abbrev pub header_size : ℕ
header_size = 16

abbrev pub footer_size : ℕ
footer_size = 64

-- struct header
pub record Header : Type 0 where
  pub magic : Bytes
  pub format_version : ℕ

unfoldable pub load_header : Bytes → Header
load_header p = record { magic = take 8 p; format_version = load 4 (drop 8 p) }

-- struct footer
pub record Footer : Type 0 where
  pub magic : Bytes
  pub format_version : ℕ
  pub flags : ℕ
  pub record_count : ℕ
  pub dir_offset : ℕ
  pub dir_count : ℕ
  pub schema_offset : ℕ
  pub schema_size : ℕ
  pub image_size : ℕ

unfoldable pub load_footer : Bytes → Footer
load_footer p = record {
  magic = take 8 p;
  format_version = load 4 (drop 8 p);
  flags = load 4 (drop 12 p);
  record_count = load 8 (drop 16 p);
  dir_offset = load 8 (drop 24 p);
  dir_count = load 8 (drop 32 p);
  schema_offset = load 8 (drop 40 p);
  schema_size = load 8 (drop 48 p);
  image_size = load 8 (drop 56 p);
}

-- The members that are set before the dictionaries are opened.
unfoldable pub attach : Bytes → Footer → SchemaView → Table
unfolding directory_layout
attach image foot schema = record {
  base = image;
  size = length image;
  schema = schema;
  directory = drop foot.dir_offset image;
  dir_count = foot.dir_count;
  record_count = foot.record_count;
  dir = directory_layout schema;
  blob_dicts = [];
  value_dict = record { elements = []; count = 0; elem_size = 0 };
  record_stride = schema.head.record_stride;
  value_part = schema.head.record_stride - schema.head.address_width;
  address_width = schema.head.address_width;
  ref_width = schema.head.ref_width;
  dense = not (foot.flags % 2 == 0);
  interned = interned schema;
}

-- The bytes of a record of the partition that a slot describes.
unfoldable pub entry_stride : Table → DirEntry → Result Status ℕ
entry_stride t d =
    if not (d.schema_id == remap_none)
    then (do
      fail_if (ltb max_local_width d.schema_id) bad_directory
      fail_if (not t.interned) bad_directory
      fail_if (d.remap_count == 0 || d.count == 0) bad_directory
      done (d.address_width + d.schema_id))
    else (do
      fail_if (not (d.remap_count == 0)) bad_directory
      done (d.address_width + t.value_part))

-- Where the records of a slot end, for the `floor` of the next slots.
unfoldable pub entry_end : ℕ → ℕ → DirEntry → ℕ → Result Status ℕ
entry_end dir_offset floor d stride = if d.count == 0 then done floor else (do
  fail_if (ltb d.offset floor || ltb dir_offset d.offset) bad_directory
  let available = dir_offset - d.offset
  let table_bytes = d.remap_count * 4
  fail_if (ltb available table_bytes) bad_directory
  fail_if (ltb ((available - table_bytes) / stride) d.count) bad_directory
  done (d.offset + table_bytes + d.count * stride))

-- The body of the loop over the slots; it gives the next `floor`.
unfoldable pub check_slot : Table → ℕ → ℕ → ℕ → ℕ → Result Status ℕ
unfolding slot entry_stride entry_end
check_slot t dir_offset i previous floor = do
  let d = slot t i
  fail_if (ltb 0 i && leb d.partition previous) bad_directory
  fail_if
      (ltb t.address_width d.address_width
        || ltb (t.address_width - d.address_width) d.address_skip)
      bad_directory
  stride ← entry_stride t d
  fail_if (stride == 0) bad_directory
  entry_end dir_offset floor d stride

-- The slots from `i` on, `rounds` of them; it gives `total`.
unfoldable pub check_slots : ℕ → Table → ℕ → ℕ → ℕ → ℕ → ℕ → Result Status ℕ
unfolding check_slot
check_slots zero t dir_offset i total previous floor = done total
check_slots (suc rounds) t dir_offset i total previous floor = do
  next ← check_slot t dir_offset i previous floor
  check_slots rounds t dir_offset (i + 1) (total + (slot t i).count) (slot t i).partition next

-- The dictionaries from `i` on, `rounds` of them: `blob_dicts_` from there and `value_dict_`.
unfoldable pub open_dictionaries :
    ℕ → SchemaView → Bytes → ℕ → ℕ → FixedView → Result Status (List BlobView × FixedView)
unfolding dictionary open_fixed open_blob
open_dictionaries zero schema image tail i value = done ([], value)
open_dictionaries (suc rounds) schema image tail i value = do
  let e = dictionary schema i
  fail_if (ltb e.offset header_size || ltb tail e.offset || ltb (tail - e.offset) e.size)
      bad_dictionary
  let block = take e.size (drop e.offset image)
  (if interned schema && i == schema.head.value_dict
      then (do
        fixed ← or_fail (open_fixed block) bad_dictionary
        fail_if (not (fixed.elem_size == schema.head.value_stride)) bad_dictionary
        rest ← open_dictionaries rounds schema image tail (i + 1) fixed
        done (record { offsets = []; blob = []; count = 0 } ∷ rest.0, rest.1))
      else (do
        blob ← or_fail (open_blob block) bad_dictionary
        rest ← open_dictionaries rounds schema image tail (i + 1) value
        done (blob ∷ rest.0, rest.1)))

-- The fields from `i` on, `rounds` of them: does a text point at the composite dictionary?
unfoldable pub texts_ok : ℕ → SchemaView → ℕ → Bool
unfolding field kind_of is_text
texts_ok zero schema i = true
texts_ok (suc rounds) schema i =
    not (
      is_text (kind_of (field schema i).kind)
      && interned schema
      && (field schema i).dict_index == schema.head.value_dict)
    && texts_ok rounds schema (i + 1)

-- `==` of two Booleans.
abbrev pub same_bool : Bool → Bool → Bool
same_bool true b = b
same_bool false b = not b

-- The checks of the footer against the schema, before a slot is read.
unfoldable pub check_directory : Bytes → Footer → Table → Result Status (Unit {0})
check_directory image foot t = do
  let tail = length image - footer_size
  fail_if (ltb t.record_stride t.address_width) bad_schema
  fail_if (t.dir.stride == 0) bad_directory
  fail_if (not (same_bool (t.dir.partition_width == 0) t.dense)) bad_directory
  fail_if (ltb foot.dir_offset header_size || ltb tail foot.dir_offset) bad_directory
  fail_if (ltb ((tail - foot.dir_offset) / t.dir.stride) foot.dir_count) bad_directory
  fail_if (ltb (length image) (foot.dir_offset + foot.dir_count * t.dir.stride + 8)) bad_directory

-- The part of try_open from the test of the length to the schema.
unfoldable pub long_frame : Bytes → Result Status (Footer × SchemaView)
unfolding load_header load_footer same_bytes open_schema
long_frame image = do
  let head = load_header image
  fail_if (not (same_bytes head.magic magic)) bad_magic
  fail_if (not (head.format_version == format_version)) bad_version
  let foot = load_footer (drop (length image - footer_size) image)
  fail_if (not (same_bytes foot.magic magic)) bad_size
  fail_if (not (foot.format_version == format_version)) bad_version
  fail_if (not (foot.image_size == length image)) bad_size
  let tail = length image - footer_size
  fail_if (ltb tail foot.schema_offset || ltb (tail - foot.schema_offset) foot.schema_size)
      bad_schema
  schema ← or_fail (open_schema (take foot.schema_size (drop foot.schema_offset image))) bad_schema
  fail_if (schema.head.record_stride == 0) bad_schema
  fail_if (has_key_mapping schema && not (narrow_address schema)) bad_schema
  done (foot, schema)

unfoldable pub open_frame : Bytes → Result Status (Footer × SchemaView)
unfolding long_frame
open_frame image = do
  fail_if (ltb (length image) (header_size + footer_size)) too_small
  long_frame image

-- The part of try_open behind the schema.
unfoldable pub finish_open : Bytes → Footer → SchemaView → Result Status Table
unfolding attach check_directory check_slots open_dictionaries texts_ok
finish_open image foot schema = do
  let t = attach image foot schema
  check_directory image foot t
  total ← check_slots foot.dir_count t foot.dir_offset 0 0 0 header_size
  fail_if (not (total == foot.record_count)) bad_directory
  let tail = length image - footer_size
  dicts ← open_dictionaries t.schema.head.dict_count t.schema image tail 0 t.value_dict
  fail_if (not (texts_ok t.schema.head.field_count t.schema 0)) bad_dictionary
  done (record t { blob_dicts = dicts.0; value_dict = dicts.1 })

-- try_open, on the bytes of the region; `none` is a null pointer.
unfoldable pub try_open : Option Bytes → Result Status Table
unfolding open_frame finish_open
try_open none = fail too_small
try_open (some image) = do frame ← open_frame image; finish_open image frame.0 frame.1
