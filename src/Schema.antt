-- ===== src/Schema.antt =====
-- include/mmpack/schema.hpp: the schema block of an image and the view that validates it.
pub mod Open
pub mod KeySplit
pub mod Names
pub mod Declare
mod Examples
use mmpack.Prelude.{
  ℕ, zero, suc, ◌+◌, ◌-◌, ◌*◌, ◌/◌, ◌^◌, bit_and, Bool, true, false, not, ◌&&◌, ◌||◌, Option, none,
  some, drop, length, get_or, ltb, leb, ◌==◌, if◌then◌else◌,
}
use mmpack.Prelude.Early.{◌>>=◌, ◌>>◌, reject_if}
use mmpack.Bits.{Bytes, load, is_valid_width}
use mmpack.Format.{DirLayout, make_dir_layout}

-- enum class field_kind; a stored kind above `max_field_kind` is none of them.
pub data FieldKind : Type 0 where
  uint sint f32 f64 bytes text : FieldKind

abbrev pub max_field_kind : ℕ
max_field_kind = 5

unfoldable pub kind_of : ℕ → FieldKind
kind_of k =
    if k == 0
    then uint
    else if k == 1
    then sint
    else if k == 2
    then f32
    else if k == 3
    then f64
    else if k == 4
    then bytes
    else text

abbrev pub schema_magic : ℕ
schema_magic = 0x4d53_4348

abbrev pub no_key_mapping : ℕ
no_key_mapping = 0xff

-- value_mode::interned
abbrev pub interned_mode : ℕ
interned_mode = 1

pub record SchemaHeader : Type 0 where
  pub magic : ℕ
  pub field_count : ℕ
  pub dict_count : ℕ
  pub record_stride : ℕ
  pub value_stride : ℕ
  pub name_bytes : ℕ
  pub address_width : ℕ
  pub address_bits : ℕ
  pub mode : ℕ
  pub ref_width : ℕ
  pub value_dict : ℕ
  pub dir_partition_width : ℕ
  pub dir_offset_width : ℕ
  pub dir_count_width : ℕ
  pub dir_remap_width : ℕ
  pub dir_addr_width : ℕ
  pub dir_skip_width : ℕ

pub record FieldDesc : Type 0 where
  pub offset : ℕ
  pub name_offset : ℕ
  pub bias : ℕ
  pub width : ℕ
  pub kind : ℕ
  pub dict_index : ℕ

pub record DictEntry : Type 0 where
  pub offset : ℕ
  pub size : ℕ

-- sizeof(schema_header), sizeof(field_desc), sizeof(dict_entry)
abbrev pub schema_header_size : ℕ
schema_header_size = 40

abbrev pub field_desc_size : ℕ
field_desc_size = 24

abbrev pub dict_entry_size : ℕ
dict_entry_size = 16

unfoldable pub load_schema_header : Bytes → SchemaHeader
load_schema_header p = record {
  magic = load 4 p;
  field_count = load 4 (drop 4 p);
  dict_count = load 4 (drop 8 p);
  record_stride = load 4 (drop 12 p);
  value_stride = load 4 (drop 16 p);
  name_bytes = load 4 (drop 20 p);
  address_width = load 1 (drop 24 p);
  address_bits = load 1 (drop 25 p);
  mode = load 1 (drop 26 p);
  ref_width = load 1 (drop 27 p);
  value_dict = load 4 (drop 28 p);
  dir_partition_width = load 1 (drop 32 p);
  dir_offset_width = load 1 (drop 33 p);
  dir_count_width = load 1 (drop 34 p);
  dir_remap_width = load 1 (drop 35 p);
  dir_addr_width = load 1 (drop 36 p);
  dir_skip_width = load 1 (drop 37 p);
}

unfoldable pub load_field_desc : Bytes → FieldDesc
load_field_desc p = record {
  offset = load 4 p;
  name_offset = load 4 (drop 4 p);
  bias = load 8 (drop 8 p);
  width = load 4 (drop 16 p);
  kind = load 1 (drop 20 p);
  dict_index = load 2 (drop 22 p);
}

pub record SchemaView : Type 0 where
  pub head : SchemaHeader
  pub fields : Bytes
  pub dicts : Bytes
  pub names : Bytes

unfoldable pub field : SchemaView → ℕ → FieldDesc
unfolding load_field_desc
field view id = load_field_desc (drop (id * field_desc_size) view.fields)

unfoldable pub dictionary : SchemaView → ℕ → DictEntry
dictionary view index =
    let p = drop (index * dict_entry_size) view.dicts in
    record { offset = load 8 p; size = load 8 (drop 8 p) }

abbrev pub interned : SchemaView → Bool
interned view = view.head.mode == interned_mode

abbrev pub narrow_address : SchemaView → Bool
narrow_address view = leb view.head.address_width 8

abbrev pub has_key_mapping : SchemaView → Bool
has_key_mapping view = not (view.head.address_bits == no_key_mapping)

abbrev pub trims_addresses : SchemaView → Bool
trims_addresses view = not (view.head.dir_addr_width == 0) || not (view.head.dir_skip_width == 0)

unfoldable pub directory_layout : SchemaView → DirLayout
directory_layout view =
    let head = view.head in
    let schema_width = if head.dir_remap_width == 0 then 0 else 1 in
    make_dir_layout head.dir_partition_width head.dir_offset_width head.dir_count_width schema_width
      head.dir_remap_width head.dir_addr_width head.dir_skip_width

-- `key >> address_bits` and `key & ((1 << address_bits) - 1)`, with the shift by 64 apart.
unfoldable pub partition_of : SchemaView → ℕ → ℕ
partition_of view key =
    if leb 64 view.head.address_bits then 0 else key / 2 ^ view.head.address_bits

unfoldable pub address_of : SchemaView → ℕ → ℕ
address_of view key =
    if leb 64 view.head.address_bits then key else bit_and key (2 ^ view.head.address_bits - 1)

-- The width that a kind allows.
unfoldable pub width_ok : FieldKind → ℕ → Bool
width_ok uint width = is_valid_width width
width_ok sint width = is_valid_width width
width_ok text width = is_valid_width width
width_ok f32 width = width == 4
width_ok f64 width = width == 8
width_ok bytes width = not (width == 0 || ltb 8 width)

unfoldable pub is_text : FieldKind → Bool
is_text text = true
is_text _ = false

-- `for (j = name_offset; j < name_bytes; ++j)`: is one of the `rounds` bytes from `j` on a NUL?
unfoldable pub terminated : ℕ → Bytes → ℕ → Bool
terminated zero names j = false
terminated (suc rounds) names j = get_or names j 1 == 0 || terminated rounds names (j + 1)

-- The body of the loop over the fields: may field `i` stand?
unfoldable pub field_ok : SchemaView → ℕ → Bool
unfolding width_ok is_text terminated field kind_of
field_ok view i =
    let head = view.head in
    let f = field view i in
    let kind = kind_of f.kind in
    leb f.kind max_field_kind
    && width_ok kind f.width
    && not (ltb head.value_stride f.offset || ltb (head.value_stride - f.offset) f.width)
    && not (is_text kind && leb head.dict_count f.dict_index)
    && not (leb head.name_bytes f.name_offset)
    && terminated (head.name_bytes - f.name_offset) view.names f.name_offset

-- The fields from `i` on, `rounds` of them.
unfoldable pub fields_ok : ℕ → SchemaView → ℕ → Bool
fields_ok zero view i = true
fields_ok (suc rounds) view i = field_ok view i && fields_ok rounds view (i + 1)

-- The checks of the header that do not depend on the block.
unfoldable pub header_ok : SchemaHeader → Bool
header_ok head =
    not (head.address_width == 0)
    && not (ltb 64 head.address_bits && not (head.address_bits == no_key_mapping))
    && not (not (head.dir_partition_width == 0) && not (is_valid_width head.dir_partition_width))
    && is_valid_width head.dir_offset_width
    && is_valid_width head.dir_count_width
    && not (not (head.dir_remap_width == 0) && not (is_valid_width head.dir_remap_width))
    && not (ltb 1 head.dir_addr_width || ltb 1 head.dir_skip_width)
    && leb head.mode interned_mode
    && not (head.value_stride == 0 && not (head.field_count == 0))

-- The interned form needs a reference and a dictionary; `minimum` is what a record holds at least.
unfoldable pub mode_ok : SchemaHeader → Bool
mode_ok head =
    if head.mode == interned_mode
    then is_valid_width head.ref_width
      && ltb head.value_dict head.dict_count
      && not (ltb head.record_stride (head.address_width + head.ref_width))
    else not (ltb head.record_stride (head.address_width + head.value_stride))

unfoldable pub view_of : Bytes → SchemaHeader → SchemaView
view_of block head =
    let fields = drop schema_header_size block in
    let dicts = drop (head.field_count * field_desc_size) fields in
    record {
      head = head;
      fields = fields;
      dicts = dicts;
      names = drop (head.dict_count * dict_entry_size) dicts;
    }

-- schema_view::open
unfoldable pub open_schema : Bytes → Option SchemaView
unfolding load_schema_header view_of header_ok mode_ok fields_ok field_ok
open_schema block = do
  reject_if (ltb (length block) schema_header_size)
  let head = load_schema_header block
  reject_if (not (head.magic == schema_magic))
  let fields_bytes = head.field_count * field_desc_size
  let dicts_bytes = head.dict_count * dict_entry_size
  reject_if (ltb (length block) (schema_header_size + fields_bytes + dicts_bytes + head.name_bytes))
  reject_if (not (header_ok head))
  reject_if (not (mode_ok head))
  let view = view_of block head
  reject_if (not (fields_ok head.field_count view 0))
  some view
