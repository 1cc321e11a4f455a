-- ===== src/Table/Layout.antt =====
-- Directory slots, partition layouts and record addresses (table.hpp: slot .. address_into_at).
use mmpack.Prelude.{
  List, ℕ, ◌+◌, ◌*◌, ◌%◌, ◌^◌, Bool, not, Option, none, some, ◌++◌, take, drop, replicate, length,
  leb, ◌==◌, if◌then◌else◌,
}
use mmpack.Prelude.Early.{◌>>◌, reject_if}
use mmpack.Bits.{Bytes, load, load_uint_masked, mask_for_width}
use mmpack.Format.{DirEntry, DirLayout, decode_dir_entry, remap_none}
use mmpack.Dictionary.{BlobView, FixedView}
use mmpack.Schema.{SchemaView}
use Prim.Native.Nat.{bit_or}

-- The members of `table`.
pub record Table : Type 0 where
  pub base : Bytes
  pub size : ℕ
  pub schema : SchemaView
  pub directory : Bytes
  pub dir_count : ℕ
  pub record_count : ℕ
  pub dir : DirLayout
  pub blob_dicts : List BlobView
  pub value_dict : FixedView
  pub record_stride : ℕ
  pub value_part : ℕ
  pub address_width : ℕ
  pub ref_width : ℕ
  pub dense : Bool
  pub interned : Bool

-- struct partition_layout; `remap` is null unless the partition is remapped.
pub record PartitionLayout : Type 0 where
  pub records : Bytes
  pub remap : Option Bytes
  pub count : ℕ
  pub remap_count : ℕ
  pub stride : ℕ
  pub ref_width : ℕ
  pub address_width : ℕ
  pub address_skip : ℕ
  pub remapped : Bool

module _ (t : Table) where
  unfoldable pub slot_bytes : ℕ → Bytes
  slot_bytes i = drop (i * t.dir.stride) t.directory

  unfoldable pub slot : ℕ → DirEntry
  unfolding slot_bytes
  slot i = decode_dir_entry (slot_bytes i) t.dir i t.address_width

  unfoldable pub slot_partition : ℕ → ℕ
  unfolding slot_bytes
  slot_partition i =
      if t.dir.partition_width == 0
      then i
      else load_uint_masked (drop t.dir.partition_at (slot_bytes i)) t.dir.partition_mask

  unfoldable pub slot_offset : ℕ → ℕ
  unfolding slot_bytes
  slot_offset i = load_uint_masked (drop t.dir.offset_at (slot_bytes i)) t.dir.offset_mask

  unfoldable pub slot_count : ℕ → ℕ
  unfolding slot_bytes
  slot_count i = load_uint_masked (drop t.dir.count_at (slot_bytes i)) t.dir.count_mask

  unfoldable pub layout_of : ℕ → PartitionLayout
  unfolding slot_bytes
  layout_of s =
      let p = slot_bytes s in
      let offset = load_uint_masked (drop t.dir.offset_at p) t.dir.offset_mask in
      let schema_id : ℕ =
        if t.dir.schema_width == 0
        then 0
        else load_uint_masked (drop t.dir.schema_at p) t.dir.schema_mask % 2 ^ 32 in
      let remapped = not (schema_id == remap_none) in
      let remap_count : ℕ =
        if t.dir.remap_width == 0
        then 0
        else load_uint_masked (drop t.dir.remap_at p) t.dir.remap_mask % 2 ^ 32 in
      let address_width : ℕ =
        if t.dir.addr_width == 0
        then t.address_width
        else load_uint_masked (drop t.dir.addr_at p) t.dir.addr_mask % 2 ^ 32 in
      let address_skip : ℕ =
        if t.dir.skip_width == 0
        then 0
        else load_uint_masked (drop t.dir.skip_at p) t.dir.skip_mask % 2 ^ 32 in
      record {
        count = load_uint_masked (drop t.dir.count_at p) t.dir.count_mask;
        remapped = remapped;
        remap_count = remap_count;
        address_width = address_width;
        address_skip = address_skip;
        ref_width = if remapped then schema_id else t.ref_width;
        stride = address_width + (if remapped then schema_id else t.value_part);
        remap = if remapped then some (drop offset t.base) else none;
        records = drop (offset + (if remapped then remap_count * 4 else 0)) t.base;
      }

-- Records of natural width are read at that width, the others through the masked load.
unfoldable pub load_address : Bytes → ℕ → ℕ
load_address p width =
    if width == 1
    then load 1 p
    else if width == 2
    then load 2 p
    else if width == 4
    then load 4 p
    else if width == 8
    then load 8 p
    else load_uint_masked p (mask_for_width width)

-- Record `i` of a partition, and the address that it stores.
unfoldable pub record_bytes : PartitionLayout → ℕ → Bytes
record_bytes p i = drop (i * p.stride) p.records

unfoldable pub stored_address : PartitionLayout → ℕ → ℕ
unfolding record_bytes load_address
stored_address p i = load_address (record_bytes p i) p.address_width

module _ (t : Table) where
  -- The stored bytes shifted up past the bytes that the partition trims.
  unfoldable pub address_at : ℕ → ℕ → ℕ
  unfolding layout_of stored_address
  address_at s i =
      let p = layout_of t s in
      let stored = stored_address p i in
      if leb 8 p.address_skip then 0 else stored * 2 ^ (8 * p.address_skip) % 2 ^ 64

  unfoldable pub address_bytes_at : ℕ → ℕ → Bytes
  unfolding layout_of record_bytes
  address_bytes_at s i = let p = layout_of t s in take p.address_width (record_bytes p i)

  unfoldable pub address_skip_at : ℕ → ℕ
  unfolding layout_of
  address_skip_at s = (layout_of t s).address_skip

  -- The full field: `out` cleared, and the stored bytes copied to their place. `none` is `false`.
  unfoldable pub address_into_at : ℕ → ℕ → Bytes → Option Bytes
  unfolding layout_of record_bytes
  address_into_at s i out = do
    reject_if (not (length out == t.address_width))
    let p = layout_of t s
    let zeros = replicate (length out) 0
    some (
        take p.address_skip zeros
        ++ (take p.address_width (record_bytes p i)
            ++ drop (p.address_skip + p.address_width) zeros))

  unfoldable pub key_at : ℕ → ℕ → ℕ
  unfolding slot_partition address_at
  key_at s i =
      let bits = t.schema.head.address_bits in
      let partition = slot_partition t s in
      if leb 64 bits
      then address_at s i
      else bit_or (partition * 2 ^ bits % 2 ^ 64) (address_at s i)
