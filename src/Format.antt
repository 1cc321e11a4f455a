-- ===== src/Format.antt =====
-- include/mmpack/format.hpp: the directory slot, its decoded form and how it is packed.
pub mod RoundTrip
mod Examples
use mmpack.Prelude.{ℕ, ◌+◌, ◌%◌, ◌^◌, [], ◌∷◌, ◌++◌, take, drop, replicate, ◌==◌, if◌then◌else◌}
use mmpack.Bits.{Bytes, load_uint, store_uint, mask_for_width}

abbrev pub magic : Bytes
magic = b'M' ∷ b'M' ∷ b'P' ∷ b'A' ∷ b'C' ∷ b'K' ∷ b'0' ∷ b'1' ∷ []

abbrev pub format_version : ℕ
format_version = 4

-- flags::dense_directory, remap::none and remap::max_local_width.
abbrev pub dense_directory : ℕ
dense_directory = 1

abbrev pub remap_none : ℕ
remap_none = 0

abbrev pub max_local_width : ℕ
max_local_width = 2

pub record DirEntry : Type 0 where
  pub partition : ℕ
  pub offset : ℕ
  pub count : ℕ
  pub schema_id : ℕ
  pub remap_count : ℕ
  pub address_width : ℕ
  pub address_skip : ℕ

pub record DirLayout : Type 0 where
  pub partition_width : ℕ
  pub offset_width : ℕ
  pub count_width : ℕ
  pub schema_width : ℕ
  pub remap_width : ℕ
  pub addr_width : ℕ
  pub skip_width : ℕ
  pub partition_at : ℕ
  pub offset_at : ℕ
  pub count_at : ℕ
  pub schema_at : ℕ
  pub remap_at : ℕ
  pub addr_at : ℕ
  pub skip_at : ℕ
  pub stride : ℕ
  pub partition_mask : ℕ
  pub offset_mask : ℕ
  pub count_mask : ℕ
  pub schema_mask : ℕ
  pub remap_mask : ℕ
  pub addr_mask : ℕ
  pub skip_mask : ℕ

unfoldable pub make_dir_layout : (pw ow cw sw rw' aw kw : ℕ) → DirLayout
make_dir_layout pw ow cw sw rw' aw kw =
    let offset_at = pw in
    let count_at = offset_at + ow in
    let schema_at = count_at + cw in
    let remap_at = schema_at + sw in
    let addr_at = remap_at + rw' in
    let skip_at = addr_at + aw in
    record {
      partition_width = pw;
      offset_width = ow;
      count_width = cw;
      schema_width = sw;
      remap_width = rw';
      addr_width = aw;
      skip_width = kw;
      partition_at = 0;
      offset_at = offset_at;
      count_at = count_at;
      schema_at = schema_at;
      remap_at = remap_at;
      addr_at = addr_at;
      skip_at = skip_at;
      stride = skip_at + kw;
      partition_mask = mask_for_width pw;
      offset_mask = mask_for_width ow;
      count_mask = mask_for_width cw;
      schema_mask = mask_for_width sw;
      remap_mask = mask_for_width rw';
      addr_mask = mask_for_width aw;
      skip_mask = mask_for_width kw;
    }

-- `store_uint(out + at, width, value)` and `memset(out, 0, n)`.
unfoldable pub store_at : Bytes → ℕ → ℕ → ℕ → Bytes
store_at out at width value = take at out ++ store_uint (drop at out) width value

unfoldable pub clear : Bytes → ℕ → Bytes
clear out n = replicate n 0 ++ drop n out

-- A field of width 0 is absent.
unfoldable pub store_present : Bytes → ℕ → ℕ → ℕ → Bytes
store_present out at width value = if width == 0 then out else store_at out at width value

unfoldable pub encode_dir_entry : Bytes → DirLayout → DirEntry → Bytes
unfolding store_at clear store_present
encode_dir_entry out layout d =
    let out0 = clear out layout.stride in
    let out1 = store_present out0 layout.partition_at layout.partition_width d.partition in
    let out2 = store_at out1 layout.offset_at layout.offset_width d.offset in
    let out3 = store_at out2 layout.count_at layout.count_width d.count in
    let out4 = store_present out3 layout.schema_at layout.schema_width d.schema_id in
    let out5 = store_present out4 layout.remap_at layout.remap_width d.remap_count in
    let out6 = store_present out5 layout.addr_at layout.addr_width d.address_width in
    store_present out6 layout.skip_at layout.skip_width d.address_skip

-- `width ? static_cast<uint32_t>(load_uint(in + at, width)) : absent`
unfoldable pub load_present32 : Bytes → ℕ → ℕ → ℕ → ℕ
load_present32 input at width absent =
    if width == 0 then absent else load_uint (drop at input) width % 2 ^ 32

unfoldable pub decode_dir_entry : Bytes → DirLayout → ℕ → ℕ → DirEntry
unfolding load_present32
decode_dir_entry input layout index full_address_width = record {
  partition =
      if layout.partition_width == 0
      then index
      else load_uint (drop layout.partition_at input) layout.partition_width;
  offset = load_uint (drop layout.offset_at input) layout.offset_width;
  count = load_uint (drop layout.count_at input) layout.count_width;
  schema_id = load_present32 input layout.schema_at layout.schema_width 0;
  remap_count = load_present32 input layout.remap_at layout.remap_width 0;
  address_width = load_present32 input layout.addr_at layout.addr_width full_address_width;
  address_skip = load_present32 input layout.skip_at layout.skip_width 0;
}
