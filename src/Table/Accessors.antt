-- ===== src/Table/Accessors.antt =====
-- The masked reads of the lookup path and the decoded directory slot.
use mmpack.Prelude.{ℕ, ◌+◌, ◌*◌, ◌≤◌, ◌≡◌, refl, none, some, drop, not, ◌==◌, if◌then◌else◌}
use mmpack.Bits.{AreBytes, load_uint, load_uint_masked, mask_for_width}
use mmpack.Bits.Memory.{drop-AreBytes}
use mmpack.Bits.Masked.{load_uint_masked-load_uint}
use mmpack.Format.{DirLayout, make_dir_layout, decode_dir_entry}
use mmpack.Table.Layout.{
  Table, slot_bytes, slot, slot_partition, slot_offset, slot_count, layout_of,
}

-- A width that a masked read can serve, with its mask.
abbrev pub Masks : ℕ → ℕ → Type 0
Masks width mask = (width ≤ 8) × (mask ≡ mask_for_width width)

pub record AreMasks (l : DirLayout) : Type 0 where
  pub partition : Masks l.partition_width l.partition_mask
  pub offset : Masks l.offset_width l.offset_mask
  pub count : Masks l.count_width l.count_mask
  pub schema : Masks l.schema_width l.schema_mask
  pub remap : Masks l.remap_width l.remap_mask
  pub addr : Masks l.addr_width l.addr_mask
  pub skip : Masks l.skip_width l.skip_mask

pub make_dir_layout-AreMasks :
    (pw ow cw sw mw aw kw : ℕ)
    → pw ≤ 8
    → ow ≤ 8
    → cw ≤ 8
    → sw ≤ 8
    → mw ≤ 8
    → aw ≤ 8
    → kw ≤ 8
    → AreMasks (make_dir_layout pw ow cw sw mw aw kw)
unfolding make_dir_layout
make_dir_layout-AreMasks pw ow cw sw mw aw kw p o c s m a k = record {
  partition = (p, refl);
  offset = (o, refl);
  count = (c, refl);
  schema = (s, refl);
  remap = (m, refl);
  addr = (a, refl);
  skip = (k, refl);
}

module _ (t : Table) (bytes : AreBytes t.directory) (ok : AreMasks t.dir) (i : ℕ) where
  masked_field :
      (at width mask : ℕ)
      → Masks width mask
      → load_uint_masked (drop at (slot_bytes t i)) mask
        ≡ load_uint (drop at (slot_bytes t i)) width
  unfolding slot_bytes
  masked_field at width mask m = rw (m.1) (
      load_uint_masked-load_uint _ width
        (drop-AreBytes at _ (drop-AreBytes (i * t.dir.stride) t.directory bytes)) m.0)

  -- Over a directory of bytes whose layout has the masks of its widths, each masked accessor gives
  -- the field of the decoded slot, and each member of the partition layout is the one that the slot describes.
  pub layout_of-slot :
      (slot_partition t i ≡ (slot t i).partition)
      × (slot_offset t i ≡ (slot t i).offset)
      × (slot_count t i ≡ (slot t i).count)
      × ((layout_of t i).count ≡ (slot t i).count)
      × ((layout_of t i).remapped ≡ not ((slot t i).schema_id == 0))
      × ((layout_of t i).remap_count ≡ (slot t i).remap_count)
      × ((layout_of t i).address_width ≡ (slot t i).address_width)
      × ((layout_of t i).address_skip ≡ (slot t i).address_skip)
      × ((layout_of t i).stride
          ≡ (slot t i).address_width
            + (if not ((slot t i).schema_id == 0) then (slot t i).schema_id else t.value_part))
      × ((layout_of t i).records
          ≡ drop
              ((slot t i).offset
                + (if not ((slot t i).schema_id == 0) then (slot t i).remap_count * 4 else 0))
              t.base)
      × ((layout_of t i).remap ≡ (
          if not ((slot t i).schema_id == 0) then some (drop (slot t i).offset t.base) else none))
      × ((layout_of t i).ref_width
          ≡ (if not ((slot t i).schema_id == 0) then (slot t i).schema_id else t.ref_width))
  unfolding slot_partition slot_offset slot_count layout_of slot decode_dir_entry
  layout_of-slot =
      let l = t.dir in
      rw
        (
          masked_field l.partition_at l.partition_width l.partition_mask ok.partition,
          masked_field l.offset_at l.offset_width l.offset_mask ok.offset,
          masked_field l.count_at l.count_width l.count_mask ok.count,
          masked_field l.schema_at l.schema_width l.schema_mask ok.schema,
          masked_field l.remap_at l.remap_width l.remap_mask ok.remap,
          masked_field l.addr_at l.addr_width l.addr_mask ok.addr,
          masked_field l.skip_at l.skip_width l.skip_mask ok.skip,
        )
        (refl, refl, refl, refl, refl, refl, refl, refl, refl, refl, refl, refl)
