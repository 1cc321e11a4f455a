-- ===== src/Table/Open/Ordered.antt =====
-- What an opened image gives to the lookups.
use mmpack.Prelude.{ℕ, ◌<◌, ◌≡◌, refl, sym, ◌∙◌, subst, true, some, ◌==◌, if◌then◌else◌, arith}
use mmpack.Error.{done}
use mmpack.Bits.{Bytes, AreBytes}
use mmpack.Schema.{SchemaView, directory_layout}
use mmpack.Schema.Open.{IsSound}
use mmpack.Table.Layout.{Table, slot_partition, layout_of}
use mmpack.Table.Narrow.{IsNarrow}
use mmpack.Table.Order.{IsOrdered}
use mmpack.Table.Accessors.{AreMasks, make_dir_layout-AreMasks, layout_of-slot}
use mmpack.Bits.Memory.{drop-AreBytes}
use mmpack.Table.Open.{try_open}
use mmpack.Table.Open.Accept.{try_open-IsImage}

directory_layout-AreMasks :
    {block : Bytes} (view : SchemaView) → IsSound block view → AreMasks (directory_layout view)
unfolding directory_layout
directory_layout-AreMasks view sound =
    let head = view.head in
    let (p, o, c, r, a, k) = sound.directory in
    make_dir_layout-AreMasks head.dir_partition_width head.dir_offset_width head.dir_count_width
      (if head.dir_remap_width == 0 then 0 else 1) head.dir_remap_width head.dir_addr_width
      head.dir_skip_width p o c (ground arith) r (omega arith) (omega arith)

slot_partition-dense :
    (t : Table) (s : ℕ) → (t.dir.partition_width == 0) ≡ true → slot_partition t s ≡ s
unfolding slot_partition
slot_partition-dense t s e = rw e refl

-- An image of bytes that try_open accepts is ordered, as the lookups want it, where each partition is narrow:
-- its addresses increase and fit 64 bits.
pub try_open-IsOrdered :
    (image : Bytes) (t : Table)
    → AreBytes image
    → try_open (some image) ≡ done t
    → ((s : ℕ) → s < t.dir_count → IsNarrow (layout_of t s))
    → IsOrdered t
try_open-IsOrdered image t bytes opened narrow =
    let whole = try_open-IsImage image t opened in
    let (dir_offset, dir) = whole.directory in
    let (at, size, room, sound) = whole.framed.sound in
    let masks : AreMasks t.dir =
      subst AreMasks (sym dir.layout) (directory_layout-AreMasks t.schema sound) in
    let slots : AreBytes t.directory =
      subst AreBytes (sym dir.at) (drop-AreBytes dir_offset image bytes) in
    record {
      partitions = λ r s h q.
          rw ((layout_of-slot t slots masks r).0, (layout_of-slot t slots masks s).0)
            (dir.increasing r s h q);
      dense = λ e s h. slot_partition-dense t s (sym dir.dense ∙ e);
      narrow = narrow;
    }
