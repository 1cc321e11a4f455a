-- ===== src/Table/Open/Accept.antt =====
-- The images that try_open accepts, as a whole.
use mmpack.Prelude.{
  ℕ, zero, suc, ◌+◌, ◌-◌, ◌*◌, ◌/◌, ◌≤◌, ◌<◌, ◌≡◌, ◌≢◌, refl, sym, ap, ap₂, subst, ◌∙◌, Bool, true,
  false, not, ◌||◌, ◌&&◌, Bool-cases, some, List, [], take, drop, length, ltb, ltb-false, &&-not,
  ||-false, ◌==◌, inl, inr, arith,
}
use mmpack.Error.{
  done, ◌>>◌, fail_if, too_small, bad_magic, bad_version, bad_size, bad_schema, bad_directory,
  bad_dictionary, done-inj, fail_if-eq_done, or_fail-eq_done, >>=-eq_done,
}
use mmpack.Bits.{Bytes}
use mmpack.Dictionary.{same_bytes, BlobView, FixedView}
use mmpack.Format.{magic, format_version, DirEntry}
use mmpack.Schema.{SchemaView, has_key_mapping, narrow_address, directory_layout, open_schema}
use mmpack.Schema.Open.{IsSound, open_schema-IsSound}
use mmpack.Table.Layout.{Table, slot, slot_bytes}
use mmpack.Table.Open.{
  header_size, footer_size, Footer, load_header, load_footer, attach, check_directory, same_bool,
  check_slots, open_dictionaries, texts_ok, long_frame, open_frame, finish_open, try_open,
}
use mmpack.Table.Open.Slots.{SlotFits, stop_of, records_from, Accepted, check_slots-Accepted}
use mmpack.Table.Open.Dicts.{AreOpened, open_dictionaries-AreOpened}

-- A schema that was opened from bytes of an image, with what try_open asks of it.
pub record IsFramed (image : Bytes) (schema : SchemaView) : Type 0 where
  pub size : header_size + footer_size ≤ length image
  pub sound :
      (at : ℕ) × (size : ℕ) × (at + size + footer_size ≤ length image)
      × IsSound (take size (drop at image)) schema
  pub keys : has_key_mapping schema ≡ true → narrow_address schema ≡ true

range_room : (tail at size : ℕ) → (ltb tail at || ltb (tail - at) size) ≡ false → at + size ≤ tail
range_room tail at size e = ground arith

framed :
    (image : Bytes) (foot : Footer) (schema : SchemaView) {frame : Footer × SchemaView}
    → header_size + footer_size ≤ length image
    → foot.schema_offset + foot.schema_size ≤ length image - footer_size
    → open_schema (take foot.schema_size (drop foot.schema_offset image)) ≡ some schema
    → (fail_if (schema.head.record_stride == 0) bad_schema
        >> (fail_if (has_key_mapping schema && not (narrow_address schema)) bad_schema
            >> done (foot, schema)))
      ≡ done frame
    → IsFramed image frame.1
framed image foot schema size room opened e =
    let (stride, e1) = fail_if-eq_done (schema.head.record_stride == 0) bad_schema _ e in
    let (keys, e2) =
      fail_if-eq_done (has_key_mapping schema && not (narrow_address schema)) bad_schema _ e1 in
    subst (λ f. IsFramed image f.1) (done-inj e2)
      (record {
        size = size;
        sound = (
          foot.schema_offset,
          foot.schema_size,
          omega arith,
          open_schema-IsSound (take foot.schema_size (drop foot.schema_offset image)) schema opened,
        );
        keys = &&-not (has_key_mapping schema) (narrow_address schema) keys;
      })

open_frame-IsFramed :
    (image : Bytes) {frame : Footer × SchemaView}
    → open_frame image ≡ done frame
    → IsFramed image frame.1
unfolding open_frame long_frame
open_frame-IsFramed image e =
    let head = load_header image in
    let foot = load_footer (drop (length image - footer_size) image) in
    let tail = length image - footer_size in
    let (size, e1) =
      fail_if-eq_done (ltb (length image) (header_size + footer_size)) too_small _ e in
    let (m, e2) = fail_if-eq_done (not (same_bytes head.magic magic)) bad_magic _ e1 in
    let (v, e3) = fail_if-eq_done (not (head.format_version == format_version)) bad_version _ e2 in
    let (fm, e4) = fail_if-eq_done (not (same_bytes foot.magic magic)) bad_size _ e3 in
    let (fv, e5) = fail_if-eq_done (not (foot.format_version == format_version)) bad_version _ e4 in
    let (fs, e6) = fail_if-eq_done (not (foot.image_size == length image)) bad_size _ e5 in
    let (range, e7) =
      fail_if-eq_done
        (ltb tail foot.schema_offset || ltb (tail - foot.schema_offset) foot.schema_size) bad_schema
        _ e6 in
    let (schema, opened, e8) =
      or_fail-eq_done (open_schema (take foot.schema_size (drop foot.schema_offset image)))
        bad_schema _ e7 in
    framed image foot schema (ltb-false (length image) (header_size + footer_size) size)
      (range_room tail foot.schema_offset foot.schema_size range) opened e8

-- The directory of an image, at `dir_offset`.
pub record IsDirectory (image : Bytes) (t : Table) (dir_offset : ℕ) : Type 0 where
  pub at : t.directory ≡ drop dir_offset image
  pub layout : t.dir ≡ directory_layout t.schema
  pub dense : t.dense ≡ (t.dir.partition_width == 0)
  pub room :
      (header_size ≤ dir_offset) × (dir_offset + t.dir_count * t.dir.stride + 8 ≤ length image)
  pub fits : (s : ℕ) → s < t.dir_count → SlotFits t dir_offset header_size (slot t s)
  pub increasing : (r s : ℕ) → r < s → s < t.dir_count → (slot t r).partition < (slot t s).partition
  pub apart :
      (r s : ℕ)
      → r < s
      → s < t.dir_count
      → (slot t r).count ≢ 0
      → (slot t s).count ≢ 0
      → stop_of t (slot t r) ≤ (slot t s).offset
  pub total : records_from t.dir_count t 0 ≡ t.record_count

-- An image and what it is opened as.
pub record IsImage (image : Bytes) (t : Table) : Type 0 where
  pub base : t.base ≡ image
  pub framed : IsFramed image t.schema
  pub address : t.address_width ≡ t.schema.head.address_width
  pub values : t.address_width + t.value_part ≡ t.schema.head.record_stride
  pub directory : (dir_offset : ℕ) × IsDirectory image t dir_offset
  pub dictionaries :
      AreOpened t.schema.head.dict_count t.schema image
        (length image - footer_size)
        0
        (record { elements = []; count = 0; elem_size = 0 })
        (t.blob_dicts, t.value_dict)

same_bool-eq : (a b : Bool) → same_bool a b ≡ true → b ≡ a
same_bool-eq true b e = e
same_bool-eq false true e = cc
same_bool-eq false false e = refl

not-false : (b : Bool) → not b ≡ false → b ≡ true
not-false true e = refl
not-false false e = cc

-- The checks between the footer and the directory.
check_directory-done :
    (image : Bytes) (foot : Footer) (t : Table)
    → check_directory image foot t ≡ done tt
    → (t.address_width ≤ t.record_stride)
      × (t.dense ≡ (t.dir.partition_width == 0))
      × (header_size ≤ foot.dir_offset)
      × (foot.dir_offset + foot.dir_count * t.dir.stride + 8 ≤ length image)
unfolding check_directory
check_directory-done image foot t e =
    let tail = length image - footer_size in
    let (wide, e1) = fail_if-eq_done (ltb t.record_stride t.address_width) bad_schema _ e in
    let (stride, e2) = fail_if-eq_done (t.dir.stride == 0) bad_directory _ e1 in
    let (dense, e3) =
      fail_if-eq_done (not (same_bool (t.dir.partition_width == 0) t.dense)) bad_directory _ e2 in
    let (at, e4) =
      fail_if-eq_done (ltb foot.dir_offset header_size || ltb tail foot.dir_offset) bad_directory _
        e3 in
    let (count, e5) =
      fail_if-eq_done (ltb ((tail - foot.dir_offset) / t.dir.stride) foot.dir_count) bad_directory _
        e4 in
    let (before, after) =
      ||-false (ltb foot.dir_offset header_size) (ltb tail foot.dir_offset) at in
    (
      ltb-false t.record_stride t.address_width wide,
      same_bool-eq (t.dir.partition_width == 0) t.dense (not-false _ dense),
      ltb-false foot.dir_offset header_size before,
      last e5,
    )
  where
    last :
        fail_if
            (ltb (length image) (foot.dir_offset + foot.dir_count * t.dir.stride + 8))
            bad_directory
          ≡ done tt
        → foot.dir_offset + foot.dir_count * t.dir.stride + 8 ≤ length image
    last h =
        elim (Bool-cases
          (ltb (length image) (foot.dir_offset + foot.dir_count * t.dir.stride + 8))) [
            | inl b ↦ cc
            | inr b ↦
                ltb-false (length image) (foot.dir_offset + foot.dir_count * t.dir.stride + 8) b
          ]

-- The dictionaries that are set at the end change no slot.
module _ (t : Table) (dicts : List BlobView × FixedView) where
  abbrev finished : Table
  finished = record t { blob_dicts = dicts.0; value_dict = dicts.1 }

  slot-finished : (s : ℕ) → slot finished s ≡ slot t s
  unfolding slot slot_bytes
  slot-finished s = refl

  SlotFits-finished :
      (dir_offset floor : ℕ) (d : DirEntry)
      → SlotFits t dir_offset floor d
      → SlotFits finished dir_offset floor d
  SlotFits-finished dir_offset floor d ok = record {
    range = ok.range;
    remapped = ok.remapped;
    plain = ok.plain;
    stride = ok.stride;
    inside = ok.inside;
  }

  records_from-finished : (rounds i : ℕ) → records_from rounds finished i ≡ records_from rounds t i
  unfolding records_from
  records_from-finished zero i = refl
  records_from-finished (suc rounds) i =
      ap₂ (λ (a b : ℕ). a + b) (ap (λ d. d.count) (slot-finished i))
        (records_from-finished rounds (i + 1))

  finished-IsDirectory :
      (image : Bytes) (dir_offset : ℕ)
      → t.directory ≡ drop dir_offset image
      → t.dir ≡ directory_layout t.schema
      → t.dense ≡ (t.dir.partition_width == 0)
      → (header_size ≤ dir_offset) × (dir_offset + t.dir_count * t.dir.stride + 8 ≤ length image)
      → Accepted t.dir_count t dir_offset 0 0 header_size
      → records_from t.dir_count t 0 ≡ t.record_count
      → IsDirectory image finished dir_offset
  finished-IsDirectory image dir_offset at layout dense room (each, pairs) total = record {
    at = at;
    layout = layout;
    dense = dense;
    room = room;
    fits = λ s h. subst (SlotFits finished dir_offset header_size) (sym (slot-finished s)) (
        SlotFits-finished dir_offset header_size (slot t s) (each s (omega arith) (omega arith)).0);
    increasing = λ r s h q.
        rw (slot-finished r, slot-finished s) ((pairs r s (omega arith) h (omega arith)).0);
    apart = λ r s h q.
        rw (slot-finished r, slot-finished s) ((pairs r s (omega arith) h (omega arith)).1);
    total = records_from-finished t.dir_count 0 ∙ total;
  }

counted_total :
    (rest total count : ℕ) → total ≡ 0 + rest → not (total == count) ≡ false → rest ≡ count
counted_total rest total count sum e = ground arith

-- The steps of try_open behind open_frame.
finish_open-IsImage :
    (image : Bytes) (foot : Footer) (schema : SchemaView) (t : Table)
    → IsFramed image schema
    → finish_open image foot schema ≡ done t
    → IsImage image t
unfolding finish_open attach
finish_open-IsImage image foot schema t framed e =
    let t0 = attach image foot schema in
    let (unit, directory, e2) = >>=-eq_done (check_directory image foot t0) _ e in
    let (wide, dense, start, room) = check_directory-done image foot t0 directory in
    let (total, slots, e3) =
      >>=-eq_done (check_slots foot.dir_count t0 foot.dir_offset 0 0 0 header_size) _ e2 in
    let (accepted, sum) =
      check_slots-Accepted foot.dir_count t0 foot.dir_offset 0 0 0 header_size slots in
    let (counted, e4) = fail_if-eq_done (not (total == foot.record_count)) bad_directory _ e3 in
    let (dicts, opened, e5) =
      >>=-eq_done
        (open_dictionaries schema.head.dict_count schema image (length image - footer_size) 0
          t0.value_dict)
        _ e4 in
    let (texts, e6) =
      fail_if-eq_done (not (texts_ok schema.head.field_count schema 0)) bad_dictionary _ e5 in
    subst (IsImage image) (done-inj e6) (record {
      base = refl;
      framed = framed;
      address = refl;
      values = part_sum wide;
      directory = (
        foot.dir_offset,
        finished-IsDirectory t0 dicts image foot.dir_offset refl refl dense (start, room) accepted
            (counted_total (records_from foot.dir_count t0 0) total foot.record_count sum counted),
      );
      dictionaries =
          open_dictionaries-AreOpened schema.head.dict_count schema image
            (length image - footer_size) 0 t0.value_dict opened;
    })
  where
    part_sum : {a b : ℕ} → a ≤ b → a + (b - a) ≡ b
    part_sum h = omega arith

-- An image that try_open accepts is opened as a table over its bytes: the schema block is sound; the slots
-- lie in the image with the bytes that a masked read takes, their partitions increase, their
-- records lie before the directory and apart from each other, and together they are the records that the
-- footer counts; and every dictionary was opened from bytes of the image before the footer.
pub try_open-IsImage :
    (image : Bytes) (t : Table) → try_open (some image) ≡ done t → IsImage image t
unfolding try_open
try_open-IsImage image t e =
    let (frame, framed, e1) = >>=-eq_done (open_frame image) _ e in
    finish_open-IsImage image frame.0 frame.1 t (open_frame-IsFramed image framed) e1
