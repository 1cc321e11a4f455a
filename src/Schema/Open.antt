-- ===== src/Schema/Open.antt =====
-- The blocks that schema_view::open accepts.
use mmpack.Prelude.{
  ltb-false, ℕ, zero, suc, ◌+◌, ◌-◌, ◌*◌, ◌≤◌, ◌<◌, ◌≡◌, ◌≢◌, refl, subst, Bool, true, false, not,
  ◌&&◌, ◌||◌, Bool-cases, some, length, get_or, ltb, leb, ◌==◌, inl, inr, arith,
}
use native.Mathlib.Decide.{dec_le}
use mmpack.Prelude.Early.{reject_if-eq_some}
use mmpack.Bits.{Bytes, is_valid_width}
use mmpack.Schema.{
  FieldKind, uint, sint, f32, f64, bytes, text, kind_of, SchemaHeader, SchemaView, field, width_ok,
  is_text, terminated, field_ok, fields_ok, header_ok, mode_ok, view_of, load_schema_header,
  open_schema, schema_magic, interned_mode, schema_header_size, field_desc_size, dict_entry_size,
  max_field_kind,
}

-- What the accessors rely on for field `i`.
pub record FieldIsSound (view : SchemaView) (i : ℕ) : Type 0 where
  pub kind : (field view i).kind ≤ max_field_kind
  pub width : (1 ≤ (field view i).width) × ((field view i).width ≤ 8)
  pub inside : (field view i).offset + (field view i).width ≤ view.head.value_stride
  pub dict : kind_of (field view i).kind ≡ text → (field view i).dict_index < view.head.dict_count
  pub name :
      (j : ℕ) × ((field view i).name_offset ≤ j)
      × (j < view.head.name_bytes)
      × (get_or view.names j 1 ≡ 0)

terminated_lem :
    (rounds : ℕ) (names : Bytes) (j : ℕ)
    → terminated rounds names j ≡ true
    → (k : ℕ) × (j ≤ k) × (k < j + rounds) × (get_or names k 1 ≡ 0)
unfolding terminated
terminated_lem zero names j e = cc
terminated_lem (suc rounds) names j e = elim (Bool-cases (get_or names j 1 == 0)) [
  | inl b ↦ (j, omega arith, omega arith, ground arith)
  | inr b ↦
      let (k, lo, hi, z) = terminated_lem rounds names (j + 1) (ground arith) in
      (k, omega arith, omega arith, z)
]

width_ok-le : (kind : FieldKind) (w : ℕ) → width_ok kind w ≡ true → (1 ≤ w) × (w ≤ 8)
unfolding width_ok is_valid_width
width_ok-le uint w e = ground arith
width_ok-le sint w e = ground arith
width_ok-le text w e = ground arith
width_ok-le f32 w e = ground arith
width_ok-le f64 w e = ground arith
width_ok-le bytes w e = ground arith

&&-true : (a b : Bool) → (a && b) ≡ true → (a ≡ true) × (b ≡ true)
&&-true true b e = (refl, e)
&&-true false b e = cc

-- The six tests of a field, together and one by one.
all_six :
    (a b c d e f : Bool)
    → (a && b && c && d && e && f) ≡ true
    → (a ≡ true) × (b ≡ true) × (c ≡ true) × (d ≡ true) × (e ≡ true) × (f ≡ true)
all_six a b c d e f h = ground arith

text-is_text : (kind : FieldKind) → kind ≡ text → is_text kind ≡ true
unfolding is_text
text-is_text kind e = rw e

field_ok-FieldIsSound : (view : SchemaView) (i : ℕ) → field_ok view i ≡ true → FieldIsSound view i
unfolding field_ok
field_ok-FieldIsSound view i e =
    let head = view.head in
    let f = field view i in
    let (known, width, inside, dict, name, ends) =
      all_six (leb f.kind max_field_kind) (width_ok (kind_of f.kind) f.width)
        (not (ltb head.value_stride f.offset || ltb (head.value_stride - f.offset) f.width))
        (not (is_text (kind_of f.kind) && leb head.dict_count f.dict_index))
        (not (leb head.name_bytes f.name_offset))
        (terminated (head.name_bytes - f.name_offset) view.names f.name_offset) e in
    let (j, lo, hi, z) =
      terminated_lem (head.name_bytes - f.name_offset) view.names f.name_offset ends in
    let started : f.name_offset < head.name_bytes = ground arith in
    let inside_names : j < head.name_bytes = omega arith in
    record {
      kind = ground arith;
      width = width_ok-le (kind_of f.kind) f.width width;
      inside = ground arith;
      dict = λ t. let q = text-is_text (kind_of f.kind) t in ground arith;
      name = (j, lo, inside_names, z);
    }

fields_ok-lem :
    (rounds : ℕ) (view : SchemaView) (i j : ℕ)
    → fields_ok rounds view i ≡ true
    → i ≤ j
    → j < i + rounds
    → FieldIsSound view j
unfolding fields_ok
fields_ok-lem zero view i j e lo hi = absurd (omega arith)
fields_ok-lem (suc rounds) view i j e lo hi =
    let (here, later) = &&-true (field_ok view i) (fields_ok rounds view (i + 1)) e in
    elim (dec_le (i + 1) j) [
      | yes l ↦ fields_ok-lem rounds view (i + 1) j later l (omega arith)
      | no nl ↦
          let q : i ≡ j = omega arith in
          subst (FieldIsSound view) q (field_ok-FieldIsSound view i here)
    ]

-- What an accepted block has.
pub record IsSound (block : Bytes) (view : SchemaView) : Type 0 where
  pub head : view.head ≡ load_schema_header block
  pub size :
      schema_header_size
        + view.head.field_count * field_desc_size
        + view.head.dict_count * dict_entry_size
        + view.head.name_bytes
      ≤ length block
  pub address : 1 ≤ view.head.address_width
  pub plain :
      view.head.mode ≢ interned_mode
      → view.head.address_width + view.head.value_stride ≤ view.head.record_stride
  pub reference :
      view.head.mode ≡ interned_mode
      → (view.head.value_dict < view.head.dict_count)
        × (view.head.address_width + view.head.ref_width ≤ view.head.record_stride)
  pub directory :
      (view.head.dir_partition_width ≤ 8)
      × (view.head.dir_offset_width ≤ 8)
      × (view.head.dir_count_width ≤ 8)
      × (view.head.dir_remap_width ≤ 8)
      × (view.head.dir_addr_width ≤ 1)
      × (view.head.dir_skip_width ≤ 1)
  pub fields : (i : ℕ) → i < view.head.field_count → FieldIsSound view i

mode_ok-plain :
    (head : SchemaHeader)
    → mode_ok head ≡ true
    → head.mode ≢ interned_mode
    → head.address_width + head.value_stride ≤ head.record_stride
unfolding mode_ok
mode_ok-plain head e = ground arith

mode_ok-reference :
    (head : SchemaHeader)
    → mode_ok head ≡ true
    → head.mode ≡ interned_mode
    → (head.value_dict < head.dict_count)
      × (head.address_width + head.ref_width ≤ head.record_stride)
unfolding mode_ok
mode_ok-reference head e = ground arith

header_ok-address : (head : SchemaHeader) → header_ok head ≡ true → 1 ≤ head.address_width
unfolding header_ok
header_ok-address head e = ground arith

header_ok-directory :
    (head : SchemaHeader)
    → header_ok head ≡ true
    → (head.dir_partition_width ≤ 8)
      × (head.dir_offset_width ≤ 8)
      × (head.dir_count_width ≤ 8)
      × (head.dir_remap_width ≤ 8)
      × (head.dir_addr_width ≤ 1)
      × (head.dir_skip_width ≤ 1)
unfolding header_ok is_valid_width
header_ok-directory head e =
    (ground arith, ground arith, ground arith, ground arith, ground arith, ground arith)

not-not : (b : Bool) → not b ≡ false → b ≡ true
not-not true e = refl
not-not false e = cc

-- A block that `open_schema` accepts holds its field, dictionary and name tables; an address has a byte; a record
-- holds its address and its values or, in the interned form, a reference into a dictionary that exists; the widths
-- of a directory slot are at most 8, those of the address stretch at most 1; and every field has a known kind, a width from 1 to 8, its place inside the values, a dictionary that exists if it is a text,
-- and a name that ends inside the names.
pub open_schema-IsSound :
    (block : Bytes) (view : SchemaView) → open_schema block ≡ some view → IsSound block view
unfolding open_schema view_of
open_schema-IsSound block view e =
    let head = load_schema_header block in
    let view' = view_of block head in
    let (long, e1) = reject_if-eq_some (ltb (length block) schema_header_size) _ e in
    let (magic, e2) = reject_if-eq_some (not (head.magic == schema_magic)) _ e1 in
    let (size, e3) =
      reject_if-eq_some
        (ltb (length block) (
          schema_header_size
          + head.field_count * field_desc_size
          + head.dict_count * dict_entry_size
          + head.name_bytes))
        _ e2 in
    let (fine, e4) = reject_if-eq_some (not (header_ok head)) _ e3 in
    let (mode, e5) = reject_if-eq_some (not (mode_ok head)) _ e4 in
    let (each, e6) = reject_if-eq_some (not (fields_ok head.field_count view' 0)) _ e5 in
    let same : view' ≡ view = cc in
    subst (IsSound block) same (record {
      head = refl;
      size =
          ltb-false (length block)
            (schema_header_size
              + head.field_count * field_desc_size
              + head.dict_count * dict_entry_size
              + head.name_bytes)
            size;
      address = header_ok-address head (not-not (header_ok head) fine);
      directory = header_ok-directory head (not-not (header_ok head) fine);
      plain = mode_ok-plain head (not-not (mode_ok head) mode);
      reference = mode_ok-reference head (not-not (mode_ok head) mode);
      fields = λ i lt.
          fields_ok-lem head.field_count view' 0 i
            (not-not (fields_ok head.field_count view' 0) each) (omega arith) (omega arith);
    })
