-- ===== src/Table/Values.antt =====
-- Field values of a record (table.hpp: value_base, read_scalar and the typed getters). A signed or
-- floating value is its bit pattern.
use mmpack.Prelude.{
  ℕ, ◌%◌, ◌^◌, ◌≤◌, ◌<◌, ◌≡◌, ◌≢◌, ◌⊎◌, inl, inr, Bool-cases, refl, subst, false, not, Option, none,
  some, List, [], ◌∷◌, zero, suc, take, drop, get_elem?, length, leb, ◌==◌, if◌then◌else◌, All,
  arith,
}
use mmpack.Prelude.Early.{◌>>=◌, ◌>>◌, reject_if}
use mmpack.Bits.{Bytes, load_uint}
use mmpack.Schema.{FieldKind, uint, sint, f32, f64, bytes, text, FieldDesc, field}
use mmpack.Dictionary.{element, text_at}
use mmpack.Builder.Fields.{Shape, read_field, encode_tuple}
use mmpack.Builder.Fields.Placement.{ArePlaced}
use mmpack.Builder.Fields.RoundTrip.{shapes, AreFitting, encode_tuple-read_field}
use mmpack.Builder.Remap.{resolve}
use mmpack.Table.Layout.{Table, layout_of, record_bytes}
use mmpack.Table.Cursor.{Cursor}

-- The stored number of a kind.
unfoldable pub kind_code : FieldKind → ℕ
kind_code uint = 0
kind_code sint = 1
kind_code f32 = 2
kind_code f64 = 3
kind_code bytes = 4
kind_code text = 5

-- What read_scalar reads of a descriptor.
abbrev pub shape_of : FieldDesc → Shape
shape_of d = record { offset = d.offset; width = d.width; bias = d.bias }

module _ (t : Table) where
  -- The value tuple of a record; `none` is the null pointer.
  unfoldable pub value_base : Cursor → Option Bytes
  unfolding layout_of record_bytes resolve element
  value_base c =
      let p = layout_of t c.slot in
      let values = drop p.address_width (record_bytes p c.index) in
      let ref = load_uint values p.ref_width in
      let global : Option ℕ =
        if p.remapped then (p.remap >>= λ table. resolve table p.remap_count ref) else some ref in
      if leb t.dir_count c.slot
      then none
      else if not t.interned
      then some values
      else (global >>= λ id. element t.value_dict id)

  unfoldable pub read_scalar : Cursor → ℕ → FieldKind → Option ℕ
  unfolding value_base read_field kind_code
  read_scalar c id expected = do
    reject_if (leb t.schema.head.field_count id)
    let d = field t.schema id
    reject_if (not (d.kind == kind_code expected))
    base ← value_base c
    some (read_field base (shape_of d))

  unfoldable pub uint_value : Cursor → ℕ → Option ℕ
  unfolding read_scalar
  uint_value c id = read_scalar c id uint

  unfoldable pub sint_value : Cursor → ℕ → Option ℕ
  unfolding read_scalar
  sint_value c id = read_scalar c id sint

  unfoldable pub f32_value : Cursor → ℕ → Option ℕ
  unfolding read_scalar
  f32_value c id = read_scalar c id f32 >>= λ raw. some (raw % 2 ^ 32)

  unfoldable pub f64_value : Cursor → ℕ → Option ℕ
  unfolding read_scalar
  f64_value c id = read_scalar c id f64

  unfoldable pub bytes_value : Cursor → ℕ → Option Bytes
  unfolding value_base kind_code
  bytes_value c id = do
    reject_if (leb t.schema.head.field_count id)
    let d = field t.schema id
    reject_if (not (d.kind == kind_code bytes))
    base ← value_base c
    some (take d.width (drop d.offset base))

  unfoldable pub text_value : Cursor → ℕ → Option Bytes
  unfolding read_scalar text_at
  text_value c id = do
    raw ← read_scalar c id text
    dict ← get_elem? t.blob_dicts (field t.schema id).dict_index
    text_at dict raw

All-get_elem? :
    {A : Type 0} (P : A → Type 0) (xs : List A) (i : ℕ) {a : A}
    → All P xs
    → get_elem? xs i ≡ some a
    → P a
All-get_elem? P [] i {a} h e = cc
All-get_elem? P (x ∷ xs) zero {a} h e = let same : x ≡ a = cc in subst P same h.0
All-get_elem? P (x ∷ xs) (suc i) {a} h e = All-get_elem? P xs i h.1 e

-- What a read of a field as a kind gives: the value of a field that is of the kind, the null pointer for every other
-- kind and for a field that is not there.
abbrev pub Reads : Table → Cursor → ℕ → FieldKind → ℕ → Type 0
Reads t c id kind v =
    ((id < t.schema.head.field_count)
      × ((field t.schema id).kind ≡ kind_code kind)
      × (read_scalar t c id kind ≡ some v))
    ⊎ (((t.schema.head.field_count ≤ id) ⊎ ((field t.schema id).kind ≢ kind_code kind))
        × (read_scalar t c id kind ≡ none))

-- Where a record's values are a tuple that was encoded with shapes that lie one behind the other and fit the
-- values, and the schema describes a field by its shape: reading it as its own kind gives the value that was
-- encoded, and reading it as another kind, or with an id that the schema does not have, gives nothing.
pub read_scalar-encode_tuple :
    (t : Table) (c : Cursor) (id : ℕ) (kind : FieldKind) (fs : List (Shape × ℕ)) (stride : ℕ)
    (out : Bytes) (v : ℕ)
    → value_base t c ≡ some (encode_tuple stride out fs)
    → (id < t.schema.head.field_count → get_elem? fs id ≡ some (shape_of (field t.schema id), v))
    → AreFitting fs
    → ArePlaced 0 (shapes fs) stride
    → stride ≤ length out
    → Reads t c id kind v
unfolding read_scalar
read_scalar-encode_tuple t c id kind fs stride out v base at fit placed room =
    elim (Bool-cases (leb t.schema.head.field_count id)) [
      | inl past ↦ inr (inl (ground arith), rw past refl)
      | inr there ↦ elim (Bool-cases ((field t.schema id).kind == kind_code kind)) [
        | inr other ↦ inr (inr (different _ _ other), rw (there, other) refl)
        | inl same ↦
            let value =
              All-get_elem? (λ f. read_field (encode_tuple stride out fs) f.0 ≡ f.1) fs id
                (encode_tuple-read_field fs stride out fit placed room) (at (ground arith)) in
            inl (ground arith, ground arith, rw (there, same, base, value) refl)
      ]
    ]
  where
    different : (m n : ℕ) → (m == n) ≡ false → m ≢ n
    different m n e h = ground arith
