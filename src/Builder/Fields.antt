-- ===== src/Builder/Fields.antt =====
-- Measuring fields, choosing their widths and offsets, and encoding a tuple (builder.hpp: observe,
-- the first half of choose_layout, encode_tuple; table.hpp: read_scalar's last line).
pub mod Range
pub mod Placement
pub mod RoundTrip
use mmpack.Prelude.{
  ℕ, ◌+◌, ◌-◌, ◌%◌, ◌^◌, Bool, true, false, List, [], ◌∷◌, drop, ltb, ◌==◌, if◌then◌else◌,
}
use mmpack.Bits.{Bytes, load_uint, width_for, align_up}
use mmpack.Format.{store_at, clear}
use mmpack.Schema.{FieldKind, uint, sint, f32, f64, bytes, text}

-- struct field_stats
pub record FieldStats : Type 0 where
  pub min : ℕ
  pub max : ℕ
  pub seen : Bool

abbrev pub fresh_stats : FieldStats
fresh_stats = record { min = 2 ^ 64 - 1; max = 0; seen = false }

-- `static_cast<int64_t>(a) < static_cast<int64_t>(b)` on bit patterns of 64 bits.
abbrev pub signed_ltb : ℕ → ℕ → Bool
signed_ltb a b = ltb ((a + 2 ^ 63) % 2 ^ 64) ((b + 2 ^ 63) % 2 ^ 64)

abbrev pub less : FieldKind → ℕ → ℕ → Bool
less sint a b = signed_ltb a b
less _ a b = ltb a b

unfoldable pub observe : FieldKind → FieldStats → ℕ → FieldStats
observe kind s raw =
    if s.seen
    then record {
      min = if less kind raw s.min then raw else s.min;
      max = if less kind s.max raw then raw else s.max;
      seen = true;
    }
    else record { min = raw; max = raw; seen = true }

-- What choose_layout knows of a field: its kind and declared width, what was measured, and for a
-- text field how many entries its dictionary has.
pub record Measured : Type 0 where
  pub kind : FieldKind
  pub fixed_width : ℕ
  pub stats : FieldStats
  pub entries : ℕ

-- `if (!s.seen) { s.min = 0; s.max = 0; }`
abbrev pub settled : FieldStats → FieldStats
settled s = if s.seen then s else record { min = 0; max = 0; seen = false }

-- A uint64 difference.
abbrev pub sub64 : ℕ → ℕ → ℕ
sub64 a b = (a + 2 ^ 64 - b) % 2 ^ 64

unfoldable pub shape_width : Measured → FieldKind → ℕ
shape_width m uint = width_for (sub64 (settled m.stats).max (settled m.stats).min)
shape_width m sint = width_for (sub64 (settled m.stats).max (settled m.stats).min)
shape_width m f32 = 4
shape_width m f64 = 8
shape_width m bytes = m.fixed_width
shape_width m text = width_for (if m.entries == 0 then 0 else m.entries - 1)

unfoldable pub shape_bias : Measured → FieldKind → ℕ
shape_bias m uint = (settled m.stats).min
shape_bias m sint = (settled m.stats).min
shape_bias m _ = 0

-- The part of a field descriptor that the encoding reads.
pub record Shape : Type 0 where
  pub offset : ℕ
  pub width : ℕ
  pub bias : ℕ

-- The loop of choose_layout over the fields: descriptors, and `value_stride_`.
unfoldable pub place_fields : Bool → ℕ → List Measured → List Shape × ℕ
unfolding shape_width shape_bias
place_fields align_fields offset [] = ([], offset)
place_fields align_fields offset (m ∷ ms) =
    let width = shape_width m m.kind in
    let at : ℕ = if align_fields then align_up offset width % 2 ^ 32 else offset in
    let (shapes, stride) = place_fields align_fields ((at + width) % 2 ^ 32) ms in
    (record { offset = at; width = width; bias = shape_bias m m.kind } ∷ shapes, stride)

-- The loop of encode_tuple: `store_uint(out + d.offset, d.width, values[i] - d.bias)`.
unfoldable pub store_fields : Bytes → List (Shape × ℕ) → Bytes
store_fields out [] = out
store_fields out ((d, v) ∷ fs) = store_fields (store_at out d.offset d.width (sub64 v d.bias)) fs

unfoldable pub encode_tuple : ℕ → Bytes → List (Shape × ℕ) → Bytes
unfolding store_fields
encode_tuple value_stride out fs = store_fields (clear out value_stride) fs

-- `load_uint(base + d.offset, d.width) + d.bias`
unfoldable pub read_field : Bytes → Shape → ℕ
read_field base d = (load_uint (drop d.offset base) d.width + d.bias) % 2 ^ 64
