-- ===== src/Schema/Declare.antt =====
-- schema.hpp: field_decl and schema_builder, the declaration of fields.
pub mod Laws
mod Examples
use mmpack.Prelude.{
  ℕ, zero, suc, ◌+◌, ◌-◌, ◌%◌, ◌^◌, Bool, true, false, not, ◌||◌, Option, none, some, List, [], ◌∷◌,
  ◌++◌, length, ltb, ◌==◌, if◌then◌else◌,
}
use mmpack.Error.{
  BuildError, empty_name, nul_in_name, duplicate_name, bytes_width, Result, done, ◌>>=◌, ◌>>◌,
  fail_if,
}
use mmpack.Bits.{Bytes}
use mmpack.Dictionary.{same_bytes}
use mmpack.Schema.{FieldKind, uint, sint, f32, f64, bytes, text}

pub record FieldDecl : Type 0 where
  pub name : Bytes
  pub kind : FieldKind
  pub fixed_width : ℕ

-- class schema_builder: its fields.
abbrev pub SchemaBuilder : Type 0
SchemaBuilder = List FieldDecl

-- A position cast to a field_id.
abbrev pub to_field_id : ℕ → ℕ
to_field_id i = i % 2 ^ 32

-- The first of `fields`, the first of them at `i`, with the name.
unfoldable pub find_loop : SchemaBuilder → Bytes → ℕ → Option ℕ
unfolding same_bytes
find_loop [] name i = none
find_loop (f ∷ fields) name i =
    let later = find_loop fields name (i + 1) in
    if same_bytes f.name name then some (to_field_id i) else later

unfoldable pub find : SchemaBuilder → Bytes → Option ℕ
unfolding find_loop
find fields name = find_loop fields name 0

-- `name.find('\0') != npos`
unfoldable pub has_nul : Bytes → Bool
has_nul [] = false
has_nul (b ∷ name) = b == 0 || has_nul name

abbrev pub is_empty : Bytes → Bool
is_empty [] = true
is_empty (b ∷ name) = false

abbrev pub is_some : Option ℕ → Bool
is_some none = false
is_some (some i) = true

-- The builder after the call, with the id of the new field.
unfoldable pub add : SchemaBuilder → Bytes → FieldKind → ℕ → Result BuildError (SchemaBuilder × ℕ)
unfolding find has_nul
add fields name kind width = do
  fail_if (is_empty name) empty_name
  fail_if (has_nul name) nul_in_name
  fail_if (is_some (find fields name)) duplicate_name
  let next = fields ++ (record { name = name; kind = kind; fixed_width = width } ∷ [])
  done (next, to_field_id (length next - 1))

module _ (fields : SchemaBuilder) (name : Bytes) where
  abbrev pub add_uint : Result BuildError (SchemaBuilder × ℕ)
  add_uint = add fields name uint 0

  abbrev pub add_sint : Result BuildError (SchemaBuilder × ℕ)
  add_sint = add fields name sint 0

  abbrev pub add_f32 : Result BuildError (SchemaBuilder × ℕ)
  add_f32 = add fields name f32 4

  abbrev pub add_f64 : Result BuildError (SchemaBuilder × ℕ)
  add_f64 = add fields name f64 8

  abbrev pub add_text : Result BuildError (SchemaBuilder × ℕ)
  add_text = add fields name text 0

  unfoldable pub add_bytes : ℕ → Result BuildError (SchemaBuilder × ℕ)
  unfolding add
  add_bytes width = do fail_if (width == 0 || ltb 8 width) bytes_width; add fields name bytes width
