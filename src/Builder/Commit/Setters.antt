-- ===== src/Builder/Commit/Setters.antt =====
-- The setters of record_ref (builder.hpp). A float is given by its bit pattern, a text by its bytes.
use mmpack.Prelude.{
  ℕ, zero, suc, ◌+◌, Bool, true, false, not, List, [], ◌∷◌, length, get_or, leb, ◌==◌,
  if◌then◌else◌,
}
use mmpack.Error.{
  BuildError, id_out_of_range, wrong_kind, wrong_width, blob_too_large, Result, done, ◌>>=◌, ◌>>◌,
  fail_if, or_fail,
}
use mmpack.Bits.{Bytes, of_bytes}
use mmpack.Dictionary.{intern}
use mmpack.Schema.{FieldKind, uint, sint, f32, f64, bytes, text, is_text}
use mmpack.Schema.Declare.{FieldDecl, SchemaBuilder}
use mmpack.Builder.Fields.{fresh_stats, observe}
use mmpack.Builder.State.{TableBuilder}

module _ {ℓ} {A : Type ℓ} where
  -- `xs[i] = a`
  abbrev pub set_at : List A → ℕ → A → List A
  set_at [] i a = []
  set_at (x ∷ xs) zero a = a ∷ xs
  set_at (x ∷ xs) (suc i) a = x ∷ set_at xs i a

abbrev pub same_kind : FieldKind → FieldKind → Bool
same_kind uint uint = true
same_kind sint sint = true
same_kind f32 f32 = true
same_kind f64 f64 = true
same_kind bytes bytes = true
same_kind text text = true
same_kind _ _ = false

abbrev no_decl : FieldDecl
no_decl = record { name = []; kind = uint; fixed_width = 0 }

-- `schema_[id]`
abbrev decl : TableBuilder → ℕ → FieldDecl
decl b id = get_or b.schema id no_decl

-- The two checks that each setter begins with.
unfoldable pub check_field : TableBuilder → ℕ → FieldKind → Result BuildError (Unit {0})
check_field b id kind = do
  fail_if (leb (length b.slots) id) id_out_of_range
  fail_if (not (same_kind (decl b id).kind kind)) wrong_kind

abbrev pub set_slot : TableBuilder → ℕ → ℕ → TableBuilder
set_slot b id v = record b { slots = set_at b.slots id v }

-- `observe(id, raw)`, on the statistics of the field.
unfoldable pub observed : TableBuilder → ℕ → ℕ → TableBuilder
unfolding observe
observed b id raw = record b {
  stats = set_at b.stats id (observe (decl b id).kind (get_or b.stats id fresh_stats) raw);
}

-- How many of the first `id` fields are texts.
unfoldable pub text_slot : SchemaBuilder → ℕ → ℕ
unfolding is_text
text_slot fields zero = 0
text_slot [] (suc id) = 0
text_slot (f ∷ fields) (suc id) = (if is_text f.kind then 1 else 0) + text_slot fields id

unfoldable pub set_uint : TableBuilder → ℕ → ℕ → Result BuildError TableBuilder
unfolding check_field observed
set_uint b id v = do check_field b id uint; done (observed (set_slot b id v) id v)

-- `raw` is the value cast to uint64.
unfoldable pub set_sint : TableBuilder → ℕ → ℕ → Result BuildError TableBuilder
unfolding check_field observed
set_sint b id raw = do check_field b id sint; done (observed (set_slot b id raw) id raw)

unfoldable pub set_f32 : TableBuilder → ℕ → ℕ → Result BuildError TableBuilder
unfolding check_field
set_f32 b id bits = do check_field b id f32; done (set_slot b id bits)

unfoldable pub set_f64 : TableBuilder → ℕ → ℕ → Result BuildError TableBuilder
unfolding check_field
set_f64 b id bits = do check_field b id f64; done (set_slot b id bits)

unfoldable pub set_text : TableBuilder → ℕ → Bytes → Result BuildError TableBuilder
unfolding check_field text_slot intern
set_text b id v = do
  check_field b id text
  let slot = text_slot b.schema id
  interned ←
      or_fail
        (intern (get_or b.text_dicts slot (record { index = []; order = []; blob_size = 0 })) v)
        blob_too_large
  done (set_slot (record b { text_dicts = set_at b.text_dicts slot interned.0 }) id interned.1)

-- The bytes of the value are the low ones of the word.
unfoldable pub set_bytes : TableBuilder → ℕ → Bytes → Result BuildError TableBuilder
unfolding check_field of_bytes
set_bytes b id v = do
  check_field b id bytes
  fail_if (not (length v == (decl b id).fixed_width)) wrong_width
  done (set_slot b id (of_bytes v))
