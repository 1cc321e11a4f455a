-- ===== src/Builder/Commit/Steps.antt =====
-- The runs of a builder: calls that begin a record, set a field and commit a record that was begun.
use mmpack.Prelude.{ℕ, ◌^◌, ◌<◌, ◌≡◌, ◌⊎◌, Bool, List, [], ◌∷◌}
use mmpack.Error.{done}
use mmpack.Bits.{Bytes}
use mmpack.Schema.Declare.{SchemaBuilder}
use mmpack.Builder.State.{BuildOptions, RecordRef, TableBuilder}
use mmpack.Builder.Commit.{
  table_builder, begin_record, begin_record_at, begin_wide_record_at, commit,
}
use mmpack.Builder.Commit.Setters.{set_uint, set_sint, set_f32, set_f64, set_text, set_bytes}

-- A setter of the open record.
pub data Sets (b : TableBuilder) : TableBuilder → Type 0 where
  uint_set : (id v : ℕ) {c : TableBuilder} → set_uint b id v ≡ done c → Sets b c
  sint_set : (id v : ℕ) {c : TableBuilder} → set_sint b id v ≡ done c → Sets b c
  f32_set : (id v : ℕ) {c : TableBuilder} → set_f32 b id v ≡ done c → Sets b c
  f64_set : (id v : ℕ) {c : TableBuilder} → set_f64 b id v ≡ done c → Sets b c
  text_set : (id : ℕ) (v : Bytes) {c : TableBuilder} → set_text b id v ≡ done c → Sets b c
  bytes_set : (id : ℕ) (v : Bytes) {c : TableBuilder} → set_bytes b id v ≡ done c → Sets b c

abbrev pub IsHandle : RecordRef → List RecordRef → Type 0
IsHandle rec [] = ⊥
IsHandle rec (h ∷ hs) = (h ≡ rec) ⊎ IsHandle rec hs

-- The builders that a new one becomes, each with the handles that were given out. A key has 64 bits. Any handle may be
-- committed, also twice and out of turn.
pub data Reach (at_most_ratio : ℕ → ℕ → Bool) (schema : SchemaBuilder) (options : BuildOptions)
    : TableBuilder → List RecordRef → Type 0 where
  start :
      {b : TableBuilder}
      → table_builder schema options ≡ done b
      → Reach at_most_ratio schema options b []
  begin :
      {b c : TableBuilder} {hs : List RecordRef} {rec : RecordRef} (key : ℕ)
      → Reach at_most_ratio schema options b hs
      → key < 2 ^ 64
      → begin_record b key ≡ done (c, rec)
      → Reach at_most_ratio schema options c (rec ∷ hs)
  begin_at :
      {b c : TableBuilder} {hs : List RecordRef} {rec : RecordRef} (partition address : ℕ)
      → Reach at_most_ratio schema options b hs
      → begin_record_at b partition address ≡ done (c, rec)
      → Reach at_most_ratio schema options c (rec ∷ hs)
  begin_wide :
      {b c : TableBuilder} {hs : List RecordRef} {rec : RecordRef} (partition : ℕ) (address : Bytes)
      → Reach at_most_ratio schema options b hs
      → begin_wide_record_at b partition address ≡ done (c, rec)
      → Reach at_most_ratio schema options c (rec ∷ hs)
  set :
      {b c : TableBuilder} {hs : List RecordRef}
      → Reach at_most_ratio schema options b hs
      → Sets b c
      → Reach at_most_ratio schema options c hs
  commits :
      {b c : TableBuilder} {hs : List RecordRef} (rec : RecordRef)
      → Reach at_most_ratio schema options b hs
      → IsHandle rec hs
      → commit at_most_ratio b rec ≡ done c
      → Reach at_most_ratio schema options c hs
