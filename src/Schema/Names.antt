-- ===== src/Schema/Names.antt =====
-- Field names and the lookup of a field by name (schema.hpp: name, find; table.hpp: field).
use mmpack.Prelude.{
  ℕ, zero, suc, ◌+◌, ◌≤◌, ◌<◌, ◌≡◌, sym, ap, subst, ◌∙◌, false, Bool-cases, Option, none, some, [],
  ◌∷◌, drop, ◌==◌, if◌then◌else◌, inl, inr, arith,
}
use mathlib.Core.Bool.{false≢true}
use mmpack.Bits.{Bytes}
use mmpack.Dictionary.{same_bytes}
use mmpack.Dictionary.Interning.{same_bytes-eq, same_bytes_refl}
use mmpack.Schema.{SchemaView, field}
use native.Mathlib.Decide.{dec_le}

-- `std::string_view(p)`: the bytes before the first NUL.
unfoldable pub until_nul : Bytes → Bytes
until_nul [] = []
until_nul (b ∷ p) = let rest = until_nul p in if b == 0 then [] else b ∷ rest

unfoldable pub name : SchemaView → ℕ → Bytes
unfolding until_nul
name view id = until_nul (drop (field view id).name_offset view.names)

-- The fields from `i` on, `rounds` of them.
unfoldable pub find_field_loop : ℕ → SchemaView → Bytes → ℕ → Option ℕ
unfolding name same_bytes
find_field_loop zero view wanted i = none
find_field_loop (suc rounds) view wanted i =
    let later = find_field_loop rounds view wanted (i + 1) in
    if same_bytes (name view i) wanted then some i else later

unfoldable pub find_field : SchemaView → Bytes → Option ℕ
unfolding find_field_loop
find_field view wanted = find_field_loop view.head.field_count view wanted 0

-- The first of the fields from `i` on, `rounds` of them, that has the name, or none where none has.
abbrev pub IsFirst : SchemaView → Bytes → ℕ → ℕ → Option ℕ → Type 0
IsFirst view wanted i rounds none = (j : ℕ) → i ≤ j → j < i + rounds → ¬ (name view j ≡ wanted)
IsFirst view wanted i rounds (some found) =
    (i ≤ found)
    × (found < i + rounds)
    × (name view found ≡ wanted)
    × ((j : ℕ) → i ≤ j → j < found → ¬ (name view j ≡ wanted))

other_name :
    (view : SchemaView) (wanted : Bytes) (i : ℕ)
    → same_bytes (name view i) wanted ≡ false
    → ¬ (name view i ≡ wanted)
other_name view wanted i b e =
    false≢true (sym b ∙ ap (λ p. same_bytes p wanted) e ∙ same_bytes_refl wanted)

IsFirst-later :
    (view : SchemaView) (wanted : Bytes) (i rounds : ℕ) (r : Option ℕ)
    → ¬ (name view i ≡ wanted)
    → IsFirst view wanted (i + 1) rounds r
    → IsFirst view wanted i (suc rounds) r
IsFirst-later view wanted i rounds none other h = λ j p q. elim (dec_le (i + 1) j) [
  | yes l ↦ h j l (omega arith)
  | no nl ↦ let e : i ≡ j = omega arith in subst (λ k. ¬ (name view k ≡ wanted)) e other
]
IsFirst-later view wanted i rounds (some found) other (lo, hi, same, before) = (
  omega arith,
  omega arith,
  same,
  λ j p q. elim (dec_le (i + 1) j) [
    | yes l ↦ before j l q
    | no nl ↦ let e : i ≡ j = omega arith in subst (λ k. ¬ (name view k ≡ wanted)) e other
  ],
)

find_field_loop-IsFirst :
    (rounds : ℕ) (view : SchemaView) (wanted : Bytes) (i : ℕ)
    → IsFirst view wanted i rounds (find_field_loop rounds view wanted i)
unfolding find_field_loop
find_field_loop-IsFirst zero view wanted i = λ j p q. absurd (omega arith)
find_field_loop-IsFirst (suc rounds) view wanted i =
    elim (Bool-cases (same_bytes (name view i) wanted)) [
      | inl b ↦ rw b (
        omega arith,
        omega arith,
        same_bytes-eq (name view i) wanted b,
        λ j p q. absurd (omega arith),
      )
      | inr b ↦ rw b (
          IsFirst-later view wanted i rounds (find_field_loop rounds view wanted (i + 1))
            (other_name view wanted i b) (find_field_loop-IsFirst rounds view wanted (i + 1)))
    ]

-- The lookup of a name gives the first field of the schema that has it, and nothing exactly where no field has it.
pub find_field-IsFirst :
    (view : SchemaView) (wanted : Bytes)
    → IsFirst view wanted 0 view.head.field_count (find_field view wanted)
unfolding find_field
find_field-IsFirst view wanted = find_field_loop-IsFirst view.head.field_count view wanted 0
