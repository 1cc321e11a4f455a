-- ===== src/Schema/Declare/Laws.antt =====
-- The schemas that calls of add build up.
use mmpack.Prelude.{
  ℕ, ◌+◌, ◌-◌, ◌≡◌, ◌≢◌, ◌⊎◌, refl, sym, ap, subst, ◌∙◌, Bool, true, false, Bool-cases, Option,
  none, some, [], ◌∷◌, ◌++◌, length, length-append, All, if◌then◌else◌, ◌==◌, inl, inr, arith,
}
use mmpack.Error.{
  BuildError, empty_name, nul_in_name, duplicate_name, done, fail, fail_if-eq_done, done-inj,
}
use mmpack.Bits.{Bytes}
use mmpack.Dictionary.{same_bytes}
use mmpack.Dictionary.Interning.{same_bytes-eq, same_bytes_refl}
use mmpack.Schema.{FieldKind}
use mmpack.Schema.Declare.{
  FieldDecl, SchemaBuilder, find_loop, find, has_nul, is_empty, is_some, add, to_field_id,
}
use mathlib.Core.Bool.{true≢false}

-- A name that a field may have.
abbrev pub IsName : Bytes → Type 0
IsName name = (is_empty name ≡ false) × (has_nul name ≡ false)

-- Names are fit, and each is found at its own field.
pub data IsDeclared : SchemaBuilder → Type 0 where
  none_yet : IsDeclared []
  one_more :
      {fields : SchemaBuilder} (f : FieldDecl)
      → IsDeclared fields
      → IsName f.name
      → All (λ g. g.name ≢ f.name) fields
      → IsDeclared (fields ++ (f ∷ []))

if-none :
    {A : Type 0} (b : Bool) (x : A) (o : Option A)
    → (if b then some x else o) ≡ none
    → (b ≡ false) × (o ≡ none)
if-none true x o e = cc
if-none false x o e = (refl, e)

other_name : (p q : Bytes) → same_bytes p q ≡ false → p ≢ q
other_name p q o h = true≢false (sym (ap (λ r. same_bytes r q) h ∙ same_bytes_refl q) ∙ o)

same_bytes-other : (p q : Bytes) → p ≢ q → same_bytes p q ≡ false
same_bytes-other p q h = elim (Bool-cases (same_bytes p q)) [
  | inl e ↦ absurd (h (same_bytes-eq p q e))
  | inr e ↦ e
]

-- A name that is not found, no field has.
find_loop-none :
    (fields : SchemaBuilder) (name : Bytes) (i : ℕ)
    → find_loop fields name i ≡ none
    → All (λ g. g.name ≢ name) fields
unfolding find_loop
find_loop-none [] name i e = tt
find_loop-none (f ∷ fields) name i e =
    let (other, later) = if-none (same_bytes f.name name) _ (find_loop fields name (i + 1)) e in
    (other_name f.name name other, find_loop-none fields name (i + 1) later)

-- A field behind the others is found under its name alone.
find_loop-last :
    (fields : SchemaBuilder) (f : FieldDecl) (i : ℕ)
    → find_loop fields f.name i ≡ none
    → find_loop (fields ++ (f ∷ [])) f.name i ≡ some (to_field_id (i + length fields))
unfolding find_loop
find_loop-last [] f i e =
    rw (same_bytes_refl f.name) (ap (λ (n : ℕ). some (to_field_id n)) (omega arith))
find_loop-last (g ∷ fields) f i e =
    let (other, later) = if-none (same_bytes g.name f.name) _ (find_loop fields f.name (i + 1)) e in
    rw other
      (find_loop-last fields f (i + 1) later ∙ ap (λ (n : ℕ). some (to_field_id n)) (omega arith))

find_loop-others :
    (fields : SchemaBuilder) (f : FieldDecl) (name : Bytes) (i : ℕ)
    → f.name ≢ name
    → find_loop (fields ++ (f ∷ [])) name i ≡ find_loop fields name i
unfolding find_loop
find_loop-others [] f name i h = rw (same_bytes-other f.name name h) refl
find_loop-others (g ∷ fields) f name i h = elim (Bool-cases (same_bytes g.name name)) [
  | inl e ↦ rw e refl
  | inr e ↦ rw e (find_loop-others fields f name (i + 1) h)
]

-- What a field that was added does to the schema.
pub record Adds (fields : SchemaBuilder) (f : FieldDecl) (next : SchemaBuilder) (id : ℕ)
    : Type 0 where
  pub appended : next ≡ fields ++ (f ∷ [])
  pub at : id ≡ to_field_id (length fields)
  pub declared : IsDeclared next
  pub finds : find next f.name ≡ some id
  pub keeps : (name : Bytes) → f.name ≢ name → find next name ≡ find fields name

is_some-none : (o : Option ℕ) → is_some o ≡ false → o ≡ none
is_some-none none e = refl
is_some-none (some i) e = cc

Adds-last :
    (fields : SchemaBuilder) (f : FieldDecl)
    → IsDeclared fields
    → IsName f.name
    → find fields f.name ≡ none
    → Adds fields f (fields ++ (f ∷ [])) (to_field_id (length (fields ++ (f ∷ [])) - 1))
unfolding find
Adds-last fields f ok fit fresh =
    let behind : length (fields ++ (f ∷ [])) - 1 ≡ length fields =
      omega (arith, length-append fields (f ∷ [])) in
    record {
      appended = refl;
      at = ap to_field_id behind;
      declared = one_more f ok fit (find_loop-none fields f.name 0 fresh);
      finds =
          find_loop-last fields f 0 fresh
          ∙ ap (λ (n : ℕ). some (to_field_id n)) (omega (arith, behind));
      keeps = λ name h. find_loop-others fields f name 0 h;
    }

-- A field that is added to declared fields comes behind them: its id is its position, it is found under its
-- name, every other name is found as before, and all names stay fit and distinct.
pub add-Adds :
    (fields : SchemaBuilder) (f : FieldDecl) (next : SchemaBuilder) (id : ℕ)
    → IsDeclared fields
    → add fields f.name f.kind f.fixed_width ≡ done (next, id)
    → Adds fields f next id
unfolding add
add-Adds fields f next id ok e =
    let (filled, e1) = fail_if-eq_done (is_empty f.name) empty_name _ e in
    let (clean, e2) = fail_if-eq_done (has_nul f.name) nul_in_name _ e1 in
    let (fresh, e3) = fail_if-eq_done (is_some (find fields f.name)) duplicate_name _ e2 in
    let same = done-inj e3 in
    subst (λ r. Adds fields f r.0 r.1) same
      (Adds-last fields f ok (filled, clean) (is_some-none (find fields f.name) fresh))

-- What is wrong with a name: it is empty, it has a NUL, or a field has it already.
pub data Refuses (fields : SchemaBuilder) (name : Bytes) : BuildError → Type 0 where
  no_name : name ≡ [] → Refuses fields name empty_name
  with_nul :
      name ≢ []
      → (front back : Bytes) → name ≡ front ++ (0 ∷ back)
      → Refuses fields name nul_in_name
  taken :
      name ≢ []
      → All (λ b. b ≢ 0) name
      → (front back : SchemaBuilder) (f : FieldDecl) → fields ≡ front ++ (f ∷ back)
      → f.name ≡ name
      → Refuses fields name duplicate_name

-- Nothing is wrong with a name.
pub record IsFree (fields : SchemaBuilder) (name : Bytes) : Type 0 where
  pub filled : name ≢ []
  pub clean : All (λ b. b ≢ 0) name
  pub fresh : All (λ f. f.name ≢ name) fields

empty-eq : (name : Bytes) → is_empty name ≡ true → name ≡ []
empty-eq [] e = refl
empty-eq (b ∷ name) e = cc

not_empty : (name : Bytes) → is_empty name ≡ false → name ≢ []
not_empty name e h = true≢false (sym (ap is_empty h) ∙ e)

has_nul-cases :
    (name : Bytes)
    → ((has_nul name ≡ true) × (front : Bytes) × (back : Bytes) × (name ≡ front ++ (0 ∷ back)))
      ⊎ ((has_nul name ≡ false) × All (λ b. b ≢ 0) name)
unfolding has_nul
has_nul-cases [] = inr (refl, tt)
has_nul-cases (b ∷ name) = elim (Bool-cases (b == 0)) [
  | inl e ↦ inl (rw e refl, [], name, ap (λ (n : ℕ). n ∷ name) (zero_byte b e))
  | inr e ↦ elim (has_nul-cases name) [
    | inl (h, front, back, same) ↦ inl (rw (e, h) refl, b ∷ front, back, ap (λ t. b ∷ t) same)
    | inr (h, clean) ↦ inr (rw (e, h) refl, (other_byte b e, clean))
  ]
]
  where
    zero_byte : (n : ℕ) → (n == 0) ≡ true → n ≡ 0
    zero_byte n h = ground arith

    other_byte : (n : ℕ) → (n == 0) ≡ false → n ≢ 0
    other_byte n h k = ground arith

find_loop-cases :
    (fields : SchemaBuilder) (name : Bytes) (i : ℕ)
    → ((is_some (find_loop fields name i) ≡ true)
        × (front : SchemaBuilder) × (back : SchemaBuilder) × (f : FieldDecl) × (fields
            ≡ front ++ (f ∷ back))
        × (f.name ≡ name))
      ⊎ ((is_some (find_loop fields name i) ≡ false) × All (λ f. f.name ≢ name) fields)
unfolding find_loop
find_loop-cases [] name i = inr (refl, tt)
find_loop-cases (g ∷ fields) name i = elim (Bool-cases (same_bytes g.name name)) [
  | inl e ↦ inl (rw e refl, [], fields, g, refl, same_bytes-eq g.name name e)
  | inr e ↦ elim (find_loop-cases fields name (i + 1)) [
    | inl (h, front, back, f, split, same) ↦
        inl (rw (e, h) refl, g ∷ front, back, f, ap (λ t. g ∷ t) split, same)
    | inr (h, fresh) ↦ inr (rw (e, h) refl, (other_name g.name name e, fresh))
  ]
]

-- add refuses a field exactly where its name is empty, has a NUL byte or is the name of a field that is declared, with the
-- error that says which, the first of these; every other field is put behind the others.
pub add-Refuses :
    (fields : SchemaBuilder) (name : Bytes) (kind : FieldKind) (width : ℕ)
    → ((error : BuildError) × (add fields name kind width ≡ fail error) × Refuses fields name error)
      ⊎ ((id : ℕ) × (add fields name kind width
            ≡ done (fields ++ (record { name = name; kind = kind; fixed_width = width } ∷ []), id))
          × IsFree fields name)
unfolding add find
add-Refuses fields name kind width = elim (Bool-cases (is_empty name)) [
  | inl e ↦ inl (empty_name, rw e refl, no_name (empty-eq name e))
  | inr e ↦ elim (has_nul-cases name) [
    | inl (n, front, back, split) ↦
        inl (nul_in_name, rw (e, n) refl, with_nul (not_empty name e) front back split)
    | inr (n, clean) ↦ elim (find_loop-cases fields name 0) [
      | inl (h, front, back, f, split, same) ↦ inl (
        duplicate_name,
        rw (e, n, h) refl,
        taken (not_empty name e) clean front back f split same,
      )
      | inr (h, fresh) ↦ inr (
        to_field_id (
            length (fields ++ (record { name = name; kind = kind; fixed_width = width } ∷ [])) - 1),
        rw (e, n, h) refl,
        record { filled = not_empty name e; clean = clean; fresh = fresh },
      )
    ]
  ]
]
