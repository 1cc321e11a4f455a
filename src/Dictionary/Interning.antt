-- ===== src/Dictionary/Interning.antt =====
-- Interning: the ids that it hands out, and the texts that they name.
use mmpack.Prelude.{
  ℕ, zero, suc, ◌+◌, ◌-◌, ◌^◌, ◌≤◌, ◌<◌, ◌≡◌, ◌⊎◌, refl, ap, ap₂, ◌∙◌, true, false, Bool-cases,
  none, some, Option-cases, List, [], ◌∷◌, ◌++◌, length, length-append, get_elem?, All, ltb, inl,
  inr, arith,
}
use mmpack.Bits.{Bytes}
use mmpack.Dictionary.{same_bytes, BlobBuilder, find_text, intern, blob_bytes}

pub same_bytes-eq : (p q : Bytes) → same_bytes p q ≡ true → p ≡ q
unfolding same_bytes
same_bytes-eq [] [] e = refl
same_bytes-eq [] (b ∷ q) e = cc
same_bytes-eq (a ∷ p) [] e = cc
same_bytes-eq (a ∷ p) (b ∷ q) e =
    let head : a ≡ b = ground arith in
    let tail : same_bytes p q ≡ true = ground arith in
    ap₂ (λ (x : ℕ) (xs : Bytes). x ∷ xs) head (same_bytes-eq p q tail)

-- Every id in the index names its text, and the size is the one of the texts together, in 32 bits.
pub record IsInterned (b : BlobBuilder) : Type 0 where
  pub named : All (λ entry. get_elem? b.order entry.1 ≡ some entry.0) b.index
  pub size : length (blob_bytes b.order) ≡ b.blob_size
  pub bounded : b.blob_size < 2 ^ 32

get_elem?-append :
    (xs ys : List Bytes) (i : ℕ) {text : Bytes}
    → get_elem? xs i ≡ some text
    → get_elem? (xs ++ ys) i ≡ some text
get_elem?-append [] ys i e = cc
get_elem?-append (x ∷ xs) ys zero e = e
get_elem?-append (x ∷ xs) ys (suc i) e = get_elem?-append xs ys i e

get_elem?-last :
    (xs : List Bytes) (text : Bytes) → get_elem? (xs ++ (text ∷ [])) (length xs) ≡ some text
get_elem?-last [] text = refl
get_elem?-last (x ∷ xs) text = get_elem?-last xs text

find_text-named :
    (order : List Bytes) (index : List (Bytes × ℕ)) (wanted : Bytes) (id : ℕ)
    → All (λ entry. get_elem? order entry.1 ≡ some entry.0) index
    → find_text index wanted ≡ some id
    → get_elem? order id ≡ some wanted
unfolding find_text
find_text-named order [] wanted id named e = cc
find_text-named order ((key, own) ∷ index) wanted id (here, named) e =
    elim (Bool-cases (same_bytes key wanted)) [
      | inl s ↦ let same = same_bytes-eq key wanted s in ground (arith, same, here)
      | inr s ↦ find_text-named order index wanted id named (ground (arith, s))
    ]

All-named :
    (order more : List Bytes) (index : List (Bytes × ℕ))
    → All (λ entry. get_elem? order entry.1 ≡ some entry.0) index
    → All (λ entry. get_elem? (order ++ more) entry.1 ≡ some entry.0) index
All-named order more [] named = tt
All-named order more ((key, id) ∷ index) (here, named) =
    (get_elem?-append order more id here, All-named order more index named)

pub same_bytes_refl : (p : Bytes) → same_bytes p p ≡ true
unfolding same_bytes
same_bytes_refl [] = refl
same_bytes_refl (a ∷ p) = ground (arith, same_bytes_refl p)

length-blob_bytes_last :
    (order : List Bytes) (text : Bytes)
    → length (blob_bytes (order ++ (text ∷ []))) ≡ length (blob_bytes order) + length text
unfolding blob_bytes
length-blob_bytes_last [] text = omega (arith, length-append text [])
length-blob_bytes_last (entry ∷ order) text = omega (
  arith,
  length-append entry (blob_bytes (order ++ (text ∷ []))),
  length-append entry (blob_bytes order),
  length-blob_bytes_last order text,
)

-- What the builder `after` and the id are to the builder `before` and the text.
pub record Interns (before : BlobBuilder) (text : Bytes) (after : BlobBuilder) (id : ℕ)
    : Type 0 where
  pub sound : IsInterned after
  pub names : get_elem? after.order id ≡ some text
  pub again : find_text after.index text ≡ some id
  pub keeps :
      (i : ℕ) (other : Bytes)
      → get_elem? before.order i ≡ some other
      → get_elem? after.order i ≡ some other

-- The builder with a new text.
abbrev grown : BlobBuilder → Bytes → BlobBuilder
grown b text = record {
  index = (text, length b.order) ∷ b.index;
  order = b.order ++ (text ∷ []);
  blob_size = b.blob_size + length text;
}

grown-Interns :
    (b : BlobBuilder) (text : Bytes)
    → IsInterned b
    → b.blob_size + length text < 2 ^ 32
    → Interns b text (grown b text) (length b.order)
unfolding find_text
grown-Interns b text ok small = record {
  sound = record {
    named = (get_elem?-last b.order text, All-named b.order (text ∷ []) b.index ok.named);
    size = length-blob_bytes_last b.order text ∙ ap (λ (n : ℕ). n + length text) ok.size;
    bounded = small;
  };
  names = get_elem?-last b.order text;
  again = rw (same_bytes_refl text) refl;
  keeps = λ i other h. get_elem?-append b.order (text ∷ []) i h;
}

intern-known :
    (b : BlobBuilder) (text : Bytes) (id : ℕ)
    → find_text b.index text ≡ some id
    → intern b text ≡ some (b, id)
unfolding intern
intern-known b text id e = rw (e, intern) refl

intern-full :
    (b : BlobBuilder) (text : Bytes)
    → find_text b.index text ≡ none
    → ltb (2 ^ 32 - 1) (b.blob_size + length text) ≡ true
    → intern b text ≡ none
unfolding intern
intern-full b text e big = rw (e, big, intern) refl

intern-grown :
    (b : BlobBuilder) (text : Bytes)
    → find_text b.index text ≡ none
    → ltb (2 ^ 32 - 1) (b.blob_size + length text) ≡ false
    → intern b text ≡ some (grown b text, length b.order)
unfolding intern
intern-grown b text e small = rw (e, small, intern) refl

-- Interning a text fails exactly as a new text that would take the blob to 2 ^ 32 bytes; else the
-- builder is sound again, the id names the text, looking the text up gives the id, and
-- every earlier id names what it named.
pub intern_lem :
    (b : BlobBuilder) (text : Bytes)
    → IsInterned b
    → ((intern b text ≡ none)
        × (find_text b.index text ≡ none)
        × (2 ^ 32 ≤ b.blob_size + length text))
      ⊎ ((after : BlobBuilder) × (id : ℕ) × (intern b text ≡ some (after, id))
          × Interns b text after id)
intern_lem b text ok = elim (Option-cases (find_text b.index text)) [
  | inr (id, e) ↦ inr (
    b,
    id,
    intern-known b text id e,
    record {
      sound = ok;
      names = find_text-named b.order b.index text id ok.named e;
      again = e;
      keeps = λ i other h. h;
    },
  )
  | inl e ↦ elim (Bool-cases (ltb (2 ^ 32 - 1) (b.blob_size + length text))) [
    | inl big ↦ inl (intern-full b text e big, e, ground arith)
    | inr small ↦ inr (
      grown b text,
      length b.order,
      intern-grown b text e small,
      grown-Interns b text ok (ground arith),
    )
  ]
]
