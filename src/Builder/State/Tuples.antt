-- ===== src/Builder/State/Tuples.antt =====
-- The table of distinct tuples.
use mmpack.Prelude.{
  ℕ, ◌+◌, ◌*◌, ◌/◌, ◌≤◌, ◌<◌, ◌≡◌, ◌≢◌, ◌⊎◌, refl, sym, ap, ap₂, ◌∙◌, Bool, true, false, ◌&&◌,
  Bool-cases, none, some, List, [], ◌∷◌, ◌++◌, take, drop, length, length-append, drop-append,
  take-front, drop-front, take-all, length-drop, ◌==◌, inl, inr, arith,
}
use mmpack.Prelude.Division.{div_unique}
use mathlib.Core.Bool.{true≢false}
use mmpack.Builder.State.{
  TableBuilder, tuple_count, tuple_words, same_words, tuple_equal, find_equal,
}

-- Tuple `id` of a builder.
unfoldable pub tuple_of : TableBuilder → ℕ → List ℕ
unfolding tuple_words
tuple_of b id = tuple_words (length b.slots) b.tuples id

abbrev pub IsIn : ℕ → List ℕ → Type 0
IsIn a [] = ⊥
IsIn a (x ∷ xs) = (x ≡ a) ⊎ IsIn a xs

-- The table holds whole tuples. While tuples are deduplicated, the set holds the ids of all of them, and no two are equal.
pub record AreTuples (b : TableBuilder) : Type 0 where
  pub filled : 0 < length b.slots
  pub whole : length b.tuples ≡ tuple_count b * length b.slots
  pub known : (id : ℕ) → IsIn id b.index → id < tuple_count b
  pub covers : b.dedup_active ≡ true → (id : ℕ) → id < tuple_count b → IsIn id b.index
  pub distinct :
      b.dedup_active ≡ true → (i j : ℕ) → i < j → j < tuple_count b → tuple_of b i ≢ tuple_of b j

pub same_words-eq : (p q : List ℕ) → same_words p q ≡ true → p ≡ q
unfolding same_words
same_words-eq [] [] e = refl
same_words-eq [] (w ∷ q) e = cc
same_words-eq (v ∷ p) [] e = cc
same_words-eq (v ∷ p) (w ∷ q) e =
    let (head, tail) = parts v w (same_words p q) e in
    ap₂ (λ (x : ℕ) (xs : List ℕ). x ∷ xs) head (same_words-eq p q tail)
  where
    parts : (v w : ℕ) (r : Bool) → (v == w && r) ≡ true → (v ≡ w) × (r ≡ true)
    parts v w r h = (ground arith, ground arith)

same_words_refl : (p : List ℕ) → same_words p p ≡ true
unfolding same_words
same_words_refl [] = refl
same_words_refl (v ∷ p) = let h = same_words_refl p in ground (arith, h)

pub unequal : (p q : List ℕ) → same_words p q ≡ false → p ≢ q
unequal p q e h = true≢false (sym (ap (λ w. same_words w q) h ∙ same_words_refl q) ∙ e)

-- A found id is in the set and has the same words; where none is found, no id of the set has.
pub find_equal-lem :
    (width : ℕ) (tuples index : List ℕ) (candidate : ℕ)
    → ((id : ℕ) × (find_equal width tuples index candidate ≡ some id)
        × IsIn id index
        × (tuple_words width tuples id ≡ tuple_words width tuples candidate))
      ⊎ ((find_equal width tuples index candidate ≡ none)
          × ((id : ℕ)
              → IsIn id index
              → tuple_words width tuples id ≢ tuple_words width tuples candidate))
unfolding find_equal tuple_equal
find_equal-lem width tuples [] candidate = inr (refl, λ id h. absurd h)
find_equal-lem width tuples (x ∷ index) candidate =
    elim (Bool-cases (tuple_equal width tuples x candidate)) [
      | inl e ↦ inl (x, rw e refl, inl refl, same_words-eq _ _ e)
      | inr e ↦ elim (find_equal-lem width tuples index candidate) [
        | inl (id, f, i, same) ↦ inl (id, rw e f, inr i, same)
        | inr (f, none_there) ↦ inr (
          rw e f,
          λ id h. elim h [
            | inl same ↦ λ words.
                unequal (tuple_words width tuples x) (tuple_words width tuples candidate) e
                  (ap (tuple_words width tuples) same ∙ words)
            | inr later ↦ none_there id later
          ],
        )
      ]
    ]

whole_tuples : (j k w : ℕ) → j < k → j * w + w ≤ k * w
whole_tuples j k w h = grind arith

-- Words of tuples in front of others, and of the tuple behind them.
module _ (tuples slots : List ℕ) (k : ℕ) (whole : length tuples ≡ k * length slots) where
  pub tuple_words-front :
      (j : ℕ)
      → j < k
      → tuple_words (length slots) (tuples ++ slots) j ≡ tuple_words (length slots) tuples j
  unfolding tuple_words
  tuple_words-front j h =
      let w = length slots in
      let room = whole_tuples j k w h in
      ap (λ t. take w t) (drop-front (j * w) tuples slots (omega (arith, whole, room)))
      ∙ take-front w (drop (j * w) tuples) slots
          (omega (arith, length-drop (j * w) tuples, whole, room))

  pub tuple_words-last : tuple_words (length slots) (tuples ++ slots) k ≡ slots
  unfolding tuple_words
  tuple_words-last =
      ap (λ t. take (length slots) t) (drop-append tuples slots (sym whole))
      ∙ take-all (length slots) slots (omega arith)

  pub count-longer : 0 < length slots → length (tuples ++ slots) / length slots ≡ k + 1
  count-longer h =
      div_unique (k + 1) (length slots) 0
        (omega (arith, more k (length slots), whole, length-append tuples slots)) h
    where
      more : (k w : ℕ) → (k + 1) * w ≡ k * w + w
      more k w = grind arith
