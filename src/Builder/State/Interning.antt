-- ===== src/Builder/State/Interning.antt =====
-- What intern_tuple does to the table of tuples.
use mmpack.Prelude.{
  ℕ, ◌+◌, ◌-◌, ◌*◌, ◌/◌, ◌<◌, ◌≡◌, ◌≢◌, ◌⊎◌, refl, sym, ap, subst, ◌∙◌, Bool, true, false,
  Bool-cases, some, List, [], ◌∷◌, ◌++◌, take, length, length-append, take-append, ltb, ◌==◌,
  if-true, if-false, inl, inr, arith,
}
use native.Mathlib.Decide.{dec_lt}
use mmpack.Builder.State.{
  TableBuilder, tuple_count, find_equal, maybe_give_up_on_dedup, settle_tuple, intern_tuple,
}
use mmpack.Builder.State.Tuples.{
  tuple_of, IsIn, AreTuples, find_equal-lem, tuple_words-front, tuple_words-last, count-longer,
}

-- What a builder holds after the open record's tuple was interned under an id.
pub record Interned (b : TableBuilder) (r : TableBuilder × ℕ) : Type 0 where
  pub sound : AreTuples r.0
  pub slots : r.0.slots ≡ b.slots
  pub inside : r.1 < tuple_count r.0
  pub names : tuple_of r.0 r.1 ≡ b.slots
  pub keeps :
      (id : ℕ) → id < tuple_count b → (id < tuple_count r.0) × (tuple_of r.0 id ≡ tuple_of b id)

-- The tuple appended, with the set and the flag that the builder has then.
abbrev grown : TableBuilder → List ℕ → Bool → TableBuilder
grown b index active = record b {
  tuples = b.tuples ++ b.slots;
  index = index;
  dedup_active = active;
}

module _ (b : TableBuilder) (ok : AreTuples b) (index : List ℕ) (active : Bool) where
  grown-count : tuple_count (grown b index active) ≡ tuple_count b + 1
  unfolding tuple_count
  grown-count =
      let filled : (length b.slots == 0) ≡ false = let h = ok.filled in ground arith in
      rw filled
        (count-longer b.tuples b.slots (length b.tuples / length b.slots) (whole filled) ok.filled)
    where
      whole :
          (length b.slots == 0) ≡ false
          → length b.tuples ≡ length b.tuples / length b.slots * length b.slots
      whole e = ok.whole ∙ rw e refl

  grown-old : (id : ℕ) → id < tuple_count b → tuple_of (grown b index active) id ≡ tuple_of b id
  unfolding tuple_of
  grown-old id h = tuple_words-front b.tuples b.slots (tuple_count b) ok.whole id h

  grown-new : tuple_of (grown b index active) (tuple_count b) ≡ b.slots
  unfolding tuple_of
  grown-new = tuple_words-last b.tuples b.slots (tuple_count b) ok.whole

  Interned-grown :
      ((id : ℕ) → IsIn id index → id < tuple_count b + 1)
      → (active ≡ true → (id : ℕ) → id < tuple_count b + 1 → IsIn id index)
      → (active ≡ true
          → ((i j : ℕ) → i < j → j < tuple_count b → tuple_of b i ≢ tuple_of b j)
            × ((i : ℕ) → i < tuple_count b → tuple_of b i ≢ b.slots))
      → Interned b (grown b index active, tuple_count b)
  Interned-grown known covers distinct = record {
    sound = record {
      filled = ok.filled;
      whole = longer;
      known = λ id h. rw grown-count (known id h);
      covers = λ e id h. covers e id (subst (λ n. id < n) grown-count h);
      distinct = λ e i j h q. apart e i j h (subst (λ n. j < n) grown-count q);
    };
    slots = refl;
    inside = omega (arith, grown-count);
    names = grown-new;
    keeps = λ id h. (omega (arith, grown-count), grown-old id h);
  }
    where
      more : (k w : ℕ) → k * w + w ≡ (k + 1) * w
      more k w = grind arith

      longer : length (b.tuples ++ b.slots) ≡ tuple_count (grown b index active) * length b.slots
      longer =
          length-append b.tuples b.slots
          ∙ ap (λ (n : ℕ). n + length b.slots) ok.whole
          ∙ more (tuple_count b) (length b.slots)
          ∙ ap (λ (n : ℕ). n * length b.slots) (sym grown-count)

      apart :
          active ≡ true
          → (i j : ℕ) → i < j
          → j < tuple_count b + 1
          → tuple_of (grown b index active) i ≢ tuple_of (grown b index active) j
      apart e i j h q same = elim (dec_lt j (tuple_count b)) [
        | yes l ↦ (distinct e).0 i j h l (sym (grown-old i (omega arith)) ∙ same ∙ grown-old j l)
        | no nl ↦
            let last : j ≡ tuple_count b = omega arith in
            (distinct e).1 i (omega arith) (
              sym (grown-old i (omega arith))
              ∙ same
              ∙ ap (tuple_of (grown b index active)) last
              ∙ grown-new)
      ]

module _ (at_most_ratio : ℕ → ℕ → Bool) where
  pub gives_up :
      (b : TableBuilder)
      → (maybe_give_up_on_dedup at_most_ratio b ≡ b)
        ⊎ (maybe_give_up_on_dedup at_most_ratio b ≡ record b { dedup_active = false; index = [] })
  unfolding maybe_give_up_on_dedup
  gives_up b = elim (Bool-cases (ltb (b.count + 1) b.options.dedup_sample)) [
    | inl e ↦ inl (rw e refl)
    | inr e ↦ elim (Bool-cases (at_most_ratio (tuple_count b) (b.count + 1))) [
      | inl r ↦ inl (rw (e, r) refl)
      | inr r ↦ inr (rw (e, r) refl)
    ]
  ]

  -- A tuple that no tuple of the set equals.
  Interned-new :
      (b : TableBuilder)
      → AreTuples b
      → b.dedup_active ≡ true
      → ((i : ℕ) → i < tuple_count b → tuple_of b i ≢ b.slots)
      → Interned b (
        maybe_give_up_on_dedup at_most_ratio (grown b (tuple_count b ∷ b.index) b.dedup_active),
        tuple_count b,
      )
  Interned-new b ok active new =
      elim (gives_up (grown b (tuple_count b ∷ b.index) b.dedup_active)) [
        | inl same ↦
            subst (λ c. Interned b (c, tuple_count b)) (sym same)
              (Interned-grown b ok (tuple_count b ∷ b.index) b.dedup_active
                (λ id h. elim h [ inl e ↦ omega arith | inr i ↦ omega (arith, ok.known id i) ])
                (λ e id h. elim (dec_lt id (tuple_count b)) [
                  | yes l ↦ inr (ok.covers e id l)
                  | no nl ↦ inl (omega arith)
                ])
                (λ e. (ok.distinct e, new)))
        | inr lost ↦
            subst (λ c. Interned b (c, tuple_count b)) (sym lost)
              (Interned-grown b ok [] false (λ id h. absurd h) (λ e. cc) (λ e. cc))
      ]

  Interned-found :
      (b : TableBuilder) (id : ℕ)
      → AreTuples b
      → id < tuple_count b
      → tuple_of b id ≡ b.slots
      → Interned b (settle_tuple at_most_ratio b (some id))
  unfolding settle_tuple
  Interned-found b id ok inside names =
      let back : take (length (b.tuples ++ b.slots) - length b.slots) (b.tuples ++ b.slots)
          ≡ b.tuples =
        take-append b.tuples b.slots (omega (arith, length-append b.tuples b.slots)) in
      subst (λ tuples. Interned b (record b { tuples = tuples }, id)) (sym back)
        (record {
          sound = ok;
          slots = refl;
          inside = inside;
          names = names;
          keeps = λ j h. (h, refl);
        })

  settled :
      (b : TableBuilder)
      → AreTuples b
      → b.dedup_active ≡ true
      → Interned b (
          settle_tuple at_most_ratio b
            (find_equal (length b.slots) (b.tuples ++ b.slots) b.index (tuple_count b)))
  unfolding tuple_of settle_tuple
  settled b ok on =
      let last = tuple_words-last b.tuples b.slots (tuple_count b) ok.whole in
      elim (find_equal-lem (length b.slots) (b.tuples ++ b.slots) b.index (tuple_count b)) [
        | inl (id, f, i, same) ↦
            subst (λ o. Interned b (settle_tuple at_most_ratio b o)) (sym f)
              (Interned-found b id ok (ok.known id i) (
                sym (tuple_words-front b.tuples b.slots (tuple_count b) ok.whole id (ok.known id i))
                ∙ same
                ∙ last))
        | inr (f, others) ↦
            subst (λ o. Interned b (settle_tuple at_most_ratio b o)) (sym f)
              (Interned-new b ok on (λ i h e.
                others i (ok.covers on i h)
                  (tuple_words-front b.tuples b.slots (tuple_count b) ok.whole i h ∙ e ∙ sym last)))
      ]

  -- Interning the fields of the open record gives an id of the table whose tuple is theirs and changes no tuple that
  -- is there; while tuples are deduplicated, no two of the table are equal.
  pub intern_tuple_lem :
      (b : TableBuilder) → AreTuples b → Interned b (intern_tuple at_most_ratio b)
  unfolding intern_tuple tuple_of
  intern_tuple_lem b ok =
      let found = find_equal (length b.slots) (b.tuples ++ b.slots) b.index (tuple_count b) in
      let appended : TableBuilder × ℕ =
        (record b { tuples = b.tuples ++ b.slots }, tuple_count b) in
      elim (Bool-cases b.dedup_active) [
        | inr off ↦
            subst (Interned b)
              (sym (if-false b.dedup_active (settle_tuple at_most_ratio b found) appended off))
              (Interned-grown b ok b.index b.dedup_active (λ id h. omega (arith, ok.known id h))
                (λ e. cc) (λ e. cc))
        | inl on ↦
            subst (Interned b)
              (sym (if-true b.dedup_active (settle_tuple at_most_ratio b found) appended on))
              (settled b ok on)
      ]
