-- ===== src/Table/Bounds.antt =====
-- lower_bound and upper_bound against the order of the elements.
use mmpack.Prelude.{
  ℕ, ◌<◌, ◌≡◌, ◌≢◌, ◌⊎◌, refl, sym, ap, subst, ◌∙◌, Bool, true, not, ltb, ◌==◌, ◌&&◌, if◌then◌else◌,
  Bool-cases, inl, inr, arith,
}
use mathlib.Core.Bool.{false≢true}
use native.Mathlib.Decide.{dec_lt}
use native.Mathlib.Nat.{le_refl}
use mmpack.Bisect.Laws.{Splits}
use mmpack.Table.Layout.{Table, layout_of, slot_partition, slot_count, address_at}
use mmpack.Table.Search.{narrow, slot_lower_bound}
use mmpack.Table.Cursor.{Cursor, finish, normalize}
use mmpack.Table.Lookup.{lower_bound_parts, upper_bound_parts}
use mmpack.Table.Narrow.{full_address, search_lower-Splits, search_above-Splits}
use mmpack.Table.Order.{
  IsPosition, Before, Below, AtMost, IsOrdered, address_at-full_address, slot_before,
  slot_not_before, normalize_lem,
}

-- `c` is the end or an element, and the elements before it are those that `P` holds of.
abbrev pub Divides : Table → (Cursor → Type 0) → Cursor → Type 0
Divides t P c =
    ((c ≡ finish t) ⊎ IsPosition t c)
    × ((e : Cursor) → IsPosition t e → (Before e c → P e) × (P e → Before e c))

module _ (t : Table) (ok : IsOrdered t) (partition address : ℕ) where
  -- A split point of the partition's records, or 0 where no slot is the partition's.
  abbrev Starts : (ℕ → Bool) → ℕ → Type 0
  Starts test i =
      let s = slot_lower_bound t partition in
      ((s < t.dir_count) × (slot_partition t s ≡ partition) × Splits (slot_count t s) test i)
      ⊎ ((s < t.dir_count → slot_partition t s ≢ partition) × (i ≡ 0))

  module _ (P : Cursor → Type 0) (test : ℕ → ℕ → Bool)
      (lower : (e : Cursor) → slot_partition t e.slot < partition → P e)
      (higher : (e : Cursor) → partition < slot_partition t e.slot → ¬ P e)
      (equal : (e : Cursor)
        → IsPosition t e
        → slot_partition t e.slot ≡ partition
        → (P e → test e.slot e.index ≡ true) × (test e.slot e.index ≡ true → P e)) where
    Starts-divides :
        (i : ℕ)
        → Starts (test (slot_lower_bound t partition)) i
        → (e : Cursor) → IsPosition t e
        → (Before e (record { slot = slot_lower_bound t partition; index = i }) → P e)
          × (P e → Before e (record { slot = slot_lower_bound t partition; index = i }))
    Starts-divides i st e p = elim (dec_lt e.slot s) [
      | yes l ↦ (λ b. lower e (slot_before t ok partition e.slot l), λ x. inl l)
      | no nl ↦ elim (dec_lt s e.slot) [
        | yes g ↦ (λ b. absurd (omega (arith, b)), λ x. absurd (higher e (above g) x))
        | no ng ↦ here (omega arith) st
      ]
    ]
      where
        s : ℕ
        s = slot_lower_bound t partition

        above : s < e.slot → partition < slot_partition t e.slot
        above g = omega (
          arith,
          slot_not_before t ok partition s (le_refl s) (omega (arith, g, p.0)),
          ok.partitions s e.slot g p.0,
        )

        here :
            e.slot ≡ s
            → Starts (test s) i
            → (Before e (record { slot = s; index = i }) → P e)
              × (P e → Before e (record { slot = s; index = i }))
        here q (inl (lt, eq, split)) =
            let both = equal e p (ap (slot_partition t) q ∙ eq) in
            let same : test e.slot e.index ≡ test s e.index = ap (λ r. test r e.index) q in
            let inside : e.index < slot_count t s = subst (λ r. e.index < slot_count t r) q p.1 in
            (
              λ b. both.1 (same ∙ split.1 e.index (omega (arith, b))),
              λ x. elim (dec_lt e.index i) [
                | yes l ↦ inr (q, l)
                | no nl ↦
                    absurd (
                      false≢true (sym (split.2 e.index (omega arith) inside) ∙ sym same ∙ both.0 x))
              ],
            )
        here q (inr (ne, z)) =
            let lt : s < t.dir_count = omega (arith, p.0) in
            let le = slot_not_before t ok partition s (le_refl s) lt in
            let at : slot_partition t e.slot ≡ slot_partition t s = ap (slot_partition t) q in
            (λ b. absurd (omega (arith, b)), λ x. absurd (higher e (omega (arith, ne lt)) x))

    starts :
        (here : ℕ)
        → (slot_lower_bound t partition < t.dir_count
            → Splits
                (slot_count t (slot_lower_bound t partition))
                (test (slot_lower_bound t partition))
                here)
        → Starts (test (slot_lower_bound t partition)) (
            if ltb (slot_lower_bound t partition) t.dir_count
              && slot_partition t (slot_lower_bound t partition) == partition
            then here
            else 0)
    starts here split = elim (Bool-cases at) [
      | inl b ↦ rw b (inl (ground arith, ground arith, split (ground arith)))
      | inr b ↦ rw b (inr (λ lt e. ground arith, refl))
    ]
      where
        at : Bool
        at =
            ltb (slot_lower_bound t partition) t.dir_count
            && slot_partition t (slot_lower_bound t partition) == partition

    divides :
        (i : ℕ)
        → Starts (test (slot_lower_bound t partition)) i
        → Divides t P (normalize t (slot_lower_bound t partition) i)
    divides i st =
        let n = normalize_lem t (slot_lower_bound t partition) i in
        (
          n.0,
          λ e p.
              let d = Starts-divides i st e p in
              (λ b. d.0 ((n.1 e p).0 b), λ x. (n.1 e p).1 (d.1 x)),
        )

  Below-higher : (e : Cursor) → partition < slot_partition t e.slot → ¬ Below t partition address e
  Below-higher e h (inl b) = absurd (omega arith)
  Below-higher e h (inr b) = absurd (omega (arith, b.0))

  pub AtMost-higher :
      (e : Cursor) → partition < slot_partition t e.slot → ¬ AtMost t partition address e
  AtMost-higher e h (inl b) = absurd (omega arith)
  AtMost-higher e h (inr b) = absurd (omega (arith, b.0))

  Below-equal :
      (e : Cursor)
      → IsPosition t e
      → slot_partition t e.slot ≡ partition
      → (Below t partition address e
          → ltb (full_address (layout_of t e.slot) e.index) address ≡ true)
        × (ltb (full_address (layout_of t e.slot) e.index) address ≡ true
            → Below t partition address e)
  Below-equal e p q =
      let a = address_at-full_address t ok e.slot e.index p.0 p.1 in
      (test_of a, λ b. inr (q, ground (arith, a)))
    where
      test_of :
          {x : ℕ}
          → address_at t e.slot e.index ≡ x
          → Below t partition address e
          → ltb x address ≡ true
      test_of a (inl b) = absurd (omega arith)
      test_of a (inr b) = ground (arith, b.1)

  pub AtMost-equal :
      (e : Cursor)
      → IsPosition t e
      → slot_partition t e.slot ≡ partition
      → (AtMost t partition address e
          → not (ltb address (full_address (layout_of t e.slot) e.index)) ≡ true)
        × (not (ltb address (full_address (layout_of t e.slot) e.index)) ≡ true
            → AtMost t partition address e)
  AtMost-equal e p q =
      let a = address_at-full_address t ok e.slot e.index p.0 p.1 in
      (test_of a, λ b. inr (q, ground (arith, a)))
    where
      test_of :
          {x : ℕ}
          → address_at t e.slot e.index ≡ x
          → AtMost t partition address e
          → not (ltb address x) ≡ true
      test_of a (inl b) = absurd (omega arith)
      test_of a (inr b) = ground (arith, b.1)

  -- In an ordered image with narrow addresses, lower_bound returns the end or an element, and the
  -- elements before it are exactly those that are below the split key.
  pub lower_bound_parts-Divides :
      Divides t (Below t partition address) (lower_bound_parts t partition (narrow address))
  unfolding lower_bound_parts
  lower_bound_parts-Divides =
      divides (Below t partition address) (λ s i. ltb (full_address (layout_of t s) i) address)
        (λ e h. inl h) Below-higher Below-equal _
        (starts _ (λ s i. ltb (full_address (layout_of t s) i) address) (λ e h. inl h) Below-higher
          Below-equal _
          (λ h.
            search_lower-Splits (layout_of t (slot_lower_bound t partition)) (ok.narrow _ h)
              t.address_width address))

  -- In an ordered image with narrow addresses, upper_bound returns the end or an element, and the
  -- elements before it are exactly those that are at most the split key.
  pub upper_bound_parts-Divides :
      Divides t (AtMost t partition address) (upper_bound_parts t partition (narrow address))
  unfolding upper_bound_parts
  upper_bound_parts-Divides =
      divides (AtMost t partition address)
        (λ s i. not (ltb address (full_address (layout_of t s) i))) (λ e h. inl h) AtMost-higher
        AtMost-equal _
        (starts _ (λ s i. not (ltb address (full_address (layout_of t s) i))) (λ e h. inl h)
          AtMost-higher AtMost-equal _
          (λ h.
            search_above-Splits (layout_of t (slot_lower_bound t partition)) (ok.narrow _ h)
              t.address_width address))
