-- ===== src/Keyed/Laws.antt =====
-- Lookups by keys that a join gives back.
use mmpack.Prelude.{
  ℕ, ◌≡◌, ◌⊎◌, refl, sym, ap, ap₂, subst, ◌∙◌, true, false, not, none, some, if-false, inl, inr,
  arith,
}
use mmpack.Bits.{Bytes}
use mmpack.Schema.{narrow_address}
use mmpack.Table.Layout.{Table, slot_partition, address_at}
use mmpack.Table.Search.{narrow}
use mmpack.Table.Cursor.{Cursor, finish, same_position, cursor_partition, cursor_address}
use mmpack.Table.Lookup.{find_parts, value_form, find_at}
use mmpack.Table.Order.{IsPosition, IsOrdered}
use mmpack.Table.Find.{HasKey, IsFound, find_parts-IsFound}
use mmpack.Keyed.{
  Parts, integer_parts, join_integer, join_value, keyed_find, keyed_contains, joined_key,
}

-- A split into two integers.
abbrev pub integer_split : {Key : Type 0} → (Key → ℕ × ℕ) → Key → Parts
integer_split split key = integer_parts (split key).0 (split key).1

-- A join that gives back what the split of a key takes apart.
abbrev pub Joins : {Key : Type 0} → (Key → ℕ × ℕ) → (ℕ → ℕ → Key) → Type 0
Joins {Key} split join = (key : Key) → join (split key).0 (split key).1 ≡ key

module _ (t : Table) (ok : IsOrdered t) (integers : narrow_address t.schema ≡ true) where
  find_at-find_parts :
      (partition address : ℕ)
      → find_at t partition address ≡ find_parts t partition (narrow address)
  unfolding find_at value_form
  find_at-find_parts partition address = rw integers refl

  joined_key-HasKey :
      {Key : Type 0} (join : ℕ → ℕ → Key) (buffer : Bytes) (partition address : ℕ) (it : Cursor)
      → HasKey t partition address it
      → joined_key t (join_integer join) buffer it ≡ some (join partition address)
  unfolding joined_key cursor_address cursor_partition
  joined_key-HasKey join buffer partition address it (p, a) =
      ap (λ o. join_value (join (slot_partition t it.slot)) o)
        (if-false (not (narrow_address t.schema)) none (some (address_at t it.slot it.index))
          (ap not integers))
      ∙ ap₂ (λ (x y : ℕ). some (join x y)) p a

  position_differs : (it : Cursor) → IsPosition t it → not (same_position t it (finish t)) ≡ true
  unfolding same_position finish
  position_differs it p = let h = p.0 in ground arith

  end_differs_not : not (same_position t (finish t) (finish t)) ≡ false
  unfolding same_position finish
  end_differs_not = ground arith

  module _ {Key : Type 0} (split : Key → ℕ × ℕ) (join : ℕ → ℕ → Key) (joins : Joins split join)
      (buffer : Bytes) (key : Key) where
    abbrev found : Cursor
    found = keyed_find t (integer_split split) key

    -- In an ordered image with integer addresses, under a split into integers whose join gives every key back: for a
    -- key, find of the keyed table returns the end, its contains is false and no element has the key's
    -- parts; or else find returns an element that key joins to the same key, and contains is true.
    pub keyed_find_lem :
        ((found ≡ finish t)
          × (keyed_contains t (integer_split split) key ≡ false)
          × ((e : Cursor) → IsPosition t e → ¬ HasKey t (split key).0 (split key).1 e))
        ⊎ (IsPosition t found
            × (joined_key t (join_integer join) buffer found ≡ some key)
            × (keyed_contains t (integer_split split) key ≡ true))
    unfolding keyed_find keyed_contains
    keyed_find_lem =
        elim (subst (IsFound t (split key).0 (split key).1)
          (sym (find_at-find_parts (split key).0 (split key).1))
          (find_parts-IsFound t ok (split key).0 (split key).1)) [
            | inl (end, absent) ↦
                inl
                  (end, ap (λ c. not (same_position t c (finish t))) end ∙ end_differs_not, absent)
            | inr (p, has) ↦ inr (
              p,
              joined_key-HasKey join buffer (split key).0 (split key).1 found has
                  ∙ ap some (joins key),
              position_differs found p,
            )
          ]
