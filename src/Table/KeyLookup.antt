-- ===== src/Table/KeyLookup.antt =====
-- The lookups that take a 64-bit key, on an image that defines a key space and has narrow addresses.
use mmpack.Prelude.{
  ℕ, ◌^◌, ◌<◌, ◌≡◌, ◌⊎◌, refl, sym, ap, subst, ◌∙◌, true, false, not, ◌&&◌, ◌==◌, some, inl, inr,
  arith,
}
use mmpack.Schema.{narrow_address, has_key_mapping, partition_of, address_of}
use mmpack.Table.Layout.{Table, key_at}
use mmpack.Table.Search.{narrow}
use mmpack.Table.Cursor.{Cursor, finish, cursor_key}
use mmpack.Table.Lookup.{
  value_form, key_form, find_parts, floor_parts, lower_bound_parts, upper_bound_parts, find_at,
  floor_at, lower_bound_at, upper_bound_at, find, floor, lower_bound, upper_bound, contains,
}
use mmpack.Table.Order.{IsPosition, Below, AtMost, IsOrdered}
use mmpack.Table.Find.{HasKey, IsFound, find_parts-IsFound}
use mmpack.Table.Floor.{IsFloor, floor_parts-IsFloor}
use mmpack.Table.Bounds.{Divides, lower_bound_parts-Divides, upper_bound_parts-Divides}
use mmpack.Table.Keys.{key_at-split}

-- An image that defines a key space and whose addresses are integers.
pub record IsKeyed (t : Table) : Type 0 where
  pub ordered : IsOrdered t
  pub mapped : has_key_mapping t.schema ≡ true
  pub integers : narrow_address t.schema ≡ true

module _ (t : Table) (ok : IsKeyed t) (key : ℕ) where
  abbrev partition : ℕ
  partition = partition_of t.schema key

  abbrev address : ℕ
  address = address_of t.schema key

  find-find_parts : find t key ≡ find_parts t partition (narrow address)
  unfolding find key_form find_at value_form
  find-find_parts = rw (ok.mapped, ok.integers) refl

  floor-floor_parts : floor t key ≡ floor_parts t partition (narrow address)
  unfolding floor key_form floor_at value_form
  floor-floor_parts = rw (ok.mapped, ok.integers) refl

  lower_bound-lower_bound_parts : lower_bound t key ≡ lower_bound_parts t partition (narrow address)
  unfolding lower_bound key_form lower_bound_at value_form
  lower_bound-lower_bound_parts = rw (ok.mapped, ok.integers) refl

  upper_bound-upper_bound_parts : upper_bound t key ≡ upper_bound_parts t partition (narrow address)
  unfolding upper_bound key_form upper_bound_at value_form
  upper_bound-upper_bound_parts = rw (ok.mapped, ok.integers) refl

  contains_of :
      (c : Cursor) → find t key ≡ c → contains t key ≡ not (c.slot == t.dir_count && c.index == 0)
  unfolding contains
  contains_of c e = ap (λ (d : Cursor). not (d.slot == t.dir_count && d.index == 0)) e

  contains-finish : find t key ≡ finish t → contains t key ≡ false
  unfolding finish
  contains-finish e = contains_of (finish t) e ∙ ground arith

  contains-IsPosition : IsPosition t (find t key) → contains t key ≡ true
  contains-IsPosition p = contains_of (find t key) refl ∙ ground (arith, p.0)

  keyed : (c : Cursor) → key < 2 ^ 64 → HasKey t partition address c → cursor_key t c ≡ some key
  unfolding cursor_key
  keyed c h (p, a) =
      let same : key_at t c.slot c.index ≡ key = key_at-split t c.slot c.index key h p a in
      rw (ok.mapped, same) refl

  -- In an ordered, keyed image with integer addresses, for a 64-bit key: where no element has the
  -- key's partition and address, find returns the end and contains is false; else find returns
  -- an element whose iterator gives the key back, and contains is true.
  pub find_lem :
      key < 2 ^ 64
      → ((find t key ≡ finish t)
          × (contains t key ≡ false)
          × ((e : Cursor) → IsPosition t e → ¬ HasKey t partition address e))
        ⊎ (IsPosition t (find t key)
            × (cursor_key t (find t key) ≡ some key)
            × (contains t key ≡ true))
  find_lem h = decide (
      subst (λ c. IsFound t partition address c) (sym find-find_parts)
        (find_parts-IsFound t ok.ordered partition address))
    where
      decide :
          IsFound t partition address (find t key)
          → ((find t key ≡ finish t)
              × (contains t key ≡ false)
              × ((e : Cursor) → IsPosition t e → ¬ HasKey t partition address e))
            ⊎ (IsPosition t (find t key)
                × (cursor_key t (find t key) ≡ some key)
                × (contains t key ≡ true))
      decide (inl (e, absent)) = inl (e, contains-finish e, absent)
      decide (inr (p, has)) = inr (p, keyed (find t key) h has, contains-IsPosition p)

  -- In an ordered, keyed image with integer addresses, floor, lower_bound and upper_bound of a key are
  -- those of its parts: floor is the last element at most the key, and the elements before
  -- the bounds are exactly those below the key and those at most the key.
  pub key_form_lem :
      IsFloor t partition address (floor t key)
      × Divides t (Below t partition address) (lower_bound t key)
      × Divides t (AtMost t partition address) (upper_bound t key)
  key_form_lem = (
    subst (λ c. IsFloor t partition address c) (sym floor-floor_parts)
        (floor_parts-IsFloor t ok.ordered partition address),
    subst (λ c. Divides t (Below t partition address) c) (sym lower_bound-lower_bound_parts)
        (lower_bound_parts-Divides t ok.ordered partition address),
    subst (λ c. Divides t (AtMost t partition address) c) (sym upper_bound-upper_bound_parts)
        (upper_bound_parts-Divides t ok.ordered partition address),
  )
