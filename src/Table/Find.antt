-- ===== src/Table/Find.antt =====
-- find: the element at a split key.
use mmpack.Prelude.{
  ℕ, ◌+◌, ◌*◌, ◌/◌, ◌%◌, ◌^◌, ◌≤◌, ◌<◌, ◌≡◌, ◌≢◌, ◌⊎◌, refl, sym, ap, subst, ◌∙◌, true, false, leb,
  ltb, ◌==◌, ◌&&◌, if◌then◌else◌, Bool-cases, inl, inr, arith,
}
use mmpack.Prelude.BitAnd.{bit_and_mask}
use mmpack.Prelude.Division.{pow-pos}
use mmpack.Bisect.Laws.{Splits}
use mmpack.Table.Layout.{
  Table, PartitionLayout, layout_of, slot_partition, slot_count, stored_address, address_at,
}
use mmpack.Table.Search.{narrow, probe_narrow, slot_exact, slot_lower_bound}
use mmpack.Table.Cursor.{Cursor, finish}
use mmpack.Table.Lookup.{find_parts}
use mmpack.Table.Narrow.{
  IsNarrow, scale, increasing_le, full_address, search_lower_narrow-Splits, stored-zero,
}
use mmpack.Table.Order.{
  IsPosition, IsOrdered, layout_of-count, partition_le, address_at-full_address,
  slot_lower_bound-Splits,
}
use native.Mathlib.Decide.{dec_lt}
use native.Mathlib.Nat.{div-add-mod, mod-lt, mul_comm, le_refl}

-- The key of the element at a position.
abbrev pub HasKey : Table → ℕ → ℕ → Cursor → Type 0
HasKey t partition address c =
    (slot_partition t c.slot ≡ partition) × (address_at t c.slot c.index ≡ address)

-- The element with the key, or the end where there is none.
abbrev pub IsFound : Table → ℕ → ℕ → Cursor → Type 0
IsFound t partition address c =
    ((c ≡ finish t) × ((e : Cursor) → IsPosition t e → ¬ HasKey t partition address e))
    ⊎ (IsPosition t c × HasKey t partition address c)

equal_scaled : (x p q r : ℕ) → r < p → x * p ≡ p * q + r → (r ≡ 0) × (x ≡ q)
equal_scaled x p q r h e = elim (dec_lt x q) [
  | yes l ↦ absurd (omega (arith, scale x q p l, mul_comm p q))
  | no nl ↦ elim (dec_lt q x) [
    | yes g ↦ absurd (omega (arith, scale q x p g, mul_comm p q))
    | no ng ↦
        let d : x ≡ q = omega arith in (omega (arith, ap (λ (y : ℕ). y * p) d, mul_comm p q), d)
  ]
]

module _ (p : PartitionLayout) (ok : IsNarrow p) (address i : ℕ) (inside : i < p.count) where
  -- A stored address stands for the query exactly where nothing of the query is cut off and the
  -- rest of it is the stored address.
  probe_equal :
      (full_address p i ≡ address
        → ((probe_narrow p address).tail ≡ false)
          × (stored_address p i ≡ (probe_narrow p address).value))
      × ((probe_narrow p address).tail ≡ false
          → stored_address p i ≡ (probe_narrow p address).value
          → full_address p i ≡ address)
  unfolding probe_narrow
  probe_equal = elim (dec_lt (8 * p.address_skip) 64) [
    | yes h ↦
        let b : leb 64 (8 * p.address_skip) ≡ false = ground arith in
        let pos = pow-pos (8 * p.address_skip) in
        let split = div-add-mod address (2 ^ (8 * p.address_skip)) in
        rw (b, bit_and_mask (8 * p.address_skip) address)
          (
            λ e.
                let q =
                  equal_scaled (stored_address p i) _ _ _ (mod-lt address pos) (e ∙ sym split) in
                (ground arith, q.1),
            λ z e.
                let r : address % 2 ^ (8 * p.address_skip) ≡ 0 = ground arith in
                omega (
                  arith,
                  ap (λ (y : ℕ). y * 2 ^ (8 * p.address_skip)) e,
                  mul_comm (2 ^ (8 * p.address_skip)) (address / 2 ^ (8 * p.address_skip)),
                  split,
                  r,
                ),
          )
    | no h ↦
        let b : leb 64 (8 * p.address_skip) ≡ true = ground arith in
        rw (b, stored-zero p ok (omega arith) i inside)
          (λ e. (ground arith, refl), λ z e. ground arith)
  ]

counted : (t : Table) (s : ℕ) {i : ℕ} → i < slot_count t s → i < (layout_of t s).count
counted t s {i} h = subst (λ n. i < n) (sym (layout_of-count t s)) h

module _ (t : Table) (ok : IsOrdered t) (partition address : ℕ) where
  -- Two slots of one partition are one slot.
  same_slot :
      (r s : ℕ)
      → r < t.dir_count
      → s < t.dir_count
      → slot_partition t r ≡ slot_partition t s
      → r ≡ s
  same_slot r s h k e = elim (dec_lt r s) [
    | yes l ↦ absurd (omega (arith, ok.partitions r s l k))
    | no nl ↦ elim (dec_lt s r) [
      | yes g ↦ absurd (omega (arith, ok.partitions s r g h))
      | no ng ↦ omega arith
    ]
  ]

  module _ (s : ℕ) (h : s < t.dir_count) (eq : slot_partition t s ≡ partition) where
    -- An element with the key is a record of slot `s`, at an index whose stored address is the
    -- probe's value.
    key_at_slot :
        (e : Cursor)
        → IsPosition t e
        → HasKey t partition address e
        → ((probe_narrow (layout_of t s) address).tail ≡ false)
          × (e.index < slot_count t s)
          × (stored_address (layout_of t s) e.index ≡ (probe_narrow (layout_of t s) address).value)
    key_at_slot e p k =
        let q : e.slot ≡ s = same_slot e.slot s p.0 h (k.0 ∙ sym eq) in
        let inside : e.index < slot_count t s = subst (λ r. e.index < slot_count t r) q p.1 in
        let at : address_at t s e.index ≡ address =
          ap (λ r. address_at t r e.index) (sym q) ∙ k.1 in
        let full = sym (address_at-full_address t ok s e.index h inside) ∙ at in
        let both =
          (probe_equal (layout_of t s) (ok.narrow s h) address e.index (counted t s inside)).0
            full in
        (both.0, inside, both.1)

    hit :
        (index : ℕ)
        → index < slot_count t s
        → (probe_narrow (layout_of t s) address).tail ≡ false
        → stored_address (layout_of t s) index ≡ (probe_narrow (layout_of t s) address).value
        → HasKey t partition address (record { slot = s; index = index })
    hit index inside tail stored = (
      eq,
      address_at-full_address t ok s index h inside
          ∙ (probe_equal (layout_of t s) (ok.narrow s h) address index (counted t s inside)).1 tail
              stored,
    )

    -- The lookup in the partition's own slot, `index` being the split point of its addresses.
    in_slot :
        (index : ℕ)
        → Splits
            (slot_count t s)
            (λ i.
              ltb (stored_address (layout_of t s) i) (probe_narrow (layout_of t s) address).value)
            index
        → IsFound t partition address (
            if (probe_narrow (layout_of t s) address).tail
            then finish t
            else if leb (slot_count t s) index
            then finish t
            else if stored_address (layout_of t s) index
                == (probe_narrow (layout_of t s) address).value
            then record { slot = s; index = index }
            else finish t)
    in_slot index split = elim (Bool-cases (probe_narrow (layout_of t s) address).tail) [
      | inl b ↦ rw b (miss (λ i q z e. cc))
      | inr b ↦ rw b (elim (Bool-cases (leb (slot_count t s) index)) [
        | inl c ↦ rw c (miss (λ i q z e. ground (arith, split.1 i)))
        | inr c ↦ rw c (elim (Bool-cases (stored index == value)) [
          | inl d ↦ rw d (inr ((h, ground arith), hit index (ground arith) b (ground arith)))
          | inr d ↦ rw d (miss (λ i q z e. elsewhere i q e (ground arith) (ground arith)))
        ])
      ])
    ]
      where
        stored : ℕ → ℕ
        stored = stored_address (layout_of t s)

        value : ℕ
        value = (probe_narrow (layout_of t s) address).value

        miss :
            ((i : ℕ)
              → i < slot_count t s
              → (probe_narrow (layout_of t s) address).tail ≡ false
              → stored i ≡ value
              → ⊥)
            → IsFound t partition address (finish t)
        miss never = inl (refl, λ e p k. let at = key_at_slot e p k in never e.index at.1 at.0 at.2)

        elsewhere :
            (i : ℕ)
            → i < slot_count t s
            → stored i ≡ value
            → index < slot_count t s
            → stored index ≢ value
            → ⊥
        elsewhere i q e room ne = elim (dec_lt i index) [
          | yes l ↦ ground (arith, split.1 i)
          | no nl ↦ ground (
            arith,
            split.2 index (omega arith) room,
            increasing_le (layout_of t s) (ok.narrow s h) index i (omega arith) (counted t s q),
          )
        ]

  -- Where no slot is the partition's, no element has the key.
  no_slot :
      ((s : ℕ) → s < t.dir_count → slot_partition t s ≢ partition)
      → IsFound t partition address (finish t)
  no_slot never = inl (refl, λ e p k. absurd (never e.slot p.0 k.0))

  exact_cases :
      (s : ℕ)
      → Splits t.dir_count (λ r. ltb (slot_partition t r) partition) s
      → ((t.dir_count
            ≤ (if ltb s t.dir_count && slot_partition t s == partition then s else t.dir_count))
          × ((r : ℕ) → r < t.dir_count → slot_partition t r ≢ partition))
        ⊎ (((if ltb s t.dir_count && slot_partition t s == partition then s else t.dir_count)
              < t.dir_count)
            × (slot_partition t
                  (if ltb s t.dir_count && slot_partition t s == partition then s else t.dir_count)
                ≡ partition))
  exact_cases s split = elim (Bool-cases (ltb s t.dir_count && slot_partition t s == partition)) [
    | inl b ↦ rw b (inr (ground arith, ground arith))
    | inr b ↦ rw b (inl (le_refl _, λ r h e. never r h e b))
  ]
    where
      never :
          (r : ℕ)
          → r < t.dir_count
          → slot_partition t r ≡ partition
          → (ltb s t.dir_count && slot_partition t s == partition) ≡ false
          → ⊥
      never r h e b = elim (dec_lt r s) [
        | yes l ↦ ground (arith, split.1 r)
        | no nl ↦ ground (arith, split.2 s, partition_le t ok s r (omega arith) h)
      ]

  slot_exact_lem :
      ((t.dir_count ≤ slot_exact t partition)
        × ((s : ℕ) → s < t.dir_count → slot_partition t s ≢ partition))
      ⊎ ((slot_exact t partition < t.dir_count)
          × (slot_partition t (slot_exact t partition) ≡ partition))
  unfolding slot_exact
  slot_exact_lem =
      exact_cases (slot_lower_bound t partition) (slot_lower_bound-Splits t ok partition)

  -- The branches of find_parts at the partition's own slot.
  at_slot :
      (s index : ℕ)
      → s < t.dir_count
      → slot_partition t s ≡ partition
      → Splits
          (slot_count t s)
          (λ i. ltb (stored_address (layout_of t s) i) (probe_narrow (layout_of t s) address).value)
          index
      → IsFound t partition address (
          if leb t.dir_count s
          then finish t
          else if slot_count t s == 0
          then finish t
          else if (probe_narrow (layout_of t s) address).tail
          then finish t
          else if leb (slot_count t s) index
          then finish t
          else if stored_address (layout_of t s) index
              == (probe_narrow (layout_of t s) address).value
          then record { slot = s; index = index }
          else finish t)
  at_slot s index h eq split =
      let b : leb t.dir_count s ≡ false = ground arith in
      rw b (elim (Bool-cases (slot_count t s == 0)) [
        | inl z ↦ rw z (inl (refl, λ e p k. empty z (key_at_slot s h eq e p k).1))
        | inr nz ↦ rw nz (in_slot s h eq index split)
      ])
    where
      empty : {c i : ℕ} → (c == 0) ≡ true → i < c → ⊥
      empty z l = ground arith

  -- In an ordered image with narrow addresses, find returns an element with the split key, or the
  -- end where no element of the image has it.
  pub find_parts-IsFound : IsFound t partition address (find_parts t partition (narrow address))
  unfolding find_parts slot_count
  find_parts-IsFound = elim slot_exact_lem [
    | inl a ↦
        let b : leb t.dir_count (slot_exact t partition) ≡ true = ground (arith, a.0) in
        rw b (no_slot a.1)
    | inr a ↦ at_slot (slot_exact t partition) _ a.0 a.1 (
        search_lower_narrow-Splits (layout_of t (slot_exact t partition)) (ok.narrow _ a.0)
          (probe_narrow (layout_of t (slot_exact t partition)) address).value)
  ]
