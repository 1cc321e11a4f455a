-- ===== src/Table/Floor.antt =====
-- floor: the greatest element at or below a split key.
use mmpack.Prelude.{
  ℕ, zero, suc, ◌+◌, ◌-◌, ◌≤◌, ◌<◌, ◌≡◌, ◌⊎◌, refl, sym, ap, ◌∙◌, true, false, not, leb, ltb, ◌==◌,
  ◌&&◌, if◌then◌else◌, Bool-cases, inl, inr, arith,
}
use mathlib.Core.Bool.{false≢true}
use mmpack.Bisect.{bisect}
use mmpack.Bisect.Laws.{Splits, bisect-Splits}
use mmpack.Table.Layout.{Table, layout_of, slot_partition, slot_count}
use mmpack.Table.Search.{narrow, slot_floor}
use mmpack.Table.Cursor.{Cursor, finish, floor_at_or_before, floor_before}
use mmpack.Table.Lookup.{floor_parts}
use mmpack.Table.Narrow.{full_address, search_above-Splits}
use mmpack.Table.Order.{IsPosition, Before, AtMost, IsOrdered, partition_le}
use mmpack.Table.Bounds.{AtMost-equal, AtMost-higher}
use native.Mathlib.Decide.{dec_lt}

-- The end where no element is at most the key; else an element that is, and none behind it is.
abbrev pub IsFloor : Table → ℕ → ℕ → Cursor → Type 0
IsFloor t partition address c =
    ((c ≡ finish t) × ((e : Cursor) → IsPosition t e → ¬ AtMost t partition address e))
    ⊎ (IsPosition t c
        × AtMost t partition address c
        × ((e : Cursor) → IsPosition t e → AtMost t partition address e → ¬ Before c e))

-- The last element of the slots up to `s`, or the end where they are empty.
abbrev LastUpTo : Table → ℕ → Cursor → Type 0
LastUpTo t s c =
    ((c ≡ finish t) × ((r : ℕ) → r ≤ s → slot_count t r ≡ 0))
    ⊎ ((c.slot ≤ s)
        × (c.index + 1 ≡ slot_count t c.slot)
        × ((r : ℕ) → c.slot < r → r ≤ s → slot_count t r ≡ 0))

floor_at_or_before-LastUpTo : (t : Table) (s : ℕ) → LastUpTo t s (floor_at_or_before t s)
unfolding floor_at_or_before
floor_at_or_before-LastUpTo t zero = elim (Bool-cases (slot_count t 0 == 0)) [
  | inl b ↦ rw b (inl (refl, λ r h. let e : r ≡ 0 = omega arith in rw e (ground arith)))
  | inr b ↦ rw b (inr (omega arith, ground arith, λ r h q. absurd (omega arith)))
]
floor_at_or_before-LastUpTo t (suc s) = elim (Bool-cases (slot_count t (suc s) == 0)) [
  | inl b ↦ rw b (extend (ground arith) (floor_at_or_before-LastUpTo t s))
  | inr b ↦ rw b (inr (omega arith, ground arith, λ r h q. absurd (omega arith)))
]
  where
    empty :
        slot_count t (suc s) ≡ 0
        → (r : ℕ) → r ≤ suc s
        → (r ≤ s → slot_count t r ≡ 0)
        → slot_count t r ≡ 0
    empty z r h old = elim (dec_lt s r) [
      | yes l ↦ let e : r ≡ suc s = omega arith in rw e z
      | no nl ↦ old (omega arith)
    ]

    extend : {c : Cursor} → slot_count t (suc s) ≡ 0 → LastUpTo t s c → LastUpTo t (suc s) c
    extend z (inl a) = inl (a.0, λ r h. empty z r h (a.1 r))
    extend z (inr a) = inr (omega (arith, a.0), a.1, λ r h q. empty z r q (a.2 r h))

module _ (t : Table) (ok : IsOrdered t) (partition : ℕ) where
  -- The last slot that is not above the partition, or past the end where all are.
  slot_floor_lem :
      ((t.dir_count ≤ slot_floor t partition)
        × ((s : ℕ) → s < t.dir_count → partition < slot_partition t s))
      ⊎ ((slot_floor t partition < t.dir_count)
          × (slot_partition t (slot_floor t partition) ≤ partition)
          × ((s : ℕ)
              → slot_floor t partition < s
              → s < t.dir_count
              → partition < slot_partition t s))
  unfolding slot_floor
  slot_floor_lem = elim (Bool-cases (t.dir_count == 0)) [
    | inl z ↦ rw z (inl (ground arith, λ s h. ground arith))
    | inr nz ↦ elim (Bool-cases t.dense) [
      | inl d ↦
          rw (nz, d)
            (elim (Bool-cases (ltb partition t.dir_count)) [
              | inl b ↦ rw b (
                  inr (
                    ground arith,
                    ground (arith, ok.dense d partition),
                    λ s h q. ground (arith, ok.dense d s),
                  ))
              | inr b ↦ rw b (
                  inr (
                    ground arith,
                    ground (arith, ok.dense d (t.dir_count - 1)),
                    λ s h q. ground arith,
                  ))
            ])
      | inr nd ↦
          rw (nz, nd)
            (elim (Bool-cases (lo == 0)) [
              | inl z ↦ rw z (inl (omega arith, λ s h. ground (arith, split.2 s)))
              | inr pos ↦ rw pos (
                  inr (
                    ground (arith, split.0),
                    ground (arith, split.1 (lo - 1)),
                    λ s h q. ground (arith, split.2 s),
                  ))
            ])
    ]
  ]
    where
      lo : ℕ
      lo = bisect t.dir_count (λ mid. leb (slot_partition t mid) partition)

      split : Splits t.dir_count (λ mid. leb (slot_partition t mid) partition) lo
      split = bisect-Splits t.dir_count _ (λ i j h q e. ground (arith, partition_le t ok i j h q))

  module _ (address : ℕ) where
    -- Where the elements up to slot `s` are those at most the key, the last of them is the floor.
    last_IsFloor :
        (s : ℕ)
        → s < t.dir_count
        → ((e : Cursor) → IsPosition t e → e.slot ≤ s → AtMost t partition address e)
        → ((e : Cursor) → IsPosition t e → AtMost t partition address e → e.slot ≤ s)
        → {c : Cursor} → LastUpTo t s c
        → IsFloor t partition address c
    last_IsFloor s h low high (inl a) =
        inl (a.0, λ e p x. absurd (omega (arith, a.1 e.slot (high e p x), p.1)))
    last_IsFloor s h low high {c} (inr a) =
        let p : IsPosition t c = (omega (arith, a.0), omega (arith, a.1)) in
        inr (p, low c p a.0, λ e q x b. none_behind e q (high e q x) b)
      where
        none_behind : (e : Cursor) → IsPosition t e → e.slot ≤ s → ¬ Before c e
        none_behind e q l (inl b) = absurd (omega (arith, a.2 e.slot b l, q.1))
        none_behind e q l (inr b) =
            let same : slot_count t c.slot ≡ slot_count t e.slot = ap (slot_count t) b.0 in
            absurd (omega (arith, a.1, b.1, q.1))

    up_to_AtMost :
        (s : ℕ)
        → s < t.dir_count
        → slot_partition t s < partition
        → (e : Cursor) → e.slot ≤ s
        → AtMost t partition address e
    up_to_AtMost s h lt e l = inl (omega (arith, partition_le t ok e.slot s l h))

    AtMost-le : (e : Cursor) → AtMost t partition address e → slot_partition t e.slot ≤ partition
    AtMost-le e (inl a) = omega arith
    AtMost-le e (inr a) = omega (arith, a.0)

    -- The partition's own slot `s`, split at the first record above the key.
    module _ (s above : ℕ) (h : s < t.dir_count) (eq : slot_partition t s ≡ partition)
        (split : Splits
          (slot_count t s)
          (λ i. not (ltb address (full_address (layout_of t s) i)))
          above) where
      slot_test :
          (e : Cursor)
          → IsPosition t e
          → e.slot ≡ s
          → AtMost t partition address e
          → e.index < above
      slot_test e p q x = elim (dec_lt e.index above) [
        | yes l ↦ l
        | no nl ↦
            let same = ap (λ r. not (ltb address (full_address (layout_of t r) e.index))) q in
            let counts = ap (slot_count t) q in
            absurd (
              false≢true (
                sym (split.2 e.index (omega arith) (omega (arith, p.1)))
                ∙ sym same
                ∙ (AtMost-equal t ok partition address e p (ap (slot_partition t) q ∙ eq)).0 x))
      ]

      AtMost-slot : (e : Cursor) → IsPosition t e → AtMost t partition address e → e.slot ≤ s
      AtMost-slot e p x = elim (dec_lt s e.slot) [
        | yes l ↦
            absurd (
              AtMost-higher t ok partition address e (omega (arith, ok.partitions s e.slot l p.0))
                x)
        | no nl ↦ omega arith
      ]

      in_slot_found :
          0 < above → IsFloor t partition address (record { slot = s; index = above - 1 })
      in_slot_found pos =
          let c : Cursor = record { slot = s; index = above - 1 } in
          let p : IsPosition t c = (h, omega (arith, split.0)) in
          inr (
            p,
            (AtMost-equal t ok partition address c p eq).1 (split.1 (above - 1) (omega arith)),
            behind,
          )
        where
          behind :
              (e : Cursor)
              → IsPosition t e
              → AtMost t partition address e
              → ¬ Before (record { slot = s; index = above - 1 }) e
          behind e p x (inl l) = absurd (omega (arith, AtMost-slot e p x))
          behind e p x (inr l) = absurd (omega (arith, slot_test e p (sym l.0) x, l.1))

    in_slot_before :
        (s above : ℕ)
        → (h : s < t.dir_count) → (eq : slot_partition t s ≡ partition)
        → (split : Splits
            (slot_count t s)
            (λ i. not (ltb address (full_address (layout_of t s) i)))
            above)
        → above ≡ 0
        → IsFloor t partition address (floor_before t s)
    unfolding floor_before
    in_slot_before zero above h eq split z = inl (refl, none_at)
      where
        none_at : (e : Cursor) → IsPosition t e → ¬ AtMost t partition address e
        none_at e p x =
            let l = AtMost-slot zero above h eq split e p x in
            omega (arith, slot_test zero above h eq split e p (omega arith) x)
    in_slot_before (suc s) above h eq split z =
        let b : (suc s == 0) ≡ false = ground arith in
        let d : suc s - 1 ≡ s = omega arith in
        rw (b, d)
          (last_IsFloor s (omega arith)
            (λ e p l.
              up_to_AtMost s (omega arith) (omega (arith, ok.partitions s (suc s) (omega arith) h))
                e l)
            (λ e p x. below e p x (AtMost-slot (suc s) above h eq split e p x))
            (floor_at_or_before-LastUpTo t s))
      where
        below :
            (e : Cursor)
            → IsPosition t e
            → AtMost t partition address e
            → e.slot ≤ suc s
            → e.slot ≤ s
        below e p x l = elim (dec_lt s e.slot) [
          | yes g ↦ absurd (omega (arith, slot_test (suc s) above h eq split e p (omega arith) x))
          | no ng ↦ omega arith
        ]

    -- The branches of floor_parts at a slot `s` that is not above the partition.
    by_slot :
        (s above : ℕ)
        → s < t.dir_count
        → slot_partition t s ≤ partition
        → ((r : ℕ) → s < r → r < t.dir_count → partition < slot_partition t r)
        → (s < t.dir_count
            → Splits
                (slot_count t s)
                (λ i. not (ltb address (full_address (layout_of t s) i)))
                above)
        → IsFloor t partition address (
            if leb t.dir_count s
            then finish t
            else if slot_partition t s == partition
            then (if not (slot_count t s == 0) && not (above == 0)
                then record { slot = s; index = above - 1 }
                else floor_before t s)
            else floor_at_or_before t s)
    by_slot s above h le later split =
        let b : leb t.dir_count s ≡ false = ground arith in
        rw b (elim (Bool-cases (slot_partition t s == partition)) [
          | inr ne ↦ rw ne (
              last_IsFloor s h (λ e p l. up_to_AtMost s h (ground arith) e l)
                (λ e p x. not_later e p x) (floor_at_or_before-LastUpTo t s))
          | inl eq ↦ rw eq (elim (Bool-cases (not (slot_count t s == 0) && not (above == 0))) [
            | inl f ↦ rw f (in_slot_found s above h (ground arith) (split h) (ground arith))
            | inr f ↦
                rw f (in_slot_before s above h (ground arith) (split h) (none_above f (split h).0))
          ])
        ])
      where
        none_above : {c : ℕ} → (not (c == 0) && not (above == 0)) ≡ false → above ≤ c → above ≡ 0
        none_above f l = ground arith

        not_later : (e : Cursor) → IsPosition t e → AtMost t partition address e → e.slot ≤ s
        not_later e p x = elim (dec_lt s e.slot) [
          | yes l ↦ absurd (AtMost-higher t ok partition address e (later e.slot l p.0) x)
          | no nl ↦ omega arith
        ]

    -- In an ordered image with narrow addresses, floor returns the end exactly where no element is
    -- at most the split key, and else an element that is at most the key, such that no element
    -- at most the key comes behind it.
    pub floor_parts-IsFloor : IsFloor t partition address (floor_parts t partition (narrow address))
    unfolding floor_parts
    floor_parts-IsFloor = elim slot_floor_lem [
      | inl a ↦
          let b : leb t.dir_count (slot_floor t partition) ≡ true = ground (arith, a.0) in
          rw b (inl (refl, λ e p x. AtMost-higher t ok partition address e (a.1 e.slot p.0) x))
      | inr a ↦ by_slot (slot_floor t partition) _ a.0 a.1 a.2 (λ h.
          search_above-Splits (layout_of t (slot_floor t partition)) (ok.narrow _ h) t.address_width
            address)
    ]
