-- ===== src/Table/Order.antt =====
-- The order of a table's elements, and what the searches over its slots and records find.
use mmpack.Prelude.{
  ℕ, zero, suc, ◌+◌, ◌-◌, ◌*◌, ◌^◌, ◌≤◌, ◌<◌, ◌≡◌, ◌⊎◌, ◌↔◌, refl, sym, ap, ◌∙◌, true, false, leb,
  ltb, ◌&&◌, Bool-cases, inl, inr, arith,
}
use mmpack.Bisect.Laws.{Splits, bisect-Splits}
use mmpack.Table.Layout.{Table, layout_of, slot_partition, slot_count, address_at}
use mmpack.Table.Search.{slot_lower_bound}
use mmpack.Table.Cursor.{Cursor, finish, normalize_loop, normalize}
use mmpack.Table.Narrow.{IsNarrow, full_address, full_address-lt, stored-zero}
use native.Mathlib.Decide.{dec_lt, dec_le}
use native.Mathlib.Nat.{mod-eq_of_lt}

abbrev pub IsPosition : Table → Cursor → Type 0
IsPosition t c = (c.slot < t.dir_count) × (c.index < slot_count t c.slot)

abbrev pub Before : Cursor → Cursor → Type 0
Before c d = (c.slot < d.slot) ⊎ ((c.slot ≡ d.slot) × (c.index < d.index))

-- The element at a position is below a split key, or at most that key.
abbrev pub Below : Table → ℕ → ℕ → Cursor → Type 0
Below t partition address c =
    (slot_partition t c.slot < partition)
    ⊎ ((slot_partition t c.slot ≡ partition) × (address_at t c.slot c.index < address))

abbrev pub AtMost : Table → ℕ → ℕ → Cursor → Type 0
AtMost t partition address c =
    (slot_partition t c.slot < partition)
    ⊎ ((slot_partition t c.slot ≡ partition) × (address_at t c.slot c.index ≤ address))

-- An image with narrow addresses whose slots increase and whose partitions increase; a dense
-- directory has partition `s` in slot `s`.
pub record IsOrdered (t : Table) : Type 0 where
  pub partitions : (r s : ℕ) → r < s → s < t.dir_count → slot_partition t r < slot_partition t s
  pub dense : t.dense ≡ true → (s : ℕ) → s < t.dir_count → slot_partition t s ≡ s
  pub narrow : (s : ℕ) → s < t.dir_count → IsNarrow (layout_of t s)

pub layout_of-count : (t : Table) (s : ℕ) → (layout_of t s).count ≡ slot_count t s
unfolding layout_of slot_count
layout_of-count t s = refl

module _ (t : Table) (ok : IsOrdered t) where
  pub partition_le : (r s : ℕ) → r ≤ s → s < t.dir_count → slot_partition t r ≤ slot_partition t s
  partition_le r s h q = elim (dec_lt r s) [
    | yes l ↦ omega (arith, ok.partitions r s l q)
    | no nl ↦ let e : r ≡ s = omega arith in rw e (omega arith)
  ]

  -- The address of an element is the stored one scaled: nothing is cut off.
  pub address_at-full_address :
      (s i : ℕ)
      → s < t.dir_count
      → i < slot_count t s
      → address_at t s i ≡ full_address (layout_of t s) i
  unfolding address_at
  address_at-full_address s i h q =
      let p = layout_of t s in
      let nar = ok.narrow s h in
      let inside : i < p.count = rw (layout_of-count t s) q in
      let small = full_address-lt p nar i inside in
      elim (dec_le 8 p.address_skip) [
        | yes l ↦
            let b : leb 8 p.address_skip ≡ true = ground arith in
            let z = stored-zero p nar (omega arith) i inside in
            rw b (sym (ap (λ (x : ℕ). x * 2 ^ (8 * p.address_skip)) z ∙ omega arith))
        | no nl ↦ let b : leb 8 p.address_skip ≡ false = ground arith in rw b (mod-eq_of_lt small)
      ]

  pub slot_lower_bound-Splits :
      (p : ℕ) → Splits t.dir_count (λ s. ltb (slot_partition t s) p) (slot_lower_bound t p)
  unfolding slot_lower_bound
  slot_lower_bound-Splits p = elim (Bool-cases t.dense) [
    | inl d ↦
        rw d
          (ground arith, λ i h. ground (arith, ok.dense d i), λ i h q. ground (arith, ok.dense d i))
    | inr d ↦ rw d (bisect-Splits t.dir_count _ (λ i j h q e. ground (arith, partition_le i j h q)))
  ]

  -- Where the slot that the search finds is the partition's, and where no slot is.
  pub slot_before : (p s : ℕ) → s < slot_lower_bound t p → slot_partition t s < p
  slot_before p s h = ground (arith, (slot_lower_bound-Splits p).1 s h)

  pub slot_not_before :
      (p s : ℕ) → slot_lower_bound t p ≤ s → s < t.dir_count → p ≤ slot_partition t s
  slot_not_before p s h q = ground (arith, (slot_lower_bound-Splits p).2 s h q)

-- `c` is past the last slot or an element, and the elements before it are those before (s, i).
abbrev NextElement : Table → ℕ → ℕ → Cursor → Type 0
NextElement t s i c =
    ((t.dir_count ≤ c.slot) ⊎ IsPosition t c)
    × ((e : Cursor) → IsPosition t e → Before e c → Before e (record { slot = s; index = i }))
    × ((e : Cursor) → IsPosition t e → Before e (record { slot = s; index = i }) → Before e c)

skip_slot :
    (t : Table) (s i : ℕ) (e : Cursor)
    → slot_count t s ≤ i
    → IsPosition t e
    → Before e (record { slot = s + 1; index = 0 })
    → Before e (record { slot = s; index = i })
skip_slot t s i e h p (inl b) = elim (dec_lt e.slot s) [
  | yes l ↦ inl l
  | no nl ↦
      let q : e.slot ≡ s = omega arith in
      let r : slot_count t e.slot ≡ slot_count t s = ap (slot_count t) q in
      inr (q, omega (arith, p.1))
]
skip_slot t s i e h p (inr b) = absurd (omega (arith, b.1))

enter_slot :
    (s i : ℕ) (e : Cursor)
    → Before e (record { slot = s; index = i })
    → Before e (record { slot = s + 1; index = 0 })
enter_slot s i e (inl b) = inl (omega arith)
enter_slot s i e (inr b) = inl (omega (arith, b.0))

normalize_loop-NextElement :
    (t : Table) (rounds s i : ℕ)
    → t.dir_count ≤ s + rounds
    → NextElement t s i (normalize_loop t rounds s i)
unfolding normalize_loop
normalize_loop-NextElement t zero s i h = (inl (omega arith), λ e p b. b, λ e p b. b)
normalize_loop-NextElement t (suc rounds) s i h =
    let ih = normalize_loop-NextElement t rounds (s + 1) 0 (omega arith) in
    elim (Bool-cases (ltb s t.dir_count && leb (slot_count t s) i)) [
      | inl b ↦
          let le : slot_count t s ≤ i = ground arith in
          rw b (
            ih.0,
            λ e p x. skip_slot t s i e le p (ih.1 e p x),
            λ e p x. ih.2 e p (enter_slot s i e x),
          )
      | inr b ↦ rw b (stays b, λ e p x. x, λ e p x. x)
    ]
  where
    stays :
        (ltb s t.dir_count && leb (slot_count t s) i) ≡ false
        → (t.dir_count ≤ s) ⊎ ((s < t.dir_count) × (i < slot_count t s))
    stays b = ground arith

-- `normalize` moves to the next element, past no element.
pub normalize_lem :
    (t : Table) (s i : ℕ)
    → ((normalize t s i ≡ finish t) ⊎ IsPosition t (normalize t s i))
      × ((e : Cursor)
          → IsPosition t e
          → Before e (normalize t s i) ↔ Before e (record { slot = s; index = i }))
unfolding normalize finish
normalize_lem t s i =
    let n = normalize_loop-NextElement t (t.dir_count - s) s i (omega arith) in
    elim (Bool-cases (leb t.dir_count (normalize_loop t (t.dir_count - s) s i).slot)) [
      | inl b ↦ rw b (inl refl, λ e p. (λ x. n.1 e p (inl (past b p.0)), λ x. inl p.0))
      | inr b ↦ rw b (inr (within b n.0), λ e p. (n.1 e p, n.2 e p))
    ]
  where
    past : {m c d : ℕ} → leb m c ≡ true → d < m → d < c
    past b h = ground arith

    within :
        {c : Cursor}
        → leb t.dir_count c.slot ≡ false
        → (t.dir_count ≤ c.slot) ⊎ IsPosition t c
        → IsPosition t c
    within b (inl h) = absurd (ground arith)
    within b (inr p) = p
