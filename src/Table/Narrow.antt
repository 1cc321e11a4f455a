-- ===== src/Table/Narrow.antt =====
-- The search over the trimmed integers of a partition, and the full addresses.
use mmpack.Prelude.{
  ℕ, ◌+◌, ◌*◌, ◌^◌, ◌≤◌, ◌<◌, ◌≡◌, sym, ap, subst, ◌∙◌, true, false, not, leb, ltb, ◌==◌,
  if◌then◌else◌, arith,
}
use mmpack.Prelude.BitAnd.{bit_and_mask}
use mmpack.Prelude.Division.{pow-pos, pow_mono, shifted_lt}
use mmpack.Bisect.Laws.{Splits, bisect-Splits, Splits-ext}
use mmpack.Table.Layout.{PartitionLayout, stored_address}
use mmpack.Table.Search.{
  narrow, probe_narrow, search_lower_narrow, search_upper_narrow, search_lower, search_above,
}
use native.Mathlib.Decide.{dec_lt}
use native.Mathlib.Nat.{div-add-mod, mod-lt, mul_comm, lt_of_lt_of_le}

pub scale : (a b p : ℕ) → a < b → a * p + p ≤ b * p
scale a b p h = grind arith

below_scaled :
    (x p q r : ℕ) → r < p → ltb (x * p) (p * q + r) ≡ ltb x (q + (if not (r == 0) then 1 else 0))
below_scaled x p q r h = elim (dec_lt x q) [
  | yes l ↦ ground (arith, scale x q p l, mul_comm p q)
  | no nl ↦ elim (dec_lt q x) [
    | yes g ↦ ground (arith, scale q x p g, mul_comm p q)
    | no ng ↦ let e : x ≡ q = omega arith in rw (e, mul_comm p q) (ground arith)
  ]
]

at_most_scaled : (x p q r : ℕ) → r < p → not (ltb (p * q + r) (x * p)) ≡ not (ltb q x)
at_most_scaled x p q r h = elim (dec_lt q x) [
  | yes g ↦ ground (arith, scale q x p g, mul_comm p q)
  | no ng ↦ elim (dec_lt x q) [
    | yes l ↦ ground (arith, scale x q p l, mul_comm p q)
    | no nl ↦ let e : x ≡ q = omega arith in rw (e, mul_comm p q) (ground arith)
  ]
]

-- What a partition of narrow addresses is: its range lies in eight bytes, its addresses fit the
-- range, and they increase.
pub record IsNarrow (p : PartitionLayout) : Type 0 where
  pub range : p.address_skip + p.address_width ≤ 8
  pub fits : (i : ℕ) → i < p.count → stored_address p i < 2 ^ (8 * p.address_width)
  pub increasing : (i j : ℕ) → i < j → j < p.count → stored_address p i < stored_address p j

-- The address that record `i` stands for, before it is cut to 64 bits.
abbrev pub full_address : PartitionLayout → ℕ → ℕ
full_address p i = stored_address p i * 2 ^ (8 * p.address_skip)

module _ (p : PartitionLayout) (ok : IsNarrow p) where
  pub full_address-lt : (i : ℕ) → i < p.count → full_address p i < 2 ^ 64
  full_address-lt i h =
      lt_of_lt_of_le (shifted_lt p.address_skip p.address_width (stored_address p i) (ok.fits i h))
        (pow_mono (8 * (p.address_skip + p.address_width)) 64 (omega (arith, ok.range)))

  -- With no bit left to shift by, the partition stores nothing and all its addresses are 0.
  pub stored-zero : 64 ≤ 8 * p.address_skip → (i : ℕ) → i < p.count → stored_address p i ≡ 0
  stored-zero h i q =
      let e : p.address_width ≡ 0 = omega (arith, ok.range) in
      let small : stored_address p i < 2 ^ (8 * 0) =
        subst (λ w. stored_address p i < 2 ^ (8 * w)) e (ok.fits i q) in
      omega arith

  module _ (address i : ℕ) (inside : i < p.count) where
    lower_test :
        ltb
          (stored_address p i)
          ((probe_narrow p address).value + (if (probe_narrow p address).tail then 1 else 0))
        ≡ ltb (full_address p i) address
    unfolding probe_narrow
    lower_test = elim (dec_lt (8 * p.address_skip) 64) [
      | yes h ↦
          let b : leb 64 (8 * p.address_skip) ≡ false = ground arith in
          let pos = pow-pos (8 * p.address_skip) in
          let split = div-add-mod address (2 ^ (8 * p.address_skip)) in
          rw (b, bit_and_mask (8 * p.address_skip) address)
            (sym (below_scaled (stored_address p i) _ _ _ (mod-lt address pos))
              ∙ ap (ltb (full_address p i)) split)
      | no h ↦
          let b : leb 64 (8 * p.address_skip) ≡ true = ground arith in
          rw (b, stored-zero (omega arith) i inside) (ground arith)
    ]

    upper_test :
        not (ltb (probe_narrow p address).value (stored_address p i))
        ≡ not (ltb address (full_address p i))
    unfolding probe_narrow
    upper_test = elim (dec_lt (8 * p.address_skip) 64) [
      | yes h ↦
          let b : leb 64 (8 * p.address_skip) ≡ false = ground arith in
          let pos = pow-pos (8 * p.address_skip) in
          let split = div-add-mod address (2 ^ (8 * p.address_skip)) in
          rw b (
            sym (at_most_scaled (stored_address p i) _ _ _ (mod-lt address pos))
            ∙ ap (λ (a : ℕ). not (ltb a (full_address p i))) split)
      | no h ↦
          let b : leb 64 (8 * p.address_skip) ≡ true = ground arith in
          rw (b, stored-zero (omega arith) i inside) (ground arith)
    ]

  pub increasing_le : (i j : ℕ) → i ≤ j → j < p.count → stored_address p i ≤ stored_address p j
  increasing_le i j h q = elim (dec_lt i j) [
    | yes l ↦ omega (arith, ok.increasing i j l q)
    | no nl ↦ let e : i ≡ j = omega arith in rw e (omega arith)
  ]

  pub search_lower_narrow-Splits :
      (a : ℕ) → Splits p.count (λ i. ltb (stored_address p i) a) (search_lower_narrow p a)
  unfolding search_lower_narrow
  search_lower_narrow-Splits a =
      bisect-Splits p.count _ (λ i j h q e. ground (arith, increasing_le i j h q))

  search_upper_narrow-Splits :
      (a : ℕ) → Splits p.count (λ i. not (ltb a (stored_address p i))) (search_upper_narrow p a)
  unfolding search_upper_narrow
  search_upper_narrow-Splits a =
      bisect-Splits p.count _ (λ i j h q e. ground (arith, increasing_le i j h q))

  -- In a partition of narrow, increasing addresses, the search for the first record that is not
  -- below a query finds the split point of the untrimmed addresses at the query.
  pub search_lower-Splits :
      (full address : ℕ)
      → Splits p.count (λ i. ltb (full_address p i) address) (search_lower full p (narrow address))
  unfolding search_lower
  search_lower-Splits full address =
      Splits-ext p.count _ _ _ (λ i h. lower_test address i h) (search_lower_narrow-Splits _)

  -- In a partition of narrow, increasing addresses, the search for the first record above a query
  -- finds the split point of the untrimmed addresses at most the query.
  pub search_above-Splits :
      (full address : ℕ)
      → Splits p.count
          (λ i. not (ltb address (full_address p i)))
          (search_above full p (narrow address))
  unfolding search_above
  search_above-Splits full address =
      Splits-ext p.count _ _ _ (λ i h. upper_test address i h) (search_upper_narrow-Splits _)
