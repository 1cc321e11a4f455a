-- ===== src/Schema/KeySplit.antt =====
-- A 64-bit key and its parts.
use mmpack.Prelude.{
  ℕ, ◌+◌, ◌*◌, ◌^◌, ◌≤◌, ◌<◌, ◌≡◌, ◌⊎◌, ◌↔◌, ap, false, true, leb, inl, inr, arith,
}
use mmpack.Prelude.BitAnd.{bit_and_mask}
use mmpack.Prelude.Division.{pow-pos, pow_mono}
use mmpack.Schema.{SchemaView, partition_of, address_of}
use native.Mathlib.Decide.{dec_le, dec_lt}
use native.Mathlib.Nat.{div-add-mod, mod-lt}

-- The parts of a key put together by arithmetic; a shift by 64 leaves no partition.
pub split_parts :
    (view : SchemaView) (key : ℕ)
    → key < 2 ^ 64
    → (2 ^ view.head.address_bits * partition_of view key + address_of view key ≡ key)
      × (address_of view key < 2 ^ view.head.address_bits)
unfolding partition_of address_of
split_parts view key h = elim (dec_le 64 view.head.address_bits) [
  | yes l ↦
      let b : leb 64 view.head.address_bits ≡ true = ground arith in
      rw b (omega arith, omega (arith, pow_mono 64 view.head.address_bits l))
  | no nl ↦
      let b : leb 64 view.head.address_bits ≡ false = ground arith in
      rw (b, bit_and_mask view.head.address_bits key)
        (div-add-mod key (2 ^ view.head.address_bits), mod-lt key (pow-pos view.head.address_bits))
]

step_up : (a b p : ℕ) → a < b → p * a + p ≤ p * b
step_up a b p h = grind arith

-- Numbers are ordered as their quotients and remainders are.
pub lex_order :
    (b p r q t : ℕ) → r < b → t < b → (b * p + r < b * q + t) ↔ ((p < q) ⊎ ((p ≡ q) × (r < t)))
lex_order b p r q t hr ht = elim (dec_lt p q) [
  | yes l ↦ (λ x. inl l, λ x. omega (arith, step_up p q b l))
  | no nl ↦ elim (dec_lt q p) [
    | yes g ↦ (λ x. absurd (omega (arith, step_up q p b g)), λ x. absurd (omega (arith, x)))
    | no ng ↦
        let e : p ≡ q = omega arith in
        let f : b * p ≡ b * q = ap (λ (y : ℕ). b * y) e in
        (λ x. inr (e, omega (arith, f)), λ x. omega (arith, f, x))
  ]
]

-- For every shift, the split of 64-bit keys keeps their order: one key is less than another exactly
-- where its partition is less, or the partitions are equal and its address is less.
pub split-order :
    (view : SchemaView) (j k : ℕ)
    → j < 2 ^ 64
    → k < 2 ^ 64
    → (j < k) ↔ (
        (partition_of view j < partition_of view k)
        ⊎ ((partition_of view j ≡ partition_of view k) × (address_of view j < address_of view k)))
split-order view j k hj hk =
    let (ej, lj) = split_parts view j hj in
    let (ek, lk) = split_parts view k hk in
    let o = lex_order (2 ^ view.head.address_bits) _ _ _ _ lj lk in
    (λ x. o.0 (omega (arith, ej, ek)), λ x. omega (arith, o.1 x, ej, ek))
