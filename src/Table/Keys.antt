-- ===== src/Table/Keys.antt =====
-- The key that is rebuilt from an element's parts.
use mmpack.Prelude.{ℕ, ◌*◌, ◌^◌, ◌<◌, ◌≡◌, ◌∙◌, false, true, leb, arith}
use mmpack.Prelude.BitOr.{bit_or_disjoint}
use mmpack.Schema.{partition_of, address_of}
use mmpack.Schema.KeySplit.{split_parts}
use mmpack.Table.Layout.{Table, slot_partition, address_at, key_at}
use native.Mathlib.Decide.{dec_le}
use native.Mathlib.Nat.{mul_comm, mod-eq_of_lt}

-- An element whose partition and address are the parts of a 64-bit key is given that key back.
pub key_at-split :
    (t : Table) (s i key : ℕ)
    → key < 2 ^ 64
    → slot_partition t s ≡ partition_of t.schema key
    → address_at t s i ≡ address_of t.schema key
    → key_at t s i ≡ key
unfolding key_at
key_at-split t s i key h p a =
    let bits = t.schema.head.address_bits in
    let parts = split_parts t.schema key h in
    elim (dec_le 64 bits) [
      | yes l ↦ let b : leb 64 bits ≡ true = ground arith in rw b (a ∙ (unfold address_of in rw b))
      | no nl ↦
          let b : leb 64 bits ≡ false = ground arith in
          let c = mul_comm (2 ^ bits) (partition_of t.schema key) in
          rw
            (
              b,
              p,
              a,
              mod-eq_of_lt {n = partition_of t.schema key * 2 ^ bits} {m = 2 ^ 64}
                  (omega (arith, parts.0, c)),
            )
            (bit_or_disjoint bits (partition_of t.schema key) (address_of t.schema key) parts.1
              ∙ omega (arith, parts.0, c))
    ]
