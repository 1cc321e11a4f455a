-- ===== src/Builder/Trim.antt =====
-- The stretch of the address field that a partition uses (builder.hpp: trim_bits, trim_bytes and the
-- union of a partition's addresses in choose_layout).
pub mod Bits
use mmpack.Prelude.{
  ℕ, zero, suc, ◌+◌, ◌-◌, ◌/◌, ◌^◌, bit_and, Bool, ◌&&◌, List, [], ◌∷◌, length, get_or, ltb, ◌==◌,
  if◌then◌else◌,
}
use Prim.Native.Nat.{bit_or}
use mmpack.Bits.{Bytes, exact_width_for}

-- `while ((bits & 0xff) == 0) { bits >>= 8; ++skip; }`: at most the 8 bytes of a word.
unfoldable pub trim_bits_loop : ℕ → ℕ → ℕ → ℕ × ℕ
trim_bits_loop zero bits skip = (bits, skip)
trim_bits_loop (suc rounds) bits skip =
    let next = trim_bits_loop rounds (bits / 2 ^ 8) (skip + 1) in
    if bit_and bits 0xff == 0 then next else (bits, skip)

-- The pair (skip, width).
unfoldable pub trim_bits : ℕ → ℕ × ℕ
unfolding trim_bits_loop
trim_bits bits =
    let (rest, skip) = trim_bits_loop 8 bits 0 in
    if bits == 0 then (0, 0) else (skip, exact_width_for rest)

-- `or_bits |= a` over the addresses of a partition.
unfoldable pub or_addresses : List ℕ → ℕ → ℕ
or_addresses [] or_bits = or_bits
or_addresses (a ∷ rest) or_bits = or_addresses rest (bit_or or_bits a)

-- `while (lo < n && or_bytes[lo] == 0) ++lo;`
trim_front : ℕ → Bytes → ℕ → ℕ
trim_front zero or_bytes lo = lo
trim_front (suc rounds) or_bytes lo =
    let next = trim_front rounds or_bytes (lo + 1) in
    if ltb lo (length or_bytes) && get_or or_bytes lo 0 == 0 then next else lo

-- `while (hi > lo && or_bytes[hi - 1] == 0) --hi;`
trim_back : Bytes → ℕ → ℕ → ℕ
trim_back or_bytes lo zero = zero
trim_back or_bytes lo (suc hi) =
    let next = trim_back or_bytes lo hi in
    if ltb lo (suc hi) && get_or or_bytes hi 0 == 0 then next else suc hi

unfoldable pub trim_bytes : Bytes → ℕ × ℕ
unfolding trim_front trim_back
trim_bytes or_bytes =
    let n = length or_bytes in
    let lo = trim_front n or_bytes 0 in
    let hi = trim_back or_bytes lo n in if lo == n then (0, 0) else (lo, hi - lo)
