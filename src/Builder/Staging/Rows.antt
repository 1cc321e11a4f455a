-- ===== src/Builder/Staging/Rows.antt =====
-- The rows of a staging as its readers see them, and their order.
use mmpack.Prelude.{ℕ, ◌+◌, ◌-◌, ◌*◌, ◌^◌, ◌≤◌, ◌<◌, ◌≡◌, Bool, true, ◌||◌, ◌&&◌, length, ltb, ◌==◌}
use mmpack.Bits.{Bytes}
use mmpack.Builder.Staging.{
  Staging, memory, wide, blob, size, is_sorted, partition_at, address_at, address_bytes_at,
  tuple_at,
}
use mmpack.Builder.Staging.Blob.{less_bytes}

-- Where a row lies in the order of the image.
pub record Coords : Type 0 where
  pub partition : ℕ
  pub address : ℕ
  pub bytes : Bytes

unfoldable pub coords_at : Staging → ℕ → Coords
unfolding partition_at address_at address_bytes_at
coords_at s i = record {
  partition = partition_at s i;
  address = address_at s i;
  bytes = address_bytes_at s i;
}

-- The order of two addresses in a staging.
unfoldable pub address_less : Staging → Coords → Coords → Bool
unfolding less_bytes
address_less (memory s) a b = ltb a.address b.address
address_less (wide s) a b = ltb a.address b.address
address_less (blob s) a b = less_bytes s.width a.bytes b.bytes

unfoldable pub row_less : Staging → Coords → Coords → Bool
unfolding address_less
row_less s a b = ltb a.partition b.partition || (a.partition == b.partition && address_less s a b)

-- An arena holds the addresses of all rows.
abbrev pub IsStaging : Staging → Type 0
IsStaging (memory s) = Unit
IsStaging (wide s) = Unit
IsStaging (blob s) = length s.arena ≡ length s.rows * s.width

-- Each row is before the next.
abbrev pub Ascends : Staging → Type 0
Ascends s = (i : ℕ) → i + 1 < size s → row_less s (coords_at s i) (coords_at s (i + 1)) ≡ true

-- Stagings of one kind order addresses alike.
abbrev pub IsAlike : Staging → Staging → Type 0
IsAlike s t = (a b : Coords) → row_less s a b ≡ row_less t a b

-- A staging `t` that has the row with the coordinates and the tuple behind the rows of `s`.
pub record Pushed (s : Staging) (c : Coords) (tuple : ℕ) (t : Staging) : Type 0 where
  pub sound : IsStaging t
  pub alike : IsAlike t s
  pub longer : size t ≡ size s + 1
  pub keeps : (i : ℕ) → i < size s → (coords_at t i ≡ coords_at s i) × (tuple_at t i ≡ tuple_at s i)
  pub adds : (coords_at t (size s) ≡ c) × (tuple_at t (size s) ≡ tuple)
  pub was_sorted :
      is_sorted t ≡ true
      → (is_sorted s ≡ true) × (0 < size s → row_less s (coords_at s (size s - 1)) c ≡ true)
  pub stays_sorted :
      is_sorted s ≡ true
      → (0 < size s → row_less s (coords_at s (size s - 1)) c ≡ true)
      → is_sorted t ≡ true

-- The parts that one word holds, where the low `bits` of them are the address.
abbrev pub FitsKey : ℕ → ℕ → ℕ → Type 0
FitsKey bits partition address =
    (bits < 64 → (address < 2 ^ bits) × (partition * 2 ^ bits < 2 ^ 64))
    × (64 ≤ bits → partition ≡ 0)
