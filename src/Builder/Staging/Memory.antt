-- ===== src/Builder/Staging/Memory.antt =====
-- builder.hpp: memory_staging, which packs the parts of a key into one word.
use mmpack.Prelude.{
  ℕ, ◌-◌, ◌*◌, ◌/◌, ◌%◌, ◌^◌, bit_and, Bool, true, not, ◌&&◌, List, [], ◌∷◌, ◌++◌, length, get_or,
  leb, ltb, ◌==◌, if◌then◌else◌,
}
use Prim.Native.Nat.{bit_or}

-- memory_staging::row
pub record Row : Type 0 where
  pub key : ℕ
  pub tuple : ℕ

-- What a row past the end is read as.
abbrev pub no_row : Row
no_row = record { key = 0; tuple = 0 }

pub record MemoryStaging : Type 0 where
  pub rows : List Row
  pub address_bits : ℕ
  pub sorted : Bool

abbrev pub fresh : ℕ → MemoryStaging
fresh address_bits = record { rows = []; address_bits = address_bits; sorted = true }

-- `rows_[i]`
abbrev pub row : MemoryStaging → ℕ → Row
row s i = get_or s.rows i no_row

unfoldable pub size : MemoryStaging → ℕ
size s = length s.rows

-- A shift to the left loses the bits above 64.
unfoldable pub pack : MemoryStaging → ℕ → ℕ → ℕ
pack s partition address =
    if leb 64 s.address_bits
    then address
    else bit_or (partition * 2 ^ s.address_bits % 2 ^ 64) address

unfoldable pub push : MemoryStaging → ℕ → ℕ → ℕ → MemoryStaging
unfolding pack size
push s partition address tuple =
    let key = pack s partition address in
    record s {
      rows = s.rows ++ (record { key = key; tuple = tuple } ∷ []);
      sorted = s.sorted && not (not (size s == 0) && leb key (row s (size s - 1)).key);
    }

unfoldable pub partition_at : MemoryStaging → ℕ → ℕ
partition_at s i = if leb 64 s.address_bits then 0 else (row s i).key / 2 ^ s.address_bits

unfoldable pub address_at : MemoryStaging → ℕ → ℕ
address_at s i =
    if leb 64 s.address_bits then (row s i).key else bit_and (row s i).key (2 ^ s.address_bits - 1)

unfoldable pub tuple_at : MemoryStaging → ℕ → ℕ
tuple_at s i = (row s i).tuple

abbrev pub before : Row → Row → Bool
before a b = ltb a.key b.key

unfoldable pub sort :
    ((A : Type 0) → (A → A → Bool) → List A → List A) → MemoryStaging → MemoryStaging
sort std_sort s = record s { rows = std_sort Row before s.rows; sorted = true }
