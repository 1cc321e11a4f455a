-- ===== src/Builder/Staging/Blob.antt =====
-- builder.hpp: blob_staging, which keeps addresses of one width in an arena.
use mmpack.Prelude.{
  ℕ, zero, suc, ◌+◌, ◌-◌, ◌*◌, Bool, true, false, not, ◌&&◌, List, [], ◌∷◌, ◌++◌, take, drop, map,
  length, get_or, ltb, ◌==◌, if◌then◌else◌,
}
use mmpack.Error.{BuildError, width_changed, Result, done, ◌>>◌, fail_if}
use mmpack.Bits.{Bytes}
use mmpack.Table.Search.{memcmp}
use Prim.Native.Nat.{Ordering}

-- blob_staging::row
pub record Row : Type 0 where
  pub partition : ℕ
  pub tuple : ℕ

-- What a row past the end is read as.
abbrev pub no_row : Row
no_row = record { partition = 0; tuple = 0 }

pub record BlobStaging : Type 0 where
  pub rows : List Row
  pub arena : Bytes
  pub width : ℕ
  pub sorted : Bool

abbrev pub fresh : ℕ → BlobStaging
fresh width = record { rows = []; arena = []; width = width; sorted = true }

-- `rows_[i]`
abbrev pub row : BlobStaging → ℕ → Row
row s i = get_or s.rows i no_row

unfoldable pub size : BlobStaging → ℕ
size s = length s.rows

unfoldable pub slot : BlobStaging → ℕ → Bytes
slot s i = drop (i * s.width) s.arena

-- `std::memcmp(a, b, width) < 0`
unfoldable pub less_bytes : ℕ → Bytes → Bytes → Bool
unfolding memcmp
less_bytes width a b = elim (memcmp width a b) [ Ordering.lt ↦ true | _ ↦ false ]

unfoldable pub before : BlobStaging → ℕ → ℕ → Bytes → Bool
unfolding slot less_bytes
before s last partition address =
    if not ((row s last).partition == partition)
    then ltb (row s last).partition partition
    else less_bytes s.width (slot s last) address

unfoldable pub push_bytes : BlobStaging → ℕ → Bytes → ℕ → Result BuildError BlobStaging
unfolding before size
push_bytes s partition address tuple = do
  fail_if (not (length address == s.width)) width_changed
  done (record s {
    rows = s.rows ++ (record { partition = partition; tuple = tuple } ∷ []);
    arena = s.arena ++ address;
    sorted = s.sorted && not (not (size s == 0) && not (before s (size s - 1) partition address));
  })

unfoldable pub partition_at : BlobStaging → ℕ → ℕ
partition_at s i = (row s i).partition

unfoldable pub address_bytes_at : BlobStaging → ℕ → Bytes
unfolding slot
address_bytes_at s i = take s.width (slot s i)

unfoldable pub tuple_at : BlobStaging → ℕ → ℕ
tuple_at s i = (row s i).tuple

-- `order[i] = i` from `i` on, `rounds` of them.
unfoldable pub indices : ℕ → ℕ → List ℕ
indices zero i = []
indices (suc rounds) i = i ∷ indices rounds (i + 1)

-- The order of two indices.
unfoldable pub index_before : BlobStaging → ℕ → ℕ → Bool
unfolding slot less_bytes
index_before s a b =
    if not ((row s a).partition == (row s b).partition)
    then ltb (row s a).partition (row s b).partition
    else less_bytes s.width (slot s a) (slot s b)

-- The arena that the indices gather.
unfoldable pub gather : BlobStaging → List ℕ → Bytes
unfolding slot
gather s [] = []
gather s (i ∷ order) = take s.width (slot s i) ++ gather s order

unfoldable pub sort : ((A : Type 0) → (A → A → Bool) → List A → List A) → BlobStaging → BlobStaging
unfolding indices index_before gather size
sort std_sort s =
    let order = std_sort ℕ (index_before s) (indices (size s) 0) in
    record s { rows = map (row s) order; arena = gather s order; sorted = true }
