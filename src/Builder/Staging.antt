-- ===== src/Builder/Staging.antt =====
-- Where staged records live (builder.hpp: record_staging and its three implementations). The virtual
-- calls are the clauses of the operations on `Staging`.
pub mod Memory
pub mod Wide
pub mod Blob
pub mod Rows
pub mod Push
pub mod Sort
pub mod Strict
pub mod Sorted
pub mod Insertion
use mmpack.Prelude.{ℕ, ◌+◌, Bool, List, []}
use mmpack.Error.{BuildError, needs_bytes, Result, done, fail}
use mmpack.Bits.{Bytes}
use mmpack.Builder.Staging.Memory.{MemoryStaging}
use mmpack.Builder.Staging.Wide.{WideStaging}
use mmpack.Builder.Staging.Blob.{BlobStaging}
use mmpack.Builder.Staging.Memory
use mmpack.Builder.Staging.Wide
use mmpack.Builder.Staging.Blob

pub data Staging : Type 0 where
  memory : MemoryStaging → Staging
  wide : WideStaging → Staging
  blob : BlobStaging → Staging

unfoldable pub push : Staging → ℕ → ℕ → ℕ → Result BuildError Staging
unfolding Memory.push Wide.push
push (memory s) partition address tuple = done (memory (Memory.push s partition address tuple))
push (wide s) partition address tuple = done (wide (Wide.push s partition address tuple))
push (blob s) partition address tuple = fail needs_bytes

abbrev pub is_sorted : Staging → Bool
is_sorted (memory s) = s.sorted
is_sorted (wide s) = s.sorted
is_sorted (blob s) = s.sorted

unfoldable pub size : Staging → ℕ
unfolding Memory.size Wide.size Blob.size
size (memory s) = Memory.size s
size (wide s) = Wide.size s
size (blob s) = Blob.size s

unfoldable pub partition_at : Staging → ℕ → ℕ
unfolding Memory.partition_at Wide.partition_at Blob.partition_at
partition_at (memory s) i = Memory.partition_at s i
partition_at (wide s) i = Wide.partition_at s i
partition_at (blob s) i = Blob.partition_at s i

-- 0 where the address does not fit a word.
unfoldable pub address_at : Staging → ℕ → ℕ
unfolding Memory.address_at Wide.address_at
address_at (memory s) i = Memory.address_at s i
address_at (wide s) i = Wide.address_at s i
address_at (blob s) i = 0

-- Empty where the address is an integer.
unfoldable pub address_bytes_at : Staging → ℕ → Bytes
unfolding Blob.address_bytes_at
address_bytes_at (memory s) i = []
address_bytes_at (wide s) i = []
address_bytes_at (blob s) i = Blob.address_bytes_at s i

unfoldable pub tuple_at : Staging → ℕ → ℕ
unfolding Memory.tuple_at Wide.tuple_at Blob.tuple_at
tuple_at (memory s) i = Memory.tuple_at s i
tuple_at (wide s) i = Wide.tuple_at s i
tuple_at (blob s) i = Blob.tuple_at s i

-- `std_sort` is std::sort, a parameter.
module _ (std_sort : (A : Type 0) → (A → A → Bool) → List A → List A) where
  unfoldable pub sort : Staging → Staging
  unfolding Memory.sort Wide.sort Blob.sort
  sort (memory s) = memory (Memory.sort std_sort s)
  sort (wide s) = wide (Wide.sort std_sort s)
  sort (blob s) = blob (Blob.sort std_sort s)
