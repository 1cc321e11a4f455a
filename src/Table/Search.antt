-- ===== src/Table/Search.antt =====
-- The searches: a probe cut down to what a partition stores, over the records of the partition,
-- and over the slots of the directory (table.hpp: slot_lower_bound .. search_upper_narrow).
use mmpack.Prelude.{
  ℕ, zero, suc, ◌+◌, ◌-◌, ◌*◌, ◌/◌, ◌^◌, bit_and, Bool, true, false, not, ◌&&◌, ◌||◌, drop, get_or,
  leb, ltb, ◌==◌, if◌then◌else◌,
}
use Prim.Native.Nat.{compare, Ordering}
use mmpack.Bits.{Bytes}
use mmpack.Bisect.{bisect}
use mmpack.Table.Layout.{Table, PartitionLayout, slot_partition, record_bytes, stored_address}

-- The template argument with the query: an integer, or bytes that are compared as they stand.
pub data Query : Type 0 where
  narrow : ℕ → Query
  wide : Bytes → Query

pub record NarrowProbe : Type 0 where
  pub value : ℕ
  pub tail : Bool

pub record WideProbe : Type 0 where
  pub bytes : Bytes
  pub tail : Bool
  pub head : Bool

unfoldable pub probe_narrow : PartitionLayout → ℕ → NarrowProbe
probe_narrow p address =
    let s = 8 * p.address_skip in
    record {
      value = if leb 64 s then 0 else address / 2 ^ s;
      tail = if leb 64 s then not (address == 0) else not (bit_and address (2 ^ s - 1) == 0);
    }

-- Is one of the `rounds` bytes from `i` on not zero?
unfoldable pub any_nonzero : ℕ → Bytes → ℕ → Bool
any_nonzero zero bytes i = false
any_nonzero (suc rounds) bytes i = not (get_or bytes i 0 == 0) || any_nonzero rounds bytes (i + 1)

-- `full` is the table's address width.
unfoldable pub probe_wide : ℕ → PartitionLayout → Bytes → WideProbe
unfolding any_nonzero
probe_wide full p address = record {
  bytes = drop p.address_skip address;
  head = any_nonzero p.address_skip address 0;
  tail =
      any_nonzero (full - (p.address_skip + p.address_width)) address
        (p.address_skip + p.address_width);
}

unfoldable pub memcmp : ℕ → Bytes → Bytes → Ordering
memcmp zero a b = Ordering.eq
memcmp (suc n) a b =
    let rest = memcmp n (drop 1 a) (drop 1 b) in
    elim (compare (get_or a 0 0) (get_or b 0 0)) [
      | Ordering.lt ↦ Ordering.lt
      | Ordering.gt ↦ Ordering.gt
      | Ordering.eq ↦ rest
    ]

-- A memcmp result is tested `< limit`: at 0 it must be negative, at 1 it may be 0.
abbrev pub below_limit : Bool → Ordering → Bool
below_limit or_equal Ordering.lt = true
below_limit or_equal Ordering.eq = or_equal
below_limit or_equal Ordering.gt = false

unfoldable pub search_lower_narrow : PartitionLayout → ℕ → ℕ
unfolding stored_address bisect
search_lower_narrow p address = bisect p.count (λ mid. ltb (stored_address p mid) address)

unfoldable pub search_upper_narrow : PartitionLayout → ℕ → ℕ
unfolding stored_address bisect
search_upper_narrow p address = bisect p.count (λ mid. not (ltb address (stored_address p mid)))

-- `limit` is 1 where `or_equal` holds, else 0.
unfoldable pub search_wide : PartitionLayout → Bytes → Bool → ℕ
unfolding record_bytes bisect memcmp
search_wide p address or_equal =
    bisect p.count
      (λ mid. below_limit or_equal (memcmp p.address_width (record_bytes p mid) address))

-- First index strictly above the query.
unfoldable pub search_above : ℕ → PartitionLayout → Query → ℕ
unfolding search_upper_narrow search_wide probe_narrow probe_wide
search_above full p (narrow value) = search_upper_narrow p (probe_narrow p value).value
search_above full p (wide bytes) =
    let q = probe_wide full p bytes in if q.head then p.count else search_wide p q.bytes true

-- First index that is not below the query: the middle of lower_bound_parts.
unfoldable pub search_lower : ℕ → PartitionLayout → Query → ℕ
unfolding search_lower_narrow search_wide probe_narrow probe_wide
search_lower full p (narrow value) =
    let q = probe_narrow p value in search_lower_narrow p (q.value + (if q.tail then 1 else 0))
search_lower full p (wide bytes) =
    let q = probe_wide full p bytes in if q.head then p.count else search_wide p q.bytes q.tail

module _ (t : Table) where
  unfoldable pub slot_lower_bound : ℕ → ℕ
  unfolding bisect slot_partition
  slot_lower_bound p =
      if t.dense
      then (if ltb p t.dir_count then p else t.dir_count)
      else bisect t.dir_count (λ mid. ltb (slot_partition t mid) p)

  unfoldable pub slot_exact : ℕ → ℕ
  unfolding slot_lower_bound
  slot_exact p =
      let s = slot_lower_bound p in
      if ltb s t.dir_count && slot_partition t s == p then s else t.dir_count

  unfoldable pub slot_floor : ℕ → ℕ
  unfolding bisect slot_partition
  slot_floor p =
      let lo = bisect t.dir_count (λ mid. leb (slot_partition t mid) p) in
      if t.dir_count == 0
      then 0
      else if t.dense
      then (if ltb p t.dir_count then p else t.dir_count - 1)
      else if lo == 0
      then t.dir_count
      else lo - 1
