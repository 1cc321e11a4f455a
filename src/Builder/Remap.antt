-- ===== src/Builder/Remap.antt =====
-- Per-partition remap tables (builder.hpp: plan_remap and the table that write_image builds;
-- table.hpp: the resolution of a reference in value_base).
pub mod Plan
pub mod RoundTrip
use mmpack.Prelude.{
  ℕ, zero, suc, ◌+◌, ◌-◌, ◌*◌, ◌%◌, ◌^◌, Bool, true, false, not, ◌||◌, Option, none, some, List, [],
  ◌∷◌, ◌++◌, drop, leb, ltb, ◌==◌, if◌then◌else◌,
}
use mmpack.Bits.{Bytes, to_bytes, load, width_for}
use mmpack.Format.{remap_none, max_local_width}

-- The pair (local width or `remap_none`, savings). `ref_width` is the global reference width.
unfoldable pub plan_remap : Bool → ℕ → ℕ → ℕ → ℕ × ℕ
plan_remap partition_remap ref_width distinct_here count =
    let local = width_for (distinct_here - 1) in
    let table = distinct_here * 4 % 2 ^ 64 in
    let saved = count * (ref_width - local) % 2 ^ 64 in
    if not partition_remap || distinct_here == 0
    then (remap_none, 0)
    else if leb ref_width local || ltb max_local_width local
    then (remap_none, 0)
    else if leb saved table
    then (remap_none, 0)
    else (local, saved - table)

-- `to_local`, the map from global to local ids: the place in `remap_table`.
unfoldable pub to_local : List ℕ → ℕ → Option ℕ
to_local [] global = none
to_local (g ∷ table) global =
    let later = to_local table global in
    if g == global then some 0 else (elim later [ none ↦ none | some i ↦ some (suc i) ])

-- `if (to_local.emplace(global, remap_table.size()).second) remap_table.push_back(global);`
unfoldable pub add_global : List ℕ → ℕ → List ℕ
add_global table global = elim (to_local table global) [
  | none ↦ table ++ (global ∷ [])
  | some i ↦ table
]

unfoldable pub remap_table : List ℕ → List ℕ → List ℕ
unfolding add_global
remap_table table [] = table
remap_table table (g ∷ globals) = remap_table (add_global table g) globals

-- `emit(&id, sizeof(id))` with a 32-bit id, for each entry.
unfoldable pub table_bytes : List ℕ → Bytes
unfolding to_bytes
table_bytes [] = []
table_bytes (g ∷ table) = to_bytes 4 (g % 2 ^ 32) ++ table_bytes table

-- The global id behind a local reference, none where it is out of the table's range.
unfoldable pub resolve : Bytes → ℕ → ℕ → Option ℕ
unfolding load
resolve remap remap_count ref =
    if leb remap_count ref then none else some (load 4 (drop (ref * 4) remap))
