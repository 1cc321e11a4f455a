-- ===== src/Builder/Remap/RoundTrip.antt =====
-- References through a partition's own table.
use mmpack.Prelude.{
  ℕ, zero, suc, ◌*◌, ◌%◌, ◌^◌, ◌<◌, ◌≡◌, refl, sym, ap, ◌∙◌, Bool-cases, false, none, some,
  Option-cases, List, [], ◌∷◌, ◌++◌, drop, drop-drop, drop-append, take, take-append, length,
  get_elem?, All, leb, ◌==◌, inl, inr, arith,
}
use mmpack.Bits.{Bytes, of_bytes, to_bytes, load}
use mmpack.Bits.Memory.{length-to_bytes, of_bytes-to_bytes}
use mmpack.Builder.Remap.{to_local, add_global, remap_table, table_bytes, resolve}
use mathlib.Core.List.{append_assoc}

to_local-get_elem? :
    (table : List ℕ) (g i : ℕ) → to_local table g ≡ some i → get_elem? table i ≡ some g
unfolding to_local
to_local-get_elem? [] g i e = cc
to_local-get_elem? (h ∷ table) g zero e = elim (Option-cases (to_local table g)) [
  | inl n ↦ ground (arith, n)
  | inr (j, s) ↦ ground (arith, s)
]
to_local-get_elem? (h ∷ table) g (suc i) e = elim (Option-cases (to_local table g)) [
  | inl n ↦ ground (arith, n)
  | inr (j, s) ↦ to_local-get_elem? table g i (ground (arith, s))
]

-- A table that grows keeps the places of its entries.
to_local-append :
    (table more : List ℕ) (g i : ℕ)
    → to_local table g ≡ some i
    → to_local (table ++ more) g ≡ some i
unfolding to_local
to_local-append [] more g i e = cc
to_local-append (h ∷ table) more g i e = elim (Option-cases (to_local table g)) [
  | inl n ↦ ground (arith, n)
  | inr (j, s) ↦ ground (arith, s, to_local-append table more g j s)
]

to_local-last : (table : List ℕ) (g : ℕ) → (i : ℕ) × (to_local (table ++ (g ∷ [])) g ≡ some i)
unfolding to_local
to_local-last [] g = (0, ground arith)
to_local-last (h ∷ table) g = elim (Bool-cases (h == g)) [
  | inl b ↦ (0, rw b refl)
  | inr b ↦ let (i, e) = to_local-last table g in (suc i, rw (b, e) refl)
]

add_global-new :
    (table : List ℕ) (g : ℕ) → to_local table g ≡ none → add_global table g ≡ table ++ (g ∷ [])
unfolding add_global
add_global-new table g n = rw (n, add_global)

add_global-known :
    (table : List ℕ) (g i : ℕ) → to_local table g ≡ some i → add_global table g ≡ table
unfolding add_global
add_global-known table g i s = rw (s, add_global)

to_local-add_global :
    (table : List ℕ) (g : ℕ) → (i : ℕ) × (to_local (add_global table g) g ≡ some i)
to_local-add_global table g = elim (Option-cases (to_local table g)) [
  | inl n ↦ let (i, e) = to_local-last table g in (i, rw (add_global-new table g n) e)
  | inr (i, s) ↦ (i, rw (add_global-known table g i s) s)
]

add_global-keeps :
    (table : List ℕ) (h g i : ℕ)
    → to_local table g ≡ some i
    → to_local (add_global table h) g ≡ some i
add_global-keeps table h g i e = elim (Option-cases (to_local table h)) [
  | inl n ↦ rw (add_global-new table h n) (to_local-append table (h ∷ []) g i e)
  | inr (j, s) ↦ rw (add_global-known table h j s) e
]

remap_table-keeps :
    (globals table : List ℕ) (g i : ℕ)
    → to_local table g ≡ some i
    → to_local (remap_table table globals) g ≡ some i
unfolding remap_table
remap_table-keeps [] table g i e = e
remap_table-keeps (h ∷ globals) table g i e =
    remap_table-keeps globals (add_global table h) g i (add_global-keeps table h g i e)

-- The bytes of an entry are loaded as the entry.
load-table_bytes :
    (table : List ℕ) (rest : Bytes) (i g : ℕ)
    → get_elem? table i ≡ some g
    → g < 2 ^ 32
    → (i < length table) × (load 4 (drop (i * 4) (table_bytes table ++ rest)) ≡ g)
unfolding table_bytes load
load-table_bytes [] rest i g e h = cc
load-table_bytes (x ∷ table) rest zero g e h =
    let same : x ≡ g = cc in
    (
      omega arith,
      ap of_bytes (
            ap (take 4) (append_assoc (to_bytes 4 (x % 2 ^ 32)) (table_bytes table) rest)
            ∙ take-append (to_bytes 4 (x % 2 ^ 32)) (table_bytes table ++ rest)
                (sym (length-to_bytes 4 (x % 2 ^ 32))))
          ∙ of_bytes-to_bytes 4 (x % 2 ^ 32)
          ∙ omega arith,
    )
load-table_bytes (x ∷ table) rest (suc i) g e h =
    let (lt, at) = load-table_bytes table rest i g e h in
    let past : drop (suc i * 4) (table_bytes (x ∷ table) ++ rest)
        ≡ drop (i * 4) (table_bytes table ++ rest) =
      sym (drop-drop 4 (i * 4) (table_bytes (x ∷ table) ++ rest) (omega arith))
      ∙ ap (drop (i * 4)) (
          ap (drop 4) (append_assoc (to_bytes 4 (x % 2 ^ 32)) (table_bytes table) rest)
          ∙ drop-append (to_bytes 4 (x % 2 ^ 32)) (table_bytes table ++ rest)
              (sym (length-to_bytes 4 (x % 2 ^ 32)))) in
    (omega arith, ap (λ p. of_bytes (take 4 p)) past ∙ at)

-- A global id has a place in the table, and the reference to that place is resolved to the id.
abbrev pub IsResolved : List ℕ → Bytes → ℕ → Type 0
IsResolved table rest g =
    (i : ℕ) × (to_local table g ≡ some i)
    × (i < length table)
    × (resolve (table_bytes table ++ rest) (length table) i ≡ some g)

resolved :
    (table : List ℕ) (rest : Bytes) (g i : ℕ)
    → to_local table g ≡ some i
    → g < 2 ^ 32
    → IsResolved table rest g
unfolding resolve
resolved table rest g i e h =
    let (lt, at) = load-table_bytes table rest i g (to_local-get_elem? table g i e) h in
    let inside : leb (length table) i ≡ false = ground arith in (i, e, lt, rw inside (ap some at))

remap_table-IsResolved_from :
    (globals table : List ℕ) (rest : Bytes)
    → All (λ g. g < 2 ^ 32) globals
    → All (IsResolved (remap_table table globals) rest) globals
unfolding remap_table
remap_table-IsResolved_from [] table rest h = tt
remap_table-IsResolved_from (g ∷ globals) table rest (hg, h) =
    let (i, e) = to_local-add_global table g in
    (
      resolved (remap_table (add_global table g) globals) rest g i
          (remap_table-keeps globals (add_global table g) g i e) hg,
      remap_table-IsResolved_from globals (add_global table g) rest h,
    )

-- For the 32-bit tuple ids of a partition, each id has a local index in the table that is built
-- from them, below the table's count, and the reader resolves that index through the table's
-- bytes to the id, whatever follows the table in the image.
pub remap_table-IsResolved :
    (globals : List ℕ) (rest : Bytes)
    → All (λ g. g < 2 ^ 32) globals
    → All (IsResolved (remap_table [] globals) rest) globals
remap_table-IsResolved globals rest h = remap_table-IsResolved_from globals [] rest h
