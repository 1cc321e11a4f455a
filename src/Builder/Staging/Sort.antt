-- ===== src/Builder/Staging/Sort.antt =====
-- The sort of each staging keeps its rows.
use mmpack.Prelude.{
  ℕ, zero, suc, ◌+◌, ◌*◌, ◌≤◌, ◌<◌, ◌≡◌, refl, sym, ap, ap₂, subst, ◌∙◌, Bool, List, [], ◌∷◌, ◌++◌,
  map, take, drop, length, get_or, take-append, drop-append, length-take, length-drop, drop-drop,
  arith,
}
use mathlib.Core.List.{Mem, Perm, mem-cons, not-mem-nil}
use mathlib.Core.List.Perm
use mathlib.Core.Logic.Or
use native.Mathlib.Bridge.{le_prop}
use mmpack.Bits.{Bytes}
use mmpack.Builder.Staging.{
  Staging, memory, wide, blob, size, partition_at, address_at, address_bytes_at, tuple_at, sort,
}
use mmpack.Builder.Staging.Memory
use mmpack.Builder.Staging.Memory.{MemoryStaging}
use mmpack.Builder.Staging.Wide
use mmpack.Builder.Staging.Wide.{WideStaging}
use mmpack.Builder.Staging.Blob
use mmpack.Builder.Staging.Blob.{BlobStaging, indices, gather, index_before}
use mmpack.Builder.Staging.Push.Keys.{key_partition, key_address}
use mmpack.Builder.Staging.Rows.{Coords, coords_at, IsStaging}

-- A row as the layout reads it.
unfoldable pub entry : Staging → ℕ → Coords × ℕ
unfolding coords_at tuple_at
entry s i = (coords_at s i, tuple_at s i)

-- All rows, in their order.
unfoldable pub entries : Staging → List (Coords × ℕ)
unfolding entry indices size
entries s = map (entry s) (indices (size s) 0)

-- std::sort permutes what it sorts.
abbrev pub Permutes : ((A : Type 0) → (A → A → Bool) → List A → List A) → Type 1
Permutes std_sort = (A : Type 0) (less : A → A → Bool) (xs : List A) → Perm (std_sort A less xs) xs

indices-shift :
    {B : Type 0} (g : ℕ → B) (n i : ℕ)
    → map g (indices n (i + 1)) ≡ map (λ k. g (k + 1)) (indices n i)
unfolding indices
indices-shift g zero i = refl
indices-shift g (suc n) i = ap (λ t. g (i + 1) ∷ t) (indices-shift g n (i + 1))

map-same :
    {A B : Type 0} (f g : A → B) → ((a : A) → f a ≡ g a) → (xs : List A) → map f xs ≡ map g xs
map-same f g h [] = refl
map-same f g h (x ∷ xs) = ap₂ (λ b bs. b ∷ bs) (h x) (map-same f g h xs)

get_or-next :
    {A : Type 0} (x : A) (xs : List A) (k : ℕ) (d : A) → get_or (x ∷ xs) (k + 1) d ≡ get_or xs k d
get_or-next x xs k d = ap (λ (n : ℕ). get_or (x ∷ xs) n d) next
  where
    next : k + 1 ≡ suc k
    next = omega arith

-- Reading all positions of a list gives the list.
indices-map :
    {A B : Type 0} (f : A → B) (xs : List A) (d : A)
    → map (λ i. f (get_or xs i d)) (indices (length xs) 0) ≡ map f xs
unfolding indices
indices-map f [] d = refl
indices-map f (x ∷ xs) d =
    ap (λ t. f x ∷ t)
      (indices-shift (λ i. f (get_or (x ∷ xs) i d)) (length xs) 0
        ∙ map-same (λ k. f (get_or (x ∷ xs) (k + 1) d)) (λ k. f (get_or xs k d))
            (λ k. ap f (get_or-next x xs k d)) (indices (length xs) 0)
        ∙ indices-map f xs d)

-- Indices that are below a bound.
unfoldable pub AreBelow : ℕ → List ℕ → Type 0
AreBelow n [] = Unit
AreBelow n (i ∷ order) = (i < n) × AreBelow n order

mem-AreBelow : (n : ℕ) (order : List ℕ) → ((i : ℕ) → Mem i order → i < n) → AreBelow n order
unfolding AreBelow
mem-AreBelow n [] h = tt
mem-AreBelow n (i ∷ order) h =
    (h i (mem-cons.1 (Or.inl refl)), mem-AreBelow n order (λ j m. h j (mem-cons.1 (Or.inr m))))

mem-indices : (n i j : ℕ) → Mem j (indices n i) → j < i + n
unfolding indices
mem-indices zero i j m = absurd (not-mem-nil m)
mem-indices (suc n) i j m =
    Or.elim le_prop (mem-cons.0 m) (λ e. omega (arith, e))
      (λ later. omega (arith, mem-indices n (i + 1) j later))

rows_room : (i n w : ℕ) → i < n → i * w + w ≤ n * w
rows_room i n w h = grind arith

-- A staging that gathers the rows of another.
abbrev pub gathered : BlobStaging → List ℕ → BlobStaging
gathered s order = record s { rows = map (Blob.row s) order; arena = gather s order }

module _ (s : BlobStaging) (whole : IsStaging (blob s)) where
  pub length-slot : (i : ℕ) → i < length s.rows → length (take s.width (Blob.slot s i)) ≡ s.width
  unfolding Blob.slot
  length-slot i h = omega (
    arith,
    whole,
    rows_room i (length s.rows) s.width h,
    length-take s.width (drop (i * s.width) s.arena),
    length-drop (i * s.width) s.arena,
  )

  entry-first :
      (i : ℕ) (order : List ℕ)
      → i < length s.rows
      → entry (blob (gathered s (i ∷ order))) 0 ≡ entry (blob s) i
  unfolding entry coords_at tuple_at partition_at address_at address_bytes_at Blob.partition_at
      Blob.address_bytes_at Blob.tuple_at Blob.slot gather
  entry-first i order h =
      ap
        (λ (x : Bytes). (
          record { partition = (Blob.row s i).partition; address = 0; bytes = x },
          (Blob.row s i).tuple,
        ))
        (ap (λ n. take s.width (drop n (take s.width (Blob.slot s i) ++ gather s order))) start
          ∙ take-append (take s.width (Blob.slot s i)) (gather s order) (sym (length-slot i h)))
    where
      start : 0 * s.width ≡ 0
      start = omega arith

  entry-later :
      (i k : ℕ) (order : List ℕ)
      → i < length s.rows
      → entry (blob (gathered s (i ∷ order))) (k + 1) ≡ entry (blob (gathered s order)) k
  unfolding entry coords_at tuple_at partition_at address_at address_bytes_at Blob.partition_at
      Blob.address_bytes_at Blob.tuple_at Blob.slot gather
  entry-later i k order h =
      let w = s.width in
      let first = take w (Blob.slot s i) in
      ap₂
        (λ (r : Blob.Row) (x : Bytes).
          (record { partition = r.partition; address = 0; bytes = take w x }, r.tuple))
        (get_or-next (Blob.row s i) (map (Blob.row s) order) k Blob.no_row)
        (sym (drop-drop w (k * w) (first ++ gather s order) (more k w))
          ∙ ap (λ x. drop (k * w) x) (drop-append first (gather s order) (sym (length-slot i h))))
    where
      more : (k w : ℕ) → (k + 1) * w ≡ w + k * w
      more k w = grind arith

  entries-gathered :
      (order : List ℕ)
      → AreBelow (length s.rows) order
      → entries (blob (gathered s order)) ≡ map (entry (blob s)) order
  unfolding entries indices size Blob.size AreBelow
  entries-gathered [] h = refl
  entries-gathered (i ∷ order) (here, rest) =
      ap₂ (λ e es. e ∷ es) (entry-first i order here)
        (indices-shift (entry (blob (gathered s (i ∷ order)))) (length (map (Blob.row s) order)) 0
          ∙ map-same (λ k. entry (blob (gathered s (i ∷ order))) (k + 1))
              (entry (blob (gathered s order))) (λ k. entry-later i k order here)
              (indices (length (map (Blob.row s) order)) 0)
          ∙ entries-gathered order rest)

  pub entry-at :
      (order : List ℕ) (k : ℕ)
      → AreBelow (length s.rows) order
      → k < length order
      → entry (blob (gathered s order)) k ≡ entry (blob s) (get_or order k 0)
  unfolding AreBelow
  entry-at [] k h l = absurd (omega arith)
  entry-at (i ∷ order) zero (here, rest) l = entry-first i order here
  entry-at (i ∷ order) (suc k) (here, rest) l =
      ap (entry (blob (gathered s (i ∷ order)))) next
      ∙ entry-later i k order here
      ∙ entry-at order k rest (omega arith)
    where
      next : suc k ≡ k + 1
      next = omega arith

module _ (std_sort : (A : Type 0) → (A → A → Bool) → List A → List A)
    (permutes : Permutes std_sort) where
  -- A sorted vector, read through all its positions.
  read-permutes :
      {A B : Type 0} (f : A → B) (d : A) (less : A → A → Bool) (xs : List A)
      → Perm
          (map (λ i. f (get_or (std_sort A less xs) i d)) (indices (length (std_sort A less xs)) 0))
          (map (λ i. f (get_or xs i d)) (indices (length xs) 0))
  read-permutes {A} f d less xs =
      subst (λ l. Perm l (map (λ i. f (get_or xs i d)) (indices (length xs) 0)))
        (sym (indices-map f (std_sort A less xs) d))
        (subst (λ l. Perm (map f (std_sort A less xs)) l) (sym (indices-map f xs d))
          (Perm.map f (permutes A less xs)))

  -- What std::sort makes of the indices of a staging are its indices.
  pub sorted-AreBelow : (less : ℕ → ℕ → Bool) (n : ℕ) → AreBelow n (std_sort ℕ less (indices n 0))
  sorted-AreBelow less n =
      mem-AreBelow n (std_sort ℕ less (indices n 0)) (λ i m.
        omega (arith, mem-indices n 0 i ((Perm.mem_iff (permutes ℕ less (indices n 0))).0 m)))

  -- Where std::sort permutes, the sort of a staging keeps its rows, each with its coordinates and its tuple, whether
  -- they are packed in words, held apart or gathered from an arena that holds the addresses of all of them.
  pub sort-permutes : (s : Staging) → IsStaging s → Perm (entries (sort std_sort s)) (entries s)
  unfolding sort Memory.sort Wide.sort entries entry coords_at tuple_at size partition_at address_at
      address_bytes_at Memory.size Memory.partition_at Memory.address_at Memory.tuple_at Wide.size
      Wide.partition_at Wide.address_at Wide.tuple_at Blob.sort Blob.size
  sort-permutes (memory s) whole =
      read-permutes
        (λ (r : Memory.Row). (
          record {
            partition = key_partition s.address_bits r.key;
            address = key_address s.address_bits r.key;
            bytes = [];
          },
          r.tuple,
        ))
        Memory.no_row Memory.before s.rows
  sort-permutes (wide s) whole =
      read-permutes
        (λ (r : Wide.Row).
          (record { partition = r.partition; address = r.address; bytes = [] }, r.tuple))
        Wide.no_row (λ a b. Wide.before a.partition a.address b.partition b.address) s.rows
  sort-permutes (blob s) whole =
      let n = length s.rows in
      let order = std_sort ℕ (index_before s) (indices n 0) in
      let kept = permutes ℕ (index_before s) (indices n 0) in
      let below = sorted-AreBelow (index_before s) n in
      subst (λ l. Perm l (entries (blob s))) (sym (entries-gathered s whole order below))
        (Perm.map (entry (blob s)) kept)
