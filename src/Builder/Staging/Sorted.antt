-- ===== src/Builder/Staging/Sorted.antt =====
-- The order of the rows of a staging that was sorted.
use mmpack.Prelude.{
  ℕ, zero, suc, ◌+◌, ◌*◌, ◌<◌, ◌≡◌, refl, sym, ap, ap₂, ◌∙◌, Bool, false, not, ◌&&◌, ◌||◌, List, [],
  ◌∷◌, map, drop, take, length, get_or, ltb, ◌==◌, if◌then◌else◌, arith,
}
use mmpack.Bits.{Bytes}
use mmpack.Builder.Staging.{
  Staging, memory, wide, blob, size, partition_at, address_at, address_bytes_at, sort,
}
use mmpack.Builder.Staging.Memory
use mmpack.Builder.Staging.Wide
use mmpack.Builder.Staging.Blob
use mmpack.Builder.Staging.Blob.{BlobStaging, indices, gather, index_before, less_bytes}
use mmpack.Builder.Staging.Push.{lex_test}
use mmpack.Builder.Staging.Push.Keys.{key_order}
use mmpack.Builder.Staging.Push.Arena.{less_bytes-take, less_bytes-take_right}
use mmpack.Builder.Staging.Rows.{Coords, coords_at, address_less, row_less, IsStaging}
use mmpack.Builder.Staging.Sort.{Permutes, entry, AreBelow, length-slot, entry-at, sorted-AreBelow}
use mmpack.Builder.Staging.Strict.{
  IsStrict, IsStrict-through, ltb-IsStrict, row_less-IsStrict, lex_equal, less_bytes-equal,
}

-- No element is below the one before it.
abbrev pub AreSorted : {A : Type 0} → (A → A → Bool) → List A → Type 0
AreSorted less [] = Unit
AreSorted less (x ∷ []) = Unit
AreSorted less (x ∷ y ∷ xs) = (less y x ≡ false) × AreSorted less (y ∷ xs)

-- std::sort sorts by every strict weak order.
abbrev pub Sorts : ((A : Type 0) → (A → A → Bool) → List A → List A) → Type 1
Sorts std_sort =
    (A : Type 0) (less : A → A → Bool) (xs : List A)
    → IsStrict less
    → AreSorted less (std_sort A less xs)

AreSorted-at :
    {A : Type 0} (less : A → A → Bool) (xs : List A) (i : ℕ) (d : A)
    → AreSorted less xs
    → i + 1 < length xs
    → less (get_or xs (i + 1) d) (get_or xs i d) ≡ false
AreSorted-at less [] i d h l = absurd (omega arith)
AreSorted-at less (x ∷ []) i d h l = absurd (omega arith)
AreSorted-at less (x ∷ y ∷ xs) zero d (h, hs) l =
    ap (λ (n : ℕ). less (get_or (x ∷ y ∷ xs) n d) x) one ∙ h
  where
    one : 0 + 1 ≡ suc zero
    one = omega arith
AreSorted-at less (x ∷ y ∷ xs) (suc i) d (h, hs) l =
    ap (λ (n : ℕ). less (get_or (x ∷ y ∷ xs) n d) (get_or (y ∷ xs) i d)) next
    ∙ AreSorted-at less (y ∷ xs) i d hs (omega arith)
  where
    next : suc i + 1 ≡ suc (i + 1)
    next = omega arith

-- The order of the indices of a blob staging is that of their rows.
index_before-row_less :
    (s : BlobStaging) (a b : ℕ)
    → index_before s a b ≡ row_less (blob s) (coords_at (blob s) a) (coords_at (blob s) b)
unfolding index_before Blob.slot Blob.partition_at Blob.address_bytes_at partition_at
    address_bytes_at coords_at row_less address_less
index_before-row_less s a b =
    let p = (Blob.row s a).partition in
    let q = (Blob.row s b).partition in
    let x = drop (a * s.width) s.arena in
    let y = drop (b * s.width) s.arena in
    choice p q (less_bytes s.width x y)
    ∙ ap (λ r. ltb p q || (p == q && r))
        (sym (less_bytes-take s.width x (take s.width y) ∙ less_bytes-take_right s.width x y))
  where
    choice :
        (p q : ℕ) (r : Bool) → (if not (p == q) then ltb p q else r) ≡ (ltb p q || (p == q && r))
    choice p q r = ground arith

level_address : (a b : ℕ) → ltb a b ≡ false → ltb b a ≡ false → a ≡ b
level_address a b e f = ground arith

AreBelow-at :
    (n : ℕ) (order : List ℕ) (k : ℕ) → AreBelow n order → k < length order → get_or order k 0 < n
unfolding AreBelow
AreBelow-at n [] k h l = absurd (omega arith)
AreBelow-at n (i ∷ order) zero (here, rest) l = here
AreBelow-at n (i ∷ order) (suc k) (here, rest) l = AreBelow-at n order k rest (omega arith)

length-map : {A B : Type 0} (f : A → B) (xs : List A) → length (map f xs) ≡ length xs
length-map f [] = refl
length-map f (x ∷ xs) = ap suc (length-map f xs)

module _ (std_sort : (A : Type 0) → (A → A → Bool) → List A → List A) (permutes : Permutes std_sort)
    (sorts : Sorts std_sort) where
  -- Where std::sort permutes and sorts, no row of a sorted staging is before the row ahead of it.
  pub sort-row_less :
      (s : Staging) (i : ℕ)
      → IsStaging s
      → i + 1 < size (sort std_sort s)
      → row_less s (coords_at (sort std_sort s) (i + 1)) (coords_at (sort std_sort s) i) ≡ false
  unfolding sort Memory.sort Wide.sort coords_at row_less address_less size partition_at address_at
      address_bytes_at Memory.size Memory.partition_at Memory.address_at Wide.size Wide.partition_at
      Wide.address_at Wide.before Blob.sort Blob.size entry
  sort-row_less (memory s) i whole h =
      let rows = std_sort Memory.Row Memory.before s.rows in
      sym (
        key_order s.address_bits (get_or rows (i + 1) Memory.no_row).key
          (get_or rows i Memory.no_row).key)
      ∙ AreSorted-at Memory.before rows i Memory.no_row
          (sorts Memory.Row Memory.before s.rows
            (IsStrict-through (λ (r : Memory.Row). r.key) Memory.before ltb-IsStrict (λ a b. refl)))
          h
  sort-row_less (wide s) i whole h =
      let before : Wide.Row → Wide.Row → Bool =
        λ a b. Wide.before a.partition a.address b.partition b.address in
      let parts : Wide.Row → Coords =
        λ r. record { partition = r.partition; address = r.address; bytes = [] } in
      let rows = std_sort Wide.Row before s.rows in
      let next = get_or rows (i + 1) Wide.no_row in
      let here = get_or rows i Wide.no_row in
      sym (lex_test next.partition here.partition next.address here.address)
      ∙ AreSorted-at before rows i Wide.no_row
          (sorts Wide.Row before s.rows (
            IsStrict-through parts before (row_less-IsStrict (wide s))
              (λ a b. lex_test a.partition b.partition a.address b.address)))
          h
  sort-row_less (blob s) i whole h =
      let order = std_sort ℕ (index_before s) (indices (length s.rows) 0) in
      let below = sorted-AreBelow std_sort permutes (index_before s) (length s.rows) in
      let strict =
        IsStrict-through (λ k. coords_at (blob s) k) (index_before s) (row_less-IsStrict (blob s))
          (index_before-row_less s) in
      let long : i + 1 < length order = omega (arith, h, length-map (Blob.row s) order) in
      ap₂ (λ a b. row_less (blob s) a b) (ap (λ e. e.0) (entry-at s whole order (i + 1) below long))
        (ap (λ e. e.0) (entry-at s whole order i below (omega arith)))
      ∙ sym (index_before-row_less s (get_or order (i + 1) 0) (get_or order i 0))
      ∙ AreSorted-at (index_before s) order i 0
          (sorts ℕ (index_before s) (indices (length s.rows) 0) strict) long

  -- The widths of the addresses of a sorted staging.
  sort-width :
      (s : BlobStaging) (i : ℕ)
      → IsStaging (blob s)
      → i < size (sort std_sort (blob s))
      → length (coords_at (sort std_sort (blob s)) i).bytes ≡ s.width
  unfolding sort Blob.sort size Blob.size entry coords_at address_bytes_at Blob.address_bytes_at
  sort-width s i whole h =
      let order = std_sort ℕ (index_before s) (indices (length s.rows) 0) in
      let below = sorted-AreBelow std_sort permutes (index_before s) (length s.rows) in
      let long : i < length order = omega (arith, h, length-map (Blob.row s) order) in
      ap (λ e. length (e.0).bytes) (entry-at s whole order i below long)
      ∙ length-slot s whole (get_or order i 0) (AreBelow-at (length s.rows) order i below long)

  -- Where two neighbours of a sorted staging are not in order, they have the same coordinates.
  pub sort-twice :
      (s : Staging) (i : ℕ)
      → IsStaging s
      → i + 1 < size (sort std_sort s)
      → row_less s (coords_at (sort std_sort s) i) (coords_at (sort std_sort s) (i + 1)) ≡ false
      → coords_at (sort std_sort s) i ≡ coords_at (sort std_sort s) (i + 1)
  unfolding row_less address_less coords_at sort partition_at address_at address_bytes_at
  sort-twice (memory s) i whole h e =
      let f = sort-row_less (memory s) i whole h in
      let (p, r, q) = lex_equal _ _ _ _ e f in
      ap₂ (λ (x y : ℕ). record { partition = x; address = y; bytes = [] }) p (level_address _ _ r q)
  sort-twice (wide s) i whole h e =
      let f = sort-row_less (wide s) i whole h in
      let (p, r, q) = lex_equal _ _ _ _ e f in
      ap₂ (λ (x y : ℕ). record { partition = x; address = y; bytes = [] }) p (level_address _ _ r q)
  sort-twice (blob s) i whole h e =
      let f = sort-row_less (blob s) i whole h in
      let (p, r, q) = lex_equal _ _ _ _ e f in
      ap₂ (λ (x : ℕ) (y : Bytes). record { partition = x; address = 0; bytes = y }) p
        (less_bytes-equal s.width _ _ (sort-width s i whole (omega arith))
          (sort-width s (i + 1) whole h) r q)
