-- ===== src/Builder/Directory/Dense.antt =====
-- The slots of a dense directory.
use mmpack.Prelude.{
  ℕ, zero, suc, ◌+◌, ◌-◌, ◌≤◌, ◌<◌, ◌≡◌, refl, ap, ◌∙◌, List, [], ◌∷◌, ◌++◌, length, length-append,
  get_or, get_or-front, arith,
}
use native.Mathlib.Decide.{dec_lt}
use mmpack.Format.{DirEntry}
use mmpack.Builder.Directory.{no_entry, gap_slots, dense_slots}

-- Partitions that increase, from `next` on.
abbrev pub Increases : ℕ → List DirEntry → Type 0
Increases next [] = Unit
Increases next (d ∷ directory) = (next ≤ d.partition) × Increases (d.partition + 1) directory

length-gap_slots : (w rounds next : ℕ) → length (gap_slots w rounds next) ≡ rounds
unfolding gap_slots
length-gap_slots w zero next = refl
length-gap_slots w (suc rounds) next = ap suc (length-gap_slots w rounds (next + 1))

gap_slots-partition :
    (w rounds next i : ℕ)
    → i < rounds
    → (get_or (gap_slots w rounds next) i no_entry).partition ≡ next + i
unfolding gap_slots
gap_slots-partition w zero next i h = absurd (omega arith)
gap_slots-partition w (suc rounds) next zero h = omega arith
gap_slots-partition w (suc rounds) next (suc i) h =
    gap_slots-partition w rounds (next + 1) i (omega arith) ∙ omega arith

get_or-past :
    {A : Type 0} (xs ys : List A) (i : ℕ) (d : A)
    → length xs ≤ i
    → get_or (xs ++ ys) i d ≡ get_or ys (i - length xs) d
get_or-past [] ys i d h = ap (λ n. get_or ys n d) (omega arith)
get_or-past (x ∷ xs) ys zero d h = absurd (omega arith)
get_or-past (x ∷ xs) ys (suc i) d h =
    get_or-past xs ys i d (omega arith) ∙ ap (λ n. get_or ys n d) (omega arith)

-- The slot at the entry's own index, or behind it.
get_or-at :
    (d : DirEntry) (rest : List DirEntry) (next j k : ℕ)
    → (next + k ≡ d.partition)
    → ((m : ℕ) → j ≡ suc m → (get_or rest m no_entry).partition ≡ d.partition + 1 + m)
    → (get_or (d ∷ rest) j no_entry).partition ≡ next + (k + j)
get_or-at d rest next zero k at behind = omega (arith, at)
get_or-at d rest next (suc m) k at behind = behind m refl ∙ omega (arith, at)

module _ (w : ℕ) where
  slot-partition :
      (next : ℕ) (directory : List DirEntry) (i : ℕ)
      → Increases next directory
      → i < length (dense_slots w next directory)
      → (get_or (dense_slots w next directory) i no_entry).partition ≡ next + i
  unfolding dense_slots
  slot-partition next [] i inc h = absurd (omega arith)
  slot-partition next (d ∷ directory) i (low, inc) h =
      let gap = d.partition - next in
      let front = gap_slots w gap next in
      let rest = dense_slots w (d.partition + 1) directory in
      let size = length-gap_slots w gap next in
      let total = length-append front (d ∷ rest) in
      elim (dec_lt i gap) [
        | yes l ↦
            ap (λ e. e.partition) (get_or-front front (d ∷ rest) i no_entry (omega (arith, size)))
            ∙ gap_slots-partition w gap next i l
        | no nl ↦
            ap (λ e. e.partition) (get_or-past front (d ∷ rest) i no_entry (omega (arith, size)))
            ∙ get_or-at d rest next (i - length front) gap (omega arith) (λ m e.
              slot-partition (d.partition + 1) directory m inc (omega (arith, size, total, e)))
            ∙ omega (arith, size)
      ]

Increases-low :
    (next : ℕ) (directory : List DirEntry) (k : ℕ)
    → Increases next directory
    → k < length directory
    → next ≤ (get_or directory k no_entry).partition
Increases-low next [] k inc h = absurd (omega arith)
Increases-low next (d ∷ directory) zero (low, inc) h = low
Increases-low next (d ∷ directory) (suc k) (low, inc) h =
    let behind = Increases-low (d.partition + 1) directory k inc (omega arith) in
    omega (arith, behind, low)

module _ (w : ℕ) where
  slot-entry :
      (next : ℕ) (directory : List DirEntry) (k : ℕ)
      → Increases next directory
      → k < length directory
      → get_or
          (dense_slots w next directory)
          ((get_or directory k no_entry).partition - next)
          no_entry
        ≡ get_or directory k no_entry
  unfolding dense_slots
  slot-entry next [] k inc h = absurd (omega arith)
  slot-entry next (d ∷ directory) zero (low, inc) h =
      let gap = d.partition - next in
      let front = gap_slots w gap next in
      let rest = dense_slots w (d.partition + 1) directory in
      let size = length-gap_slots w gap next in
      let here : gap - length front ≡ 0 = omega (arith, size) in
      get_or-past front (d ∷ rest) gap no_entry (omega (arith, size))
      ∙ ap (λ n. get_or (d ∷ rest) n no_entry) here
  slot-entry next (d ∷ directory) (suc k) (low, inc) h =
      let gap = d.partition - next in
      let front = gap_slots w gap next in
      let rest = dense_slots w (d.partition + 1) directory in
      let size = length-gap_slots w gap next in
      let p = (get_or directory k no_entry).partition in
      let above : d.partition + 1 ≤ p =
        Increases-low (d.partition + 1) directory k inc (omega arith) in
      let there : p - next - length front ≡ suc (p - (d.partition + 1)) =
        omega (arith, size, above, low) in
      get_or-past front (d ∷ rest) (p - next) no_entry (omega (arith, size, above, low))
      ∙ ap (λ n. get_or (d ∷ rest) n no_entry) there
      ∙ slot-entry (d.partition + 1) directory k inc (omega arith)

-- If the partitions of a directory increase, then the slot at index i of the dense directory has
-- partition i, and each entry of the directory stands at the index that is its partition.
pub dense_slots_lem :
    (w : ℕ) (directory : List DirEntry)
    → Increases 0 directory
    → ((i : ℕ)
        → i < length (dense_slots w 0 directory)
        → (get_or (dense_slots w 0 directory) i no_entry).partition ≡ i)
      × ((k : ℕ)
          → k < length directory
          → get_or (dense_slots w 0 directory) (get_or directory k no_entry).partition no_entry
            ≡ get_or directory k no_entry)
dense_slots_lem w directory inc = (
  λ i h. slot-partition w 0 directory i inc h ∙ omega arith,
  λ k h.
      ap (λ n. get_or (dense_slots w 0 directory) n no_entry) (omega arith)
      ∙ slot-entry w 0 directory k inc h,
)
