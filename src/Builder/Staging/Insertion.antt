-- ===== src/Builder/Staging/Insertion.antt =====
-- A sort by insertion, which the examples take for std::sort.
use mmpack.Prelude.{◌≡◌, Bool, false, if◌then◌else◌, if-elim, List, [], ◌∷◌}
use mathlib.Core.List.{Perm}
use mathlib.Core.List.Perm
use mmpack.Builder.Staging.Sort.{Permutes}
use mmpack.Builder.Staging.Strict.{IsStrict}
use mmpack.Builder.Staging.Sorted.{AreSorted, Sorts}

-- Sorting by insertion, for std::sort.
unfoldable pub insert : (A : Type 0) → (A → A → Bool) → A → List A → List A
insert A less x [] = x ∷ []
insert A less x (y ∷ ys) =
    let rest = insert A less x ys in if less y x then y ∷ rest else x ∷ y ∷ ys

unfoldable pub std_sort : (A : Type 0) → (A → A → Bool) → List A → List A
unfolding insert
std_sort A less [] = []
std_sort A less (x ∷ xs) = insert A less x (std_sort A less xs)

insert-permutes :
    (A : Type 0) (less : A → A → Bool) (x : A) (ys : List A) → Perm (insert A less x ys) (x ∷ ys)
unfolding insert
insert-permutes A less x [] = Perm.refl (x ∷ [])
insert-permutes A less x (y ∷ ys) =
    if-elim (λ l. Perm l (x ∷ y ∷ ys)) (less y x) _ _
      (λ e. Perm.trans (Perm.cons y (insert-permutes A less x ys)) (Perm.swap x y ys))
      (λ e. Perm.refl (x ∷ y ∷ ys))

pub std_sort-Permutes : Permutes std_sort
unfolding std_sort
std_sort-Permutes A less [] = Perm.refl []
std_sort-Permutes A less (x ∷ xs) =
    Perm.trans (insert-permutes A less x (std_sort A less xs))
      (Perm.cons x (std_sort-Permutes A less xs))

-- The first of some elements is not below another one.
abbrev Heads : {A : Type 0} → (A → A → Bool) → A → List A → Type 0
Heads less y [] = Unit
Heads less y (z ∷ zs) = less z y ≡ false

AreSorted-cons :
    {A : Type 0} (less : A → A → Bool) (y : A) (zs : List A)
    → Heads less y zs
    → AreSorted less zs
    → AreSorted less (y ∷ zs)
AreSorted-cons less y [] h hs = tt
AreSorted-cons less y (z ∷ zs) h hs = (h, hs)

AreSorted-parts :
    {A : Type 0} (less : A → A → Bool) (y : A) (zs : List A)
    → AreSorted less (y ∷ zs)
    → Heads less y zs × AreSorted less zs
AreSorted-parts less y [] h = (tt, tt)
AreSorted-parts less y (z ∷ zs) h = h

insert-Heads :
    (A : Type 0) (less : A → A → Bool) (y x : A) (zs : List A)
    → less x y ≡ false
    → Heads less y zs
    → Heads less y (insert A less x zs)
unfolding insert
insert-Heads A less y x [] e h = e
insert-Heads A less y x (z ∷ zs) e h = if-elim (Heads less y) (less z x) _ _ (λ l. h) (λ l. e)

insert-AreSorted :
    (A : Type 0) (less : A → A → Bool) (x : A) (ys : List A)
    → IsStrict less
    → AreSorted less ys
    → AreSorted less (insert A less x ys)
unfolding insert
insert-AreSorted A less x [] strict h = tt
insert-AreSorted A less x (y ∷ ys) strict h =
    let (first, rest) = AreSorted-parts less y ys h in
    if-elim (AreSorted less) (less y x) _ _
      (λ e.
        AreSorted-cons less y (insert A less x ys)
          (insert-Heads A less y x ys (strict.asym y x e) first)
          (insert-AreSorted A less x ys strict rest))
      (λ e. (e, h))

pub std_sort-Sorts : Sorts std_sort
unfolding std_sort
std_sort-Sorts A less [] strict = tt
std_sort-Sorts A less (x ∷ xs) strict =
    insert-AreSorted A less x (std_sort A less xs) strict (std_sort-Sorts A less xs strict)
