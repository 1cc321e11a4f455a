-- ===== src/Table/Steps.antt =====
-- One step forward and one back.
use mmpack.Prelude.{
  ℕ, zero, suc, ◌+◌, ◌-◌, ◌≤◌, ◌<◌, ◌≡◌, refl, sym, ap, ap₂, ◌∙◌, true, false, Bool-cases, ◌&&◌,
  leb, ltb, ◌==◌, inl, inr, arith,
}
use mmpack.Table.Layout.{Table, slot_count}
use mmpack.Table.Cursor.{Cursor, finish, normalize_loop, normalize, retreat_loop, retreat, advance}
use mmpack.Table.Order.{IsPosition}

-- Walking over empty slots and back ends where the walk over them began.
retreat-normalize_loop :
    (t : Table) (rounds s : ℕ) → retreat t (normalize_loop t rounds s 0) ≡ retreat_loop t s
unfolding normalize_loop retreat
retreat-normalize_loop t zero s = refl
retreat-normalize_loop t (suc rounds) s =
    elim (Bool-cases (ltb s t.dir_count && leb (slot_count t s) 0)) [
      | inr b ↦ rw b refl
      | inl b ↦
          let none_here : (slot_count t s == 0) ≡ true = ground arith in
          let next : s + 1 ≡ suc s = omega arith in
          rw b (
            retreat-normalize_loop t rounds (s + 1)
            ∙ ap (retreat_loop t) next
            ∙ (unfold retreat_loop in rw none_here refl))
    ]

at_finish :
    (t : Table) (s i : ℕ) → s ≡ t.dir_count → i ≡ 0 → record { slot = s; index = i } ≡ finish t
unfolding finish
at_finish t s i e z = ap₂ (λ (a b : ℕ). record { slot = a; index = b }) e z

-- The loop that leaves the last slot leaves it at the end.
normalize_loop-finish :
    (t : Table) (rounds s i : ℕ)
    → s ≤ t.dir_count
    → (t.dir_count ≤ s → i ≡ 0)
    → leb t.dir_count (normalize_loop t rounds s i).slot ≡ true
    → normalize_loop t rounds s i ≡ finish t
unfolding normalize_loop
normalize_loop-finish t zero s i h z = λ b. at_finish t s i (ground arith) (z (ground arith))
normalize_loop-finish t (suc rounds) s i h z =
    elim (Bool-cases (ltb s t.dir_count && leb (slot_count t s) i)) [
      | inl c ↦ rw c (normalize_loop-finish t rounds (s + 1) 0 (ground arith) (λ past. refl))
      | inr c ↦ rw c (λ b. at_finish t s i (ground arith) (z (ground arith)))
    ]

normalize-normalize_loop :
    (t : Table) (s i : ℕ)
    → s < t.dir_count
    → normalize t s i ≡ normalize_loop t (t.dir_count - s) s i
unfolding normalize
normalize-normalize_loop t s i h =
    elim (Bool-cases (leb t.dir_count (normalize_loop t (t.dir_count - s) s i).slot)) [
      | inl b ↦ rw b (
          sym (
            normalize_loop-finish t (t.dir_count - s) s i (omega arith)
              (λ past. absurd (omega arith)) b))
      | inr b ↦ rw b refl
    ]

retreat-inside :
    (t : Table) (s i : ℕ)
    → retreat t (record { slot = s; index = i + 1 }) ≡ record { slot = s; index = i }
unfolding retreat
retreat-inside t s i =
    let later : ltb 0 (i + 1) ≡ true = ground arith in
    let before : i + 1 - 1 ≡ i = omega arith in rw (later, before) refl

retreat_loop-last :
    (t : Table) (s i : ℕ)
    → slot_count t s ≡ i + 1
    → retreat_loop t (s + 1) ≡ record { slot = s; index = i }
unfolding retreat_loop
retreat_loop-last t s i e =
    let next : s + 1 ≡ suc s = omega arith in
    let some_here : (slot_count t s == 0) ≡ false = ground arith in
    let before : slot_count t s - 1 ≡ i = omega arith in
    ap (retreat_loop t) next ∙ rw (some_here, before) refl

retreat-step :
    (t : Table) (rounds s i : ℕ)
    → s < t.dir_count
    → i < slot_count t s
    → retreat t (normalize_loop t (suc rounds) s (i + 1)) ≡ record { slot = s; index = i }
unfolding normalize_loop
retreat-step t rounds s i h p =
    elim (Bool-cases (ltb s t.dir_count && leb (slot_count t s) (i + 1))) [
      | inl b ↦
          rw b (retreat-normalize_loop t rounds (s + 1) ∙ retreat_loop-last t s i (ground arith))
      | inr b ↦ rw b (retreat-inside t s i)
    ]

-- From every element, a step forward, to the next element or the end and over all empty slots
-- between, and a step back leads to that element again.
pub retreat-advance : (t : Table) (c : Cursor) → IsPosition t c → retreat t (advance t c) ≡ c
unfolding advance
retreat-advance t c (h, p) =
    let rounds : t.dir_count - c.slot ≡ suc (t.dir_count - c.slot - 1) = omega arith in
    ap (retreat t) (normalize-normalize_loop t c.slot (c.index + 1) h)
    ∙ ap (λ (n : ℕ). retreat t (normalize_loop t n c.slot (c.index + 1))) rounds
    ∙ retreat-step t (t.dir_count - c.slot - 1) c.slot c.index h p
