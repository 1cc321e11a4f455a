-- ===== src/Builder/Commit/Invariant.antt =====
-- The invariant of the runs of a builder.
use mmpack.Prelude.{
  ℕ, ◌+◌, ◌-◌, ◌<◌, ◌≡◌, ◌≢◌, refl, ap, ap₂, ◌∙◌, true, false, Option, none, some, List, [], length,
  arith,
}
use native.Mathlib.Decide.{dec_lt}
use mmpack.Bits.{Bytes}
use mmpack.Builder.Staging.{Staging, memory, wide, blob, size, is_sorted}
use mmpack.Builder.Staging.Rows.{Coords, coords_at, row_less, IsStaging, Ascends, Pushed, FitsKey}
use mmpack.Builder.State.{
  InputOrder, assume_sorted, undecided, keyed, explicit, explicit_wide, RecordRef,
}
use mmpack.Builder.Commit.Steps.{IsHandle}
use mmpack.Builder.Commit.View.{View}

-- The staging is the one of the mode, with the parameters that the builder holds for it.
abbrev pub Agrees : View → Option Staging → Type 0
Agrees v none = (v.mode ≡ undecided) × (v.blob ≡ false)
Agrees v (some (memory s)) =
    (v.mode ≡ keyed) × (v.blob ≡ false) × (s.address_bits ≡ v.options.address_bits)
Agrees v (some (wide s)) = (v.mode ≡ explicit) × (v.blob ≡ false)
Agrees v (some (blob s)) =
    (v.mode ≡ explicit_wide)
    × (v.blob ≡ true)
    × (s.width ≡ v.wide_width)
    × (length v.pending_address ≡ v.wide_width)

-- The coordinates with which a staging takes a record, and those of the record that was committed last.
abbrev pub coords_of : Staging → ℕ → ℕ → Bytes → Coords
coords_of (memory s) partition address bytes = record {
  partition = partition;
  address = address;
  bytes = [];
}
coords_of (wide s) partition address bytes = record {
  partition = partition;
  address = address;
  bytes = [];
}
coords_of (blob s) partition address bytes = record {
  partition = partition;
  address = 0;
  bytes = bytes;
}

abbrev pub last_of : View → Staging → Coords
last_of v s = coords_of s v.last_partition v.last_address v.last_wide

-- The staging has `count` rows, of which the last has the coordinates `last`; its flag is true only if they ascend,
-- and it is true if the input is assumed to be sorted.
pub record AreRows (order : InputOrder) (count : ℕ) (last : Coords) (s : Staging) : Type 0 where
  pub sound : IsStaging s
  pub total : size s ≡ count
  pub ascends : is_sorted s ≡ true → Ascends s
  pub ends : 0 < count → coords_at s (count - 1) ≡ last
  pub in_order : order ≡ assume_sorted → is_sorted s ≡ true

abbrev pub RowsOf : View → Option Staging → Type 0
RowsOf v none = v.count ≡ 0
RowsOf v (some s) = AreRows v.options.order v.count (last_of v s) s

-- A handle was given out in a mode; in a keyed build its parts fit the key.
abbrev pub AreHandles : View → List RecordRef → Type 0
AreHandles v hs =
    (rec : RecordRef)
    → IsHandle rec hs
    → (v.mode ≢ undecided)
      × (v.mode ≡ keyed → FitsKey v.options.address_bits rec.partition rec.address)

pub record IsRun (v : View) (hs : List RecordRef) : Type 0 where
  pub agrees : Agrees v v.staging
  pub rows : RowsOf v v.staging
  pub handles : AreHandles v hs
  pub going : v.finished ≡ false

-- A pushed record keeps the rows in shape, where it comes behind the last one if it has to.
pub AreRows-Pushed :
    (order : InputOrder) (count : ℕ) (last c : Coords) (s t : Staging) (tuple : ℕ)
    → AreRows order count last s
    → Pushed s c tuple t
    → (order ≡ assume_sorted → 0 < count → row_less s last c ≡ true)
    → AreRows order (count + 1) c t
AreRows-Pushed order count last c s t tuple ok pushed behind = record {
  sound = pushed.sound;
  total = pushed.longer ∙ ap (λ (n : ℕ). n + 1) ok.total;
  ascends = rising;
  ends = λ h. ap (coords_at t) at_end ∙ pushed.adds.0;
  in_order = λ e. pushed.stays_sorted (ok.in_order e) (λ h.
      ap (λ l. row_less s l c)
        (ap (λ (n : ℕ). coords_at s (n - 1)) ok.total ∙ ok.ends (omega (arith, ok.total)))
      ∙ behind e (omega (arith, ok.total)));
}
  where
    at_end : count + 1 - 1 ≡ size s
    at_end = omega (arith, ok.total)

    rising : is_sorted t ≡ true → Ascends t
    rising e i h = elim (dec_lt (i + 1) (size s)) [
      | yes l ↦
          let (was, step) = pushed.was_sorted e in
          let same =
            ap₂ (row_less t) (pushed.keeps i (omega arith)).0 (pushed.keeps (i + 1) l).0
            ∙ pushed.alike (coords_at s i) (coords_at s (i + 1)) in
          same ∙ ok.ascends was i l
      | no nl ↦
          let (was, step) = pushed.was_sorted e in
          let last_row : i + 1 ≡ size s = omega (arith, pushed.longer) in
          let before : i ≡ size s - 1 = omega arith in
          let ends =
            ap₂ (row_less t) ((pushed.keeps i (omega arith)).0 ∙ ap (coords_at s) before)
              (ap (coords_at t) last_row ∙ pushed.adds.0) in
          ends ∙ pushed.alike (coords_at s (size s - 1)) c ∙ step (omega arith)
    ]

-- A mode is decided where there is a staging.
pub undecided-none : (v : View) (o : Option Staging) → Agrees v o → v.mode ≡ undecided → o ≡ none
undecided-none v none h e = refl
undecided-none v (some (memory s)) h e = let a = h.0 in cc
undecided-none v (some (wide s)) h e = let a = h.0 in cc
undecided-none v (some (blob s)) h e = let a = h.0 in cc

-- Rows of a staging that has none.
pub AreRows-fresh :
    (order : InputOrder) (last : Coords) (s : Staging)
    → IsStaging s
    → size s ≡ 0
    → is_sorted s ≡ true
    → AreRows order 0 last s
AreRows-fresh order last s whole empty sorted = record {
  sound = whole;
  total = empty;
  ascends = λ e i h. absurd (omega (arith, empty));
  ends = λ h. absurd (omega arith);
  in_order = λ e. sorted;
}
