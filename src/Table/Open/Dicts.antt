-- ===== src/Table/Open/Dicts.antt =====
-- The dictionaries of an image that try_open accepts.
use mmpack.Prelude.{
  ℕ, zero, suc, ◌+◌, ◌-◌, ◌≤◌, ◌<◌, ◌≡◌, ◌⊎◌, refl, sym, subst, Bool, true, false, not, ◌||◌, ◌&&◌,
  some, List, [], ◌∷◌, take, drop, get_elem?, ltb, ◌==◌, if◌then◌else◌, inl, inr, arith,
}
use mmpack.Error.{
  Status, Result, done, bad_dictionary, fail_if-eq_done, or_fail-eq_done, >>=-eq_done, done-inj,
}
use mmpack.Bits.{Bytes}
use mmpack.Dictionary.{BlobView, FixedView, open_fixed, open_blob}
use mmpack.Schema.{SchemaView, DictEntry, dictionary, interned}
use mmpack.Table.Open.{header_size, open_dictionaries}

-- A view that was opened from bytes of the image before `tail`.
abbrev pub IsBlob : Bytes → ℕ → BlobView → Type 0
IsBlob image tail view =
    (at : ℕ) × (size : ℕ) × (at + size ≤ tail) × (open_blob (take size (drop at image)) ≡ some view)

abbrev pub IsComposite : SchemaView → Bytes → ℕ → FixedView → Type 0
IsComposite schema image tail view =
    (at : ℕ) × (size : ℕ) × (at + size ≤ tail)
    × (open_fixed (take size (drop at image)) ≡ some view)
    × (view.elem_size ≡ schema.head.value_stride)

-- The dictionaries from `i` on, `rounds` of them, when they are opened with `value` as the composite one so far.
pub record AreOpened (rounds : ℕ) (schema : SchemaView) (image : Bytes) (tail i : ℕ)
    (value : FixedView) (r : List BlobView × FixedView) : Type 0 where
  pub each :
      (j : ℕ)
      → j < rounds
      → ((interned schema ≡ true) × (i + j ≡ schema.head.value_dict))
        ⊎ ((view : BlobView) × (get_elem? r.0 j ≡ some view) × IsBlob image tail view)
  pub before : schema.head.value_dict < i → r.1 ≡ value
  pub composite :
      interned schema ≡ true
      → i ≤ schema.head.value_dict
      → schema.head.value_dict < i + rounds
      → IsComposite schema image tail r.1

module _ (rounds : ℕ) (schema : SchemaView) (image : Bytes) (tail i : ℕ) (value : FixedView) where
  cons_blob :
      (blob : BlobView) (r : List BlobView × FixedView)
      → IsBlob image tail blob
      → ((interned schema && i == schema.head.value_dict) ≡ false)
      → AreOpened rounds schema image tail (i + 1) value r
      → AreOpened (suc rounds) schema image tail i value (blob ∷ r.0, r.1)
  cons_blob blob r b other ok = record {
    each = each;
    before = λ h. ok.before (omega arith);
    composite = λ n lo hi. ok.composite n (ground arith) (omega arith);
  }
    where
      each :
          (j : ℕ)
          → j < suc rounds
          → ((interned schema ≡ true) × (i + j ≡ schema.head.value_dict))
            ⊎ ((view : BlobView) × (get_elem? (blob ∷ r.0) j ≡ some view) × IsBlob image tail view)
      each zero h = inr (blob, refl, b)
      each (suc j) h = elim (ok.each j (omega arith)) [
        | inl (n, e) ↦ inl (n, omega arith)
        | inr w ↦ inr w
      ]

  cons_composite :
      (blank : BlobView) (fixed : FixedView) (r : List BlobView × FixedView)
      → IsComposite schema image tail fixed
      → ((interned schema && i == schema.head.value_dict) ≡ true)
      → AreOpened rounds schema image tail (i + 1) fixed r
      → AreOpened (suc rounds) schema image tail i value (blank ∷ r.0, r.1)
  cons_composite blank fixed r c here ok =
      let same : i ≡ schema.head.value_dict = ground arith in
      let inner : interned schema ≡ true = ground arith in
      record {
        each = each same inner;
        before = λ h. absurd (omega arith);
        composite =
            λ n lo hi. subst (IsComposite schema image tail) (sym (ok.before (omega arith))) c;
      }
    where
      each :
          i ≡ schema.head.value_dict
          → interned schema ≡ true
          → (j : ℕ) → j < suc rounds
          → ((interned schema ≡ true) × (i + j ≡ schema.head.value_dict))
            ⊎ ((view : BlobView) × (get_elem? (blank ∷ r.0) j ≡ some view) × IsBlob image tail view)
      each same inner zero h = inl (inner, omega arith)
      each same inner (suc j) h = elim (ok.each j (omega arith)) [
        | inl (n, e) ↦ inl (n, omega arith)
        | inr w ↦ inr w
      ]

in_room :
    (tail : ℕ) (e : DictEntry)
    → (ltb e.offset header_size || ltb tail e.offset || ltb (tail - e.offset) e.size) ≡ false
    → e.offset + e.size ≤ tail
in_room tail e h = ground arith

if-eq_done :
    {A : Type 0} (test : Bool) (x y : Result Status A) {a : A}
    → (if test then x else y) ≡ done a
    → ((test ≡ true) × (x ≡ done a)) ⊎ ((test ≡ false) × (y ≡ done a))
if-eq_done true x y e = inl (refl, e)
if-eq_done false x y e = inr (refl, e)

pub open_dictionaries-AreOpened :
    (rounds : ℕ) (schema : SchemaView) (image : Bytes) (tail i : ℕ) (value : FixedView)
    {r : List BlobView × FixedView}
    → open_dictionaries rounds schema image tail i value ≡ done r
    → AreOpened rounds schema image tail i value r
unfolding open_dictionaries
open_dictionaries-AreOpened zero schema image tail i value e =
    subst (AreOpened zero schema image tail i value) (done-inj e) (record {
      each = λ j h. absurd (omega arith);
      before = λ h. refl;
      composite = λ n lo hi. absurd (omega arith);
    })
open_dictionaries-AreOpened (suc rounds) schema image tail i value {r} e =
    let d = dictionary schema i in
    let block = take d.size (drop d.offset image) in
    let (bounds, e1) =
      fail_if-eq_done
        (ltb d.offset header_size || ltb tail d.offset || ltb (tail - d.offset) d.size)
        bad_dictionary _ e in
    let room = in_room tail d bounds in
    elim (if-eq_done (interned schema && i == schema.head.value_dict) _ _ e1) [
      | inl (here, e2) ↦
          let (fixed, opened, e3) = or_fail-eq_done (open_fixed block) bad_dictionary _ e2 in
          let (size, e4) =
            fail_if-eq_done (not (fixed.elem_size == schema.head.value_stride)) bad_dictionary _
              e3 in
          let (rest, later, e5) =
            >>=-eq_done (open_dictionaries rounds schema image tail (i + 1) fixed) _ e4 in
          subst (AreOpened (suc rounds) schema image tail i value) (done-inj e5) (
            cons_composite rounds schema image tail i value
              (record { offsets = []; blob = []; count = 0 }) fixed rest
              (d.offset, d.size, room, opened, ground arith) here
              (open_dictionaries-AreOpened rounds schema image tail (i + 1) fixed later))
      | inr (other, e2) ↦
          let (blob, opened, e3) = or_fail-eq_done (open_blob block) bad_dictionary _ e2 in
          let (rest, later, e4) =
            >>=-eq_done (open_dictionaries rounds schema image tail (i + 1) value) _ e3 in
          subst (AreOpened (suc rounds) schema image tail i value) (done-inj e4) (
            cons_blob rounds schema image tail i value blob rest (d.offset, d.size, room, opened)
              other (open_dictionaries-AreOpened rounds schema image tail (i + 1) value later))
    ]
