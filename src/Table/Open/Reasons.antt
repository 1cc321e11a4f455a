-- ===== src/Table/Open/Reasons.antt =====
-- The statuses that try_open gives for the images that it rejects.
use mmpack.Prelude.{
  ℕ, zero, suc, ◌+◌, ◌<◌, ◌≡◌, ◌≢◌, ◌↔◌, refl, subst, Bool, true, false, Bool-cases, Option, none,
  some, length, ltb, ltb-false, if◌then◌else◌, inl, inr, arith,
}
use mmpack.Error.{
  Status, ok, too_small, bad_magic, bad_version, bad_size, bad_directory, bad_schema,
  bad_dictionary, bad_user_region, Result, done, fail, ◌>>=◌, ◌>>◌, fail_if, or_fail,
}
use mmpack.Bits.{Bytes}
use mmpack.Dictionary.{FixedView}
use mmpack.Format.{DirEntry}
use mmpack.Schema.{SchemaView}
use mmpack.Table.Layout.{Table}
use mmpack.Table.Open.{
  header_size, footer_size, Footer, entry_stride, entry_end, check_slot, check_slots,
  open_dictionaries, check_directory, long_frame, open_frame, finish_open, try_open,
}

-- Every failure of a result has a status with P.
data Fails {ℓ κ} {A : Type ℓ} (P : Status → Type κ) : Result Status A → Type (ℓ ⊔ κ) where
  at_done : {a : A} → Fails P (done a)
  at_fail : {s : Status} → P s → Fails P (fail s)

Fails->>= {ℓ κ λ'} :
    {A : Type ℓ} {B : Type κ} {P : Status → Type λ'} (m : Result Status A) (f : A → Result Status B)
    → Fails P m
    → ((a : A) → Fails P (f a))
    → Fails P (m >>= f)
Fails->>= (done a) f h k = k a
Fails->>= (fail s) f (at_fail p) k = at_fail p

module _ {ℓ κ} {A : Type ℓ} {P : Status → Type κ} where
  Fails-if :
      (test : Bool) (s : Status) {rest : Result Status A}
      → P s
      → Fails P rest
      → Fails P (fail_if test s >> rest)
  Fails-if true s p h = at_fail p
  Fails-if false s p h = h

  Fails-choice :
      (test : Bool) {a b : Result Status A}
      → Fails P a
      → Fails P b
      → Fails P (if test then a else b)
  Fails-choice true h k = h
  Fails-choice false h k = k

  Fails-or_fail : (o : Option A) (s : Status) → P s → Fails P (or_fail o s)
  Fails-or_fail none s p = at_fail p
  Fails-or_fail (some a) s p = at_done

  -- The status of a failure.
  Fails-eq : {s : Status} → Fails {A = A} P (fail s) → P s
  Fails-eq (at_fail p) = p

Fails-end {κ} : {P : Status → Type κ} (test : Bool) (s : Status) → P s → Fails P (fail_if test s)
Fails-end true s p = at_fail p
Fails-end false s p = at_done

-- The parts of try_open behind the footer fail with three statuses.
abbrev IsPart : Status → Type 0
IsPart s = (s ≢ ok) × (s ≢ bad_user_region) × (s ≢ too_small)

directory-IsPart : IsPart bad_directory
directory-IsPart = (λ e. cc, λ e. cc, λ e. cc)

dictionary-IsPart : IsPart bad_dictionary
dictionary-IsPart = (λ e. cc, λ e. cc, λ e. cc)

schema-IsPart : IsPart bad_schema
schema-IsPart = (λ e. cc, λ e. cc, λ e. cc)

magic-IsPart : IsPart bad_magic
magic-IsPart = (λ e. cc, λ e. cc, λ e. cc)

version-IsPart : IsPart bad_version
version-IsPart = (λ e. cc, λ e. cc, λ e. cc)

size-IsPart : IsPart bad_size
size-IsPart = (λ e. cc, λ e. cc, λ e. cc)

ruleset steps = (
  Fails-if, Fails-choice, Fails-end, Fails-or_fail, Fails->>=, at_done, directory-IsPart,
  dictionary-IsPart, schema-IsPart,
)

entry_stride-Fails : (t : Table) (d : DirEntry) → Fails IsPart (entry_stride t d)
unfolding entry_stride
entry_stride-Fails t d = search steps

entry_end-Fails :
    (dir_offset floor : ℕ) (d : DirEntry) (stride : ℕ)
    → Fails IsPart (entry_end dir_offset floor d stride)
unfolding entry_end
entry_end-Fails dir_offset floor d stride = search steps

check_slot-Fails :
    (t : Table) (dir_offset i previous floor : ℕ)
    → Fails IsPart (check_slot t dir_offset i previous floor)
unfolding check_slot
check_slot-Fails t dir_offset i previous floor = search (steps, entry_stride-Fails, entry_end-Fails)

check_slots-Fails :
    (rounds : ℕ) (t : Table) (dir_offset i total previous floor : ℕ)
    → Fails IsPart (check_slots rounds t dir_offset i total previous floor)
unfolding check_slots
check_slots-Fails zero t dir_offset i total previous floor = at_done
check_slots-Fails (suc rounds) t dir_offset i total previous floor =
    search (steps, check_slot-Fails, check_slots-Fails rounds)

open_dictionaries-Fails :
    (rounds : ℕ) (schema : SchemaView) (image : Bytes) (tail i : ℕ) (value : FixedView)
    → Fails IsPart (open_dictionaries rounds schema image tail i value)
unfolding open_dictionaries
open_dictionaries-Fails zero schema image tail i value = at_done
open_dictionaries-Fails (suc rounds) schema image tail i value =
    search (steps, open_dictionaries-Fails rounds) depth 12

check_directory-Fails :
    (image : Bytes) (foot : Footer) (t : Table) → Fails IsPart (check_directory image foot t)
unfolding check_directory
check_directory-Fails image foot t = search steps depth 12

finish_open-Fails :
    (image : Bytes) (foot : Footer) (schema : SchemaView)
    → Fails IsPart (finish_open image foot schema)
unfolding finish_open
finish_open-Fails image foot schema =
    search (steps, check_directory-Fails, check_slots-Fails, open_dictionaries-Fails) depth 12

-- A status of the frame: too_small goes with a short image.
abbrev IsOuter : Bytes → Status → Type 0
IsOuter image s =
    (s ≢ ok) × (s ≢ bad_user_region) × (s ≡ too_small → length image < header_size + footer_size)

IsPart-IsOuter : (image : Bytes) (s : Status) → IsPart s → IsOuter image s
IsPart-IsOuter image s (o, u, t) = (o, u, λ e. absurd (t e))

-- The schema and its tests.
schema-Fails :
    {A : Type 0} (o : Option SchemaView) (a b : SchemaView → Bool) (f : SchemaView → A)
    → Fails IsPart (
        or_fail o bad_schema >>= λ view.
        fail_if (a view) bad_schema >> (fail_if (b view) bad_schema >> done (f view)))
schema-Fails o a b f = search steps depth 12

-- Behind the test of the length.
long_frame-Fails : (image : Bytes) → Fails IsPart (long_frame image)
unfolding long_frame
long_frame-Fails image =
    search (Fails-if, magic-IsPart, version-IsPart, size-IsPart, schema-IsPart, schema-Fails) depth
      12

weaken :
    {A : Type 0} (image : Bytes) {m : Result Status A} → Fails IsPart m → Fails (IsOuter image) m
weaken image at_done = at_done
weaken image (at_fail {s} p) = at_fail (IsPart-IsOuter image s p)

open_frame-Fails : (image : Bytes) → Fails (IsOuter image) (open_frame image)
unfolding open_frame
open_frame-Fails image = elim (Bool-cases (ltb (length image) (header_size + footer_size))) [
  | inl short ↦ rw short (at_fail (λ e. cc, λ e. cc, λ e. lt short))
  | inr long ↦ rw long (weaken image (long_frame-Fails image))
]
  where
    lt : {a b : ℕ} → ltb a b ≡ true → a < b
    lt h = ground arith

-- The region that has no room for a header and a footer.
abbrev pub IsSmall : Option Bytes → Type 0
IsSmall none = Unit
IsSmall (some image) = length image < header_size + footer_size

-- An image that try_open rejects is rejected with a status that is neither ok nor bad_user_region, and with
-- too_small exactly where the region is null or has no room for a header and a footer.
pub try_open-reason :
    (region : Option Bytes) (s : Status)
    → try_open region ≡ fail s
    → (s ≢ ok) × (s ≢ bad_user_region) × ((s ≡ too_small) ↔ IsSmall region)
unfolding try_open open_frame
try_open-reason none s e =
    let h : s ≡ too_small = Fails-eq (subst (Fails (λ u. u ≡ too_small)) e (at_fail refl)) in
    rw h (λ x. cc, λ x. cc, (λ x. tt, λ x. refl))
try_open-reason (some image) s e =
    let (o, u, small) = Fails-eq (subst (Fails (IsOuter image)) e rejected) in (o, u, (small, back))
  where
    rejected : Fails (IsOuter image) (try_open (some image))
    rejected =
        Fails->>= (open_frame image) _ (open_frame-Fails image)
          (λ frame. weaken image (finish_open-Fails image frame.0 frame.1))

    back : length image < header_size + footer_size → s ≡ too_small
    back h = elim (Bool-cases (ltb (length image) (header_size + footer_size))) [
      | inl short ↦ Fails-eq (subst (Fails (λ s. s ≡ too_small)) e (rw short (at_fail refl)))
      | inr long ↦
          absurd (omega (arith, h, ltb-false (length image) (header_size + footer_size) long))
    ]
