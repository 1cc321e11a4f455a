-- ===== src/Table/Open/Slots.antt =====
-- The directory slots of an image that the loop of try_open accepts.
use mmpack.Prelude.{
  ℕ, zero, suc, ◌+◌, ◌-◌, ◌*◌, ◌≤◌, ◌<◌, ◌≡◌, ◌≢◌, sym, ap, subst, ◌∙◌, true, not, ◌||◌, ◌&&◌, ltb,
  leb, ◌==◌, if◌then◌else◌, arith,
}
use mmpack.Error.{done, bad_directory, fail_if-eq_done, done-inj, >>=-eq_done}
use mmpack.Format.{DirEntry, max_local_width}
use mmpack.Table.Layout.{Table, slot}
use mmpack.Table.Open.{entry_stride, entry_end, check_slot, check_slots}
use native.Mathlib.Decide.{dec_le}
use native.Mathlib.Nat.{le-div_iff_mul-le}

-- The bytes of a record of a slot's partition, and where its records end.
abbrev pub stride_of : Table → DirEntry → ℕ
stride_of t d = d.address_width + (if not (d.schema_id == 0) then d.schema_id else t.value_part)

abbrev pub stop_of : Table → DirEntry → ℕ
stop_of t d = d.offset + d.remap_count * 4 + d.count * stride_of t d

-- A slot whose records lie between `floor` and the directory.
pub record SlotFits (t : Table) (dir_offset floor : ℕ) (d : DirEntry) : Type 0 where
  pub range : d.address_skip + d.address_width ≤ t.address_width
  pub remapped :
      d.schema_id ≢ 0
      → (d.schema_id ≤ max_local_width) × (t.interned ≡ true) × (1 ≤ d.remap_count) × (1 ≤ d.count)
  pub plain : d.schema_id ≡ 0 → d.remap_count ≡ 0
  pub stride : 1 ≤ stride_of t d
  pub inside : d.count ≢ 0 → (floor ≤ d.offset) × (stop_of t d ≤ dir_offset)

entry_stride-done :
    (t : Table) (d : DirEntry) {s : ℕ}
    → entry_stride t d ≡ done s
    → (s ≡ stride_of t d)
      × (d.schema_id ≢ 0
          → (d.schema_id ≤ max_local_width)
            × (t.interned ≡ true)
            × (1 ≤ d.remap_count)
            × (1 ≤ d.count))
      × (d.schema_id ≡ 0 → d.remap_count ≡ 0)
unfolding entry_stride
entry_stride-done t d e = ground arith

entry_end-done :
    (dir_offset floor : ℕ) (d : DirEntry) (s : ℕ) {next : ℕ}
    → entry_end dir_offset floor d s ≡ done next
    → 1 ≤ s
    → (floor ≤ next)
      × (d.count ≢ 0
          → (floor ≤ d.offset)
            × (next ≡ d.offset + d.remap_count * 4 + d.count * s)
            × (next ≤ dir_offset))
unfolding entry_end
entry_end-done dir_offset floor d s e h = ground (
  arith,
  le-div_iff_mul-le {k = s} {x = d.count} {y = dir_offset - d.offset - d.remap_count * 4} h,
)

check_slot-SlotFits :
    (t : Table) (dir_offset i previous floor : ℕ) {next : ℕ}
    → check_slot t dir_offset i previous floor ≡ done next
    → SlotFits t dir_offset floor (slot t i)
      × (1 ≤ i → previous < (slot t i).partition)
      × (floor ≤ next)
      × ((slot t i).count ≢ 0 → next ≡ stop_of t (slot t i))
unfolding check_slot
check_slot-SlotFits t dir_offset i previous floor e =
    let d = slot t i in
    let (order, e1) = fail_if-eq_done (ltb 0 i && leb d.partition previous) bad_directory _ e in
    let (narrow, e2) =
      fail_if-eq_done
        (ltb t.address_width d.address_width
          || ltb (t.address_width - d.address_width) d.address_skip)
        bad_directory _ e1 in
    let (s, strides, e3) = >>=-eq_done (entry_stride t d) _ e2 in
    let (positive, e4) = fail_if-eq_done (s == 0) bad_directory _ e3 in
    let (same, remapped, plain) = entry_stride-done t d strides in
    let some_stride : 1 ≤ s = ground arith in
    let (up, stop) = entry_end-done dir_offset floor d s e4 some_stride in
    let scaled : d.count * s ≡ d.count * stride_of t d = ap (λ (n : ℕ). d.count * n) same in
    (
      record {
        range = ground arith;
        remapped = remapped;
        plain = plain;
        stride = omega arith;
        inside = λ n. let (a, b, c) = stop n in (a, omega arith);
      },
      λ h. ground arith,
      up,
      λ n. let (a, b, c) = stop n in omega arith,
    )

-- What the slots from `i` on, `rounds` of them, have.
abbrev pub Accepted : ℕ → Table → ℕ → ℕ → ℕ → ℕ → Type 0
Accepted rounds t dir_offset i previous floor =
    ((j : ℕ)
      → i ≤ j
      → j < i + rounds
      → SlotFits t dir_offset floor (slot t j) × (1 ≤ i → previous < (slot t j).partition))
    × ((j k : ℕ)
        → i ≤ j
        → j < k
        → k < i + rounds
        → ((slot t j).partition < (slot t k).partition)
          × ((slot t j).count ≢ 0
              → (slot t k).count ≢ 0
              → stop_of t (slot t j) ≤ (slot t k).offset))

lower :
    (t : Table) (dir_offset floor next : ℕ) (d : DirEntry)
    → floor ≤ next
    → SlotFits t dir_offset next d
    → SlotFits t dir_offset floor d
lower t dir_offset floor next d h ok = record {
  range = ok.range;
  remapped = ok.remapped;
  plain = ok.plain;
  stride = ok.stride;
  inside = λ n. (omega (arith, (ok.inside n).0), (ok.inside n).1);
}

-- A slot that is accepted before others.
cons-Accepted :
    (rounds : ℕ) (t : Table) (dir_offset i previous floor next : ℕ)
    → SlotFits t dir_offset floor (slot t i)
      × (1 ≤ i → previous < (slot t i).partition)
      × (floor ≤ next)
      × ((slot t i).count ≢ 0 → next ≡ stop_of t (slot t i))
    → Accepted rounds t dir_offset (i + 1) (slot t i).partition next
    → Accepted (suc rounds) t dir_offset i previous floor
cons-Accepted rounds t dir_offset i previous floor next (fits, order, up, stop) (each, pairs) = (
  λ j lo hi. elim (dec_le (i + 1) j) [
    | yes l ↦
        let (f, o) = each j l (omega arith) in
        (
          lower t dir_offset floor next (slot t j) up f,
          λ h. omega (arith, order h, o (omega arith)),
        )
    | no nl ↦ let e : i ≡ j = omega arith in subst First e (fits, order)
  ],
  λ j k lo l hi. elim (dec_le (i + 1) j) [
    | yes m ↦ pairs j k m l (omega arith)
    | no nm ↦
        let (f, o) = each k (omega arith) (omega arith) in
        let e : i ≡ j = omega arith in
        subst (λ r. Pair r k) e (o (omega arith), λ n m. omega (arith, stop n, (f.inside m).0))
  ],
)
  where
    First : ℕ → Type 0
    First j = SlotFits t dir_offset floor (slot t j) × (1 ≤ i → previous < (slot t j).partition)

    Pair : ℕ → ℕ → Type 0
    Pair j k =
        ((slot t j).partition < (slot t k).partition)
        × ((slot t j).count ≢ 0 → (slot t k).count ≢ 0 → stop_of t (slot t j) ≤ (slot t k).offset)

-- The records of the slots from `i` on, `rounds` of them.
unfoldable pub records_from : ℕ → Table → ℕ → ℕ
records_from zero t i = 0
records_from (suc rounds) t i = (slot t i).count + records_from rounds t (i + 1)

pub check_slots-Accepted :
    (rounds : ℕ) (t : Table) (dir_offset i total previous floor : ℕ) {sum : ℕ}
    → check_slots rounds t dir_offset i total previous floor ≡ done sum
    → Accepted rounds t dir_offset i previous floor × (sum ≡ total + records_from rounds t i)
unfolding check_slots records_from
check_slots-Accepted zero t dir_offset i total previous floor e = (
  (λ j lo hi. absurd (omega arith), λ j k lo l hi. absurd (omega arith)),
  sym (done-inj e) ∙ omega arith,
)
check_slots-Accepted (suc rounds) t dir_offset i total previous floor e =
    let (next, here, later) = >>=-eq_done (check_slot t dir_offset i previous floor) _ e in
    let (accepted, sum) =
      check_slots-Accepted rounds t dir_offset (i + 1) (total + (slot t i).count)
        (slot t i).partition next later in
    (
      cons-Accepted rounds t dir_offset i previous floor next
          (check_slot-SlotFits t dir_offset i previous floor here) accepted,
      sum ∙ omega arith,
    )
