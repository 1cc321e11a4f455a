-- ===== src/Builder/Commit/Runs.antt =====
-- Every builder that calls reach is that of a run.
use mmpack.Prelude.{
  ℕ, ◌+◌, ◌*◌, ◌%◌, ◌^◌, ◌≤◌, ◌<◌, ◌≡◌, ◌≢◌, refl, sym, ap, subst, ◌∙◌, Bool, true, false, not,
  Option, none, some, List, [], ◌∷◌, length, leb, ltb, ◌==◌, inl, inr, arith,
}
use native.Mathlib.Nat.{div-add-mod, mod-lt}
use mmpack.Prelude.BitAnd.{bit_and_mask}
use mmpack.Prelude.Division.{pow-pos}
use mmpack.Error.{
  BuildError, fail, no_fields, too_many_bits, empty_address, width_differs, Result, done,
  fail_if-eq_done, >>=-eq_done, done-inj,
}
use mmpack.Bits.{Bytes}
use mmpack.Builder.Staging.{Staging, memory, wide, blob, size}
use mmpack.Builder.Staging.Memory
use mmpack.Builder.Staging.Wide
use mmpack.Builder.Staging.Blob
use mmpack.Builder.Staging.Rows.{FitsKey}
use mmpack.Schema.Declare.{SchemaBuilder}
use mmpack.Builder.State.{
  BuildOptions, KeyMode, undecided, keyed, explicit, explicit_wide, RecordRef, TableBuilder,
}
use mmpack.Builder.Commit.{
  table_builder, make_staging, or_staging, wide_staging, enter_mode, enter_wide_mode, partition_of,
  address_of, begin_record, begin_record_at, begin_wide_record_at,
}
use mmpack.Builder.Commit.Steps.{Reach, start, begin, begin_at, begin_wide, set, commits}
use mmpack.Builder.Commit.View.{
  View, view, Sets-view, other_mode, enter_mode-Enters, enter_wide_mode-Enters,
}
use mmpack.Builder.Commit.Invariant.{
  Agrees, coords_of, AreRows, RowsOf, AreHandles, IsRun, undecided-none, AreRows-fresh,
}
use mmpack.Builder.Commit.Staged.{commits-or_throws}

table_builder-IsRun :
    (schema : SchemaBuilder) (options : BuildOptions) {b : TableBuilder}
    → table_builder schema options ≡ done b
    → IsRun (view b) []
unfolding table_builder
table_builder-IsRun schema options e =
    let (some_fields, e1) = fail_if-eq_done (length schema == 0) no_fields _ e in
    let (few_bits, e2) = fail_if-eq_done (ltb 64 options.address_bits) too_many_bits _ e1 in
    subst (λ c. IsRun (view c) []) (done-inj e2)
      (record { agrees = (refl, refl); rows = refl; handles = λ rec h. absurd h; going = refl })

-- A handle that is given out, besides the others.
handed :
    (v : View) (hs : List RecordRef) (rec : RecordRef)
    → v.mode ≢ undecided
    → (v.mode ≡ keyed → FitsKey v.options.address_bits rec.partition rec.address)
    → AreHandles v hs
    → AreHandles v (rec ∷ hs)
handed v hs rec decided fits others old (inl same) =
    subst
      (λ r.
        (v.mode ≢ undecided)
        × (v.mode ≡ keyed → FitsKey v.options.address_bits r.partition r.address))
      same (decided, fits)
handed v hs rec decided fits others old (inr h) = others old h

-- A run that is undecided has no staging, no record and no handle.
module _ (b : TableBuilder) (hs : List RecordRef) (run : IsRun (view b) hs)
    (new : b.mode ≡ undecided) where
  no_staging : b.staging ≡ none
  no_staging = undecided-none (view b) b.staging run.agrees new

  no_records : b.count ≡ 0
  no_records = subst (RowsOf (view b)) no_staging run.rows

  no_blob : b.blob ≡ false
  no_blob = (subst (Agrees (view b)) no_staging run.agrees).1

  -- The builder with the first staging.
  first-IsRun :
      (mode : KeyMode) (s : Staging) (flag : Bool) (width : ℕ) (pending : Bytes)
      → Agrees
          (view (record b {
            mode = mode;
            staging = some s;
            blob = flag;
            wide_width = width;
            pending_address = pending;
          }))
          (some s)
      → AreRows b.options.order 0 (coords_of s b.last_partition b.last_address b.last_wide) s
      → IsRun
          (view (record b {
            mode = mode;
            staging = some s;
            blob = flag;
            wide_width = width;
            pending_address = pending;
          }))
          hs
  first-IsRun mode s flag width pending agrees rows = record {
    agrees = agrees;
    rows =
        subst
          (λ n.
            AreRows b.options.order n (coords_of s b.last_partition b.last_address b.last_wide) s)
          (sym no_records) rows;
    handles = λ rec h. absurd ((run.handles rec h).0 new);
    going = run.going;
  }

keyed-IsRun :
    (b : TableBuilder) (hs : List RecordRef) {c : TableBuilder}
    → IsRun (view b) hs
    → enter_mode b keyed ≡ done c
    → IsRun (view c) hs × (c.mode ≡ keyed) × (c.options ≡ b.options)
unfolding make_staging Memory.size size
keyed-IsRun b hs run e = elim (enter_mode-Enters b keyed e) [
  | inr (old, same) ↦
      subst (λ d. IsRun (view d) hs × (d.mode ≡ keyed) × (d.options ≡ b.options)) (sym same)
        (run, old, refl)
  | inl (new, fresh) ↦
      let made = memory (Memory.fresh b.options.address_bits) in
      subst (λ d. IsRun (view d) hs × (d.mode ≡ keyed) × (d.options ≡ b.options)) (sym fresh)
        (
          subst (λ o. IsRun (view (record b { mode = keyed; staging = or_staging o made })) hs)
              (sym (no_staging b hs run new))
              (first-IsRun b hs run new keyed made b.blob b.wide_width b.pending_address
                (refl, no_blob b hs run new, refl)
                (AreRows-fresh b.options.order _ made tt refl refl)),
          refl,
          refl,
        )
]

explicit-IsRun :
    (b : TableBuilder) (hs : List RecordRef) {c : TableBuilder}
    → IsRun (view b) hs
    → enter_mode b explicit ≡ done c
    → IsRun (view c) hs × (c.mode ≡ explicit)
unfolding make_staging Wide.size size
explicit-IsRun b hs run e = elim (enter_mode-Enters b explicit e) [
  | inr (old, same) ↦ subst (λ d. IsRun (view d) hs × (d.mode ≡ explicit)) (sym same) (run, old)
  | inl (new, fresh) ↦
      let made = wide Wide.fresh in
      subst (λ d. IsRun (view d) hs × (d.mode ≡ explicit)) (sym fresh)
        (
          subst (λ o. IsRun (view (record b { mode = explicit; staging = or_staging o made })) hs)
              (sym (no_staging b hs run new))
              (first-IsRun b hs run new explicit made b.blob b.wide_width b.pending_address
                (refl, no_blob b hs run new) (AreRows-fresh b.options.order _ made tt refl refl)),
          refl,
        )
]

-- The open record of a wide build gets another address.
pending-Agrees :
    (v : View) (o : Option Staging) (address : Bytes)
    → Agrees v o
    → v.mode ≡ explicit_wide
    → length address ≡ v.wide_width
    → Agrees (record v { pending_address = address }) o
pending-Agrees v none address (m, b) e h = absurd (other_mode m refl e)
pending-Agrees v (some (memory s)) address (m, b, w) e h = absurd (other_mode m refl e)
pending-Agrees v (some (wide s)) address (m, b) e h = absurd (other_mode m refl e)
pending-Agrees v (some (blob s)) address (m, b, w, p) e h = (m, b, w, h)

pending-RowsOf :
    (v : View) (o : Option Staging) (address : Bytes)
    → RowsOf v o
    → RowsOf (record v { pending_address = address }) o
pending-RowsOf v none address h = h
pending-RowsOf v (some s) address h = h

wide-IsRun :
    (b : TableBuilder) (hs : List RecordRef) (address : Bytes) (width : ℕ) {c : TableBuilder}
    → IsRun (view b) hs
    → enter_wide_mode b width ≡ done c
    → length address ≡ c.wide_width
    → IsRun (view (record c { pending_address = address })) hs × (c.mode ≡ explicit_wide)
unfolding Blob.size size
wide-IsRun b hs address width run e = elim (enter_wide_mode-Enters b width e) [
  | inr (old, same) ↦
      subst
        (λ d.
          length address ≡ d.wide_width
          → IsRun (view (record d { pending_address = address })) hs × (d.mode ≡ explicit_wide))
        (sym same)
        (λ fit. (
          record {
            agrees = pending-Agrees (view b) b.staging address run.agrees old fit;
            rows = pending-RowsOf (view b) b.staging address run.rows;
            handles = run.handles;
            going = run.going;
          },
          old,
        ))
  | inl (new, fresh) ↦ λ fit.
      let made = blob (Blob.fresh width) in
      let made_wide =
        fresh
        ∙ ap (wide_staging (record b { mode = explicit_wide; wide_width = width }) width)
            (no_staging b hs run new) in
      subst
        (λ d. IsRun (view (record d { pending_address = address })) hs × (d.mode ≡ explicit_wide))
        (sym made_wide)
        (
          first-IsRun b hs run new explicit_wide made true width address
              (refl, refl, refl, fit ∙ ap (λ d. d.wide_width) made_wide)
              (AreRows-fresh b.options.order _ made (omega arith) refl refl),
          refl,
        )
]

-- The parts of a key fit it.
parts-FitsKey :
    (b : TableBuilder) (key : ℕ)
    → key < 2 ^ 64
    → FitsKey b.options.address_bits (partition_of b key) (address_of b key)
unfolding partition_of address_of
parts-FitsKey b key h = (low, high)
  where
    d : ℕ
    d = 2 ^ b.options.address_bits

    room : (q r : ℕ) → d * q + r ≡ key → q * d < 2 ^ 64
    room q r e = grind (arith, h, e)

    low : b.options.address_bits < 64 → (address_of b key < d) × (partition_of b key * d < 2 ^ 64)
    low l =
        let e : leb 64 b.options.address_bits ≡ false = ground arith in
        rw (e, bit_and_mask b.options.address_bits key)
          (
            mod-lt key (pow-pos b.options.address_bits),
            room _ _ (div-add-mod key (2 ^ b.options.address_bits)),
          )

    high : 64 ≤ b.options.address_bits → partition_of b key ≡ 0
    high l = let e : leb 64 b.options.address_bits ≡ true = ground arith in rw e refl

module _ {at_most_ratio : ℕ → ℕ → Bool} {schema : SchemaBuilder} {options : BuildOptions} where
  -- Every builder that calls reach is that of a run: its staging is the one of its mode and has as many rows as records were
  -- committed, of which the last has the place of the last record; the staging's flag says that they ascend, and is set
  -- if the input is assumed to be sorted.
  pub Reach-IsRun :
      {b : TableBuilder} {hs : List RecordRef}
      → Reach at_most_ratio schema options b hs
      → IsRun (view b) hs
  unfolding begin_record begin_record_at begin_wide_record_at
  Reach-IsRun (start e) = table_builder-IsRun schema options e
  Reach-IsRun {hs = rec ∷ hs} (begin {b = b} key r h e) =
      let (c, entered, f) = >>=-eq_done (enter_mode b keyed) _ e in
      let (run, mode, same) = keyed-IsRun b hs (Reach-IsRun r) entered in
      subst (λ x. IsRun (view x.0) (x.1 ∷ hs)) (done-inj f)
        (record {
          agrees = run.agrees;
          rows = run.rows;
          handles =
              handed (view c) hs _ (other_mode mode refl) (λ k. parts-FitsKey c key h) run.handles;
          going = run.going;
        })
  Reach-IsRun {hs = rec ∷ hs} (begin_at {b = b} partition address r e) =
      let (c, entered, f) = >>=-eq_done (enter_mode b explicit) _ e in
      let (run, mode) = explicit-IsRun b hs (Reach-IsRun r) entered in
      subst (λ x. IsRun (view x.0) (x.1 ∷ hs)) (done-inj f)
        (record {
          agrees = run.agrees;
          rows = run.rows;
          handles =
              handed (view c) hs _ (other_mode mode refl) (λ k. absurd (other_mode mode refl k))
                run.handles;
          going = run.going;
        })
  Reach-IsRun {hs = rec ∷ hs} (begin_wide {b = b} partition address r e) =
      let (filled, e1) = fail_if-eq_done (length address == 0) empty_address _ e in
      let (c, entered, e2) = >>=-eq_done (enter_wide_mode b (length address % 2 ^ 32)) _ e1 in
      let (width, e3) = fail_if-eq_done (not (length address == c.wide_width)) width_differs _ e2 in
      let (run, mode) =
        wide-IsRun b hs address (length address % 2 ^ 32) (Reach-IsRun r) entered
          (equal (length address) c.wide_width width) in
      subst (λ x. IsRun (view x.0) (x.1 ∷ hs)) (done-inj e3)
        (record {
          agrees = run.agrees;
          rows = run.rows;
          handles =
              handed (view (record c { pending_address = address })) hs _ (other_mode mode refl)
                (λ k. absurd (other_mode mode refl k)) run.handles;
          going = run.going;
        })
    where
      equal : (x y : ℕ) → not (x == y) ≡ false → x ≡ y
      equal x y h = ground arith
  Reach-IsRun {hs = hs} (set r s) = subst (λ v. IsRun v hs) (sym (Sets-view s)) (Reach-IsRun r)
  Reach-IsRun {hs = hs} (commits {b = b} rec r handle e) =
      elim (commits-or_throws at_most_ratio b rec hs (Reach-IsRun r) handle) [
        | inl ok ↦ subst (λ c. IsRun (view c) hs) (done-inj (sym ok.result ∙ e)) ok.run
        | inr refused ↦ absurd (fail≢done (sym refused.result ∙ e))
      ]
    where
      fail≢done :
          {s : BuildError} {d : TableBuilder}
          → ◌≡◌ {A = Result BuildError TableBuilder} (fail s) (done d)
          → ⊥
      fail≢done x = cc
