-- ===== src/Builder/Commit/Logged.antt =====
-- What a run committed is what its staging holds.
use mmpack.Prelude.{
  ℕ, ◌+◌, ◌*◌, ◌/◌, ◌%◌, ◌^◌, ◌<◌, ◌≡◌, refl, sym, ap, subst, ◌∙◌, Bool, false, not, some, List, [],
  ◌∷◌, ◌++◌, length, length-append, get_or, get_or-front, get_or-behind, replicate,
  length-replicate, ltb, ◌==◌, if◌then◌else◌, if-true, if-false, if-elim, inl, inr, arith,
}
use native.Mathlib.Decide.{dec_lt}
use native.Mathlib.Nat.{zero-div}
use mmpack.Error.{
  BuildError, no_fields, too_many_bits, empty_address, width_differs, Result, done, fail,
  fail_if-eq_done, >>=-eq_done, done-inj,
}
use mmpack.Schema.Declare.{SchemaBuilder}
use mmpack.Builder.Staging.{Staging, memory, wide, blob, size, tuple_at}
use mmpack.Builder.Staging.Memory
use mmpack.Builder.Staging.Wide
use mmpack.Builder.Staging.Blob
use mmpack.Builder.State.{
  BuildOptions, KeyMode, keyed, explicit, explicit_wide, RecordRef, TableBuilder, tuple_count,
  intern_tuple,
}
use mmpack.Builder.State.Tuples.{AreTuples, tuple_of}
use mmpack.Builder.State.Interning.{Interned, intern_tuple_lem}
use mmpack.Builder.Commit.{
  table_builder, make_staging, or_staging, wide_staging, enter_mode, enter_wide_mode, begin_record,
  begin_record_at, begin_wide_record_at,
}
use mmpack.Builder.Commit.Steps.{Reach, start, begin, begin_at, begin_wide, set, commits}
use mmpack.Builder.Commit.View.{view, Sets-view, Enters, enter_mode-Enters, enter_wide_mode-Enters}
use mmpack.Builder.Commit.Invariant.{Agrees, IsRun, undecided-none}
use mmpack.Builder.Commit.Staged.{words, taken, IsCommitted, commits-or_throws}
use mmpack.Builder.Commit.Runs.{Reach-IsRun}
use mmpack.Builder.Commit.Log.{Committed, no_record, place, log, IsRow, Holds}
use mmpack.Builder.Commit.Recorded.{
  same_count, same_tuple, AreTuples-alike, same_staging, first_staging, Sets-words,
  clear_slots-Recorded, Recorded,
}

module _ (b : TableBuilder) (hs : List RecordRef) (records : List Committed)
    (run : IsRun (view b) hs) (ok : Recorded b records) where
  entered-Recorded :
      (wanted : KeyMode) (made : Staging) {c : TableBuilder}
      → size made ≡ 0
      → Enters b wanted (record b { mode = wanted; staging = or_staging b.staging made }) c
      → Recorded c records
  entered-Recorded wanted made {c} empty (inr (old, same)) =
      same_staging b c records (ap words same) (ap (λ d. d.staging) same) ok
  entered-Recorded wanted made {c} empty (inl (new, fresh)) =
      let no_staging = undecided-none (view b) b.staging run.agrees new in
      first_staging b c records (ap words fresh) made no_staging
        (ap (λ d. d.staging) fresh ∙ ap (λ o. or_staging o made) no_staging) empty ok

  entered_wide-Recorded :
      (width : ℕ) {c : TableBuilder}
      → Enters b explicit_wide
          (wide_staging (record b { mode = explicit_wide; wide_width = width }) width b.staging)
          c
      → Recorded c records
  unfolding size Blob.size
  entered_wide-Recorded width {c} (inr (old, same)) =
      same_staging b c records (ap words same) (ap (λ d. d.staging) same) ok
  entered_wide-Recorded width {c} (inl (new, fresh)) =
      let no_staging = undecided-none (view b) b.staging run.agrees new in
      let made =
        fresh
        ∙ ap (wide_staging (record b { mode = explicit_wide; wide_width = width }) width)
            no_staging in
      first_staging b c records (ap words made) (blob (Blob.fresh width)) no_staging
        (ap (λ d. d.staging) made) refl ok

-- The coordinates with which a record is staged are its place.
taken-place :
    (b : TableBuilder) (rec : RecordRef) (s : Staging)
    → Agrees (view b) (some s)
    → taken (view b) rec s ≡ place b rec
taken-place b rec (memory s) (m, flag, w) = sym (if-false b.blob _ _ flag)
taken-place b rec (wide s) (m, flag) = sym (if-false b.blob _ _ flag)
taken-place b rec (blob s) (m, flag, w, p) = sym (if-true b.blob _ _ flag)

-- A record that is committed is held behind the others.
module _ (at_most_ratio : ℕ → ℕ → Bool) (b : TableBuilder) (rec : RecordRef) (hs : List RecordRef)
    (records : List Committed) (run : IsRun (view b) hs) (ok : IsCommitted at_most_ratio b rec hs)
    (tuples : AreTuples b) (long : size ok.from ≡ length records)
    (rows : (i : ℕ) → i < length records → IsRow b ok.from i (get_or records i no_record)) where
  abbrev fresh_record : Committed
  fresh_record = record { coords = place b rec; fields = b.slots }

  interned : Interned b (intern_tuple at_most_ratio b)
  interned = intern_tuple_lem at_most_ratio b tuples

  abbrev middle : TableBuilder
  middle = (intern_tuple at_most_ratio b).0

  old-IsRow : (i : ℕ) → i < length records → IsRow ok.next ok.to i (get_or records i no_record)
  old-IsRow i h =
      let (at, inside, names) = rows i h in
      let (same, id) = ok.pushed.keeps i (subst (λ n. i < n) (sym long) h) in
      let (kept, still) = interned.keeps (tuple_at ok.from i) inside in
      (
        same ∙ at,
        subst (λ n. n < tuple_count ok.next) (sym id)
            (subst (λ n. tuple_at ok.from i < n) (sym (same_count middle ok.next ok.alike)) kept),
        ap (tuple_of ok.next) id
            ∙ same_tuple middle ok.next ok.alike (tuple_at ok.from i)
            ∙ still
            ∙ names,
      )

  new-IsRow : IsRow ok.next ok.to (size ok.from) fresh_record
  new-IsRow =
      let (at, id) = ok.pushed.adds in
      (
        at ∙ taken-place b rec ok.from (subst (Agrees (view b)) ok.had run.agrees),
        subst (λ n. n < tuple_count ok.next) (sym id)
            (subst (λ n. (intern_tuple at_most_ratio b).1 < n)
              (sym (same_count middle ok.next ok.alike)) interned.inside),
        ap (tuple_of ok.next) id
            ∙ same_tuple middle ok.next ok.alike (intern_tuple at_most_ratio b).1
            ∙ interned.names,
      )

  committed-Holds : Holds ok.next (some ok.to) (records ++ (fresh_record ∷ []))
  committed-Holds = (
    ok.pushed.longer ∙ ap (λ (n : ℕ). n + 1) long ∙ sym (length-append records (fresh_record ∷ [])),
    λ i h. elim (dec_lt i (length records)) [
      | yes l ↦
          subst (IsRow ok.next ok.to i)
            (sym (get_or-front records (fresh_record ∷ []) i no_record l)) (old-IsRow i l)
      | no nl ↦
          let last : length records ≡ i =
            omega (arith, h, length-append records (fresh_record ∷ [])) in
          subst (λ k. IsRow ok.next ok.to k (get_or (records ++ (fresh_record ∷ [])) k no_record))
            last
            (subst (IsRow ok.next ok.to (length records))
              (sym (get_or-behind records (fresh_record ∷ []) no_record refl))
              (subst (λ k. IsRow ok.next ok.to k fresh_record) long new-IsRow))
    ],
  )

no_tuples : (n : ℕ) → (if n == 0 then 0 else 0 / n) ≡ 0
no_tuples n = if-elim (λ (k : ℕ). k ≡ 0) (n == 0) 0 (0 / n) (λ e. refl) (λ e. zero-div n)

none_whole : (n : ℕ) → 0 ≡ 0 * n
none_whole n = grind arith

started-Recorded :
    (schema : SchemaBuilder) (options : BuildOptions) {b : TableBuilder}
    → table_builder schema options ≡ done b
    → Recorded b []
unfolding table_builder tuple_count
started-Recorded schema options e =
    let (some_fields, e1) = fail_if-eq_done (length schema == 0) no_fields _ e in
    let (few_bits, e2) = fail_if-eq_done (ltb 64 options.address_bits) too_many_bits _ e1 in
    let zero_word : ℕ = 0 in
    let width = length-replicate (length schema) zero_word in
    let none_there = no_tuples (length (replicate (length schema) zero_word)) in
    subst (λ c. Recorded c []) (done-inj e2)
      (
        record {
          filled = omega (arith, width, filled (length schema) some_fields);
          whole =
              none_whole (length (replicate (length schema) zero_word))
              ∙ ap (λ (n : ℕ). n * length (replicate (length schema) zero_word)) (sym none_there);
          known = λ id h. absurd h;
          covers = λ e id h. absurd (omega (arith, h, none_there));
          distinct = λ e i j h q. absurd (omega (arith, q, none_there));
        },
        refl,
      )
  where
    filled : (n : ℕ) → (n == 0) ≡ false → 0 < n
    filled n h = ground arith

module _ {at_most_ratio : ℕ → ℕ → Bool} {schema : SchemaBuilder} {options : BuildOptions} where
  Reach-Recorded :
      {b : TableBuilder} {hs : List RecordRef} (r : Reach at_most_ratio schema options b hs)
      → Recorded b (log r)
  unfolding begin_record begin_record_at begin_wide_record_at size Memory.size Wide.size
      make_staging log
  Reach-Recorded (start e) = started-Recorded schema options e
  Reach-Recorded {hs = rec ∷ hs} (begin {b = b} key r h e) =
      let (c, entered, f) = >>=-eq_done (enter_mode b keyed) _ e in
      subst (λ x. Recorded x.0 (log r)) (done-inj f)
        (clear_slots-Recorded c (log r) (
          entered-Recorded b hs (log r) (Reach-IsRun r) (Reach-Recorded r) keyed _ refl
            (enter_mode-Enters b keyed entered)))
  Reach-Recorded {hs = rec ∷ hs} (begin_at {b = b} partition address r e) =
      let (c, entered, f) = >>=-eq_done (enter_mode b explicit) _ e in
      subst (λ x. Recorded x.0 (log r)) (done-inj f)
        (clear_slots-Recorded c (log r) (
          entered-Recorded b hs (log r) (Reach-IsRun r) (Reach-Recorded r) explicit _ refl
            (enter_mode-Enters b explicit entered)))
  Reach-Recorded {hs = rec ∷ hs} (begin_wide {b = b} partition address r e) =
      let (filled, e1) = fail_if-eq_done (length address == 0) empty_address _ e in
      let width = length address % 2 ^ 32 in
      let (c, entered, e2) = >>=-eq_done (enter_wide_mode b width) _ e1 in
      let (fits, e3) = fail_if-eq_done (not (length address == c.wide_width)) width_differs _ e2 in
      subst (λ x. Recorded x.0 (log r)) (done-inj e3)
        (clear_slots-Recorded (record c { pending_address = address }) (log r)
          (same_staging c (record c { pending_address = address }) (log r) refl refl
            (entered_wide-Recorded b hs (log r) (Reach-IsRun r) (Reach-Recorded r) width
              (enter_wide_mode-Enters b width entered))))
  Reach-Recorded (set {b = b} {c = c} r s) =
      same_staging b c (log r) (Sets-words s) (ap (λ v. v.staging) (Sets-view s)) (Reach-Recorded r)
  Reach-Recorded {hs = hs} (commits {b = b} rec r handle e) =
      let run = Reach-IsRun r in
      let (tuples, holds) = Reach-Recorded r in
      elim (commits-or_throws at_most_ratio b rec hs run handle) [
        | inr refused ↦ absurd (fail≢done (sym refused.result ∙ e))
        | inl ok ↦
            let (long, rows) = subst (λ o. Holds b o (log r)) ok.had holds in
            let sound =
              AreTuples-alike (intern_tuple at_most_ratio b).0 ok.next ok.alike
                (intern_tuple_lem at_most_ratio b tuples).sound in
            subst (λ c. Recorded c (log (commits rec r handle e))) (done-inj (sym ok.result ∙ e))
              (
                sound,
                subst (λ o. Holds ok.next o (log (commits rec r handle e))) (sym ok.has)
                    (committed-Holds at_most_ratio b rec hs (log r) run ok tuples long rows),
              )
      ]
    where
      fail≢done :
          {s : BuildError} {d : TableBuilder}
          → ◌≡◌ {A = Result BuildError TableBuilder} (fail s) (done d)
          → ⊥
      fail≢done x = cc

  -- The staging of a builder that a run of calls reaches holds exactly the records that its commits took, in their
  -- order: row i reads back the place of record i, and the tuple of the row is made of the fields that were open when
  -- it was committed. The staging is the one of the mode; its flag says that the rows ascend, and is set if
  -- the input is assumed to be sorted.
  pub Reach-Holds :
      {b : TableBuilder} {hs : List RecordRef} (r : Reach at_most_ratio schema options b hs)
      → Holds b b.staging (log r) × IsRun (view b) hs
  Reach-Holds r = ((Reach-Recorded r).1, Reach-IsRun r)
