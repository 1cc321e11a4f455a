-- ===== src/Builder/Commit/Staged.antt =====
-- A commit in a run.
use mmpack.Prelude.{
  ℕ, ◌+◌, ◌<◌, ◌≡◌, ◌⊎◌, refl, sym, ap, subst, ◌∙◌, Bool, true, false, not, ◌&&◌, ◌||◌, Bool-cases,
  Option, none, some, List, length, ltb, ◌==◌, if◌then◌else◌, if-true, if-false, inl, inr, arith,
}
use mmpack.Error.{
  BuildError, commit_after_finish, not_increasing, Result, done, fail, ◌>>=◌, ◌>>◌, fail_if,
}
use mmpack.Bits.{Bytes}
use mmpack.Builder.Staging.{Staging, memory, wide, blob, push}
use mmpack.Builder.Staging.Memory
use mmpack.Builder.Staging.Wide
use mmpack.Builder.Staging.Blob
use mmpack.Builder.Staging.Blob.{BlobStaging, less_bytes}
use mmpack.Builder.Staging.Rows.{Coords, address_less, row_less, IsStaging, Pushed, FitsKey}
use mmpack.Builder.Staging.Push.{push-wide}
use mmpack.Builder.Staging.Push.Keys.{push-memory}
use mmpack.Builder.Staging.Push.Arena.{push_bytes-Pushed}
use mmpack.Builder.State.{
  InputOrder, assume_sorted, sort_if_needed, RecordRef, TableBuilder, intern_tuple,
}
use mmpack.Builder.Commit.{increasing, assumes_sorted, push_wide, stage, stage_tuple, commit}
use mmpack.Builder.Commit.Steps.{IsHandle}
use mmpack.Builder.Commit.View.{View, view, intern_tuple-view}
use mmpack.Builder.Commit.Invariant.{
  Agrees, coords_of, last_of, AreRows, RowsOf, IsRun, AreRows-Pushed,
}

-- A record behind the last one, in the order of the rows.
abbrev follows : View → RecordRef → Bool
follows v rec =
    ltb v.last_partition rec.partition
    || (v.last_partition == rec.partition
        && (if v.blob
            then less_bytes v.wide_width v.last_wide v.pending_address
            else ltb v.last_address rec.address))

abbrev pub taken : View → RecordRef → Staging → Coords
taken v rec s = coords_of s rec.partition rec.address v.pending_address

follows-row_less :
    (v : View) (rec : RecordRef) (s : Staging)
    → Agrees v (some s)
    → row_less s (last_of v s) (taken v rec s) ≡ follows v rec
unfolding row_less address_less
follows-row_less v rec (memory s) (m, b, w) =
    ap (λ t. ltb v.last_partition rec.partition || (v.last_partition == rec.partition && t))
      (sym (
        if-false v.blob (less_bytes v.wide_width v.last_wide v.pending_address)
          (ltb v.last_address rec.address) b))
follows-row_less v rec (wide s) (m, b) =
    ap (λ t. ltb v.last_partition rec.partition || (v.last_partition == rec.partition && t))
      (sym (
        if-false v.blob (less_bytes v.wide_width v.last_wide v.pending_address)
          (ltb v.last_address rec.address) b))
follows-row_less v rec (blob s) (m, b, w, p) =
    ap (λ t. ltb v.last_partition rec.partition || (v.last_partition == rec.partition && t))
      (ap (λ n. less_bytes n v.last_wide v.pending_address) w
        ∙ sym (
            if-true v.blob (less_bytes v.wide_width v.last_wide v.pending_address)
              (ltb v.last_address rec.address) b))

-- push_bytes of an address that has the width of the staging.
push_bytes-done :
    (s : BlobStaging) (partition : ℕ) (address : Bytes) (tuple : ℕ)
    → IsStaging (blob s)
    → length address ≡ s.width
    → (t : BlobStaging) × (Blob.push_bytes s partition address tuple ≡ done t)
      × (t.width ≡ s.width)
      × Pushed
          (blob s)
          (record { partition = partition; address = 0; bytes = address })
          tuple
          (blob t)
push_bytes-done s partition address tuple whole e =
    elim (push_bytes-Pushed s partition address tuple whole) [
      | inl (fits, t, d, w, p) ↦ (t, d, w, p)
      | inr (other, f) ↦ absurd (other e)
    ]

-- The builder behind a record that was staged.
abbrev counted : TableBuilder → RecordRef → TableBuilder
counted d rec = record d {
  last_partition = rec.partition;
  last_address = rec.address;
  count = d.count + 1;
}

-- The members that the tuples of a builder rest on.
pub record Words : Type 0 where
  pub width : ℕ
  pub tuples : List ℕ
  pub index : List ℕ
  pub active : Bool

abbrev pub words : TableBuilder → Words
words b = record {
  width = length b.slots;
  tuples = b.tuples;
  index = b.index;
  active = b.dedup_active;
}

-- A staged record: its row lies behind the others of the staging.
pub record IsStaged (c : TableBuilder) (rec : RecordRef) (tuple : ℕ) (hs : List RecordRef)
    (d : TableBuilder) : Type 0 where
  pub run : IsRun (view (counted d rec)) hs
  pub alike : words d ≡ words c
  pub from : Staging
  pub to : Staging
  pub had : c.staging ≡ some from
  pub has : d.staging ≡ some to
  pub pushed : Pushed from (taken (view c) rec from) tuple to

module _ (c : TableBuilder) (rec : RecordRef) (tuple : ℕ) (hs : List RecordRef)
    (run : IsRun (view c) hs) where
  -- What a commit of a sorted build tests.
  abbrev IsBehind : Type 0
  IsBehind = c.options.order ≡ assume_sorted → 0 < c.count → follows (view c) rec ≡ true

  -- The builder that holds `t` after a push of the record onto `s`.
  abbrev storing : Staging → Bytes → TableBuilder
  storing t last_wide = record c { staging = some t; last_wide = last_wide }

  stored :
      (s t : Staging) (last_wide : Bytes)
      → c.staging ≡ some s
      → Agrees (view c) (some s)
      → RowsOf (view c) (some s)
      → Pushed s (taken (view c) rec s) tuple t
      → IsBehind
      → Agrees (view (counted (storing t last_wide) rec)) (some t)
      → last_of (view (counted (storing t last_wide) rec)) t ≡ taken (view c) rec s
      → IsStaged c rec tuple hs (storing t last_wide)
  stored s t last_wide had agrees rows pushed behind agrees' last = record {
    run = record {
      agrees = agrees';
      rows =
          subst (λ l. AreRows c.options.order (c.count + 1) l t) (sym last)
            (AreRows-Pushed c.options.order c.count (last_of (view c) s) (taken (view c) rec s) s t
              tuple rows pushed (λ e h. follows-row_less (view c) rec s agrees ∙ behind e h));
      handles = run.handles;
      going = run.going;
    };
    alike = refl;
    from = s;
    to = t;
    had = had;
    has = refl;
    pushed = pushed;
  }

  -- Staging a record of a handle in a run succeeds.
  pub stage-IsStaged :
      IsHandle rec hs
      → IsBehind
      → (o : Option Staging) → c.staging ≡ o
      → Agrees (view c) o
      → RowsOf (view c) o
      → (d : TableBuilder) × (stage c rec tuple o ≡ done d) × IsStaged c rec tuple hs d
  unfolding stage push push_wide
  stage-IsStaged handle behind none had agrees rows = absurd ((run.handles rec handle).0 agrees.0)
  stage-IsStaged handle behind (some (memory s)) had agrees rows =
      let (in_mode, no_blob, bits) = agrees in
      let fits = (run.handles rec handle).1 in_mode in
      let t = memory (Memory.push s rec.partition rec.address tuple) in
      (
        storing t c.last_wide,
        if-false c.blob _ _ no_blob,
        stored (memory s) t c.last_wide had agrees rows
            (push-memory s rec.partition rec.address tuple
              (subst (λ n. FitsKey n rec.partition rec.address) (sym bits) fits))
            behind agrees refl,
      )
  stage-IsStaged handle behind (some (wide s)) had agrees rows =
      let t = wide (Wide.push s rec.partition rec.address tuple) in
      (
        storing t c.last_wide,
        if-false c.blob _ _ agrees.1,
        stored (wide s) t c.last_wide had agrees rows (push-wide s rec.partition rec.address tuple)
            behind agrees refl,
      )
  stage-IsStaged handle behind (some (blob s)) had agrees rows =
      let (in_mode, has_blob, width, pending) = agrees in
      let (t, returns, same, pushed) =
        push_bytes-done s rec.partition c.pending_address tuple rows.sound (pending ∙ sym width) in
      (
        storing (blob t) c.pending_address,
        if-true c.blob _ _ has_blob
            ∙ ap
                (λ m. (m >>= λ pushed. done (blob pushed)) >>= λ pushed.
                  done (record c { staging = some pushed; last_wide = c.pending_address }))
                returns,
        stored (blob s) (blob t) c.pending_address had agrees rows pushed behind
            (in_mode, has_blob, same ∙ width, pending) refl,
      )

pub same_order : (order : InputOrder) → assumes_sorted order ≡ true → order ≡ assume_sorted
same_order assume_sorted e = refl
same_order sort_if_needed e = cc

-- The test that a commit makes of the order.
order_test :
    (order : InputOrder) (n : ℕ) (f : Bool)
    → (assumes_sorted order && not (n == 0) && not f) ≡ false
    → order ≡ assume_sorted
    → 0 < n
    → f ≡ true
order_test assume_sorted n f e o h = ground arith
order_test sort_if_needed n f e o h = cc

order_refused :
    (order : InputOrder) (n : ℕ) (f : Bool)
    → (assumes_sorted order && not (n == 0) && not f) ≡ true
    → (order ≡ assume_sorted) × (0 < n) × (f ≡ false)
order_refused assume_sorted n f e = (refl, ground arith, ground arith)
order_refused sort_if_needed n f e = cc

-- A commit that throws in a run: the input is assumed to be sorted, and the record does not follow the last one.
pub record IsRefused (at_most_ratio : ℕ → ℕ → Bool) (b : TableBuilder) (rec : RecordRef)
    : Type 0 where
  pub result : commit at_most_ratio b rec ≡ fail not_increasing
  pub assumed : b.options.order ≡ assume_sorted
  pub later : 0 < b.count
  pub unordered : increasing b rec ≡ false

-- A commit that returns: the record is staged with the id of its tuple.
pub record IsCommitted (at_most_ratio : ℕ → ℕ → Bool) (b : TableBuilder) (rec : RecordRef)
    (hs : List RecordRef) : Type 0 where
  pub next : TableBuilder
  pub result : commit at_most_ratio b rec ≡ done next
  pub run : IsRun (view next) hs
  pub alike : words next ≡ words (intern_tuple at_most_ratio b).0
  pub from : Staging
  pub to : Staging
  pub had : b.staging ≡ some from
  pub has : next.staging ≡ some to
  pub pushed : Pushed from (taken (view b) rec from) (intern_tuple at_most_ratio b).1 to

-- The record is staged where it may be.
stage_tuple-IsCommitted :
    (at_most_ratio : ℕ → ℕ → Bool) (b : TableBuilder) (rec : RecordRef) (hs : List RecordRef)
    → IsRun (view b) hs
    → IsHandle rec hs
    → (b.options.order ≡ assume_sorted → 0 < b.count → follows (view b) rec ≡ true)
    → commit at_most_ratio b rec ≡ stage_tuple at_most_ratio b rec
    → IsCommitted at_most_ratio b rec hs
unfolding stage_tuple
stage_tuple-IsCommitted at_most_ratio b rec hs run handle behind e =
    let c = (intern_tuple at_most_ratio b).0 in
    let tuple = (intern_tuple at_most_ratio b).1 in
    let same : view c ≡ view b = intern_tuple-view at_most_ratio b in
    let run' : IsRun (view c) hs = subst (λ v. IsRun v hs) (sym same) run in
    let (d, staged, facts) =
      stage-IsStaged c rec tuple hs run' handle
        (subst (λ v. v.options.order ≡ assume_sorted → 0 < v.count → follows v rec ≡ true)
          (sym same) behind)
        c.staging refl run'.agrees run'.rows in
    record {
      next = counted d rec;
      result = e ∙ ap (λ m. m >>= λ s. done (counted s rec)) staged;
      run = facts.run;
      alike = facts.alike;
      from = facts.from;
      to = facts.to;
      had = ap (λ v. v.staging) (sym same) ∙ facts.had;
      has = facts.has;
      pushed =
          subst (λ v. Pushed facts.from (taken v rec facts.from) tuple facts.to) same facts.pushed;
    }

-- In a run a commit of a handle returns, with the record's coordinates and the id of its tuple in a row behind the others,
-- which stay as they are, and the builder is again that of a run; or else it throws because the input is assumed to
-- be sorted and the record does not follow the last one.
pub commits-or_throws :
    (at_most_ratio : ℕ → ℕ → Bool) (b : TableBuilder) (rec : RecordRef) (hs : List RecordRef)
    → IsRun (view b) hs
    → IsHandle rec hs
    → IsCommitted at_most_ratio b rec hs ⊎ IsRefused at_most_ratio b rec
unfolding commit increasing
commits-or_throws at_most_ratio b rec hs run handle =
    let test = assumes_sorted b.options.order && not (b.count == 0) && not (follows (view b) rec) in
    elim (Bool-cases test) [
      | inl e ↦
          let (assumed, later, unordered) =
            order_refused b.options.order b.count (follows (view b) rec) e in
          inr (record {
            result = ap (λ t. fail_if t commit_after_finish >> rest test) run.going ∙ ap rest e;
            assumed = assumed;
            later = later;
            unordered = unordered;
          })
      | inr e ↦ inl (
          stage_tuple-IsCommitted at_most_ratio b rec hs run handle
            (order_test b.options.order b.count (follows (view b) rec) e)
            (ap (λ t. fail_if t commit_after_finish >> rest test) run.going ∙ ap rest e))
    ]
  where
    rest : Bool → Result BuildError TableBuilder
    rest t = fail_if t not_increasing >> stage_tuple at_most_ratio b rec
