-- ===== src/Builder/Commit/View.antt =====
-- The members of a builder that staging rests on, and the calls that leave them alone.
use mmpack.Prelude.{
  ℕ, ◌≡◌, ◌≢◌, ◌⊎◌, refl, sym, ap, ◌∙◌, Bool, true, false, not, Bool-cases, Option, none, some, [],
  ◌∷◌, ◌++◌, length, get_or, if◌then◌else◌, inl, inr,
}
use mmpack.Error.{
  BuildError, wrong_width, blob_too_large, mixed_modes, after_finish, Result, done, ◌>>=◌, ◌>>◌,
  fail_if, done-inj, fail_if-eq_done, or_fail-eq_done, >>=-eq_done,
}
use mathlib.Core.Bool.{true≢false}
use mmpack.Bits.{Bytes}
use mmpack.Dictionary.{intern}
use mmpack.Schema.{uint, sint, f32, f64, bytes, text}
use mmpack.Builder.Staging.{Staging}
use mmpack.Builder.State.{
  BuildOptions, KeyMode, undecided, keyed, explicit, explicit_wide, TableBuilder, tuple_count,
  find_equal, settle_tuple, intern_tuple,
}
use mmpack.Builder.State.Interning.{gives_up}
use mmpack.Builder.Commit.{
  make_staging, or_staging, same_mode, enter_mode, enter_wide_mode, wide_staging,
}
use mmpack.Builder.Commit.Setters.{
  check_field, observed, text_slot, set_uint, set_sint, set_f32, set_f64, set_text, set_bytes,
}
use mmpack.Builder.Commit.Steps.{Sets, uint_set, sint_set, f32_set, f64_set, text_set, bytes_set}

pub record View : Type 0 where
  pub options : BuildOptions
  pub staging : Option Staging
  pub count : ℕ
  pub last_partition : ℕ
  pub last_address : ℕ
  pub mode : KeyMode
  pub blob : Bool
  pub wide_width : ℕ
  pub pending_address : Bytes
  pub last_wide : Bytes
  pub finished : Bool

abbrev pub view : TableBuilder → View
view b = record {
  options = b.options;
  staging = b.staging;
  count = b.count;
  last_partition = b.last_partition;
  last_address = b.last_address;
  mode = b.mode;
  blob = b.blob;
  wide_width = b.wide_width;
  pending_address = b.pending_address;
  last_wide = b.last_wide;
  finished = b.finished;
}

-- A setter that passes its checks.
checked :
    (b d : TableBuilder) {c : TableBuilder} (m : Result BuildError (Unit {0}))
    → view d ≡ view b
    → (m >>= λ _. done d) ≡ done c
    → view c ≡ view b
checked b d m same e = let (u, f, g) = >>=-eq_done m _ e in ap view (sym (done-inj g)) ∙ same

pub Sets-view : {b c : TableBuilder} → Sets b c → view c ≡ view b
unfolding set_uint set_sint set_f32 set_f64 set_text set_bytes observed
Sets-view {b} (uint_set id v e) = checked b _ (check_field b id uint) refl e
Sets-view {b} (sint_set id v e) = checked b _ (check_field b id sint) refl e
Sets-view {b} (f32_set id v e) = checked b _ (check_field b id f32) refl e
Sets-view {b} (f64_set id v e) = checked b _ (check_field b id f64) refl e
Sets-view {b} (text_set id v e) =
    let (u, f, g) = >>=-eq_done (check_field b id text) _ e in
    let slot = text_slot b.schema id in
    let (r, i, h) =
      or_fail-eq_done
        (intern (get_or b.text_dicts slot (record { index = []; order = []; blob_size = 0 })) v)
        blob_too_large _ g in
    ap view (sym (done-inj h))
Sets-view {b} (bytes_set id v e) =
    let (u, f, g) = >>=-eq_done (check_field b id bytes) _ e in
    let (w, h) = fail_if-eq_done _ wrong_width _ g in ap view (sym (done-inj h))

module _ (at_most_ratio : ℕ → ℕ → Bool) where
  settle_tuple-view :
      (b : TableBuilder) (o : Option ℕ) → view (settle_tuple at_most_ratio b o).0 ≡ view b
  unfolding settle_tuple
  settle_tuple-view b (some id) = refl
  settle_tuple-view b none =
      let longer : TableBuilder = record b {
        tuples = b.tuples ++ b.slots;
        index = tuple_count b ∷ b.index;
      } in
      elim (gives_up at_most_ratio longer) [ inl e ↦ ap view e | inr e ↦ ap view e ]

  pub intern_tuple-view : (b : TableBuilder) → view (intern_tuple at_most_ratio b).0 ≡ view b
  unfolding intern_tuple
  intern_tuple-view b =
      choice b.dedup_active
        (settle_tuple at_most_ratio b
          (find_equal (length b.slots) (b.tuples ++ b.slots) b.index (tuple_count b)))
        (record b { tuples = b.tuples ++ b.slots }, tuple_count b) (settle_tuple-view b _) refl
    where
      choice :
          (c : Bool) (x y : TableBuilder × ℕ)
          → view x.0 ≡ view b
          → view y.0 ≡ view b
          → view (if c then x else y).0 ≡ view b
      choice true x y p q = p
      choice false x y p q = q

same_mode-eq : (m n : KeyMode) → same_mode m n ≡ true → m ≡ n
same_mode-eq undecided undecided e = refl
same_mode-eq undecided keyed e = cc
same_mode-eq undecided explicit e = cc
same_mode-eq undecided explicit_wide e = cc
same_mode-eq keyed undecided e = cc
same_mode-eq keyed keyed e = refl
same_mode-eq keyed explicit e = cc
same_mode-eq keyed explicit_wide e = cc
same_mode-eq explicit undecided e = cc
same_mode-eq explicit keyed e = cc
same_mode-eq explicit explicit e = refl
same_mode-eq explicit explicit_wide e = cc
same_mode-eq explicit_wide undecided e = cc
same_mode-eq explicit_wide keyed e = cc
same_mode-eq explicit_wide explicit e = cc
same_mode-eq explicit_wide explicit_wide e = refl

same_mode_refl : (m : KeyMode) → same_mode m m ≡ true
same_mode_refl undecided = refl
same_mode_refl keyed = refl
same_mode_refl explicit = refl
same_mode_refl explicit_wide = refl

-- A build in one mode is in no other.
pub other_mode : {m a b : KeyMode} → m ≡ a → same_mode a b ≡ false → m ≢ b
other_mode {a = a} {b = b} e h k =
    true≢false (sym (ap (λ x. same_mode x b) (sym e ∙ k) ∙ same_mode_refl b) ∙ h)

-- A mode that is entered is new, or is the one that the build is in.
abbrev pub Enters : TableBuilder → KeyMode → TableBuilder → TableBuilder → Type 0
Enters b wanted fresh c = ((b.mode ≡ undecided) × (c ≡ fresh)) ⊎ ((b.mode ≡ wanted) × (c ≡ b))

entered :
    (b fresh : TableBuilder) (wanted : KeyMode) {c : TableBuilder}
    → (fail_if b.finished after_finish
        >> (if same_mode b.mode undecided
            then done fresh
            else (fail_if (not (same_mode b.mode wanted)) mixed_modes >> done b)))
      ≡ done c
    → Enters b wanted fresh c
entered b fresh wanted e =
    let (open_, f) = fail_if-eq_done b.finished after_finish _ e in
    elim (Bool-cases (same_mode b.mode undecided)) [
      | inl new ↦
          inl (same_mode-eq b.mode undecided new, sym (done-inj (sym (ap (λ t. branch t) new) ∙ f)))
      | inr old ↦
          let (other, g) =
            fail_if-eq_done (not (same_mode b.mode wanted)) mixed_modes _
              (sym (ap (λ t. branch t) old) ∙ f) in
          inr (same_mode-eq b.mode wanted (kept (same_mode b.mode wanted) other), sym (done-inj g))
    ]
  where
    branch : Bool → Result BuildError TableBuilder
    branch t =
        if t then done fresh else (fail_if (not (same_mode b.mode wanted)) mixed_modes >> done b)

    kept : (t : Bool) → not t ≡ false → t ≡ true
    kept true h = refl
    kept false h = cc

pub enter_mode-Enters :
    (b : TableBuilder) (wanted : KeyMode) {c : TableBuilder}
    → enter_mode b wanted ≡ done c
    → Enters b wanted
        (record b { mode = wanted; staging = or_staging b.staging (make_staging b wanted) })
        c
unfolding enter_mode
enter_mode-Enters b wanted e = entered b _ wanted e

pub enter_wide_mode-Enters :
    (b : TableBuilder) (width : ℕ) {c : TableBuilder}
    → enter_wide_mode b width ≡ done c
    → Enters b explicit_wide
        (wide_staging (record b { mode = explicit_wide; wide_width = width }) width b.staging)
        c
unfolding enter_wide_mode
enter_wide_mode-Enters b width e = entered b _ explicit_wide e
