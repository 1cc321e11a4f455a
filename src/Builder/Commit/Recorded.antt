-- ===== src/Builder/Commit/Recorded.antt =====
-- The records that a builder holds, and the calls that leave them alone.
use mmpack.Prelude.{
  ℕ, zero, suc, ◌*◌, ◌/◌, ◌<◌, ◌≡◌, refl, sym, ap, ap₂, subst, ◌∙◌, Option, none, some, List, [],
  ◌∷◌, length, get_or, length-replicate, ◌==◌, if◌then◌else◌, arith,
}
use mmpack.Error.{
  BuildError, wrong_width, blob_too_large, Result, done, ◌>>=◌, fail_if-eq_done, or_fail-eq_done,
  >>=-eq_done, done-inj,
}
use mmpack.Dictionary.{intern}
use mmpack.Schema.{uint, sint, f32, f64, bytes, text}
use mmpack.Builder.Staging.{Staging, size, tuple_at}
use mmpack.Builder.State.{TableBuilder, tuple_count, tuple_words}
use mmpack.Builder.State.Tuples.{AreTuples, tuple_of, IsIn}
use mmpack.Builder.Commit.{clear_slots}
use mmpack.Builder.Commit.Setters.{
  set_at, check_field, observed, text_slot, set_uint, set_sint, set_f32, set_f64, set_text,
  set_bytes,
}
use mmpack.Builder.Commit.Steps.{Sets, uint_set, sint_set, f32_set, f64_set, text_set, bytes_set}
use mmpack.Builder.Commit.Staged.{Words, words}
use mmpack.Builder.Commit.Log.{Committed, no_record, IsRow, Holds}

-- Builders with the same words have the same tuples.
module _ (b c : TableBuilder) (same : words c ≡ words b) where
  pub same_count : tuple_count c ≡ tuple_count b
  unfolding tuple_count
  same_count = ap (λ (w : Words). if w.width == 0 then 0 else length w.tuples / w.width) same

  pub same_tuple : (id : ℕ) → tuple_of c id ≡ tuple_of b id
  unfolding tuple_of
  same_tuple id = ap (λ (w : Words). tuple_words w.width w.tuples id) same

  pub AreTuples-alike : AreTuples b → AreTuples c
  AreTuples-alike ok =
      let width = ap (λ (w : Words). w.width) same in
      let on = ap (λ (w : Words). w.active) same in
      let ids = ap (λ (w : Words). w.index) same in
      record {
        filled = omega (arith, width, ok.filled);
        whole =
            ap (λ (w : Words). length w.tuples) same
            ∙ ok.whole
            ∙ ap₂ (λ (m n : ℕ). m * n) (sym same_count) (sym width);
        known = λ id h. subst (λ n. id < n) (sym same_count) (ok.known id (subst (IsIn id) ids h));
        covers = λ e id h.
            subst (IsIn id) (sym ids)
              (ok.covers (sym on ∙ e) id (subst (λ n. id < n) same_count h));
        distinct = λ e i j h q f.
            ok.distinct (sym on ∙ e) i j h (subst (λ n. j < n) same_count q)
              (sym (same_tuple i) ∙ f ∙ same_tuple j);
      }

  IsRow-alike : (s : Staging) (i : ℕ) (r : Committed) → IsRow b s i r → IsRow c s i r
  IsRow-alike s i r (at, inside, names) =
      (at, subst (λ n. tuple_at s i < n) (sym same_count) inside, same_tuple (tuple_at s i) ∙ names)

  Holds-alike :
      (o : Option Staging) (records : List Committed) → Holds b o records → Holds c o records
  Holds-alike none records h = h
  Holds-alike (some s) records (long, rows) =
      (long, λ i h. IsRow-alike s i (get_or records i no_record) (rows i h))

-- The tuples are sound, and the staging holds the records.
abbrev pub Recorded : TableBuilder → List Committed → Type 0
Recorded b records = AreTuples b × Holds b b.staging records

module _ (b c : TableBuilder) (records : List Committed) (same : words c ≡ words b) where
  pub same_staging : c.staging ≡ b.staging → Recorded b records → Recorded c records
  same_staging e (tuples, holds) = (
    AreTuples-alike b c same tuples,
    subst (λ o. Holds c o records) (sym e) (Holds-alike b c same b.staging records holds),
  )

  pub first_staging :
      (made : Staging)
      → b.staging ≡ none
      → c.staging ≡ some made
      → size made ≡ 0
      → Recorded b records
      → Recorded c records
  first_staging made e f empty (tuples, holds) =
      let nothing : records ≡ [] = subst (λ o. Holds b o records) e holds in
      (
        AreTuples-alike b c same tuples,
        subst (λ o. Holds c o records) (sym f)
            (empty ∙ sym (ap length nothing), λ i h. absurd (omega (arith, h, ap length nothing))),
      )

length-set_at : {A : Type 0} (xs : List A) (i : ℕ) (a : A) → length (set_at xs i a) ≡ length xs
length-set_at [] i a = refl
length-set_at (x ∷ xs) zero a = refl
length-set_at (x ∷ xs) (suc i) a = ap suc (length-set_at xs i a)

abbrev resized : TableBuilder → ℕ → Words
resized b n = record { width = n; tuples = b.tuples; index = b.index; active = b.dedup_active }

-- A setter that passes its check.
set-words :
    (b d : TableBuilder) {c : TableBuilder} (m : Result BuildError (Unit {0}))
    → words d ≡ words b
    → (m >>= λ _. done d) ≡ done c
    → words c ≡ words b
set-words b d m same e = let (u, f, g) = >>=-eq_done m _ e in ap words (sym (done-inj g)) ∙ same

pub Sets-words : {b c : TableBuilder} → Sets b c → words c ≡ words b
unfolding set_uint set_sint set_f32 set_f64 set_text set_bytes observed
Sets-words {b} (uint_set id v e) =
    set-words b _ (check_field b id uint) (ap (resized b) (length-set_at b.slots id _)) e
Sets-words {b} (sint_set id v e) =
    set-words b _ (check_field b id sint) (ap (resized b) (length-set_at b.slots id _)) e
Sets-words {b} (f32_set id v e) =
    set-words b _ (check_field b id f32) (ap (resized b) (length-set_at b.slots id _)) e
Sets-words {b} (f64_set id v e) =
    set-words b _ (check_field b id f64) (ap (resized b) (length-set_at b.slots id _)) e
Sets-words {b} (text_set id v e) =
    let (u, f, g) = >>=-eq_done (check_field b id text) _ e in
    let slot = text_slot b.schema id in
    let (r, i, h) =
      or_fail-eq_done
        (intern (get_or b.text_dicts slot (record { index = []; order = []; blob_size = 0 })) v)
        blob_too_large _ g in
    ap words (sym (done-inj h)) ∙ ap (resized b) (length-set_at b.slots id _)
Sets-words {b} (bytes_set id v e) =
    let (u, f, g) = >>=-eq_done (check_field b id bytes) _ e in
    let (w, h) = fail_if-eq_done _ wrong_width _ g in
    ap words (sym (done-inj h)) ∙ ap (resized b) (length-set_at b.slots id _)

pub clear_slots-Recorded :
    (b : TableBuilder) (records : List Committed)
    → Recorded b records
    → Recorded (clear_slots b) records
clear_slots-Recorded b records ok =
    same_staging b (clear_slots b) records (ap (resized b) (length-replicate (length b.slots) 0))
      refl ok
