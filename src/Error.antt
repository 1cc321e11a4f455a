-- ===== src/Error.antt =====
-- include/mmpack/error.hpp: why an image is rejected, and results that carry the reason.
use mmpack.Prelude.{◌≡◌, refl, Bool, true, false, Option, none, some}
use Prim.Native.String.{String}

-- enum class status
pub data Status : Type 0 where
  ok too_small bad_magic bad_version bad_size bad_directory bad_schema bad_dictionary
        bad_user_region :
      Status

unfoldable pub to_string : Status → String
to_string ok = "ok"
to_string too_small = "region too small"
to_string bad_magic = "bad magic"
to_string bad_version = "unsupported format version"
to_string bad_size = "image size does not match region length"
to_string bad_directory = "corrupt partition directory"
to_string bad_schema = "corrupt or inconsistent schema"
to_string bad_dictionary = "corrupt dictionary"
to_string bad_user_region = "corrupt user region"

-- class build_error, one constructor for each message that the builder throws with.
pub data BuildError : Type 0 where
  needs_bytes width_changed staging_late no_fields too_many_bits : BuildError
  empty_address width_differs mixed_modes after_finish : BuildError
  commit_after_finish not_increasing finish_twice not_sorted duplicate_key : BuildError
  empty_name nul_in_name duplicate_name bytes_width : BuildError
  id_out_of_range wrong_kind wrong_width blob_too_large : BuildError

-- A value, or the error that ended its computation: a status with a null result, or an exception.
pub data Result {ℓ} (E : Type 0) (A : Type ℓ) : Type ℓ where
  done : A → Result E A
  fail : E → Result E A

infixl 5 ◌>>=◌ ◌>>◌
abbrev pub ◌>>=◌ {ℓ κ} :
    {E : Type 0} {A : Type ℓ} {B : Type κ} → Result E A → (A → Result E B) → Result E B
done a >>= f = f a
fail s >>= f = fail s

abbrev pub ◌>>◌ {ℓ} : {E : Type 0} {B : Type ℓ} → Result E (Unit {0}) → Result E B → Result E B
m >> k = m >>= λ _. k

-- `if (test) return fail(s);`
abbrev pub fail_if : {E : Type 0} → Bool → E → Result E (Unit {0})
fail_if true s = fail s
fail_if false s = done tt

-- `if (!o) return fail(s);`
abbrev pub or_fail {ℓ} : {E : Type 0} {A : Type ℓ} → Option A → E → Result E A
or_fail none s = fail s
or_fail (some a) s = done a

-- What a result that is done says of its parts.
pub fail_if-eq_done {ℓ} :
    {E : Type 0} {B : Type ℓ} (test : Bool) (s : E) (rest : Result E B) {b : B}
    → (fail_if test s >> rest) ≡ done b
    → (test ≡ false) × (rest ≡ done b)
fail_if-eq_done true s rest e = cc
fail_if-eq_done false s rest e = (refl, e)

pub or_fail-eq_done {ℓ κ} :
    {E : Type 0} {A : Type ℓ} {B : Type κ} (o : Option A) (s : E) (f : A → Result E B) {b : B}
    → (or_fail o s >>= f) ≡ done b
    → (a : A) × (o ≡ some a) × (f a ≡ done b)
or_fail-eq_done none s f e = cc
or_fail-eq_done (some a) s f e = (a, refl, e)

pub >>=-eq_done {ℓ κ} :
    {E : Type 0} {A : Type ℓ} {B : Type κ} (m : Result E A) (f : A → Result E B) {b : B}
    → (m >>= f) ≡ done b
    → (a : A) × (m ≡ done a) × (f a ≡ done b)
>>=-eq_done (done a) f e = (a, refl, e)
>>=-eq_done (fail s) f e = cc

pub done-inj {ℓ} :
    {E : Type 0} {A : Type ℓ} {a b : A} → ◌≡◌ {A = Result E A} (done a) (done b) → a ≡ b
done-inj e = cc
