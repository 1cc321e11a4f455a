-- ===== src/Builder/Staging/Push.antt =====
-- What a push does to the rows of a staging, and of wide_staging here.
pub mod Keys
pub mod Arena
use mmpack.Prelude.{
  ℕ, zero, suc, ◌+◌, ◌-◌, ◌*◌, ◌/◌, ◌%◌, ◌^◌, bit_and, ◌≤◌, ◌<◌, ◌≡◌, refl, sym, ap, ap₂, ◌∙◌, Bool,
  true, false, not, ◌&&◌, ◌||◌, Bool-cases, [], ◌∷◌, ◌++◌, take, drop, length, get_or,
  length-append, get_or-front, get_or-behind, take-front, drop-front, take-all, drop-append,
  length-drop, ltb, leb, ◌==◌, if◌then◌else◌, inl, inr, ◌⊎◌, arith,
}
use native.Mathlib.Nat.{div-add-mod, mod-lt}
use mmpack.Prelude.BitAnd.{bit_and_mask}
use mmpack.Prelude.BitOr.{bit_or_disjoint}
use mmpack.Prelude.Division.{pow-pos, div_unique, mod_unique}
use mmpack.Schema.KeySplit.{lex_order}
use mmpack.Table.Search.{memcmp}
use Prim.Native.Nat.{compare, Ordering}
use mmpack.Bits.{Bytes}
use mmpack.Builder.Staging.{
  memory, wide, blob, size, partition_at, address_at, address_bytes_at, tuple_at,
}
use mmpack.Builder.Staging.Memory
use mmpack.Builder.Staging.Memory.{MemoryStaging}
use mmpack.Builder.Staging.Wide
use mmpack.Builder.Staging.Wide.{WideStaging}
use mmpack.Builder.Staging.Blob
use mmpack.Builder.Staging.Blob.{BlobStaging, less_bytes}
use mmpack.Builder.Staging.Rows.{
  Coords, coords_at, address_less, row_less, IsStaging, Pushed, FitsKey,
}

pub lex_test :
    (p q a b : ℕ) → (if not (p == q) then ltb p q else ltb a b) ≡ (ltb p q || (p == q && ltb a b))
lex_test p q a b = ground arith

-- The flag of a push: it falls where there is a row behind which the new one does not come.
pub flag_was :
    (sorted less : Bool) (n : ℕ)
    → (sorted && not (not (n == 0) && not less)) ≡ true
    → (sorted ≡ true) × (0 < n → less ≡ true)
flag_was sorted less n e = (ground arith, λ h. ground arith)

pub flag_stays :
    (sorted less : Bool) (n : ℕ)
    → sorted ≡ true
    → (0 < n → less ≡ true)
    → (sorted && not (not (n == 0) && not less)) ≡ true
flag_stays sorted less zero e h = ground arith
flag_stays sorted less (suc n) e h = let l = h (omega arith) in ground arith

pub push-wide :
    (s : WideStaging) (partition address tuple : ℕ)
    → Pushed
        (wide s)
        (record { partition = partition; address = address; bytes = [] })
        tuple
        (wide (Wide.push s partition address tuple))
unfolding Wide.push Wide.before Wide.size Wide.partition_at Wide.address_at Wide.tuple_at size
    partition_at address_at address_bytes_at tuple_at coords_at row_less address_less
push-wide s partition address tuple =
    let n = length s.rows in
    let back = Wide.row s (n - 1) in
    let less = lex_test back.partition partition back.address address in
    let row : Wide.Row = record { partition = partition; address = address; tuple = tuple } in
    let new = get_or-behind s.rows (row ∷ []) Wide.no_row refl in
    record {
      sound = tt;
      alike = λ a b. refl;
      longer = length-append s.rows (row ∷ []);
      keeps = λ i h.
          let old = get_or-front s.rows (row ∷ []) i Wide.no_row h in
          (
            ap
                (λ (r : Wide.Row). record {
                  partition = r.partition;
                  address = r.address;
                  bytes = [];
                })
                old,
            ap (λ r. r.tuple) old,
          );
      adds = (
        ap (λ (r : Wide.Row). record { partition = r.partition; address = r.address; bytes = [] })
            new,
        ap (λ r. r.tuple) new,
      );
      was_sorted = λ e. let (was, h) = flag_was s.sorted _ n e in (was, λ p. sym less ∙ h p);
      stays_sorted = λ e h. flag_stays s.sorted _ n e (λ p. less ∙ h p);
    }
