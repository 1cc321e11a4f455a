-- ===== src/Builder/State.antt =====
-- The members of table_builder that take part in staging (builder.hpp), and the tuples of field values: intern_tuple
-- and what it calls. The set of tuple ids is the list of the ids in it.
pub mod Tuples
pub mod Interning
use mmpack.Prelude.{
  ℕ, zero, suc, ◌+◌, ◌-◌, ◌*◌, ◌/◌, Bool, true, false, ◌&&◌, Option, none, some, List, [], ◌∷◌,
  ◌++◌, take, drop, length, ltb, ◌==◌, if◌then◌else◌,
}
use mmpack.Bits.{Bytes}
use mmpack.Dictionary.{BlobBuilder}
use mmpack.Schema.Declare.{SchemaBuilder}
use mmpack.Builder.Fields.{FieldStats}
use mmpack.Builder.Staging.{Staging}

-- enum class input_order
pub data InputOrder : Type 0 where
  assume_sorted sort_if_needed : InputOrder

-- The options that staging reads; `dedup_give_up_ratio` is in the parameter `at_most_ratio` below.
pub record BuildOptions : Type 0 where
  pub address_bits : ℕ
  pub order : InputOrder
  pub dedup_sample : ℕ

-- enum class key_mode
pub data KeyMode : Type 0 where
  undecided keyed explicit explicit_wide : KeyMode

-- class record_ref
pub record RecordRef : Type 0 where
  pub partition : ℕ
  pub address : ℕ

-- class table_builder. `blob` says that blob_ points to the staging that staging_ owns.
pub record TableBuilder : Type 0 where
  pub schema : SchemaBuilder
  pub options : BuildOptions
  pub staging : Option Staging
  pub slots : List ℕ
  pub tuples : List ℕ
  pub stats : List FieldStats
  pub text_dicts : List BlobBuilder
  pub index : List ℕ
  pub count : ℕ
  pub last_partition : ℕ
  pub last_address : ℕ
  pub mode : KeyMode
  pub blob : Bool
  pub wide_width : ℕ
  pub pending_address : Bytes
  pub last_wide : Bytes
  pub dedup_active : Bool
  pub finished : Bool

unfoldable pub tuple_count : TableBuilder → ℕ
tuple_count b = if length b.slots == 0 then 0 else length b.tuples / length b.slots

-- The words that tuple_hash and tuple_equal read: those of tuple `id`.
unfoldable pub tuple_words : ℕ → List ℕ → ℕ → List ℕ
tuple_words width tuples id = take width (drop (id * width) tuples)

unfoldable pub same_words : List ℕ → List ℕ → Bool
same_words [] [] = true
same_words [] (w ∷ q) = false
same_words (v ∷ p) [] = false
same_words (v ∷ p) (w ∷ q) = v == w && same_words p q

-- tuple_equal
unfoldable pub tuple_equal : ℕ → List ℕ → ℕ → ℕ → Bool
unfolding tuple_words same_words
tuple_equal width tuples a b = same_words (tuple_words width tuples a) (tuple_words width tuples b)

-- The id of the set that equals `candidate`.
unfoldable pub find_equal : ℕ → List ℕ → List ℕ → ℕ → Option ℕ
unfolding tuple_equal
find_equal width tuples [] candidate = none
find_equal width tuples (id ∷ index) candidate =
    let later = find_equal width tuples index candidate in
    if tuple_equal width tuples id candidate then some id else later

-- `at_most_ratio n m` is the comparison of the doubles n / m and dedup_give_up_ratio.
module _ (at_most_ratio : ℕ → ℕ → Bool) where
  unfoldable pub maybe_give_up_on_dedup : TableBuilder → TableBuilder
  unfolding tuple_count
  maybe_give_up_on_dedup b =
      if ltb (b.count + 1) b.options.dedup_sample
      then b
      else if at_most_ratio (tuple_count b) (b.count + 1)
      then b
      else record b { dedup_active = false; index = [] }

  -- What follows the insertion of the tuple behind the others into the set, which found an equal one there or none.
  unfoldable pub settle_tuple : TableBuilder → Option ℕ → TableBuilder × ℕ
  unfolding tuple_count maybe_give_up_on_dedup
  settle_tuple b (some id) =
      let longer = b.tuples ++ b.slots in
      (record b { tuples = take (length longer - length b.slots) longer }, id)
  settle_tuple b none =
      let candidate = tuple_count b in
      (
        maybe_give_up_on_dedup
            (record b { tuples = b.tuples ++ b.slots; index = candidate ∷ b.index }),
        candidate,
      )

  -- The builder after the call, with the id of the tuple.
  unfoldable pub intern_tuple : TableBuilder → TableBuilder × ℕ
  unfolding tuple_count find_equal settle_tuple
  intern_tuple b =
      let candidate = tuple_count b in
      let longer = b.tuples ++ b.slots in
      if b.dedup_active
      then settle_tuple b (find_equal (length b.slots) longer b.index candidate)
      else (record b { tuples = longer }, candidate)
