-- ===== src/Builder/Examples.antt =====
-- What a builder measures, chooses and encodes at small inputs, and each theorem on it at one.
use mmpack.Prelude.{
  ℕ, ◌+◌, ◌*◌, ◌^◌, ◌≤◌, ◌<◌, ◌≡◌, ◌⊎◌, refl, inr, true, List, [], ◌∷◌, replicate, All, arith,
}
use mmpack.Bits.{
  Bytes, of_bytes, to_bytes, load, store, load_uint, store_uint, width_for, exact_width_loop,
  exact_width_for, align_up,
}
use mmpack.Format.{store_at, clear}
use mmpack.Schema.{sint, text}
use mmpack.Builder.Trim.{trim_bits_loop, trim_bits, or_addresses}
use mmpack.Builder.Trim.Bits.{Holds, or_addresses-Holds}
use mmpack.Builder.Fields.{
  fresh_stats, observe, Measured, shape_width, shape_bias, Shape, place_fields, store_fields,
  encode_tuple, read_field,
}
use mmpack.Builder.Fields.Range.{observe_all, FitsShape, observe_all-FitsShape}
use mmpack.Builder.Fields.Placement.{ArePlaced, place_fields-ArePlaced}
use mmpack.Builder.Fields.RoundTrip.{encode_tuple-read_field}
use mmpack.Builder.Remap.{plan_remap, to_local, add_global, remap_table, table_bytes, resolve}
use mmpack.Builder.Remap.Plan.{plan_remap-pays}
use mmpack.Builder.Remap.RoundTrip.{IsResolved, remap_table-IsResolved}

program : Unit {0}
unfolding of_bytes to_bytes load store load_uint store_uint width_for exact_width_loop
    exact_width_for align_up store_at clear trim_bits_loop trim_bits or_addresses observe
    observe_all shape_width shape_bias place_fields store_fields encode_tuple read_field plan_remap
    to_local add_global remap_table table_bytes resolve
program = tt

trimmed : trim_bits (or_addresses (0x0a_0000 ∷ 0x1400 ∷ []) 0) ≡ (1, 2)
unfolding program
trimmed = refl

abbrev union : ℕ
union = 0x0a_1400

abbrev addresses : List ℕ
addresses = 0x0a_0000 ∷ 0x1400 ∷ []

or_addresses-Holds_example :
    ((trim_bits (or_addresses addresses 0)).0 + (trim_bits (or_addresses addresses 0)).1 ≤ 8)
    × All
        (Holds (trim_bits (or_addresses addresses 0)).0 (trim_bits (or_addresses addresses 0)).1)
        addresses
or_addresses-Holds_example = or_addresses-Holds addresses (omega arith, (omega arith, tt))

-- -1 and 5 as 64-bit patterns.
abbrev observed : List ℕ
observed = 0xffff_ffff_ffff_ffff ∷ 5 ∷ []

abbrev measured : Measured
measured = record {
  kind = sint;
  fixed_width = 0;
  stats = observe_all sint fresh_stats observed;
  entries = 0;
}

observe_all-FitsShape_example :
    All (FitsShape (shape_width measured sint) (shape_bias measured sint)) observed
observe_all-FitsShape_example =
    observe_all-FitsShape measured observed refl (inr refl) (omega arith, (omega arith, tt))

signed_shape : (shape_width measured sint ≡ 1) × (shape_bias measured sint ≡ 0xffff_ffff_ffff_ffff)
unfolding program
signed_shape = (refl, refl)

abbrev names : Measured
names = record { kind = text; fixed_width = 0; stats = fresh_stats; entries = 300 }

abbrev both : List Measured
both = measured ∷ names ∷ []

measured-width : (1 ≤ shape_width measured sint) × (shape_width measured sint ≤ 8)
unfolding program
measured-width = (omega arith, omega arith)

names-width : (1 ≤ shape_width names text) × (shape_width names text ≤ 8)
unfolding program
names-width = (omega arith, omega arith)

place_fields-ArePlaced_example :
    ArePlaced 0 (place_fields true 0 both).0 (place_fields true 0 both).1
place_fields-ArePlaced_example =
    place_fields-ArePlaced true both 0 (measured-width, (names-width, tt)) (omega arith)

abbrev tuple : List (Shape × ℕ)
tuple =
    (record { offset = 0; width = 1; bias = 0xffff_ffff_ffff_ffff }, 5)
    ∷ (record { offset = 2; width = 2; bias = 0 }, 299)
    ∷ []

abbrev room : Bytes
room = replicate 5 99

encoded : encode_tuple 4 room tuple ≡ 6 ∷ 0 ∷ 43 ∷ 1 ∷ 99 ∷ []
unfolding program
encoded = refl

encode_tuple-read_field_example : All (λ f. read_field (encode_tuple 4 room tuple) f.0 ≡ f.1) tuple
encode_tuple-read_field_example =
    encode_tuple-read_field tuple 4 room
      (
        (omega arith, omega arith, omega arith, omega arith),
        ((omega arith, omega arith, omega arith, omega arith), tt),
      )
      (omega arith, (omega arith, omega arith)) (omega arith)

planned : plan_remap true 4 100 1000 ≡ (1, 2600)
unfolding program
planned = refl

plan_remap-pays_example :
    (((plan_remap true 4 100 1000).0 ≡ 0) × ((plan_remap true 4 100 1000).1 ≡ 0))
    ⊎ ((1 ≤ (plan_remap true 4 100 1000).0)
        × ((plan_remap true 4 100 1000).0 ≤ 2)
        × ((plan_remap true 4 100 1000).0 < 4)
        × (100 ≤ 2 ^ (8 * (plan_remap true 4 100 1000).0))
        × (0 < (plan_remap true 4 100 1000).1)
        × (1000 * (plan_remap true 4 100 1000).0 + 100 * 4 + (plan_remap true 4 100 1000).1
            ≡ 1000 * 4))
plan_remap-pays_example = plan_remap-pays true 4 100 1000 (omega arith) (omega arith) (omega arith)

abbrev globals : List ℕ
globals = 70_000 ∷ 12 ∷ 70_000 ∷ []

table_of : remap_table [] globals ≡ 70_000 ∷ 12 ∷ []
unfolding program
table_of = refl

remap_table-IsResolved_example : All (IsResolved (remap_table [] globals) (1 ∷ 2 ∷ [])) globals
remap_table-IsResolved_example =
    remap_table-IsResolved globals (1 ∷ 2 ∷ []) (omega arith, (omega arith, (omega arith, tt)))
