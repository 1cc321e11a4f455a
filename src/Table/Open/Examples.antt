-- ===== src/Table/Open/Examples.antt =====
-- An image of two partitions that is opened, images that are not, and the theorems at them.
use mmpack.Prelude.{
  zero, suc, Bool, ◌&&◌, ltb, arith, ℕ, ◌+◌, ◌<◌, ◌≡◌, ◌≢◌, ◌↔◌, refl, some, [], ◌∷◌, ◌++◌,
  replicate, length, true, false, take,
}
use mmpack.Error.{done, fail, ok, too_small, bad_directory, bad_size, bad_user_region}
use mmpack.Bits.{
  Bytes, AreBytes, load_uint_masked, of_bytes, to_bytes, load, is_valid_width, load_uint,
  mask_for_width,
}
use mmpack.Dictionary.{
  same_bytes, load_dict_header, open_fixed, open_blob, check_offsets, offset_at,
}
use mmpack.Format.{magic, make_dir_layout, load_present32, decode_dir_entry}
use mmpack.Schema.{
  kind_of, load_schema_header, load_field_desc, field, width_ok, is_text, terminated, field_ok,
  fields_ok, header_ok, mode_ok, view_of, open_schema, dictionary, directory_layout,
}
use mmpack.Table.Layout.{
  Table, slot_bytes, slot, layout_of, load_address, record_bytes, stored_address,
}
use mmpack.Table.Narrow.{IsNarrow}
use mmpack.Table.Order.{IsOrdered}
use mmpack.Table.Open.{
  header_size, footer_size, load_header, load_footer, attach, entry_stride, entry_end, check_slot,
  check_slots, open_dictionaries, texts_ok, check_directory, long_frame, open_frame, finish_open,
  try_open,
}
use mmpack.Table.Open.Accept.{IsImage, try_open-IsImage}
use mmpack.Table.Open.Reasons.{try_open-reason}
use mmpack.Table.Open.Ordered.{try_open-IsOrdered}

program : Unit {0}
unfolding of_bytes to_bytes load is_valid_width load_uint mask_for_width same_bytes load_dict_header
    open_fixed open_blob check_offsets offset_at make_dir_layout load_present32 decode_dir_entry
    kind_of load_schema_header load_field_desc field width_ok is_text terminated field_ok fields_ok
    header_ok mode_ok view_of open_schema dictionary directory_layout slot_bytes slot load_header
    load_footer attach entry_stride entry_end check_slot check_slots open_dictionaries texts_ok
    check_directory long_frame open_frame finish_open try_open load_uint_masked layout_of
    load_address record_bytes stored_address
program = tt

-- Records at 16, the directory at 23, the schema block at 33, the footer at 99.
abbrev header : Bytes
header = magic ++ to_bytes 4 4 ++ replicate 4 0

-- Partition 3 stores the upper byte of its addresses only, partition 7 both.
abbrev records : Bytes
records = 10 ∷ 100 ∷ 20 ∷ 101 ∷ 5 ∷ 1 ∷ 102 ∷ []

abbrev slots : ℕ → Bytes
slots second = 3 ∷ 16 ∷ 2 ∷ 1 ∷ 1 ∷ 7 ∷ second ∷ 1 ∷ 2 ∷ 0 ∷ []

-- A two-byte address of 16 key bits and one uint field of a byte, named "a".
abbrev schema : Bytes
schema =
    to_bytes 4 0x4d534348
    ++ to_bytes 4 1
    ++ to_bytes 4 0
    ++ to_bytes 4 3
    ++ to_bytes 4 1
    ++ to_bytes 4 2
    ++ (2 ∷ 16 ∷ 0 ∷ 0 ∷ [])
    ++ to_bytes 4 0
    ++ (1 ∷ 1 ∷ 1 ∷ 0 ∷ 1 ∷ 1 ∷ 0 ∷ 0 ∷ [])
    ++ replicate 16 0
    ++ (1 ∷ 0 ∷ 0 ∷ 0 ∷ 0 ∷ 0 ∷ 0 ∷ 0 ∷ [])
    ++ (97 ∷ 0 ∷ [])

abbrev footer : ℕ → Bytes
footer total =
    magic
    ++ to_bytes 4 4
    ++ to_bytes 4 0
    ++ to_bytes 8 total
    ++ to_bytes 8 23
    ++ to_bytes 8 2
    ++ to_bytes 8 33
    ++ to_bytes 8 66
    ++ to_bytes 8 163

-- An image whose second partition starts at `second`, with a footer that counts `total` records.
abbrev image_with : ℕ → ℕ → Bytes
image_with second total = header ++ records ++ slots second ++ schema ++ footer total

abbrev image : Bytes
image = image_with 20 3

abbrev view : Table
unfolding attach load_footer view_of load_schema_header load
view = attach image (load_footer (footer 3)) (view_of schema (load_schema_header schema))

opened : try_open (some image) ≡ done view
unfolding program
opened = refl

-- Records that overlap, a wrong count, a byte too many.
rejected :
    (try_open (some (image_with 19 3)) ≡ fail bad_directory)
    × (try_open (some (image_with 20 4)) ≡ fail bad_directory)
    × (try_open (some (header ++ image)) ≡ fail bad_size)
    × (try_open (some (take 79 image)) ≡ fail too_small)
unfolding program
rejected = (refl, refl, refl, refl)

try_open-IsImage_example : IsImage image view
try_open-IsImage_example = try_open-IsImage image view opened

try_open-reason_example :
    (bad_directory ≢ ok)
    × (bad_directory ≢ bad_user_region)
    × ((bad_directory ≡ too_small) ↔ (length (image_with 19 3) < header_size + footer_size))
try_open-reason_example = try_open-reason (some (image_with 19 3)) bad_directory rejected.0

all_bytes : Bytes → Bool
all_bytes [] = true
all_bytes (b ∷ p) = ltb b 256 && all_bytes p

all_bytes-AreBytes : (p : Bytes) → all_bytes p ≡ true → AreBytes p
unfolding all_bytes
all_bytes-AreBytes [] e = tt
all_bytes-AreBytes (b ∷ p) e =
    (byte b (all_bytes p) e, all_bytes-AreBytes p (rest (ltb b 256) (all_bytes p) e))
  where
    byte : (b : ℕ) (r : Bool) → (ltb b 256 && r) ≡ true → b < 256
    byte b r h = ground arith

    rest : (x r : Bool) → (x && r) ≡ true → r ≡ true
    rest true r h = h
    rest false r h = cc

image-AreBytes : AreBytes image
unfolding program all_bytes
image-AreBytes = all_bytes-AreBytes image refl

-- The two partitions, of two records and of one.
view-IsNarrow : (s : ℕ) → s < 2 → IsNarrow (layout_of view s)
unfolding program
view-IsNarrow zero h = record { range = omega arith; fits = fits; increasing = increasing }
  where
    fits : (i : ℕ) → i < 2 → stored_address (layout_of view 0) i < 256
    fits zero h = omega arith
    fits (suc zero) h = omega arith
    fits (suc (suc i)) h = absurd (omega arith)

    increasing :
        (i j : ℕ)
        → i < j
        → j < 2
        → stored_address (layout_of view 0) i < stored_address (layout_of view 0) j
    increasing zero zero l q = absurd (omega arith)
    increasing zero (suc zero) l q = omega arith
    increasing (suc i) (suc zero) l q = absurd (omega arith)
    increasing (suc i) zero l q = absurd (omega arith)
    increasing i (suc (suc j)) l q = absurd (omega arith)
view-IsNarrow (suc zero) h = record {
  range = omega arith;
  fits = fits;
  increasing = λ i j l q. absurd (omega arith);
}
  where
    fits : (i : ℕ) → i < 1 → stored_address (layout_of view 1) i < 65536
    fits zero h = omega arith
    fits (suc i) h = absurd (omega arith)
view-IsNarrow (suc (suc s)) h = absurd (omega arith)

try_open-IsOrdered_example : IsOrdered view
unfolding view attach load_footer load to_bytes
try_open-IsOrdered_example = try_open-IsOrdered image view image-AreBytes opened view-IsNarrow
