-- ===== src/Builder/Directory.antt =====
-- The directory that write_image emits (builder.hpp: use_dense, and the slots of write_image).
pub mod Dense
mod Examples
use mmpack.Prelude.{
  ℕ, zero, suc, ◌+◌, ◌-◌, ◌*◌, ◌%◌, ◌^◌, max, Bool, false, not, ◌&&◌, ◌||◌, List, [], ◌∷◌, ◌++◌,
  replicate, length, get_or, leb, ◌==◌, if◌then◌else◌,
}
use mmpack.Bits.{Bytes, width_for}
use mmpack.Format.{DirEntry, DirLayout, make_dir_layout, encode_dir_entry}

-- What an entry past the end is read as.
abbrev pub no_entry : DirEntry
no_entry = record {
  partition = 0;
  offset = 0;
  count = 0;
  schema_id = 0;
  remap_count = 0;
  address_width = 0;
  address_skip = 0;
}

-- `max_dense_slots` is the option.
unfoldable pub use_dense : ℕ → List DirEntry → Bool
use_dense max_dense_slots [] = false
use_dense max_dense_slots (d ∷ directory) =
    let span = ((get_or (d ∷ directory) (length directory) no_entry).partition + 1) % 2 ^ 64 in
    leb span max_dense_slots && leb span (length (d ∷ directory) * 4 + 16)

-- `for (; next < d.partition; ++next)`, `rounds` slots of no records.
unfoldable pub gap_slots : ℕ → ℕ → ℕ → List DirEntry
gap_slots address_width zero next = []
gap_slots address_width (suc rounds) next =
    record no_entry { partition = next; address_width = address_width }
    ∷ gap_slots address_width rounds (next + 1)

-- The slots of a dense directory from partition `next` on.
unfoldable pub dense_slots : ℕ → ℕ → List DirEntry → List DirEntry
unfolding gap_slots
dense_slots address_width next [] = []
dense_slots address_width next (d ∷ directory) =
    gap_slots address_width (d.partition - next) next
    ++ (d ∷ dense_slots address_width (d.partition + 1) directory)

unfoldable pub emitted_slots : Bool → ℕ → List DirEntry → List DirEntry
unfolding dense_slots
emitted_slots dense address_width directory =
    if dense then dense_slots address_width 0 directory else directory

-- The largest value of a field, and whether an address width departs from the global one.
abbrev pub largest : (DirEntry → ℕ) → List DirEntry → ℕ
largest f [] = 0
largest f (d ∷ directory) = max (f d) (largest f directory)

abbrev pub trimmed : ℕ → List DirEntry → Bool
trimmed address_width [] = false
trimmed address_width (d ∷ directory) =
    not (d.address_width == address_width) || trimmed address_width directory

unfoldable pub emitted_layout : Bool → ℕ → List DirEntry → DirLayout
unfolding make_dir_layout width_for
emitted_layout dense address_width directory =
    let remap = largest (λ d. d.remap_count) directory in
    make_dir_layout (if dense then 0 else width_for (largest (λ d. d.partition) directory))
      (width_for (largest (λ d. d.offset) directory)) (width_for (largest (λ d. d.count) directory))
      (if not (remap == 0) then 1 else 0) (if not (remap == 0) then width_for remap else 0)
      (if trimmed address_width directory then 1 else 0)
      (if not (largest (λ d. d.address_skip) directory == 0) then 1 else 0)

-- The bytes of the slots. encode_dir_entry clears what the buffer held.
unfoldable pub slots_bytes : DirLayout → List DirEntry → Bytes
unfolding encode_dir_entry
slots_bytes layout [] = []
slots_bytes layout (d ∷ slots) =
    encode_dir_entry (replicate layout.stride 0) layout d ++ slots_bytes layout slots
