-- ===== src/Builder/Directory/Examples.antt =====
-- A directory with a gap, and the slots of its dense form.
use mmpack.Prelude.{ℕ, ◌≡◌, ◌<◌, refl, true, List, [], ◌∷◌, length, get_or, arith}
use mmpack.Bits.{width_for}
use mmpack.Format.{DirEntry, make_dir_layout}
use mmpack.Builder.Directory.{
  no_entry, use_dense, gap_slots, dense_slots, emitted_slots, emitted_layout,
}
use mmpack.Builder.Directory.Dense.{dense_slots_lem}

program : Unit {0}
unfolding use_dense gap_slots dense_slots emitted_slots emitted_layout make_dir_layout width_for
program = tt

abbrev directory : List DirEntry
directory =
    record no_entry { partition = 1; offset = 8; count = 2; address_width = 4 }
    ∷ record no_entry { partition = 3; offset = 16; count = 1; address_width = 4 }
    ∷ []

is_dense : use_dense 64 directory ≡ true
unfolding program
is_dense = refl

slot_count : length (emitted_slots true 4 directory) ≡ 4
unfolding program
slot_count = refl

stride : (emitted_layout true 4 directory).stride ≡ 2
unfolding program
stride = refl

dense_slots_lem_example :
    ((i : ℕ)
      → i < length (dense_slots 4 0 directory)
      → (get_or (dense_slots 4 0 directory) i no_entry).partition ≡ i)
    × ((k : ℕ)
        → k < length directory
        → get_or (dense_slots 4 0 directory) (get_or directory k no_entry).partition no_entry
          ≡ get_or directory k no_entry)
dense_slots_lem_example = dense_slots_lem 4 directory (omega arith, (omega arith, tt))
