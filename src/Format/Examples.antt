-- ===== src/Format/Examples.antt =====
-- A directory slot of a trimmed, remapped partition.
use mmpack.Prelude.{◌≡◌, refl, [], ◌∷◌, replicate, arith}
use mmpack.Bits.{Bytes, of_bytes, to_bytes, load, store, load_uint, store_uint}
use mmpack.Format.{
  DirEntry, make_dir_layout, store_at, clear, store_present, encode_dir_entry, load_present32,
  decode_dir_entry,
}
use mmpack.Format.RoundTrip.{Packs, decode_dir_entry-encode_dir_entry}

program : Unit {0}
unfolding of_bytes to_bytes load store load_uint store_uint make_dir_layout store_at clear
    store_present encode_dir_entry load_present32 decode_dir_entry
program = tt

abbrev entry : DirEntry
entry = record {
  partition = 7;
  offset = 4096;
  count = 300;
  schema_id = 1;
  remap_count = 12;
  address_width = 2;
  address_skip = 0;
}

abbrev room : Bytes
room = replicate 10 99

-- No skip is stored in this layout: its width is 0.
packed :
    encode_dir_entry room (make_dir_layout 1 2 2 1 1 1 0) entry
    ≡ 7 ∷ 0 ∷ 16 ∷ 44 ∷ 1 ∷ 1 ∷ 12 ∷ 2 ∷ 99 ∷ 99 ∷ []
unfolding program
packed = refl

entry-Packs : Packs 1 2 2 1 1 1 0 7 4 entry
entry-Packs = record {
  partition = (omega arith, λ e. absurd (omega arith), λ n. omega arith);
  offset = (omega arith, λ e. absurd (omega arith), λ n. omega arith);
  count = (omega arith, λ e. absurd (omega arith), λ n. omega arith);
  schema_id = (omega arith, λ e. absurd (omega arith), λ n. omega arith);
  remap_count = (omega arith, λ e. absurd (omega arith), λ n. omega arith);
  address_width = (omega arith, λ e. absurd (omega arith), λ n. omega arith);
  address_skip = (omega arith, λ e. refl, λ n. absurd (n refl));
  schema_id_u32 = omega arith;
  remap_count_u32 = omega arith;
  address_width_u32 = omega arith;
  address_skip_u32 = omega arith;
}

decode_dir_entry-encode_dir_entry_example :
    decode_dir_entry
      (encode_dir_entry room (make_dir_layout 1 2 2 1 1 1 0) entry)
      (make_dir_layout 1 2 2 1 1 1 0)
      7
      4
    ≡ entry
decode_dir_entry-encode_dir_entry_example =
    decode_dir_entry-encode_dir_entry 1 2 2 1 1 1 0 7 4 entry entry-Packs room
