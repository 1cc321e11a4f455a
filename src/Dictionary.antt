-- ===== src/Dictionary.antt =====
-- include/mmpack/dictionary.hpp: interning of texts, and the views of serialized dictionaries.
pub mod Interning
pub mod Open
mod Examples
use mmpack.Prelude.{
  ℕ, zero, suc, ◌+◌, ◌-◌, ◌*◌, ◌%◌, ◌^◌, Bool, true, false, not, ◌&&◌, ◌||◌, Option, none, some,
  List, [], ◌∷◌, ◌++◌, take, drop, length, ltb, leb, ◌==◌, if◌then◌else◌,
}
use mmpack.Prelude.Early.{◌>>=◌, ◌>>◌, reject_if}
use mmpack.Bits.{Bytes, load, to_bytes}

abbrev pub dictionary_magic : ℕ
dictionary_magic = 0x4d44_4943

-- dict_type::fixed and dict_type::blob
abbrev pub fixed_type : ℕ
fixed_type = 0

abbrev pub blob_type : ℕ
blob_type = 1

pub record DictHeader : Type 0 where
  pub magic : ℕ
  pub dict_type : ℕ
  pub count : ℕ
  pub payload : ℕ

abbrev pub dict_header_size : ℕ
dict_header_size = 16

unfoldable pub load_dict_header : Bytes → DictHeader
load_dict_header p = record {
  magic = load 4 p;
  dict_type = load 4 (drop 4 p);
  count = load 4 (drop 8 p);
  payload = load 4 (drop 12 p);
}

-- `operator==` of two byte strings.
unfoldable pub same_bytes : Bytes → Bytes → Bool
same_bytes [] [] = true
same_bytes [] (b ∷ q) = false
same_bytes (a ∷ p) [] = false
same_bytes (a ∷ p) (b ∷ q) = a == b && same_bytes p q

-- class blob_dictionary_builder; `order` holds the texts that the pointers of `order_` lead to.
pub record BlobBuilder : Type 0 where
  pub index : List (Bytes × ℕ)
  pub order : List Bytes
  pub blob_size : ℕ

-- `index_.find(text)`
unfoldable pub find_text : List (Bytes × ℕ) → Bytes → Option ℕ
unfolding same_bytes
find_text [] wanted = none
find_text ((key, id) ∷ index) wanted =
    let later = find_text index wanted in if same_bytes key wanted then some id else later

-- The id with the builder after it; `none` is the build_error of a blob that exceeds 4 GiB.
unfoldable pub intern : BlobBuilder → Bytes → Option (BlobBuilder × ℕ)
unfolding find_text
intern b wanted = elim (find_text b.index wanted) [
  | some id ↦ some (b, id)
  | none ↦
      let id = length b.order in
      if ltb (2 ^ 32 - 1) (b.blob_size + length wanted)
      then none
      else some (
        record {
          index = (wanted, id) ∷ b.index;
          order = b.order ++ (wanted ∷ []);
          blob_size = b.blob_size + length wanted;
        },
        id,
      )
]

unfoldable pub serialized_size : BlobBuilder → ℕ
serialized_size b = dict_header_size + (length b.order + 1) * 4 + b.blob_size

-- The offsets that `write` appends, from the running one on, and the texts behind them.
unfoldable pub offset_bytes : List Bytes → ℕ → Bytes
offset_bytes [] running = to_bytes 4 running
offset_bytes (entry ∷ order) running =
    to_bytes 4 running ++ offset_bytes order ((running + length entry) % 2 ^ 32)

unfoldable pub blob_bytes : List Bytes → Bytes
blob_bytes [] = []
blob_bytes (entry ∷ order) = entry ++ blob_bytes order

-- The bytes that `write` appends to a sink.
unfoldable pub write_blob : BlobBuilder → Bytes
unfolding offset_bytes blob_bytes
write_blob b =
    to_bytes 4 dictionary_magic
    ++ (to_bytes 4 blob_type
        ++ (to_bytes 4 (length b.order % 2 ^ 32)
            ++ (to_bytes 4 b.blob_size ++ (offset_bytes b.order 0 ++ blob_bytes b.order))))

unfoldable pub fixed_dictionary_size : ℕ → ℕ → ℕ
fixed_dictionary_size count elem_size = dict_header_size + count * elem_size

-- class fixed_dictionary_view
pub record FixedView : Type 0 where
  pub elements : Bytes
  pub count : ℕ
  pub elem_size : ℕ

-- fixed_dictionary_view::open
unfoldable pub open_fixed : Bytes → Option FixedView
unfolding load_dict_header
open_fixed block = do
  reject_if (ltb (length block) dict_header_size)
  let head = load_dict_header block
  reject_if (not (head.magic == dictionary_magic) || not (head.dict_type == fixed_type))
  reject_if (ltb (length block) (dict_header_size + head.count * head.payload))
  some (record {
    elements = drop dict_header_size block;
    count = head.count;
    elem_size = head.payload;
  })

-- The bytes from the entry on, `none` for the null pointer.
unfoldable pub element : FixedView → ℕ → Option Bytes
element view id =
    if leb view.count id then none else some (drop (id * view.elem_size) view.elements)

-- class blob_dictionary_view
pub record BlobView : Type 0 where
  pub offsets : Bytes
  pub blob : Bytes
  pub count : ℕ

unfoldable pub offset_at : Bytes → ℕ → ℕ
offset_at offsets i = load 4 (drop (i * 4) offsets)

-- The loop over the offsets from `i` on, `rounds` of them: the last one, `none` where one is refused.
unfoldable pub check_offsets : ℕ → Bytes → ℕ → ℕ → ℕ → Option ℕ
unfolding offset_at
check_offsets zero offsets payload i previous = some previous
check_offsets (suc rounds) offsets payload i previous =
    let value = offset_at offsets i in
    let later = check_offsets rounds offsets payload (i + 1) value in
    if ltb value previous || ltb payload value then none else later

-- blob_dictionary_view::open
unfoldable pub open_blob : Bytes → Option BlobView
unfolding load_dict_header check_offsets
open_blob block = do
  reject_if (ltb (length block) dict_header_size)
  let head = load_dict_header block
  reject_if (not (head.magic == dictionary_magic) || not (head.dict_type == blob_type))
  let offsets_bytes = (head.count + 1) * 4
  reject_if (ltb (length block) (dict_header_size + offsets_bytes + head.payload))
  let offsets = drop dict_header_size block
  last ← check_offsets (head.count + 1) offsets head.payload 0 0
  reject_if (not (last == head.payload))
  some (record { offsets = offsets; blob = drop offsets_bytes offsets; count = head.count })

-- blob_dictionary_view::bytes; the difference of the offsets is one of 32 bits, which wraps.
unfoldable pub text_at : BlobView → ℕ → Option Bytes
unfolding offset_at
text_at view id =
    let start = offset_at view.offsets id in
    let stop = offset_at view.offsets (id + 1) in
    if leb view.count id
    then none
    else some (take ((stop + 2 ^ 32 - start) % 2 ^ 32) (drop start view.blob))
