-- ===== src/Dictionary/Open.antt =====
-- Serialized dictionaries that are opened, and what their views then return.
use mmpack.Prelude.{
  ltb-false, ℕ, zero, suc, ◌+◌, ◌-◌, ◌*◌, ◌%◌, ◌^◌, ◌≤◌, ◌<◌, ◌≡◌, ◌⊎◌, refl, ap, subst, Bool, true,
  false, Bool-cases, not, ◌||◌, Option, none, some, take, drop, drop-drop, length, if◌then◌else◌,
  ltb, leb, ◌==◌, inl, inr, arith,
}
use mmpack.Prelude.Early.{◌>>=◌, reject_if-eq_some}
use mmpack.Bits.{Bytes, AreBytes}
use mmpack.Bits.Memory.{drop-AreBytes, load-lt}
use mmpack.Prelude.Division.{mod_unique}
use mmpack.Dictionary.{
  dictionary_magic, fixed_type, FixedView, open_fixed, element, blob_type, dict_header_size,
  load_dict_header, BlobView, offset_at, check_offsets, open_blob, text_at,
}
use native.Mathlib.Decide.{dec_le}

-- The offsets from `i` on, `rounds` of them, ascend from `previous` to at most `payload`.
abbrev Ascends : ℕ → Bytes → ℕ → ℕ → ℕ → Type 0
Ascends rounds offsets payload i previous =
    (j k : ℕ)
    → i ≤ j
    → j ≤ k
    → k < i + rounds
    → (previous ≤ offset_at offsets j)
      × (offset_at offsets j ≤ offset_at offsets k)
      × (offset_at offsets k ≤ payload)

accepted :
    (test : Bool) (rest : Option ℕ) {last : ℕ}
    → (if test then none else rest) ≡ some last
    → (test ≡ false) × (rest ≡ some last)
accepted true rest e = cc
accepted false rest e = (refl, e)

check_offsets-Ascends :
    (rounds : ℕ) (offsets : Bytes) (payload i previous : ℕ) {last : ℕ}
    → check_offsets rounds offsets payload i previous ≡ some last
    → Ascends rounds offsets payload i previous
unfolding check_offsets
check_offsets-Ascends zero offsets payload i previous e j k p q h = absurd (omega arith)
check_offsets-Ascends (suc rounds) offsets payload i previous e j k p q h =
    let value = offset_at offsets i in
    let (good, later) =
      accepted (ltb value previous || ltb payload value)
        (check_offsets rounds offsets payload (i + 1) value) e in
    let ih = check_offsets-Ascends rounds offsets payload (i + 1) value later in
    let above : previous ≤ value = ground arith in
    let inside : value ≤ payload = ground arith in
    elim (dec_le (i + 1) j) [
      | yes l ↦ omega (arith, ih j k l q (omega arith))
      | no nl ↦
          let at : i ≡ j = omega arith in
          let here : offset_at offsets i ≡ offset_at offsets j = ap (offset_at offsets) at in
          elim (dec_le (i + 1) k) [
            | yes m ↦ omega (arith, ih k k m (omega arith) (omega arith))
            | no nm ↦
                let same : i ≡ k = omega arith in
                let there : offset_at offsets i ≡ offset_at offsets k =
                  ap (offset_at offsets) same in
                omega arith
          ]
    ]

-- What `text_at` gives for an id: nothing past the count, else the bytes between two offsets,
-- all of which lie in the block.
abbrev pub IsText : Bytes → BlobView → ℕ → Type 0
IsText block view id =
    ((view.count ≤ id) × (text_at view id ≡ none))
    ⊎ ((size : ℕ) × (id < view.count)
        × (offset_at view.offsets id + size ≡ offset_at view.offsets (id + 1))
        × (text_at view id ≡ some (take size (drop (offset_at view.offsets id) view.blob)))
        × (view.offsets ≡ drop dict_header_size block)
        × (view.blob ≡ drop (dict_header_size + (view.count + 1) * 4) block)
        × (dict_header_size + (view.count + 1) * 4 + offset_at view.offsets (id + 1)
            ≤ length block))

bind-some :
    {A : Type 0} (m : Option ℕ) (f : ℕ → Option A) {a : A}
    → (m >>= f) ≡ some a
    → (last : ℕ) × (m ≡ some last) × (f last ≡ some a)
bind-some none f e = cc
bind-some (some last) f e = (last, refl, e)

payload_word : (block : Bytes) → AreBytes block → (load_dict_header block).payload < 2 ^ 32
unfolding load_dict_header
payload_word block h = load-lt 4 (drop 12 block) (drop-AreBytes 12 block h)

-- The difference of two words in order does not wrap.
unwrapped : (a b : ℕ) → a ≤ b → b < 2 ^ 32 → (b + 2 ^ 32 - a) % 2 ^ 32 ≡ b - a
unwrapped a b h w = mod_unique 1 (2 ^ 32) (b - a) (omega arith) (omega arith)

inside-IsText :
    (block : Bytes) (count payload id : ℕ)
    → dict_header_size + (count + 1) * 4 + payload ≤ length block
    → payload < 2 ^ 32
    → Ascends (count + 1) (drop dict_header_size block) payload 0 0
    → IsText block
        (record {
          offsets = drop dict_header_size block;
          blob = drop ((count + 1) * 4) (drop dict_header_size block);
          count = count;
        })
        id
unfolding text_at
inside-IsText block count payload id room word ascends = elim (Bool-cases (leb count id)) [
  | inl b ↦ rw b (inl (ground arith, refl))
  | inr b ↦
      let less : id < count = ground arith in
      let a = ascends id (id + 1) (omega arith) (omega arith) (omega arith) in
      let start = offset_at (drop dict_header_size block) id in
      let stop = offset_at (drop dict_header_size block) (id + 1) in
      let below : stop < 2 ^ 32 = omega (arith, a, word) in
      rw b (
        inr (
          stop - start,
          less,
          omega (arith, a),
          ap
              (λ n.
                some (take n (drop start (drop ((count + 1) * 4) (drop dict_header_size block)))))
              (unwrapped start stop (omega (arith, a)) below),
          refl,
          drop-drop dict_header_size ((count + 1) * 4) block refl,
          omega (arith, a, room),
        ))
]

-- A blob dictionary of bytes that `open_blob` accepts gives, for every id below its count, the bytes
-- from the offset of the id up to that of the next, which lie in order inside the block, and nothing for every other id.
pub open_blob-IsText :
    (block : Bytes) (view : BlobView) (id : ℕ)
    → AreBytes block
    → open_blob block ≡ some view
    → IsText block view id
unfolding open_blob
open_blob-IsText block view id bytes e =
    let head = load_dict_header block in
    let (long, e1) = reject_if-eq_some (ltb (length block) dict_header_size) _ e in
    let (magic, e2) =
      reject_if-eq_some (not (head.magic == dictionary_magic) || not (head.dict_type == blob_type))
        _ e1 in
    let (room, e3) =
      reject_if-eq_some
        (ltb (length block) (dict_header_size + (head.count + 1) * 4 + head.payload)) _ e2 in
    let (last, checked, e4) =
      bind-some (check_offsets (head.count + 1) (drop dict_header_size block) head.payload 0 0) _
        e3 in
    let (whole, e5) = reject_if-eq_some (not (last == head.payload)) _ e4 in
    let same : record {
      offsets = drop dict_header_size block;
      blob = drop ((head.count + 1) * 4) (drop dict_header_size block);
      count = head.count;
    }
        ≡ view =
      cc in
    subst (λ v. IsText block v id) same
      (inside-IsText block head.count head.payload id
        (ltb-false (length block) (dict_header_size + (head.count + 1) * 4 + head.payload) room)
        (payload_word block bytes)
        (check_offsets-Ascends (head.count + 1) (drop dict_header_size block) head.payload 0 0
          checked))

-- What `element` gives for an id: nothing past the count, else the bytes from the entry on, where
-- the whole entry lies in the block.
abbrev pub IsElement : Bytes → FixedView → ℕ → Type 0
IsElement block view id =
    ((view.count ≤ id) × (element view id ≡ none))
    ⊎ ((id < view.count)
        × (element view id ≡ some (drop (dict_header_size + id * view.elem_size) block))
        × (dict_header_size + id * view.elem_size + view.elem_size ≤ length block))

entry_before : (id count size : ℕ) → id < count → id * size + size ≤ count * size
entry_before id count size h = grind arith

inside-IsElement :
    (block : Bytes) (count size id : ℕ)
    → dict_header_size + count * size ≤ length block
    → IsElement block
        (record { elements = drop dict_header_size block; count = count; elem_size = size })
        id
unfolding element
inside-IsElement block count size id room = elim (Bool-cases (leb count id)) [
  | inl b ↦ rw b (inl (ground arith, refl))
  | inr b ↦
      let less : id < count = ground arith in
      rw b (
        inr (
          less,
          ap (λ p. some p) (drop-drop dict_header_size (id * size) block refl),
          omega (arith, entry_before id count size less, room),
        ))
]

-- A fixed dictionary that `open_fixed` accepts gives, for every id below its count, an entry that lies
-- inside the block, and nothing for every other id.
pub open_fixed-IsElement :
    (block : Bytes) (view : FixedView) (id : ℕ)
    → open_fixed block ≡ some view
    → IsElement block view id
unfolding open_fixed
open_fixed-IsElement block view id e =
    let head = load_dict_header block in
    let (long, e1) = reject_if-eq_some (ltb (length block) dict_header_size) _ e in
    let (magic, e2) =
      reject_if-eq_some (not (head.magic == dictionary_magic) || not (head.dict_type == fixed_type))
        _ e1 in
    let (room, e3) =
      reject_if-eq_some (ltb (length block) (dict_header_size + head.count * head.payload)) _ e2 in
    let same : record {
      elements = drop dict_header_size block;
      count = head.count;
      elem_size = head.payload;
    }
        ≡ view =
      cc in
    subst (λ v. IsElement block v id) same
      (inside-IsElement block head.count head.payload id
        (ltb-false (length block) (dict_header_size + head.count * head.payload) room))
