-- ===== src/Format/RoundTrip.antt =====
-- Directory slots, packed and unpacked.
use mmpack.Prelude.{
  ℕ, zero, suc, ◌+◌, ◌*◌, ◌^◌, ◌≤◌, ◌<◌, ◌≡◌, refl, sym, ap, ◌∙◌, ◌≢◌, List, [], ◌∷◌, ◌++◌, take,
  drop, replicate, length, length-append, length-replicate, take-append, drop-append, ◌==◌,
  if◌then◌else◌, false, arith,
}
use mmpack.Bits.{Bytes, to_bytes, load_uint}
use mmpack.Bits.Memory.{length-to_bytes, load_uint-to_bytes, store_uint-eq-to_bytes}
use mmpack.Format.{
  DirEntry, make_dir_layout, store_at, clear, store_present, encode_dir_entry, load_present32,
  decode_dir_entry,
}
use mathlib.Core.List.{append_assoc, append-nil}
use mmpack.Prelude.Division.{pow-pos}
use native.Mathlib.Nat.{mod-eq_of_lt, zero-add}

-- A field as it stands in a slot: its width and its value.
abbrev Field : Type 0
Field = ℕ × ℕ

abbrev packed : List Field → Bytes
packed [] = []
packed ((w, v) ∷ fs) = to_bytes w v ++ packed fs

abbrev widths : List Field → ℕ
widths [] = 0
widths ((w, v) ∷ fs) = w + widths fs

length-packed : (fs : List Field) → length (packed fs) ≡ widths fs
length-packed [] = refl
length-packed ((w, v) ∷ fs) =
    omega (arith, length-append (to_bytes w v) (packed fs), length-to_bytes w v, length-packed fs)

packed-append : (fs gs : List Field) → packed (fs ++ gs) ≡ packed fs ++ packed gs
packed-append [] gs = refl
packed-append ((w, v) ∷ fs) gs =
    ap (λ t. to_bytes w v ++ t) (packed-append fs gs)
    ∙ sym (append_assoc (to_bytes w v) (packed fs) (packed gs))

zeros-append :
    (m n : ℕ) (tail : Bytes)
    → replicate (m + n) 0 ++ tail ≡ replicate m 0 ++ (replicate n 0 ++ tail)
zeros-append zero n tail = rw zero-add refl
zeros-append (suc m) n tail =
    let e : suc m + n ≡ suc (m + n) = omega arith in rw e (ap (λ t. 0 ∷ t) (zeros-append m n tail))

-- A store into the zeros behind the fields that are written adds a field.
store_at-packed :
    (fs : List Field) (at w v n : ℕ) (tail : Bytes)
    → w ≤ 8
    → v < 2 ^ (8 * w)
    → at ≡ widths fs
    → store_at (packed fs ++ (replicate (w + n) 0 ++ tail)) at w v
      ≡ packed (fs ++ (w, v) ∷ []) ++ (replicate n 0 ++ tail)
unfolding store_at
store_at-packed fs at w v n tail h fits e =
    let here : at ≡ length (packed fs) = e ∙ sym (length-packed fs) in
    rw (
      take-append (packed fs) (replicate (w + n) 0 ++ tail) here,
      drop-append (packed fs) (replicate (w + n) 0 ++ tail) here,
      store_uint-eq-to_bytes (replicate (w + n) 0 ++ tail) w v h fits,
      zeros-append w n tail,
      drop-append (replicate w 0) (replicate n 0 ++ tail) (sym (length-replicate w 0)),
      packed-append fs ((w, v) ∷ []),
      append-nil (to_bytes w v),
      append_assoc (packed fs) (to_bytes w v) (replicate n 0 ++ tail),
    )

-- An absent field is none of the slot's bytes.
store_present-packed :
    (fs : List Field) (at w v n : ℕ) (tail : Bytes)
    → w ≤ 8
    → (w ≢ 0 → v < 2 ^ (8 * w))
    → at ≡ widths fs
    → store_present (packed fs ++ (replicate (w + n) 0 ++ tail)) at w v
      ≡ packed (fs ++ (w, v) ∷ []) ++ (replicate n 0 ++ tail)
unfolding store_present to_bytes
store_present-packed fs at zero v n tail h fits e =
    rw (zero-add, packed-append fs ((0, v) ∷ []), append-nil (packed fs)) refl
store_present-packed fs at (suc w) v n tail h fits e =
    let present : (suc w == 0) ≡ false = ground arith in
    rw present (store_at-packed fs at (suc w) v n tail h (fits (λ z. omega arith)) e)

-- A field of the packed bytes is read at its place.
read_packed :
    (fs : List Field) (at w v : ℕ) (gs : List Field) (rest : Bytes)
    → w ≤ 8
    → v < 2 ^ (8 * w)
    → at ≡ widths fs
    → load_uint (drop at (packed (fs ++ (w, v) ∷ gs) ++ rest)) w ≡ v
read_packed fs at w v gs rest h fits e =
    rw
      (
        packed-append fs ((w, v) ∷ gs),
        append_assoc (packed fs) (to_bytes w v ++ packed gs) rest,
        drop-append (packed fs) ((to_bytes w v ++ packed gs) ++ rest) (e ∙ sym (length-packed fs)),
        append_assoc (to_bytes w v) (packed gs) rest,
      )
      (load_uint-to_bytes w v (packed gs ++ rest) h fits)

-- The field `v` can be stored in `w` bytes; in none, where it is the value that an absent field has.
abbrev pub Stored : ℕ → ℕ → ℕ → Type 0
Stored w v absent = (w ≤ 8) × (w ≡ 0 → v ≡ absent) × (w ≢ 0 → v < 2 ^ (8 * w))

module _ (pw ow cw sw mw aw kw : ℕ) (d : DirEntry) where
  abbrev fields : List Field
  fields =
      (pw, d.partition)
      ∷ (ow, d.offset)
      ∷ (cw, d.count)
      ∷ (sw, d.schema_id)
      ∷ (mw, d.remap_count)
      ∷ (aw, d.address_width)
      ∷ (kw, d.address_skip)
      ∷ []

-- The entry fits a slot of these widths, at slot `index` of an image whose address field has
-- `full` bytes.
pub record Packs (pw ow cw sw mw aw kw index full : ℕ) (d : DirEntry) : Type 0 where
  pub partition : Stored pw d.partition index
  pub offset : Stored ow d.offset 0
  pub count : Stored cw d.count 0
  pub schema_id : Stored sw d.schema_id 0
  pub remap_count : Stored mw d.remap_count 0
  pub address_width : Stored aw d.address_width full
  pub address_skip : Stored kw d.address_skip 0
  pub schema_id_u32 : d.schema_id < 2 ^ 32
  pub remap_count_u32 : d.remap_count < 2 ^ 32
  pub address_width_u32 : d.address_width < 2 ^ 32
  pub address_skip_u32 : d.address_skip < 2 ^ 32

read_present :
    (fs : List Field) (at w v absent : ℕ) (gs : List Field) (rest : Bytes)
    → Stored w v absent
    → at ≡ widths fs
    → (if w == 0 then absent else load_uint (drop at (packed (fs ++ (w, v) ∷ gs) ++ rest)) w) ≡ v
read_present fs at zero v absent gs rest s e = sym (s.1 refl)
read_present fs at (suc w) v absent gs rest s e =
    let present : (suc w == 0) ≡ false = ground arith in
    rw present (read_packed fs at (suc w) v gs rest s.0 (s.2 (λ z. omega arith)) e)

read_present32 :
    (fs : List Field) (at w v absent : ℕ) (gs : List Field) (rest : Bytes)
    → Stored w v absent
    → v < 2 ^ 32
    → at ≡ widths fs
    → load_present32 (packed (fs ++ (w, v) ∷ gs) ++ rest) at w absent ≡ v
unfolding load_present32
read_present32 fs at zero v absent gs rest s u e = sym (s.1 refl)
read_present32 fs at (suc w) v absent gs rest s u e =
    let present : (suc w == 0) ≡ false = ground arith in
    rw (present, read_packed fs at (suc w) v gs rest s.0 (s.2 (λ z. omega arith)) e)
      (mod-eq_of_lt u)

entry_eq :
    (a b : DirEntry)
    → a.partition ≡ b.partition
    → a.offset ≡ b.offset
    → a.count ≡ b.count
    → a.schema_id ≡ b.schema_id
    → a.remap_count ≡ b.remap_count
    → a.address_width ≡ b.address_width
    → a.address_skip ≡ b.address_skip
    → a ≡ b
entry_eq a b p o c s m w k = λ i. record {
  partition = p i;
  offset = o i;
  count = c i;
  schema_id = s i;
  remap_count = m i;
  address_width = w i;
  address_skip = k i;
}

Stored-lt : (w v : ℕ) → Stored w v 0 → v < 2 ^ (8 * w)
Stored-lt w v s = ground (arith, s, pow-pos (8 * w))

module _ (pw ow cw sw mw aw kw index full : ℕ) (d : DirEntry)
    (ok : Packs pw ow cw sw mw aw kw index full d) (out : Bytes) where
  -- Packing writes the fields one after the other, and what is behind the slot stays.
  encode-packed :
      encode_dir_entry out (make_dir_layout pw ow cw sw mw aw kw) d
      ≡ packed (fields pw ow cw sw mw aw kw d)
        ++ ([] ++ drop (pw + ow + cw + sw + mw + aw + kw) out)
  unfolding encode_dir_entry make_dir_layout clear
  encode-packed =
      let tail = drop (pw + ow + cw + sw + mw + aw + kw) out in
      let e : pw + ow + cw + sw + mw + aw + kw ≡ pw + (ow + (cw + (sw + (mw + (aw + (kw + 0)))))) =
        omega arith in
      let fs = fields pw ow cw sw mw aw kw d in
      rw (
        ap (λ (n : ℕ). replicate {A = ℕ} n 0) e,
        store_present-packed [] 0 pw d.partition _ tail ok.partition.0 ok.partition.2 refl,
        store_at-packed (take 1 fs) pw ow d.offset _ tail ok.offset.0 (Stored-lt _ _ ok.offset)
            (omega arith),
        store_at-packed (take 2 fs) (pw + ow) cw d.count _ tail ok.count.0 (Stored-lt _ _ ok.count)
            (omega arith),
        store_present-packed (take 3 fs) (pw + ow + cw) sw d.schema_id _ tail ok.schema_id.0
            ok.schema_id.2 (omega arith),
        store_present-packed (take 4 fs) (pw + ow + cw + sw) mw d.remap_count _ tail
            ok.remap_count.0 ok.remap_count.2 (omega arith),
        store_present-packed (take 5 fs) (pw + ow + cw + sw + mw) aw d.address_width _ tail
            ok.address_width.0 ok.address_width.2 (omega arith),
        store_present-packed (take 6 fs) (pw + ow + cw + sw + mw + aw) kw d.address_skip 0 tail
            ok.address_skip.0 ok.address_skip.2 (omega arith),
      )

  -- An entry that fits the widths of a layout comes back from its packed slot as it was packed,
  -- where the absent fields have the values that the reader supplies.
  pub decode_dir_entry-encode_dir_entry :
      decode_dir_entry
        (encode_dir_entry out (make_dir_layout pw ow cw sw mw aw kw) d)
        (make_dir_layout pw ow cw sw mw aw kw)
        index
        full
      ≡ d
  unfolding decode_dir_entry make_dir_layout
  decode_dir_entry-encode_dir_entry =
      let fs = fields pw ow cw sw mw aw kw d in
      let rest = [] ++ drop (pw + ow + cw + sw + mw + aw + kw) out in
      rw encode-packed (
        entry_eq _ d (read_present [] 0 pw d.partition index (drop 1 fs) rest ok.partition refl)
          (read_packed (take 1 fs) pw ow d.offset (drop 2 fs) rest ok.offset.0
            (Stored-lt _ _ ok.offset) (omega arith))
          (read_packed (take 2 fs) (pw + ow) cw d.count (drop 3 fs) rest ok.count.0
            (Stored-lt _ _ ok.count) (omega arith))
          (read_present32 (take 3 fs) (pw + ow + cw) sw d.schema_id 0 (drop 4 fs) rest ok.schema_id
            ok.schema_id_u32 (omega arith))
          (read_present32 (take 4 fs) (pw + ow + cw + sw) mw d.remap_count 0 (drop 5 fs) rest
            ok.remap_count ok.remap_count_u32 (omega arith))
          (read_present32 (take 5 fs) (pw + ow + cw + sw + mw) aw d.address_width full (drop 6 fs)
            rest ok.address_width ok.address_width_u32 (omega arith))
          (read_present32 (take 6 fs) (pw + ow + cw + sw + mw + aw) kw d.address_skip 0 [] rest
            ok.address_skip ok.address_skip_u32 (omega arith)))
