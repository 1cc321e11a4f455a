-- ===== src/Builder/Fields/RoundTrip.antt =====
-- An encoded tuple and the reading of its fields.
use mmpack.Prelude.{
  ℕ, zero, suc, ◌+◌, ◌*◌, ◌%◌, ◌^◌, ◌≤◌, ◌<◌, ◌≡◌, refl, sym, ap, ◌∙◌, List, [], ◌∷◌, ◌++◌, take,
  drop, replicate, length, length-append, length-take, length-drop, length-replicate, drop-append,
  All, arith,
}
use mmpack.Bits.{Bytes, of_bytes, load_uint, to_bytes, load}
use mmpack.Bits.Memory.{
  length-to_bytes, load_uint-to_bytes, load_uint-eq-load, store_uint-eq-to_bytes,
}
use mmpack.Format.{store_at, clear}
use mmpack.Builder.Fields.{Shape, sub64, store_fields, encode_tuple, read_field}
use mmpack.Builder.Fields.Range.{FitsShape}
use mmpack.Builder.Fields.Placement.{ArePlaced}

-- Bytes that lie before `b` are not touched by what comes at `b`.
take-drop-take :
    (a u b : ℕ) (p q : Bytes)
    → a + u ≤ b
    → b ≤ length p
    → take u (drop a (take b p ++ q)) ≡ take u (drop a p)
take-drop-take zero zero b p q h l = refl
take-drop-take zero (suc u) zero p q h l = absurd (omega arith)
take-drop-take zero (suc u) (suc b) [] q h l = absurd (omega arith)
take-drop-take zero (suc u) (suc b) (x ∷ p) q h l =
    ap (λ t. x ∷ t) (take-drop-take zero u b p q (omega arith) (omega arith))
take-drop-take (suc a) u zero p q h l = absurd (omega arith)
take-drop-take (suc a) u (suc b) [] q h l = absurd (omega arith)
take-drop-take (suc a) u (suc b) (x ∷ p) q h l =
    take-drop-take a u b p q (omega arith) (omega arith)

module _ (out : Bytes) (at w v : ℕ) (width : w ≤ 8) (fits : v < 2 ^ (8 * w))
    (room : at + w ≤ length out) where
  store_at-bytes : store_at out at w v ≡ take at out ++ (to_bytes w v ++ drop w (drop at out))
  unfolding store_at
  store_at-bytes = ap (λ t. take at out ++ t) (store_uint-eq-to_bytes (drop at out) w v width fits)

  length-store_at : length (store_at out at w v) ≡ length out
  length-store_at =
      ap length store_at-bytes
      ∙ omega (
        arith,
        length-append (take at out) (to_bytes w v ++ drop w (drop at out)),
        length-append (to_bytes w v) (drop w (drop at out)),
        length-take at out,
        length-to_bytes w v,
        length-drop w (drop at out),
        length-drop at out,
      )

  -- A load of bytes before the store sees what was there.
  load-store_at_before :
      (a u : ℕ)
      → u ≤ 8
      → a + u ≤ at
      → load_uint (drop a (store_at out at w v)) u ≡ load_uint (drop a out) u
  unfolding load
  load-store_at_before a u h l =
      load_uint-eq-load _ u h
      ∙ ap of_bytes (
          ap (λ t. take u (drop a t)) store_at-bytes
          ∙ take-drop-take a u at out _ l (omega (arith, room)))
      ∙ sym (load_uint-eq-load _ u h)

  load-store_at : load_uint (drop at (store_at out at w v)) w ≡ v
  load-store_at =
      ap (λ t. load_uint (drop at t) w) store_at-bytes
      ∙ ap (λ t. load_uint t w)
          (drop-append (take at out) (to_bytes w v ++ drop w (drop at out))
            (omega (arith, length-take at out)))
      ∙ load_uint-to_bytes w v (drop w (drop at out)) width fits

-- The shapes of some fields with their values.
abbrev pub shapes : List (Shape × ℕ) → List Shape
shapes [] = []
shapes ((d, v) ∷ fs) = d ∷ shapes fs

abbrev pub AreFitting : List (Shape × ℕ) → Type 0
AreFitting fs = All (λ f. FitsShape f.0.width f.0.bias f.1) fs

ArePlaced-le : (ds : List Shape) (start stride : ℕ) → ArePlaced start ds stride → start ≤ stride
ArePlaced-le [] start stride p = p
ArePlaced-le (d ∷ ds) start stride (p, ps) =
    omega (arith, ArePlaced-le ds (d.offset + d.width) stride ps)

-- The later stores leave the bytes before them.
store_fields-before :
    (fs : List (Shape × ℕ)) (out : Bytes) (start stride a u : ℕ)
    → AreFitting fs
    → ArePlaced start (shapes fs) stride
    → stride ≤ length out
    → u ≤ 8
    → a + u ≤ start
    → load_uint (drop a (store_fields out fs)) u ≡ load_uint (drop a out) u
unfolding store_fields
store_fields-before [] out start stride a u fit placed room h l = refl
store_fields-before ((d, v) ∷ fs) out start stride a u (f, fit) (at, placed) room h l =
    let inside : d.offset + d.width ≤ length out =
      omega (arith, ArePlaced-le (shapes fs) (d.offset + d.width) stride placed) in
    let out' = store_at out d.offset d.width (sub64 v d.bias) in
    let same = length-store_at out d.offset d.width (sub64 v d.bias) f.3 f.2 inside in
    store_fields-before fs out' (d.offset + d.width) stride a u fit placed (omega arith) h
      (omega arith)
    ∙ load-store_at_before out d.offset d.width (sub64 v d.bias) f.3 f.2 inside a u h (omega arith)

unbias : (v b : ℕ) → v < 2 ^ 64 → b < 2 ^ 64 → (sub64 v b + b) % 2 ^ 64 ≡ v
unbias v b p q = omega arith

store_fields-read_field :
    (fs : List (Shape × ℕ)) (out : Bytes) (start stride : ℕ)
    → AreFitting fs
    → ArePlaced start (shapes fs) stride
    → stride ≤ length out
    → All (λ f. read_field (store_fields out fs) f.0 ≡ f.1) fs
unfolding store_fields read_field
store_fields-read_field [] out start stride fit placed room = tt
store_fields-read_field ((d, v) ∷ fs) out start stride (f, fit) (at, placed) room =
    let inside : d.offset + d.width ≤ length out =
      omega (arith, ArePlaced-le (shapes fs) (d.offset + d.width) stride placed) in
    let out' = store_at out d.offset d.width (sub64 v d.bias) in
    let same = length-store_at out d.offset d.width (sub64 v d.bias) f.3 f.2 inside in
    let stored =
      store_fields-before fs out' (d.offset + d.width) stride d.offset d.width fit placed
        (omega arith) f.3 (omega arith)
      ∙ load-store_at out d.offset d.width (sub64 v d.bias) f.3 f.2 inside in
    (
      ap (λ (x : ℕ). (x + d.bias) % 2 ^ 64) stored ∙ unbias v d.bias f.0 f.1,
      store_fields-read_field fs out' (d.offset + d.width) stride fit placed (omega arith),
    )

-- Where the fields lie one behind the other inside the value stride and every value fits its
-- field's shape, reading a field of the encoded tuple gives the value that was encoded, for each.
pub encode_tuple-read_field :
    (fs : List (Shape × ℕ)) (stride : ℕ) (out : Bytes)
    → AreFitting fs
    → ArePlaced 0 (shapes fs) stride
    → stride ≤ length out
    → All (λ f. read_field (encode_tuple stride out fs) f.0 ≡ f.1) fs
unfolding encode_tuple clear
encode_tuple-read_field fs stride out fit placed room =
    store_fields-read_field fs (replicate stride 0 ++ drop stride out) 0 stride fit placed (
      omega (
        arith,
        length-append (replicate {A = ℕ} stride 0) (drop stride out),
        length-replicate {A = ℕ} stride 0,
      ))
