-- ===== src/Builder/Fields/Placement.antt =====
-- Where the fields of a tuple lie in the value stride.
use mmpack.Prelude.{
  ℕ, ◌+◌, ◌*◌, ◌%◌, ◌^◌, ◌≤◌, ◌<◌, ◌≡◌, Bool, true, false, List, [], ◌∷◌, length, All,
  if◌then◌else◌, arith,
}
use mmpack.Bits.{align_up}
use mmpack.Bits.Align.{align_up_bounds}
use mmpack.Builder.Fields.{Measured, Shape, shape_width, place_fields}
use native.Mathlib.Nat.{mod-eq_of_lt}

-- From `start` on, each field begins at or behind the end of the one before, and the last one ends
-- at `stride`.
abbrev pub ArePlaced : ℕ → List Shape → ℕ → Type 0
ArePlaced start [] stride = start ≤ stride
ArePlaced start (d ∷ ds) stride = (start ≤ d.offset) × ArePlaced (d.offset + d.width) ds stride

-- Fields of 1 to 8 bytes, as every kind has.
abbrev pub IsNarrowShape : Measured → Type 0
IsNarrowShape m = (1 ≤ shape_width m m.kind) × (shape_width m m.kind ≤ 8)

aligned_at :
    (align_fields : Bool) (offset width : ℕ)
    → 1 ≤ width
    → width ≤ 8
    → offset + 16 < 2 ^ 32
    → let at = if align_fields then align_up offset width % 2 ^ 32 else offset in
      (offset ≤ at) × (at + width < offset + 16)
aligned_at true offset width pos w h =
    let b = align_up_bounds offset width pos (omega arith) in
    rw (mod-eq_of_lt {n = align_up offset width} {m = 2 ^ 32} (omega (arith, b))) (omega (arith, b))
aligned_at false offset width pos w h = omega arith

-- Whether or not fields are aligned: where the fields are 1 to 8 bytes wide and 16 bytes for each
-- stay below 2 ^ 32, the offsets that are chosen put the fields one behind the other, with
-- no overlap, from the starting offset to the value stride.
pub place_fields-ArePlaced :
    (align_fields : Bool) (ms : List Measured) (offset : ℕ)
    → All IsNarrowShape ms
    → offset + 16 * length ms < 2 ^ 32
    → ArePlaced offset
        (place_fields align_fields offset ms).0
        (place_fields align_fields offset ms).1
unfolding place_fields
place_fields-ArePlaced align_fields [] offset w h = omega arith
place_fields-ArePlaced align_fields (m ∷ ms) offset (w, ws) h =
    let width = shape_width m m.kind in
    let at : ℕ = if align_fields then align_up offset width % 2 ^ 32 else offset in
    let a = aligned_at align_fields offset width w.0 w.1 (omega arith) in
    let e : (at + width) % 2 ^ 32 ≡ at + width = mod-eq_of_lt (omega (arith, a)) in
    (a.0, rw e (place_fields-ArePlaced align_fields ms (at + width) ws (omega (arith, a))))
