-- ===== src/Bits/Memory.antt =====
-- What is stored is loaded again, and nothing else is touched.
use mmpack.Prelude.{
  ℕ, zero, suc, ◌+◌, ◌*◌, ◌/◌, ◌%◌, ◌^◌, ◌≤◌, ◌<◌, ◌≡◌, refl, sym, ap, ◌∙◌, [], ◌∷◌, ◌++◌, drop,
  length, length-append, length-drop, take-append, drop-append, arith,
}
use mmpack.Prelude.Division.{mod-mul, pow_byte, pow-pos}
use mmpack.Bits.{Bytes, AreBytes, of_bytes, to_bytes, load, load_uint, store_uint}
use native.Mathlib.Nat.{mod-eq_of_lt}

pub length-to_bytes : (n v : ℕ) → length (to_bytes n v) ≡ n
unfolding to_bytes
length-to_bytes zero v = refl
length-to_bytes (suc n) v = ap suc (length-to_bytes n (v / 256))

pub to_bytes-AreBytes : (n v : ℕ) → AreBytes (to_bytes n v)
unfolding to_bytes
to_bytes-AreBytes zero v = tt
to_bytes-AreBytes (suc n) v = (omega arith, to_bytes-AreBytes n (v / 256))

low_digit_first : (x y : ℕ) → x + 256 * y ≡ y * 256 + x
low_digit_first x y = omega arith

pub of_bytes-to_bytes : (n v : ℕ) → of_bytes (to_bytes n v) ≡ v % 2 ^ (8 * n)
unfolding of_bytes to_bytes
of_bytes-to_bytes zero v = omega arith
of_bytes-to_bytes (suc n) v =
    let e : 2 ^ (8 * suc n) ≡ 2 ^ (8 * n) * 256 = omega (arith, pow_byte n) in
    ap (λ (t : ℕ). v % 256 + 256 * t) (of_bytes-to_bytes n (v / 256))
    ∙ low_digit_first (v % 256) (v / 256 % 2 ^ (8 * n))
    ∙ sym (mod-mul (2 ^ (8 * n)) 256 v (pow-pos (8 * n)) (omega arith))
    ∙ ap (λ (t : ℕ). v % t) (sym e)

pub of_bytes-lt : (p : Bytes) → AreBytes p → of_bytes p < 2 ^ (8 * length p)
unfolding of_bytes
of_bytes-lt [] h = omega arith
of_bytes-lt (b ∷ p) (hb, h) = omega (arith, pow_byte (length p), of_bytes-lt p h)

pub load_uint-eq-load : (p : Bytes) (w : ℕ) → w ≤ 8 → load_uint p w ≡ load w p
unfolding load_uint
load_uint-eq-load p w h = ground arith

pub store_uint-eq-to_bytes :
    (p : Bytes) (w v : ℕ) → w ≤ 8 → v < 2 ^ (8 * w) → store_uint p w v ≡ to_bytes w v ++ drop w p
unfolding store_uint
store_uint-eq-to_bytes p w v h fits = ground arith

-- A field that stands at the front of the bytes is loaded as the value that was stored.
pub load_uint-to_bytes :
    (w v : ℕ) (rest : Bytes) → w ≤ 8 → v < 2 ^ (8 * w) → load_uint (to_bytes w v ++ rest) w ≡ v
unfolding load
load_uint-to_bytes w v rest h fits =
    load_uint-eq-load (to_bytes w v ++ rest) w h
    ∙ ap of_bytes (take-append (to_bytes w v) rest (sym (length-to_bytes w v)))
    ∙ of_bytes-to_bytes w v
    ∙ mod-eq_of_lt fits

-- A store of a value that fits into a width of at most 8 bytes is loaded again as that value, the
-- bytes behind the field are those that were there, and the buffer keeps its length.
pub load_uint-store_uint :
    (p : Bytes) (w v : ℕ)
    → w ≤ 8
    → w ≤ length p
    → v < 2 ^ (8 * w)
    → (load_uint (store_uint p w v) w ≡ v)
      × (drop w (store_uint p w v) ≡ drop w p)
      × (length (store_uint p w v) ≡ length p)
load_uint-store_uint p w v h room fits = rw (store_uint-eq-to_bytes p w v h fits) (
  load_uint-to_bytes w v (drop w p) h fits,
  drop-append (to_bytes w v) (drop w p) (sym (length-to_bytes w v)),
  omega (arith, length-append (to_bytes w v) (drop w p), length-to_bytes w v, length-drop w p),
)

pub drop-AreBytes : (n : ℕ) (p : Bytes) → AreBytes p → AreBytes (drop n p)
drop-AreBytes zero p h = h
drop-AreBytes (suc n) [] h = tt
drop-AreBytes (suc n) (b ∷ p) h = drop-AreBytes n p h.1

-- A number of n bytes.
pub load-lt : (n : ℕ) (p : Bytes) → AreBytes p → load n p < 2 ^ (8 * n)
unfolding load of_bytes
load-lt zero p h = omega arith
load-lt (suc n) [] h = pow-pos (8 * suc n)
load-lt (suc n) (b ∷ p) (hb, h) = let ih = load-lt n p h in omega (arith, hb, ih, pow_byte n)
