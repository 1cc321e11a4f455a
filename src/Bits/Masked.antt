-- ===== src/Bits/Masked.antt =====
-- The branch-free load: eight bytes and a mask read the same as the switch on the width.
use mmpack.Prelude.{
  ℕ, zero, suc, ◌+◌, ◌*◌, ◌%◌, ◌^◌, ◌≤◌, ◌≡◌, sym, ap, ap₂, ◌∙◌, [], ◌∷◌, take, bit_and, arith,
}
use mmpack.Prelude.BitAnd.{bit_and_mask}
use mmpack.Prelude.Division.{mod-mul, mod_unique, div_unique, pow_byte, pow-pos}
use mmpack.Bits.{Bytes, AreBytes, of_bytes, load, load_uint, mask_for_width, load_uint_masked}
use mmpack.Bits.Memory.{load_uint-eq-load}
use native.Mathlib.Nat.{mod-one, zero-mod, mul_comm}

bit_and-mask_for_width : (a w : ℕ) → w ≤ 8 → bit_and a (mask_for_width w) ≡ a % 2 ^ (8 * w)
unfolding mask_for_width
bit_and-mask_for_width a w h = ground (arith, bit_and_mask 64 a, bit_and_mask (8 * w) a)

load_mod : (n w : ℕ) (p : Bytes) → AreBytes p → w ≤ n → load n p % 2 ^ (8 * w) ≡ load w p
unfolding load of_bytes
load_mod n zero p bytes h = mod-one (of_bytes (take n p))
load_mod zero (suc w) p bytes h = absurd (omega arith)
load_mod (suc n) (suc w) [] bytes h = zero-mod (2 ^ (8 * suc w))
load_mod (suc n) (suc w) (b ∷ p) (hb, bytes) h =
    ap (λ (t : ℕ). (b + 256 * of_bytes (take n p)) % t) (pow_byte w ∙ mul_comm 256 (2 ^ (8 * w)))
    ∙ mod-mul (2 ^ (8 * w)) 256 (b + 256 * of_bytes (take n p)) (pow-pos (8 * w)) (omega arith)
    ∙ ap₂ (λ (x y : ℕ). x % 2 ^ (8 * w) * 256 + y)
        (div_unique (of_bytes (take n p)) 256 b (omega arith) hb)
        (mod_unique (of_bytes (take n p)) 256 b (omega arith) hb)
    ∙ first_digit (load_mod n w p bytes (omega arith))
  where
    first_digit :
        of_bytes (take n p) % 2 ^ (8 * w) ≡ of_bytes (take w p)
        → of_bytes (take n p) % 2 ^ (8 * w) * 256 + b ≡ b + 256 * of_bytes (take w p)
    first_digit e = rw e (omega arith)

-- Where the bytes are bytes, the masked load under the mask of a width of at most 8 bytes
-- gives what `load_uint` gives at that width.
pub load_uint_masked-load_uint :
    (p : Bytes) (w : ℕ) → AreBytes p → w ≤ 8 → load_uint_masked p (mask_for_width w) ≡ load_uint p w
unfolding load_uint_masked
load_uint_masked-load_uint p w bytes h =
    bit_and-mask_for_width (load 8 p) w h ∙ load_mod 8 w p bytes h ∙ sym (load_uint-eq-load p w h)
