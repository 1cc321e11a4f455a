-- ===== src/Builder/Trim/Bits.antt =====
-- Trimming integer addresses loses nothing, and what is stored fits the width that is chosen.
use mmpack.Prelude.{
  ℕ, zero, suc, ◌+◌, ◌-◌, ◌*◌, ◌/◌, ◌%◌, ◌^◌, ◌≤◌, ◌<◌, ◌≡◌, ◌≢◌, sym, ap, ap₂, ◌∙◌, bit_and,
  Bool-cases, List, [], ◌∷◌, All, ◌==◌, inl, inr, arith,
}
use Prim.Native.Nat.{bit_or}
use mmpack.Prelude.BitAnd.{bit_and_mask}
use mmpack.Prelude.BitOr.{bit_or-ge, bit_or-lt, bit_or-low_zero}
use mmpack.Prelude.Division.{div_unique, pow-pos, pow_add, pow_mono, pow_byte}
use mmpack.Bits.{exact_width_for}
use mmpack.Bits.Widths.{exact_width_for_least}
use mmpack.Builder.Trim.{trim_bits_loop, trim_bits, or_addresses}
use native.Mathlib.Nat.{div-add-mod', le-div_iff_mul-le, div-mul-le_self, le_trans}

-- `rest` is `bits` without `k - skip` zero bytes at its low end, and has no more of them.
abbrev Shifted : ℕ → ℕ → ℕ → ℕ × ℕ → Type 0
Shifted rounds bits skip (rest, k) =
    (j : ℕ) × (k ≡ skip + j) × (j < rounds) × (rest * 2 ^ (8 * j) ≡ bits) × (rest % 256 ≢ 0)

one_more :
    (rounds bits skip : ℕ) (r : ℕ × ℕ)
    → bits % 256 ≡ 0
    → Shifted rounds (bits / 256) (skip + 1) r
    → Shifted (suc rounds) bits skip r
one_more rounds bits skip (rest, k) z (j, e, h, m, ne) =
    (suc j, omega arith, omega arith, ap (λ (t : ℕ). rest * t) (pow_byte j) ∙ omega (arith, m), ne)

trim_bits_loop-Shifted :
    (rounds bits skip : ℕ)
    → bits ≢ 0
    → bits < 2 ^ (8 * rounds)
    → Shifted rounds bits skip (trim_bits_loop rounds bits skip)
unfolding trim_bits_loop
trim_bits_loop-Shifted zero bits skip ne h = absurd (ne (omega arith))
trim_bits_loop-Shifted (suc rounds) bits skip ne h =
    let low = bit_and_mask 8 bits in
    elim (Bool-cases (bit_and bits 0xff == 0)) [
      | inl b ↦
          let z : bits % 256 ≡ 0 = ground (arith, low) in
          rw b (
            one_more rounds bits skip (trim_bits_loop rounds (bits / 256) (skip + 1)) z (
              trim_bits_loop-Shifted rounds (bits / 256) (skip + 1) (λ e. ne (omega (arith, z)))
                (omega (arith, pow_byte rounds))))
      | inr b ↦ rw b (0, omega arith, omega arith, omega arith, λ e. ground (arith, low))
    ]

-- The field of `width` bytes from byte `skip` on holds all of `a`: what is stored fits, and
-- shifted back up it is `a`.
abbrev pub Holds : ℕ → ℕ → ℕ → Type 0
Holds skip width a =
    (a / 2 ^ (8 * skip) < 2 ^ (8 * width)) × (a / 2 ^ (8 * skip) * 2 ^ (8 * skip) ≡ a)

quotient_exact : (x p : ℕ) → 0 < p → x * p / p ≡ x
quotient_exact x p h = div_unique x p 0 (omega arith) h

rest_lt :
    (bits rest j : ℕ) → bits < 2 ^ 64 → j < 8 → rest * 2 ^ (8 * j) ≡ bits → rest < 2 ^ (8 * (8 - j))
rest_lt bits rest j h lt m =
    let e : 8 * (8 - j) + 8 * j ≡ 64 = omega arith in
    let whole : 2 ^ (8 * (8 - j)) * 2 ^ (8 * j) ≡ 2 ^ 64 =
      sym (pow_add (8 * (8 - j)) (8 * j)) ∙ ap (λ (n : ℕ). 2 ^ n) e in
    cancel rest (2 ^ (8 * (8 - j))) (2 ^ (8 * j)) (omega (arith, m, whole))
  where
    cancel : (x y p : ℕ) → x * p < y * p → x < y
    cancel x y p l = grind arith

-- On every uint64, the range that trim_bits returns lies in the 8 bytes and holds the value; for a
-- value other than 0 the lowest byte of the range is not 0, so no larger skip would do.
pub trim_bits-Holds :
    (bits : ℕ)
    → bits < 2 ^ 64
    → ((trim_bits bits).0 + (trim_bits bits).1 ≤ 8)
      × Holds (trim_bits bits).0 (trim_bits bits).1 bits
      × (bits ≢ 0 → bits / 2 ^ (8 * (trim_bits bits).0) % 256 ≢ 0)
unfolding trim_bits
trim_bits-Holds bits h = elim (Bool-cases (bits == 0)) [
  | inl b ↦
      let z : bits ≡ 0 = ground arith in
      rw b (omega arith, (omega arith, omega arith), λ ne. absurd (ne z))
  | inr b ↦
      rw b (exact (trim_bits_loop 8 bits 0) (trim_bits_loop-Shifted 8 bits 0 (ground arith) h))
]
  where
    exact :
        (r : ℕ × ℕ)
        → Shifted 8 bits 0 r
        → (r.1 + exact_width_for r.0 ≤ 8)
          × Holds r.1 (exact_width_for r.0) bits
          × (bits ≢ 0 → bits / 2 ^ (8 * r.1) % 256 ≢ 0)
    exact (rest, k) (j, e, lt, m, ne) =
        let kj : k ≡ j = omega arith in
        let q : bits / 2 ^ (8 * k) ≡ rest =
          ap₂ (λ (x y : ℕ). x / 2 ^ (8 * y)) (sym m) kj
          ∙ quotient_exact rest (2 ^ (8 * j)) (pow-pos (8 * j)) in
        let small = rest_lt bits rest j h (omega arith) m in
        let width =
          exact_width_for_least rest
            (omega (arith, small, pow_mono (8 * (8 - j)) 64 (omega arith))) in
        (
          omega (arith, width.3 (8 - j) (omega arith) small),
          (rw q (width.0), rw q (ap (λ (y : ℕ). rest * 2 ^ (8 * y)) kj ∙ m)),
          λ nz. rw q ne,
        )

-- The union of a partition's addresses holds each of them, so the range of the union does.
or_addresses-ge :
    (addrs : List ℕ) (o : ℕ)
    → (o ≤ or_addresses addrs o) × All (λ a. a ≤ or_addresses addrs o) addrs
unfolding or_addresses
or_addresses-ge [] o = (omega arith, tt)
or_addresses-ge (a ∷ addrs) o =
    let (lo, all) = or_addresses-ge addrs (bit_or o a) in
    let (l, r) = bit_or-ge o a in (omega arith, (omega arith, all))

or_addresses-lt :
    (addrs : List ℕ) (o : ℕ)
    → All (λ a. a < 2 ^ 64) addrs
    → o < 2 ^ 64
    → or_addresses addrs o < 2 ^ 64
unfolding or_addresses
or_addresses-lt [] o h p = p
or_addresses-lt (a ∷ addrs) o (ha, h) p =
    or_addresses-lt addrs (bit_or o a) h (bit_or-lt 64 o a p ha)

or_addresses-low_zero :
    (n : ℕ) (addrs : List ℕ) (o : ℕ)
    → or_addresses addrs o % 2 ^ n ≡ 0
    → (o % 2 ^ n ≡ 0) × All (λ a. a % 2 ^ n ≡ 0) addrs
unfolding or_addresses
or_addresses-low_zero n [] o e = (e, tt)
or_addresses-low_zero n (a ∷ addrs) o e =
    let (here, all) = or_addresses-low_zero n addrs (bit_or o a) e in
    let (l, r) = bit_or-low_zero n o a here in (l, (r, all))

quotient_mono : (a b p : ℕ) → 0 < p → a ≤ b → a / p ≤ b / p
quotient_mono a b p h le = (le-div_iff_mul-le h).1 (le_trans (div-mul-le_self a p) le)

Holds-smaller :
    (skip width big a : ℕ)
    → Holds skip width big
    → a ≤ big
    → a % 2 ^ (8 * skip) ≡ 0
    → Holds skip width a
Holds-smaller skip width big a h le z =
    let exact = div-add-mod' a (2 ^ (8 * skip)) in
    (
      omega (arith, h.0, quotient_mono a big (2 ^ (8 * skip)) (pow-pos (8 * skip)) le),
      omega (arith, exact, z),
    )

Holds-low_zero : (skip width a : ℕ) → Holds skip width a → a % 2 ^ (8 * skip) ≡ 0
Holds-low_zero skip width a h = omega (arith, div-add-mod' a (2 ^ (8 * skip)), h.1)

All-Holds :
    (skip width big : ℕ) (addrs : List ℕ)
    → Holds skip width big
    → All (λ a. a ≤ big) addrs
    → All (λ a. a % 2 ^ (8 * skip) ≡ 0) addrs
    → All (Holds skip width) addrs
All-Holds skip width big [] h le z = tt
All-Holds skip width big (a ∷ addrs) h (la, le) (za, z) =
    (Holds-smaller skip width big a h la za, All-Holds skip width big addrs h le z)

-- The range that is derived from the union of a partition's addresses holds every one of them:
-- for addresses of 64 bits, what is stored fits the width, and shifted back it is the address.
pub or_addresses-Holds :
    (addrs : List ℕ)
    → All (λ a. a < 2 ^ 64) addrs
    → let r = trim_bits (or_addresses addrs 0) in (r.0 + r.1 ≤ 8) × All (Holds r.0 r.1) addrs
or_addresses-Holds addrs h =
    let o = or_addresses addrs 0 in
    let t = trim_bits-Holds o (or_addresses-lt addrs 0 h (omega arith)) in
    let zeros = or_addresses-low_zero (8 * (trim_bits o).0) addrs 0 (Holds-low_zero _ _ o t.1) in
    (t.0, All-Holds (trim_bits o).0 (trim_bits o).1 o addrs t.1 (or_addresses-ge addrs 0).1 zeros.1)
