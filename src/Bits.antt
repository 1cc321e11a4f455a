-- ===== src/Bits.antt =====
-- include/mmpack/detail/bits.hpp: typed loads and stores, field widths, masks, alignment.
--
-- A `std::byte*` is the list of the bytes from there on, so `p + n` is `drop n p`. A load past the
-- end of the list is undefined in the source; here it reads the bytes that are there.
pub mod Memory
pub mod Widths
pub mod Masked
pub mod Align
mod Examples
use mmpack.Prelude.{ℕ, zero, suc, ◌+◌, ◌-◌, ◌*◌, ◌/◌, ◌%◌, ◌^◌, ◌<◌, bit_and}
use mmpack.Prelude.{Bool, ◌||◌, List, [], ◌∷◌, ◌++◌, take, drop, ltb, leb, ◌==◌, if◌then◌else◌, All}

abbrev pub Bytes : Type 0
Bytes = List ℕ

abbrev pub AreBytes : Bytes → Type 0
AreBytes p = All (λ b. b < 256) p

-- A little-endian number and the bytes that hold it.
unfoldable pub of_bytes : Bytes → ℕ
of_bytes [] = 0
of_bytes (b ∷ bs) = b + 256 * of_bytes bs

unfoldable pub to_bytes : ℕ → ℕ → Bytes
to_bytes zero v = []
to_bytes (suc n) v = (v % 256) ∷ to_bytes n (v / 256)

-- `load<T>` and `store<T>`, with `sizeof(T)` as an argument.
unfoldable pub load : ℕ → Bytes → ℕ
unfolding of_bytes
load n p = of_bytes (take n p)

unfoldable pub store : ℕ → Bytes → ℕ → Bytes
unfolding to_bytes
store n p v = to_bytes n v ++ drop n p

unfoldable pub load_uint : Bytes → ℕ → ℕ
unfolding load
load_uint p width =
    if width == 1
    then load 1 p
    else if width == 2
    then load 2 p
    else if width == 4
    then load 4 p
    else if width == 8
    then load 8 p
    else load (if ltb 8 width then 8 else width) p

unfoldable pub store_uint : Bytes → ℕ → ℕ → Bytes
unfolding store
store_uint p width v =
    if width == 1
    then store 1 p (v % 2 ^ 8)
    else if width == 2
    then store 2 p (v % 2 ^ 16)
    else if width == 4
    then store 4 p (v % 2 ^ 32)
    else if width == 8
    then store 8 p v
    else store (if ltb 8 width then 8 else width) p v

-- `while (w < 8 && (max_value >> (8 * w)) != 0) ++w`, with the rounds that are left.
unfoldable pub exact_width_loop : ℕ → ℕ → ℕ → ℕ
exact_width_loop zero w max_value = w
exact_width_loop (suc rounds) w max_value =
    let wider = exact_width_loop rounds (w + 1) max_value in
    if ltb w 8 then (if max_value / 2 ^ (8 * w) == 0 then w else wider) else w

unfoldable pub exact_width_for : ℕ → ℕ
unfolding exact_width_loop
exact_width_for max_value = exact_width_loop 7 1 max_value

unfoldable pub width_for : ℕ → ℕ
width_for max_value =
    if leb max_value 0xff
    then 1
    else if leb max_value 0xffff
    then 2
    else if leb max_value 0xffff_ffff
    then 4
    else 8

unfoldable pub mask_for_width : ℕ → ℕ
mask_for_width width = if leb 8 width then 2 ^ 64 - 1 else 2 ^ (8 * width) - 1

unfoldable pub load_uint_masked : Bytes → ℕ → ℕ
unfolding load
load_uint_masked p mask = bit_and (load 8 p) mask

unfoldable pub max_for_width : ℕ → ℕ
max_for_width width =
    if width == 1
    then 0xff
    else if width == 2
    then 0xffff
    else if width == 4
    then 0xffff_ffff
    else 2 ^ 64 - 1

unfoldable pub is_valid_width : ℕ → Bool
is_valid_width width = width == 1 || width == 2 || width == 4 || width == 8

-- `(v + (a - 1)) & ~(a - 1)` on uint64.
unfoldable pub align_up : ℕ → ℕ → ℕ
align_up v a = bit_and ((v + (a - 1)) % 2 ^ 64) (2 ^ 64 - 1 - (a - 1))
