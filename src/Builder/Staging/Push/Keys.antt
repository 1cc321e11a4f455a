-- ===== src/Builder/Staging/Push/Keys.antt =====
-- A push onto memory_staging, which packs the parts of a key.
use mmpack.Prelude.{
  ℕ, ◌+◌, ◌-◌, ◌*◌, ◌/◌, ◌%◌, ◌^◌, bit_and, ◌≤◌, ◌<◌, ◌≡◌, refl, sym, ap, ap₂, ◌∙◌, Bool, true,
  false, not, ◌&&◌, ◌||◌, Bool-cases, [], ◌∷◌, length, length-append, get_or-front, get_or-behind,
  ltb, leb, ◌==◌, if◌then◌else◌, inl, inr, ◌⊎◌, arith,
}
use native.Mathlib.Nat.{div-add-mod, mod-lt}
use mmpack.Prelude.BitAnd.{bit_and_mask}
use mmpack.Prelude.BitOr.{bit_or_disjoint}
use mmpack.Prelude.Division.{pow-pos, div_unique, mod_unique}
use mmpack.Schema.KeySplit.{lex_order}
use mmpack.Builder.Staging.{memory, size, partition_at, address_at, address_bytes_at, tuple_at}
use mmpack.Builder.Staging.Memory
use mmpack.Builder.Staging.Memory.{MemoryStaging}
use mmpack.Builder.Staging.Rows.{Coords, coords_at, address_less, row_less, Pushed, FitsKey}
use mmpack.Builder.Staging.Push.{flag_was, flag_stays}

-- The parts that memory_staging takes a key apart into.
abbrev pub key_partition : ℕ → ℕ → ℕ
key_partition bits key = if leb 64 bits then 0 else key / 2 ^ bits

abbrev pub key_address : ℕ → ℕ → ℕ
key_address bits key = if leb 64 bits then key else bit_and key (2 ^ bits - 1)

same_truth : (a b : Bool) → (a ≡ true → b ≡ true) → (b ≡ true → a ≡ true) → a ≡ b
same_truth true b f g = sym (f refl)
same_truth false true f g = g refl
same_truth false false f g = refl

lex_true : (p q a b : ℕ) → ((p < q) ⊎ ((p ≡ q) × (a < b))) → (ltb p q || (p == q && ltb a b)) ≡ true
lex_true p q a b h = ground arith

true_lex : (p q a b : ℕ) → (ltb p q || (p == q && ltb a b)) ≡ true → (p < q) ⊎ ((p ≡ q) × (a < b))
true_lex p q a b e = ground arith

less_true : (a b : ℕ) → a < b → ltb a b ≡ true
less_true a b h = ground arith

true_less : (a b : ℕ) → ltb a b ≡ true → a < b
true_less a b e = ground arith

-- Keys are ordered as their parts are.
pub key_order :
    (bits j k : ℕ)
    → ltb j k ≡ (
        ltb (key_partition bits j) (key_partition bits k)
        || (key_partition bits j == key_partition bits k
            && ltb (key_address bits j) (key_address bits k)))
key_order bits j k = elim (Bool-cases (leb 64 bits)) [
  | inl e ↦ rw e refl
  | inr e ↦
      let d = 2 ^ bits in
      let o =
        lex_order d (j / d) (j % d) (k / d) (k % d) (mod-lt j (pow-pos bits))
          (mod-lt k (pow-pos bits)) in
      let ej : d * (j / d) + j % d ≡ j = div-add-mod j d in
      let ek : d * (k / d) + k % d ≡ k = div-add-mod k d in
      rw (e, bit_and_mask bits j, bit_and_mask bits k)
        (same_truth (ltb j k) _
          (λ h.
            lex_true (j / d) (k / d) (j % d) (k % d) (o.0 (omega (arith, ej, ek, true_less j k h))))
          (λ h.
            less_true j k
              (omega (arith, ej, ek, o.1 (true_lex (j / d) (k / d) (j % d) (k % d) h)))))
]

-- A key that fits is taken apart into the parts that it was packed from.
pack-parts :
    (s : MemoryStaging) (partition address : ℕ)
    → FitsKey s.address_bits partition address
    → (key_partition s.address_bits (Memory.pack s partition address) ≡ partition)
      × (key_address s.address_bits (Memory.pack s partition address) ≡ address)
unfolding Memory.pack
pack-parts s partition address (low, high) = elim (Bool-cases (leb 64 s.address_bits)) [
  | inl e ↦ rw e (sym (high (big s.address_bits e)), refl)
  | inr e ↦
      let d = 2 ^ s.address_bits in
      let (small, room) = low (less s.address_bits e) in
      let word : partition * d % 2 ^ 64 ≡ partition * d =
        mod_unique 0 (2 ^ 64) (partition * d) (omega arith) room in
      rw
        (
          e,
          word,
          bit_or_disjoint s.address_bits partition address small,
          bit_and_mask s.address_bits (partition * d + address),
        )
        (div_unique partition d address refl small, mod_unique partition d address refl small)
]
  where
    big : (b : ℕ) → leb 64 b ≡ true → 64 ≤ b
    big b h = ground arith

    less : (b : ℕ) → leb 64 b ≡ false → b < 64
    less b h = ground arith

behind_test : (key last : ℕ) → leb key last ≡ not (ltb last key)
behind_test key last = ground arith

-- Where the parts of a record fit the key of a memory staging, a push of it adds a row with these parts and the tuple
-- behind the rows, which read as before, and the flag stays set only where the record comes behind the last row.
pub push-memory :
    (s : MemoryStaging) (partition address tuple : ℕ)
    → FitsKey s.address_bits partition address
    → Pushed
        (memory s)
        (record { partition = partition; address = address; bytes = [] })
        tuple
        (memory (Memory.push s partition address tuple))
unfolding Memory.push Memory.size Memory.partition_at Memory.address_at Memory.tuple_at size
    partition_at address_at address_bytes_at tuple_at coords_at row_less address_less
push-memory s partition address tuple fits =
    let n = length s.rows in
    let key = Memory.pack s partition address in
    let last = (Memory.row s (n - 1)).key in
    let (p, a) = pack-parts s partition address fits in
    let row : Memory.Row = record { key = key; tuple = tuple } in
    let new = get_or-behind s.rows (row ∷ []) Memory.no_row refl in
    let parts : Memory.Row → Coords = λ r. record {
      partition = key_partition s.address_bits r.key;
      address = key_address s.address_bits r.key;
      bytes = [];
    } in
    let packed : parts row ≡ record { partition = partition; address = address; bytes = [] } =
      ap₂ (λ (x y : ℕ). record { partition = x; address = y; bytes = [] }) p a in
    let flag = ap (λ t. s.sorted && not (not (n == 0) && t)) (behind_test key last) in
    let less =
      key_order s.address_bits last key
      ∙ ap (λ c. row_less (memory s) (parts (Memory.row s (n - 1))) c) packed in
    record {
      sound = tt;
      alike = λ a b. refl;
      longer = length-append s.rows (row ∷ []);
      keeps = λ i h.
          let old = get_or-front s.rows (row ∷ []) i Memory.no_row h in
          (ap parts old, ap (λ r. r.tuple) old);
      adds = (ap parts new ∙ packed, ap (λ r. r.tuple) new);
      was_sorted = λ e.
          let (was, h) = flag_was s.sorted (ltb last key) n (sym flag ∙ e) in
          (was, λ q. sym less ∙ h q);
      stays_sorted = λ e h. flag ∙ flag_stays s.sorted (ltb last key) n e (λ q. less ∙ h q);
    }
