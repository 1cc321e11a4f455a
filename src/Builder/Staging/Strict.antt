-- ===== src/Builder/Staging/Strict.antt =====
-- The orders that the stagings sort by are strict weak orders.
use mmpack.Prelude.{
  ℕ, zero, suc, ◌≡◌, ◌⊎◌, refl, sym, ap₂, ◌∙◌, Bool, true, false, ◌&&◌, ◌||◌, inl, inr, [], ◌∷◌,
  drop, length, get_or, ltb, ◌==◌, arith,
}
use Prim.Native.Nat.{compare, Ordering}
use mmpack.Bits.{Bytes}
use mmpack.Table.Search.{memcmp}
use mmpack.Builder.Staging.{Staging, memory, wide, blob}
use mmpack.Builder.Staging.Blob.{less_bytes}
use mmpack.Builder.Staging.Rows.{address_less, row_less}

-- A strict weak order: no two elements are below each other, and what lies between a lower and a higher element
-- is above the one or below the other.
pub record IsStrict {A : Type 0} (less : A → A → Bool) : Type 0 where
  pub asym : (a b : A) → less a b ≡ true → less b a ≡ false
  pub split : (a b c : A) → less a c ≡ true → (less a b ≡ true) ⊎ (less b c ≡ true)

-- An order that another one gives through a function.
pub IsStrict-through :
    {A B : Type 0} (f : A → B) {less : B → B → Bool} (test : A → A → Bool)
    → IsStrict less
    → ((a b : A) → test a b ≡ less (f a) (f b))
    → IsStrict test
IsStrict-through f test strict same = record {
  asym = λ a b h. same b a ∙ strict.asym (f a) (f b) (sym (same a b) ∙ h);
  split = λ a b c h. elim (strict.split (f a) (f b) (f c) (sym (same a c) ∙ h)) [
    | inl l ↦ inl (same a b ∙ l)
    | inr r ↦ inr (same b c ∙ r)
  ];
}

lex_asym :
    (p q : ℕ) (r s : Bool)
    → (r ≡ true → s ≡ false)
    → (ltb p q || (p == q && r)) ≡ true
    → (ltb q p || (q == p && s)) ≡ false
lex_asym p q true true h e = let k = h refl in cc
lex_asym p q true false h e = ground arith
lex_asym p q false s h e = ground arith

lex_split :
    (p q s : ℕ) (ac ab bc : Bool)
    → (ac ≡ true → (ab ≡ true) ⊎ (bc ≡ true))
    → (ltb p s || (p == s && ac)) ≡ true
    → ((ltb p q || (p == q && ab)) ≡ true) ⊎ ((ltb q s || (q == s && bc)) ≡ true)
lex_split p q s false ab bc h e = ground arith
lex_split p q s true ab bc h e = elim (h refl) [ inl k ↦ ground arith | inr k ↦ ground arith ]

pub lex_equal :
    (p q : ℕ) (r s : Bool)
    → (ltb p q || (p == q && r)) ≡ false
    → (ltb q p || (q == p && s)) ≡ false
    → (p ≡ q) × (r ≡ false) × (s ≡ false)
lex_equal p q r s e f = (ground arith, ground arith, ground arith)

abbrev below : Ordering → Bool
below o = elim o [ Ordering.lt ↦ true | _ ↦ false ]

abbrev level : Ordering → Bool
level o = elim o [ Ordering.eq ↦ true | _ ↦ false ]

abbrev first_of : Ordering → Ordering → Ordering
first_of o rest = elim o [
  | Ordering.lt ↦ Ordering.lt
  | Ordering.gt ↦ Ordering.gt
  | Ordering.eq ↦ rest
]

less_bytes-suc :
    (n : ℕ) (a b : Bytes)
    → less_bytes (suc n) a b ≡ (
        ltb (get_or a 0 0) (get_or b 0 0)
        || (get_or a 0 0 == get_or b 0 0 && less_bytes n (drop 1 a) (drop 1 b)))
unfolding less_bytes memcmp
less_bytes-suc n a b =
    by_order (compare (get_or a 0 0) (get_or b 0 0)) (memcmp n (drop 1 a) (drop 1 b))
  where
    by_order : (o rest : Ordering) → below (first_of o rest) ≡ (below o || (level o && below rest))
    by_order Ordering.lt rest = refl
    by_order Ordering.eq rest = refl
    by_order Ordering.gt rest = refl

less_bytes-asym : (n : ℕ) (a b : Bytes) → less_bytes n a b ≡ true → less_bytes n b a ≡ false
unfolding less_bytes memcmp
less_bytes-asym zero a b h = refl
less_bytes-asym (suc n) a b h =
    less_bytes-suc n b a
    ∙ lex_asym (get_or a 0 0) (get_or b 0 0) _ _ (less_bytes-asym n (drop 1 a) (drop 1 b))
        (sym (less_bytes-suc n a b) ∙ h)

less_bytes-split :
    (n : ℕ) (a b c : Bytes)
    → less_bytes n a c ≡ true
    → (less_bytes n a b ≡ true) ⊎ (less_bytes n b c ≡ true)
unfolding less_bytes memcmp
less_bytes-split zero a b c h = cc
less_bytes-split (suc n) a b c h =
    elim (lex_split (get_or a 0 0) (get_or b 0 0) (get_or c 0 0) _ _ _
      (less_bytes-split n (drop 1 a) (drop 1 b) (drop 1 c)) (sym (less_bytes-suc n a c) ∙ h)) [
        | inl l ↦ inl (less_bytes-suc n a b ∙ l)
        | inr r ↦ inr (less_bytes-suc n b c ∙ r)
      ]

-- Addresses of one width that are not below each other are equal.
pub less_bytes-equal :
    (n : ℕ) (a b : Bytes)
    → length a ≡ n
    → length b ≡ n
    → less_bytes n a b ≡ false
    → less_bytes n b a ≡ false
    → a ≡ b
less_bytes-equal zero [] [] l m e f = refl
less_bytes-equal zero [] (y ∷ b) l m e f = absurd (omega arith)
less_bytes-equal zero (x ∷ a) b l m e f = absurd (omega arith)
less_bytes-equal (suc n) [] b l m e f = absurd (omega arith)
less_bytes-equal (suc n) (x ∷ a) [] l m e f = absurd (omega arith)
less_bytes-equal (suc n) (x ∷ a) (y ∷ b) l m e f =
    let (head, r, s) =
      lex_equal x y (less_bytes n a b) (less_bytes n b a)
        (sym (less_bytes-suc n (x ∷ a) (y ∷ b)) ∙ e) (sym (less_bytes-suc n (y ∷ b) (x ∷ a)) ∙ f) in
    ap₂ (λ (z : ℕ) (c : Bytes). z ∷ c) head (less_bytes-equal n a b (omega arith) (omega arith) r s)

pub ltb-IsStrict : IsStrict ltb
ltb-IsStrict = record { asym = λ a b h. ground arith; split = λ a b c h. ground arith }

address_less-IsStrict : (s : Staging) → IsStrict (address_less s)
unfolding address_less
address_less-IsStrict (memory s) = IsStrict-through (λ c. c.address) _ ltb-IsStrict (λ a b. refl)
address_less-IsStrict (wide s) = IsStrict-through (λ c. c.address) _ ltb-IsStrict (λ a b. refl)
address_less-IsStrict (blob s) = record {
  asym = λ a b h. less_bytes-asym s.width a.bytes b.bytes h;
  split = λ a b c h. less_bytes-split s.width a.bytes b.bytes c.bytes h;
}

pub row_less-IsStrict : (s : Staging) → IsStrict (row_less s)
unfolding row_less
row_less-IsStrict s =
    let strict = address_less-IsStrict s in
    record {
      asym = λ a b h. lex_asym a.partition b.partition _ _ (strict.asym a b) h;
      split = λ a b c h. lex_split a.partition b.partition c.partition _ _ _ (strict.split a b c) h;
    }
