-- ===== src/Builder/Fields/Range.antt =====
-- The measured range of a field and the width that is chosen for it.
use mmpack.Prelude.{
  ℕ, ◌+◌, ◌*◌, ◌%◌, ◌^◌, ◌≤◌, ◌<◌, ◌≡◌, ◌⊎◌, refl, sym, subst, true, List, [], ◌∷◌, All, ltb, inl,
  inr, arith,
}
use mmpack.Bits.{width_for}
use mmpack.Bits.Widths.{width_for-fits}
use mmpack.Schema.{FieldKind, uint, sint, f32, f64, bytes, text}
use mmpack.Builder.Fields.{
  FieldStats, fresh_stats, less, observe, Measured, sub64, shape_width, shape_bias,
}

-- Where a kind has an order of its own, the position of a bit pattern in it.
abbrev rank : FieldKind → ℕ → ℕ
rank sint v = (v + 2 ^ 63) % 2 ^ 64
rank _ v = v

record Covers (kind : FieldKind) (s : FieldStats) (v : ℕ) : Type 0 where
  above : rank kind s.min ≤ rank kind v
  below : rank kind v ≤ rank kind s.max

pub record IsStats (s : FieldStats) : Type 0 where
  pub min : s.min < 2 ^ 64
  pub max : s.max < 2 ^ 64

less-rank : (kind : FieldKind) (a b : ℕ) → less kind a b ≡ ltb (rank kind a) (rank kind b)
less-rank sint a b = refl
less-rank _ a b = refl

observe-IsStats :
    (kind : FieldKind) (s : FieldStats) (v : ℕ)
    → IsStats s
    → v < 2 ^ 64
    → IsStats (observe kind s v)
unfolding observe
observe-IsStats kind s v ok h = ground arith

observe-Covers_new : (kind : FieldKind) (s : FieldStats) (v : ℕ) → Covers kind (observe kind s v) v
unfolding observe
observe-Covers_new kind s v = ground (arith, less-rank kind v s.min, less-rank kind s.max v)

observe-Covers_old :
    (kind : FieldKind) (s : FieldStats) (v w : ℕ)
    → s.seen ≡ true
    → Covers kind s w
    → Covers kind (observe kind s v) w
unfolding observe
observe-Covers_old kind s v w seen ok =
    ground (arith, ok, less-rank kind v s.min, less-rank kind s.max v)

-- The values that the records of a build set for one field, in order.
unfoldable pub observe_all : FieldKind → FieldStats → List ℕ → FieldStats
unfolding observe
observe_all kind s [] = s
observe_all kind s (v ∷ vs) = observe_all kind (observe kind s v) vs

observe-seen : (kind : FieldKind) (s : FieldStats) (v : ℕ) → (observe kind s v).seen ≡ true
unfolding observe
observe-seen kind s v = ground arith

observe_all-old :
    (kind : FieldKind) (vs : List ℕ) (s : FieldStats) (w : ℕ)
    → s.seen ≡ true
    → Covers kind s w
    → Covers kind (observe_all kind s vs) w
unfolding observe_all
observe_all-old kind [] s w seen c = c
observe_all-old kind (v ∷ vs) s w seen c =
    observe_all-old kind vs (observe kind s v) w (observe-seen kind s v)
      (observe-Covers_old kind s v w seen c)

observe_all-Covers :
    (kind : FieldKind) (vs : List ℕ) (s : FieldStats) → All (Covers kind (observe_all kind s vs)) vs
unfolding observe_all
observe_all-Covers kind [] s = tt
observe_all-Covers kind (v ∷ vs) s = (
  observe_all-old kind vs (observe kind s v) v (observe-seen kind s v)
      (observe-Covers_new kind s v),
  observe_all-Covers kind vs (observe kind s v),
)

observe_all-IsStats :
    (kind : FieldKind) (vs : List ℕ) (s : FieldStats)
    → IsStats s
    → All (λ v. v < 2 ^ 64) vs
    → IsStats (observe_all kind s vs)
unfolding observe_all
observe_all-IsStats kind [] s ok h = ok
observe_all-IsStats kind (v ∷ vs) s ok (hv, h) =
    observe_all-IsStats kind vs (observe kind s v) (observe-IsStats kind s v ok hv) h

observe_all-seen :
    (kind : FieldKind) (vs : List ℕ) (s : FieldStats)
    → s.seen ≡ true
    → (observe_all kind s vs).seen ≡ true
unfolding observe_all
observe_all-seen kind [] s e = e
observe_all-seen kind (v ∷ vs) s e =
    observe_all-seen kind vs (observe kind s v) (observe-seen kind s v)

-- A uint or a sint field, whose width depends on the data.
abbrev pub IsMeasuredKind : FieldKind → Type 0
IsMeasuredKind kind = (kind ≡ uint) ⊎ (kind ≡ sint)

-- The value less the bias fits the width, and the value and the bias are 64-bit patterns.
abbrev pub FitsShape : ℕ → ℕ → ℕ → Type 0
FitsShape width bias v =
    (v < 2 ^ 64) × (bias < 2 ^ 64) × (sub64 v bias < 2 ^ (8 * width)) × (width ≤ 8)

span_uint : (lo v hi : ℕ) → lo ≤ v → v ≤ hi → hi < 2 ^ 64 → sub64 v lo ≤ sub64 hi lo
span_uint lo v hi p q h = omega arith

span_sint :
    (lo v hi : ℕ)
    → lo < 2 ^ 64
    → v < 2 ^ 64
    → hi < 2 ^ 64
    → rank sint lo ≤ rank sint v
    → rank sint v ≤ rank sint hi
    → sub64 v lo ≤ sub64 hi lo
span_sint lo v hi a b c p q = omega arith

module _ (m : Measured) (ok : IsStats m.stats) (seen : m.stats.seen ≡ true) where
  FitsShape-of_span :
      (v : ℕ)
      → v < 2 ^ 64
      → sub64 v m.stats.min ≤ sub64 m.stats.max m.stats.min
      → FitsShape (width_for (sub64 m.stats.max m.stats.min)) m.stats.min v
  FitsShape-of_span v h span =
      let w = width_for-fits (sub64 m.stats.max m.stats.min) (omega arith) in
      (h, omega (arith, ok.min), omega (arith, w.0), w.1)

  covered-FitsShape :
      (kind : FieldKind)
      → IsMeasuredKind kind
      → (v : ℕ) → v < 2 ^ 64
      → Covers kind m.stats v
      → FitsShape (shape_width m kind) (shape_bias m kind) v
  unfolding shape_width shape_bias
  covered-FitsShape uint k v h c =
      rw seen (FitsShape-of_span v h (span_uint _ _ _ c.above c.below ok.max))
  covered-FitsShape sint k v h c =
      rw seen (FitsShape-of_span v h (span_sint _ _ _ ok.min h ok.max c.above c.below))
  covered-FitsShape f32 (inl e) v h c = cc
  covered-FitsShape f32 (inr e) v h c = cc
  covered-FitsShape f64 (inl e) v h c = cc
  covered-FitsShape f64 (inr e) v h c = cc
  covered-FitsShape bytes (inl e) v h c = cc
  covered-FitsShape bytes (inr e) v h c = cc
  covered-FitsShape text (inl e) v h c = cc
  covered-FitsShape text (inr e) v h c = cc

All-covered :
    (m : Measured) (vs : List ℕ)
    → IsStats m.stats
    → m.stats.seen ≡ true
    → IsMeasuredKind m.kind
    → All (λ v. v < 2 ^ 64) vs
    → All (Covers m.kind m.stats) vs
    → All (FitsShape (shape_width m m.kind) (shape_bias m m.kind)) vs
All-covered m [] ok seen k h c = tt
All-covered m (v ∷ vs) ok seen k (hv, h) (cv, c) =
    (covered-FitsShape m ok seen m.kind k v hv cv, All-covered m vs ok seen k h c)

-- For a uint or a sint field whose 64-bit values were all observed, in any order, the chosen width
-- is at most 8 bytes and every one of the values, less the chosen bias, fits it.
pub observe_all-FitsShape :
    (m : Measured) (vs : List ℕ)
    → m.stats ≡ observe_all m.kind fresh_stats vs
    → IsMeasuredKind m.kind
    → All (λ v. v < 2 ^ 64) vs
    → All (FitsShape (shape_width m m.kind) (shape_bias m m.kind)) vs
observe_all-FitsShape m [] e k h = tt
observe_all-FitsShape m (v ∷ vs) e k h =
    let ok : IsStats m.stats =
      rw e (observe_all-IsStats m.kind (v ∷ vs) fresh_stats (omega arith) h) in
    let seen : m.stats.seen ≡ true = rw e (
      unfold observe_all in
      observe_all-seen m.kind vs (observe m.kind fresh_stats v)
        (observe-seen m.kind fresh_stats v)) in
    All-covered m (v ∷ vs) ok seen k h (
      subst (λ s. All (Covers m.kind s) (v ∷ vs)) (sym e)
        (observe_all-Covers m.kind (v ∷ vs) fresh_stats))
