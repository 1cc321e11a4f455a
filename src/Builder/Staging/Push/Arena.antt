-- ===== src/Builder/Staging/Push/Arena.antt =====
-- A push onto blob_staging, whose addresses lie in an arena.
use mmpack.Prelude.{
  ℕ, zero, suc, ◌+◌, ◌-◌, ◌*◌, ◌≤◌, ◌<◌, ◌≡◌, ◌≢◌, ◌⊎◌, inl, inr, Bool-cases, refl, sym, ap, ap₂,
  ◌∙◌, Bool, true, false, not, ◌&&◌, ◌||◌, [], ◌∷◌, ◌++◌, take, drop, length, get_or, length-append,
  get_or-front, get_or-behind, take-front, drop-front, take-all, drop-append, length-drop, ltb,
  ◌==◌, if◌then◌else◌, arith,
}
use mmpack.Table.Search.{memcmp}
use Prim.Native.Nat.{compare, Ordering}
use mmpack.Bits.{Bytes}
use mmpack.Error.{width_changed, done, fail}
use mmpack.Builder.Staging.{blob, size, partition_at, address_at, address_bytes_at, tuple_at}
use mmpack.Builder.Staging.Blob
use mmpack.Builder.Staging.Blob.{BlobStaging, less_bytes}
use mmpack.Builder.Staging.Rows.{coords_at, address_less, row_less, IsStaging, Pushed}
use mmpack.Builder.Staging.Push.{flag_was, flag_stays}

-- memcmp reads no byte behind its count.
memcmp-take : (n : ℕ) (a b : Bytes) → memcmp n (take n a) b ≡ memcmp n a b
unfolding memcmp
memcmp-take zero a b = refl
memcmp-take (suc n) [] b = refl
memcmp-take (suc n) (x ∷ a) b =
    ap
      (λ r. elim (compare x (get_or b 0 0)) [
        | Ordering.lt ↦ Ordering.lt
        | Ordering.gt ↦ Ordering.gt
        | Ordering.eq ↦ r
      ])
      (memcmp-take n a (drop 1 b))

pub less_bytes-take : (n : ℕ) (a b : Bytes) → less_bytes n (take n a) b ≡ less_bytes n a b
unfolding less_bytes
less_bytes-take n a b = ap (λ o. elim o [ Ordering.lt ↦ true | _ ↦ false ]) (memcmp-take n a b)

memcmp-take_right : (n : ℕ) (a b : Bytes) → memcmp n a (take n b) ≡ memcmp n a b
unfolding memcmp
memcmp-take_right zero a b = refl
memcmp-take_right (suc n) a [] = refl
memcmp-take_right (suc n) a (y ∷ b) =
    ap
      (λ r. elim (compare (get_or a 0 0) y) [
        | Ordering.lt ↦ Ordering.lt
        | Ordering.gt ↦ Ordering.gt
        | Ordering.eq ↦ r
      ])
      (memcmp-take_right n (drop 1 a) b)

pub less_bytes-take_right : (n : ℕ) (a b : Bytes) → less_bytes n a (take n b) ≡ less_bytes n a b
unfolding less_bytes
less_bytes-take_right n a b =
    ap (λ o. elim o [ Ordering.lt ↦ true | _ ↦ false ]) (memcmp-take_right n a b)

rows_room : (i n w : ℕ) → i < n → i * w + w ≤ n * w
rows_room i n w h = grind arith

-- The test of push_bytes on the last row's coordinates.
before_test :
    (s : BlobStaging) (last partition : ℕ) (address : Bytes)
    → Blob.before s last partition address
      ≡ row_less
          (blob s)
          (coords_at (blob s) last)
          (record { partition = partition; address = 0; bytes = address })
unfolding Blob.before Blob.slot Blob.partition_at Blob.address_bytes_at partition_at
    address_bytes_at coords_at row_less address_less
before_test s last partition address =
    let back = (Blob.row s last).partition in
    let far = drop (last * s.width) s.arena in
    choice back partition (less_bytes s.width far address)
    ∙ ap (λ r. ltb back partition || (back == partition && r))
        (sym (less_bytes-take s.width far address))
  where
    choice :
        (p q : ℕ) (r : Bool) → (if not (p == q) then ltb p q else r) ≡ (ltb p q || (p == q && r))
    choice p q r = ground arith

-- What push_bytes returns where the address has the width.
abbrev pushed_blob : BlobStaging → ℕ → Bytes → ℕ → BlobStaging
pushed_blob s partition address tuple = record s {
  rows = s.rows ++ (record { partition = partition; tuple = tuple } ∷ []);
  arena = s.arena ++ address;
  sorted =
      s.sorted
      && not (not (Blob.size s == 0) && not (Blob.before s (Blob.size s - 1) partition address));
}

module _ (s : BlobStaging) (partition : ℕ) (address : Bytes) (tuple : ℕ)
    (whole : IsStaging (blob s)) where
  slot-old :
      (i : ℕ)
      → i < length s.rows
      → Blob.address_bytes_at (pushed_blob s partition address tuple) i ≡ Blob.address_bytes_at s i
  unfolding Blob.address_bytes_at Blob.slot
  slot-old i h =
      let room = rows_room i (length s.rows) s.width h in
      ap (λ t. take s.width t)
        (drop-front (i * s.width) s.arena address (omega (arith, whole, room)))
      ∙ take-front s.width (drop (i * s.width) s.arena) address
          (omega (arith, whole, room, length-drop (i * s.width) s.arena))

  slot-new :
      length address ≡ s.width
      → Blob.address_bytes_at (pushed_blob s partition address tuple) (length s.rows) ≡ address
  unfolding Blob.address_bytes_at Blob.slot
  slot-new e =
      ap (λ t. take s.width t) (drop-append s.arena address (sym whole))
      ∙ take-all s.width address (omega arith)

  pushed_blob-Pushed :
      length address ≡ s.width
      → Pushed
          (blob s)
          (record { partition = partition; address = 0; bytes = address })
          tuple
          (blob (pushed_blob s partition address tuple))
  unfolding Blob.size Blob.partition_at Blob.tuple_at size partition_at address_at address_bytes_at
      tuple_at coords_at row_less address_less
  pushed_blob-Pushed e =
      let n = length s.rows in
      let row : Blob.Row = record { partition = partition; tuple = tuple } in
      let new = get_or-behind s.rows (row ∷ []) Blob.no_row refl in
      let test = before_test s (n - 1) partition address in
      record {
        sound =
            length-append s.arena address
            ∙ ap₂ (λ (x y : ℕ). x + y) whole e
            ∙ more n s.width
            ∙ ap (λ (m : ℕ). m * s.width) (sym (length-append s.rows (row ∷ [])));
        alike = λ a b. refl;
        longer = length-append s.rows (row ∷ []);
        keeps = λ i h.
            let old = get_or-front s.rows (row ∷ []) i Blob.no_row h in
            (
              ap₂
                  (λ (r : Blob.Row) (x : Bytes). record {
                    partition = r.partition;
                    address = 0;
                    bytes = x;
                  })
                  old (slot-old i h),
              ap (λ r. r.tuple) old,
            );
        adds = (
          ap₂
              (λ (r : Blob.Row) (x : Bytes). record {
                partition = r.partition;
                address = 0;
                bytes = x;
              })
              new (slot-new e),
          ap (λ r. r.tuple) new,
        );
        was_sorted = λ f. let (was, h) = flag_was s.sorted _ n f in (was, λ q. sym test ∙ h q);
        stays_sorted = λ f h. flag_stays s.sorted _ n f (λ q. test ∙ h q);
      }
    where
      more : (k w : ℕ) → k * w + w ≡ (k + 1) * w
      more k w = grind arith

  -- Where an arena holds the addresses of all rows, push_bytes of an address of the width returns a staging with one
  -- row more, which reads back the partition, the address and the tuple, the rows before it read as before, and the
  -- flag stays set only where the record comes behind the last row; of any other address, it throws width_changed.
  pub push_bytes-Pushed :
      ((length address ≡ s.width)
        × (t : BlobStaging) × (Blob.push_bytes s partition address tuple ≡ done t)
        × (t.width ≡ s.width)
        × Pushed
            (blob s)
            (record { partition = partition; address = 0; bytes = address })
            tuple
            (blob t))
      ⊎ ((length address ≢ s.width)
          × (Blob.push_bytes s partition address tuple ≡ fail width_changed))
  unfolding Blob.push_bytes
  push_bytes-Pushed = elim (Bool-cases (length address == s.width)) [
    | inl fits ↦
        let e = equal (length address) s.width fits in
        inl (e, pushed_blob s partition address tuple, rw fits refl, refl, pushed_blob-Pushed e)
    | inr other ↦ inr (unequal (length address) s.width other, rw other refl)
  ]
    where
      equal : (m n : ℕ) → (m == n) ≡ true → m ≡ n
      equal m n h = ground arith

      unequal : (m n : ℕ) → (m == n) ≡ false → m ≢ n
      unequal m n h k = ground arith
