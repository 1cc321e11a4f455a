-- ===== src/Keyed/Examples.antt =====
-- Keys that are pairs, looked up in a small image.
use mmpack.Prelude.{ℕ, ◌≡◌, ◌⊎◌, refl, some, true, false, []}
use mmpack.Table.Cursor.{Cursor, finish}
use mmpack.Table.Order.{IsPosition}
use mmpack.Table.Find.{HasKey}
use mmpack.Table.Examples.{image, image-IsOrdered}
use mmpack.Keyed.{join_integer, keyed_find, keyed_contains, joined_key}
use mmpack.Keyed.Laws.{integer_split, keyed_find_lem}

abbrev same : ℕ × ℕ → ℕ × ℕ
same key = key

abbrev pair : ℕ → ℕ → ℕ × ℕ
pair partition address = (partition, address)

abbrev key : ℕ × ℕ
key = (3, 0x1400)

keyed_find_lem_example :
    ((keyed_find image (integer_split same) key ≡ finish image)
      × (keyed_contains image (integer_split same) key ≡ false)
      × ((e : Cursor) → IsPosition image e → ¬ HasKey image 3 0x1400 e))
    ⊎ (IsPosition image (keyed_find image (integer_split same) key)
        × (joined_key image (join_integer pair) [] (keyed_find image (integer_split same) key)
            ≡ some key)
        × (keyed_contains image (integer_split same) key ≡ true))
keyed_find_lem_example = keyed_find_lem image image-IsOrdered refl same pair (λ k. refl) [] key
