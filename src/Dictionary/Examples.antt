-- ===== src/Dictionary/Examples.antt =====
-- Two texts that are interned, written and read back, and each theorem on dictionaries at an input.
use mmpack.Prelude.{ℕ, ◌+◌, ◌^◌, ◌≤◌, ◌≡◌, ◌⊎◌, refl, none, some, [], ◌∷◌, ◌++◌, length, arith}
use mmpack.Bits.{Bytes, AreBytes, of_bytes, to_bytes, load}
use mmpack.Dictionary.{
  load_dict_header, same_bytes, BlobBuilder, find_text, intern, serialized_size, offset_bytes,
  blob_bytes, write_blob, fixed_dictionary_size, FixedView, open_fixed, element, BlobView,
  offset_at, check_offsets, open_blob, text_at,
}
use mmpack.Dictionary.Interning.{IsInterned, Interns, intern_lem}
use mmpack.Dictionary.Open.{IsText, open_blob-IsText, IsElement, open_fixed-IsElement}

program : Unit {0}
unfolding of_bytes to_bytes load load_dict_header same_bytes find_text intern serialized_size
    offset_bytes blob_bytes write_blob fixed_dictionary_size open_fixed element offset_at
    check_offsets open_blob text_at
program = tt

abbrev hi : Bytes
hi = 104 ∷ 105 ∷ []

abbrev you : Bytes
you = 121 ∷ 111 ∷ 117 ∷ []

abbrev one_text : BlobBuilder
one_text = record { index = (hi, 0) ∷ []; order = hi ∷ []; blob_size = 2 }

abbrev two_texts : BlobBuilder
two_texts = record { index = (you, 1) ∷ (hi, 0) ∷ []; order = hi ∷ you ∷ []; blob_size = 5 }

interned_twice :
    (intern one_text you ≡ some (two_texts, 1)) × (intern two_texts hi ≡ some (two_texts, 0))
unfolding program
interned_twice = (refl, refl)

-- The block that the builder writes, 33 bytes of it.
abbrev block : Bytes
block =
    (67 ∷ 73 ∷ 68 ∷ 77 ∷ 1 ∷ 0 ∷ 0 ∷ 0 ∷ 2 ∷ 0 ∷ 0 ∷ 0 ∷ 5 ∷ 0 ∷ 0 ∷ 0 ∷ [])
    ++ (0 ∷ 0 ∷ 0 ∷ 0 ∷ 2 ∷ 0 ∷ 0 ∷ 0 ∷ 5 ∷ 0 ∷ 0 ∷ 0 ∷ [])
    ++ (104 ∷ 105 ∷ 121 ∷ 111 ∷ 117 ∷ [])

abbrev view : BlobView
view = record {
  offsets = 0 ∷ 0 ∷ 0 ∷ 0 ∷ 2 ∷ 0 ∷ 0 ∷ 0 ∷ 5 ∷ 0 ∷ 0 ∷ 0 ∷ 104 ∷ 105 ∷ 121 ∷ 111 ∷ 117 ∷ [];
  blob = 104 ∷ 105 ∷ 121 ∷ 111 ∷ 117 ∷ [];
  count = 2;
}

written : (write_blob two_texts ≡ block) × (serialized_size two_texts ≡ length block)
unfolding program
written = (refl, refl)

opened : open_blob block ≡ some view
unfolding program
opened = refl

read : (text_at view 0 ≡ some hi) × (text_at view 1 ≡ some you) × (text_at view 2 ≡ none)
unfolding program
read = (refl, refl, refl)

-- A blob dictionary is no fixed one.
refused : open_fixed block ≡ none
unfolding program
refused = refl

one_text-IsInterned : IsInterned one_text
unfolding program
one_text-IsInterned = record { named = (refl, tt); size = refl; bounded = omega arith }

intern_lem_example :
    ((intern one_text you ≡ none)
      × (find_text one_text.index you ≡ none)
      × (2 ^ 32 ≤ one_text.blob_size + length you))
    ⊎ ((after : BlobBuilder) × (id : ℕ) × (intern one_text you ≡ some (after, id))
        × Interns one_text you after id)
intern_lem_example = intern_lem one_text you one_text-IsInterned

block-AreBytes : AreBytes block
block-AreBytes = (
  omega arith,
  (
    omega arith,
    (
      omega arith,
      (
        omega arith,
        (
          omega arith,
          (
            omega arith,
            (
              omega arith,
              (
                omega arith,
                (
                  omega arith,
                  (
                    omega arith,
                    (
                      omega arith,
                      (
                        omega arith,
                        (
                          omega arith,
                          (
                            omega arith,
                            (
                              omega arith,
                              (
                                omega arith,
                                (
                                  omega arith,
                                  (
                                    omega arith,
                                    (
                                      omega arith,
                                      (
                                        omega arith,
                                        (
                                          omega arith,
                                          (
                                            omega arith,
                                            (
                                              omega arith,
                                              (
                                                omega arith,
                                                (
                                                  omega arith,
                                                  (
                                                    omega arith,
                                                    (
                                                      omega arith,
                                                      (
                                                        omega arith,
                                                        (
                                                          omega arith,
                                                          (
                                                            omega arith,
                                                            (
                                                            omega arith,
                                                            (omega arith, (omega arith, tt)),
                                                            ),
                                                          ),
                                                        ),
                                                      ),
                                                    ),
                                                  ),
                                                ),
                                              ),
                                            ),
                                          ),
                                        ),
                                      ),
                                    ),
                                  ),
                                ),
                              ),
                            ),
                          ),
                        ),
                      ),
                    ),
                  ),
                ),
              ),
            ),
          ),
        ),
      ),
    ),
  ),
)

open_blob-IsText_example : IsText block view 1
open_blob-IsText_example = open_blob-IsText block view 1 block-AreBytes opened

-- A fixed dictionary of two entries of three bytes.
abbrev fixed_block : Bytes
fixed_block =
    (67 ∷ 73 ∷ 68 ∷ 77 ∷ 0 ∷ 0 ∷ 0 ∷ 0 ∷ 2 ∷ 0 ∷ 0 ∷ 0 ∷ 3 ∷ 0 ∷ 0 ∷ 0 ∷ [])
    ++ (1 ∷ 2 ∷ 3 ∷ 4 ∷ 5 ∷ 6 ∷ [])

abbrev fixed_view : FixedView
fixed_view = record { elements = 1 ∷ 2 ∷ 3 ∷ 4 ∷ 5 ∷ 6 ∷ []; count = 2; elem_size = 3 }

fixed_opened : open_fixed fixed_block ≡ some fixed_view
unfolding program
fixed_opened = refl

fixed_read : (element fixed_view 1 ≡ some (4 ∷ 5 ∷ 6 ∷ [])) × (element fixed_view 2 ≡ none)
unfolding program
fixed_read = (refl, refl)

open_fixed-IsElement_example : IsElement fixed_block fixed_view 1
open_fixed-IsElement_example = open_fixed-IsElement fixed_block fixed_view 1 fixed_opened
