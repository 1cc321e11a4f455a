-- ===== src/Sink/Examples.antt =====
-- Two writes into each sink.
use mmpack.Prelude.{◌≤◌, ◌<◌, ◌≡◌, ◌⊎◌, refl, some, none, List, [], ◌∷◌, ◌++◌, drop, length}
use mmpack.Bits.{Bytes}
use mmpack.Sink.{write_vector, counting_sink, write_counting, buffer_sink, write_buffer}
use mmpack.Sink.TwoPass.{collect, count, fill, image_of, two_pass}

program : Unit {0}
unfolding write_vector write_counting write_buffer collect count fill
program = tt

abbrev writes : List Bytes
writes = (1 ∷ 2 ∷ []) ∷ (3 ∷ []) ∷ []

written :
    (image_of writes ≡ 1 ∷ 2 ∷ 3 ∷ [])
    × ((count counting_sink writes).size ≡ 3)
    × (fill (buffer_sink (9 ∷ 9 ∷ 9 ∷ 9 ∷ []) 4) writes
        ≡ some (record { base = 1 ∷ 2 ∷ 3 ∷ 9 ∷ []; capacity = 4; offset = 3 }))
    × (fill (buffer_sink (9 ∷ 9 ∷ []) 2) writes ≡ none)
unfolding program
written = (refl, refl, refl, refl)

two_pass_example :
    ((count counting_sink writes).size ≡ length (image_of writes))
    × (((length (image_of writes) ≤ 2)
          × (fill (buffer_sink (9 ∷ 9 ∷ []) 2) writes
              ≡ some (record {
                base = image_of writes ++ drop (length (image_of writes)) (9 ∷ 9 ∷ []);
                capacity = 2;
                offset = length (image_of writes);
              })))
        ⊎ ((2 < length (image_of writes)) × (fill (buffer_sink (9 ∷ 9 ∷ []) 2) writes ≡ none)))
two_pass_example = two_pass (9 ∷ 9 ∷ []) writes
