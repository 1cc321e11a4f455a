-- ===== src/Sink/TwoPass.antt =====
-- A build that is counted first and then written into a buffer.
use mmpack.Prelude.{
  ℕ, ◌+◌, ◌-◌, ◌≤◌, ◌<◌, ◌≡◌, refl, sym, ap, ap₂, ◌∙◌, true, false, Option, some, none, List, [],
  ◌∷◌, ◌++◌, take, drop, length, length-append, take-append, drop-append, drop-drop, ltb, arith,
  ◌⊎◌, inl, inr,
}
use mmpack.Prelude.Early.{◌>>=◌}
use mmpack.Bits.{Bytes}
use mmpack.Sink.{
  VectorSink, write_vector, vector_sink, CountingSink, counting_sink, write_counting, BufferSink,
  buffer_sink, write_buffer,
}
use native.Mathlib.Decide.{dec_le}

-- The writes of a build, one after the other.
unfoldable pub collect : VectorSink → List Bytes → VectorSink
unfolding write_vector
collect s [] = s
collect s (chunk ∷ writes) = collect (write_vector s chunk) writes

unfoldable pub count : CountingSink → List Bytes → CountingSink
unfolding write_counting
count s [] = s
count s (chunk ∷ writes) = count (write_counting s chunk) writes

unfoldable pub fill : BufferSink → List Bytes → Option BufferSink
unfolding write_buffer
fill s [] = some s
fill s (chunk ∷ writes) = do next ← write_buffer s chunk; fill next writes

-- What a buffer holds after the bytes `written`, over the bytes `base` that were there.
abbrev holding : Bytes → Bytes → BufferSink
holding base written = record {
  base = written ++ drop (length written) base;
  capacity = length base;
  offset = length written;
}

collect-parts :
    (s : VectorSink) (writes : List Bytes) (c : CountingSink)
    → c.size ≡ length s.bytes
    → (count c writes).size ≡ length (collect s writes).bytes
unfolding collect count write_vector write_counting
collect-parts s [] c e = e
collect-parts s (chunk ∷ writes) c e =
    collect-parts (record s { bytes = s.bytes ++ chunk }) writes
      (record c { size = c.size + length chunk }) (omega (arith, e, length-append s.bytes chunk))

collect_grows :
    (s : VectorSink) (writes : List Bytes) → length s.bytes ≤ length (collect s writes).bytes
unfolding collect write_vector
collect_grows s [] = omega arith
collect_grows s (chunk ∷ writes) = omega (
  arith,
  collect_grows (record s { bytes = s.bytes ++ chunk }) writes,
  length-append s.bytes chunk,
)

write_buffer-holding :
    (base written chunk : Bytes)
    → length written + length chunk ≤ length base
    → write_buffer (holding base written) chunk ≡ some (holding base (written ++ chunk))
unfolding write_buffer
write_buffer-holding base written chunk room =
    let fits : ltb (length base - length written) (length chunk) ≡ false = ground arith in
    rw fits (
      ap₂ (λ (b : Bytes) (n : ℕ). some (record { base = b; capacity = length base; offset = n }))
        parts (sym (length-append written chunk)))
  where
    parts :
        take (length written) (written ++ drop (length written) base)
          ++ chunk
          ++ drop (length written + length chunk) (written ++ drop (length written) base)
        ≡ (written ++ chunk) ++ drop (length (written ++ chunk)) base
    parts =
        ap₂ (λ (a b : Bytes). a ++ chunk ++ b)
          (take-append written (drop (length written) base) refl)
          (sym (
              drop-drop (length written) (length chunk) (written ++ drop (length written) base)
                refl)
            ∙ ap (λ x. drop (length chunk) x)
                (drop-append written (drop (length written) base) refl)
            ∙ drop-drop (length written) (length chunk) base (length-append written chunk))

-- The bytes that a build writes.
abbrev pub image_of : List Bytes → Bytes
image_of writes = (collect vector_sink writes).bytes

overrun :
    (b : BufferSink) (chunk : Bytes) (writes : List Bytes)
    → b.capacity - b.offset < length chunk
    → (write_buffer b chunk >>= λ next. fill next writes) ≡ none
unfolding write_buffer
overrun b chunk writes h =
    let e : ltb (b.capacity - b.offset) (length chunk) ≡ true = ground arith in rw e refl

fill-holding :
    (base : Bytes) (s : VectorSink) (writes : List Bytes)
    → length s.bytes ≤ length base
    → ((length (collect s writes).bytes ≤ length base)
        × (fill (holding base s.bytes) writes ≡ some (holding base (collect s writes).bytes)))
      ⊎ ((length base < length (collect s writes).bytes)
          × (fill (holding base s.bytes) writes ≡ none))
unfolding fill collect write_vector
fill-holding base s [] h = inl (h, refl)
fill-holding base s (chunk ∷ writes) h =
    elim (dec_le (length s.bytes + length chunk) (length base)) [
      | yes l ↦ rw (write_buffer-holding base s.bytes chunk l) (
          fill-holding base (record s { bytes = s.bytes ++ chunk }) writes
            (omega (arith, length-append s.bytes chunk)))
      | no nl ↦ inr (
        omega (
          arith,
          nl,
          collect_grows (record s { bytes = s.bytes ++ chunk }) writes,
          length-append s.bytes chunk,
        ),
        overrun (holding base s.bytes) chunk writes (omega arith),
      )
    ]

-- For every sequence of writes: the size that a counting sink reports is that of the image that a vector sink
-- collects; a buffer of at least that size takes the writes and then starts with that image, its other
-- bytes as they were; a smaller one overruns.
pub two_pass :
    (base : Bytes) (writes : List Bytes)
    → ((count counting_sink writes).size ≡ length (image_of writes))
      × (((length (image_of writes) ≤ length base)
            × (fill (buffer_sink base (length base)) writes
                ≡ some (record {
                  base = image_of writes ++ drop (length (image_of writes)) base;
                  capacity = length base;
                  offset = length (image_of writes);
                })))
          ⊎ ((length base < length (image_of writes))
              × (fill (buffer_sink base (length base)) writes ≡ none)))
two_pass base writes = (
  collect-parts vector_sink writes counting_sink refl,
  fill-holding base vector_sink writes (omega arith),
)
