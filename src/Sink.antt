-- ===== src/Sink.antt =====
-- include/mmpack/sink.hpp: where an image is written to. stdio_sink and ostream_sink pass their bytes on to
-- a stream and are left out.
pub mod TwoPass
mod Examples
use mmpack.Prelude.{ℕ, ◌+◌, ◌-◌, Option, some, none, [], ◌++◌, take, drop, length, ltb}
use mmpack.Prelude.Early.{◌>>=◌, ◌>>◌, reject_if}
use mmpack.Bits.{Bytes}

-- class vector_sink
pub record VectorSink : Type 0 where
  pub bytes : Bytes

abbrev pub vector_sink : VectorSink
vector_sink = record { bytes = [] }

unfoldable pub write_vector : VectorSink → Bytes → VectorSink
write_vector s chunk = record s { bytes = s.bytes ++ chunk }

-- class counting_sink
pub record CountingSink : Type 0 where
  pub size : ℕ

abbrev pub counting_sink : CountingSink
counting_sink = record { size = 0 }

unfoldable pub write_counting : CountingSink → Bytes → CountingSink
write_counting s chunk = record s { size = s.size + length chunk }

-- class buffer_sink, with the bytes at `base_`.
pub record BufferSink : Type 0 where
  pub base : Bytes
  pub capacity : ℕ
  pub offset : ℕ

abbrev pub buffer_sink : Bytes → ℕ → BufferSink
buffer_sink base capacity = record { base = base; capacity = capacity; offset = 0 }

-- `none` is the runtime_error of a buffer overrun.
unfoldable pub write_buffer : BufferSink → Bytes → Option BufferSink
write_buffer s chunk = do
  reject_if (ltb (s.capacity - s.offset) (length chunk))
  some (record s {
    base = take s.offset s.base ++ chunk ++ drop (s.offset + length chunk) s.base;
    offset = s.offset + length chunk;
  })
