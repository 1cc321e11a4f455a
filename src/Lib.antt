-- ===== src/Lib.antt =====
-- mmpack: a header-only library that writes a sorted table of records into one memory-mapped image
-- and looks records up in it.
--
-- A builder (include/mmpack/builder.hpp) stages records (partition, address, tuple of field
-- values), measures the fields, chooses widths and offsets, and writes an image: the records of each
-- partition, a directory with one slot per partition, the dictionaries and a schema block. A table
-- (include/mmpack/table.hpp) opens the image and answers lookups with two binary searches, one
-- over the slots and one over the records of a partition. The layout of slots is in
-- include/mmpack/format.hpp, the schema block in include/mmpack/schema.hpp, and both sides use the
-- typed loads, stores and widths of include/mmpack/detail/bits.hpp.
--
-- Prelude, with its children: names of the libraries, Boolean tests, lists, division, bitwise
--   and and or on numbers, early returns.
-- Error: error.hpp. `Status` is status, `BuildError` has a constructor for each message of a build_error, and
--   `Result` is a value or the error that ended a call.
-- Bits: detail/bits.hpp. `load`, `store`, `load_uint`, `store_uint`, `width_for`, `align_up` and
--   the rest under their own names; Memory, Widths, Masked and Align are about them.
-- Bisect: the loop that the five binary searches of table.hpp share, with the test on the middle
--   as a parameter.
-- Dictionary: dictionary.hpp. `BlobBuilder` is blob_dictionary_builder, whose hash map is a list of
--   pairs; `intern` returns nothing where the source throws; `BlobView` and `FixedView` are the views,
--   Dictionary.Interning is about interning, Dictionary.Open about opening.
-- Format: format.hpp. `DirEntry` and `DirLayout` are dir_entry and dir_layout, `encode_dir_entry`
--   and `decode_dir_entry` write and read a slot.
-- Schema: schema.hpp. `SchemaView` is schema_view, `open_schema` is schema_view::open and returns
--   an Option; Schema.Open is about the blocks it accepts, Schema.KeySplit about the parts of a
--   key; Schema.Names has `name` and `find_field`, its find. Schema.Declare is schema_builder, as the
--   list of its fields.
-- Table: table.hpp. Table.Layout has the class's members as the record `Table`, the slots, the layout
--   of a partition and the addresses; Table.Search the probes and searches; Table.Cursor the
--   positions (`Cursor` is const_iterator, `finish` is end()); Table.Lookup every lookup. The template
--   argument Narrow is the constructor of `Query`. The other children hold the theorems:
--   Narrow on the search in a partition, Order on the order of positions and on normalize, Steps
--   on a step forward and back, Bounds, Find and Floor on the lookups, Accessors on masked reads of a slot, Keys on keys,
--   KeyLookup on the lookups of 64-bit keys. Table.Values has value_base, read_scalar and the typed
--   getters (`uint_value` is uint, and so on), which give bit patterns. Table.Open has try_open, in the
--   parts open_frame (header, footer, schema) and finish_open (directory, dictionaries), with its loops
--   check_slots and open_dictionaries; its children Slots, Dicts, Accept, Ordered and Reasons are about it.
-- Sink: sink.hpp. The writes of vector_sink, counting_sink and buffer_sink, each on the state of its sink.
-- Builder: builder.hpp. Builder.Fields has observe, the field part of choose_layout and encode_tuple,
--   and the reader's side of a field; Builder.Trim trim_bits, trim_bytes and the union of addresses;
--   Builder.Remap plan_remap, the remap table of a partition and the reader's use of it.
--   Builder.Staging has the three stagings, one child each, and the virtual calls on them;
--   Builder.State the members of table_builder that staging uses and intern_tuple; Builder.Commit the calls
--   that begin and commit records, in Commit.Setters those of record_ref, and in Commit.Steps the runs of a
--   builder as a relation, in Commit.Log the records that a run committed, in Commit.Logged what its staging holds; Builder.Finish the part of finish up to choose_layout;
--   Builder.Directory the directory of write_image (use_dense, its slots and their layout), Directory.Dense its dense form.
-- Keyed: keyed.hpp. keyed_table's lookups and key, and keyed_builder's begin_record, over a split and a join, which are
--   the caller's.
--
-- A `const std::byte*` is the list of the bytes from there on, and `p + n` is `drop n p`. A load past
-- the end, undefined in the source, reads the bytes that are there. Machine integers are numbers with
-- the wrap-around written out where the source can reach it. A const method of the source is a
-- function; a reference that the source assigns through is a result.
--
-- Loops run on fuel that covers all their rounds: a binary search over n entries n rounds, since
-- each round shrinks the range; exact_width_for 7, from width 1 to 8; trim_bits 8, one for each
-- byte of a word that is not 0; normalize as many as there are slots left. No theorem assumes that a
-- loop ends: the results that are stated for them hold with this fuel.
--
-- A vector of rows is a list in its order. The virtual calls of record_staging are clauses on the three stagings of
-- the library, and blob_ is a flag, since it is null or points to the staging that the builder owns. The hash set
-- of tuples is a list of ids. std::sort and the comparison of a ratio of doubles with dedup_give_up_ratio are
-- parameters; of std::sort it is assumed, where a result says so, that it permutes
-- and that it sorts by every strict weak order; Builder.Staging.Strict shows that the orders of the stagings are such.
--
-- Not modelled: the cost model of choose_layout, the writing of an image but for its directory; the sinks on
-- streams, the statuses' exception and the getters of sizes, which are I/O and glue. The runs of a builder
-- have no set_staging. Of lookups on wide addresses (more than 8 bytes) the definitions are here and no theorem.
pub mod Prelude
pub mod Error
pub mod Bits
pub mod Bisect
pub mod Dictionary
pub mod Format
pub mod Schema
pub mod Table
pub mod Sink
pub mod Builder
pub mod Keyed
