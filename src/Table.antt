-- ===== src/Table.antt =====
-- include/mmpack/table.hpp: the read side of an image.
--
-- `Table.Layout` reads a directory slot and the records behind it, `Table.Search` and `Table.Lookup`
-- are the lookups, `Table.Cursor` the positions; the other children prove what they do.
pub mod Layout
pub mod Search
pub mod Cursor
pub mod Lookup
pub mod Open
pub mod Narrow
pub mod Order
pub mod Steps
pub mod Find
pub mod Bounds
pub mod Floor
pub mod Accessors
pub mod Keys
pub mod Values
pub mod KeyLookup
pub mod Examples
