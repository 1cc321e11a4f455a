-- ===== src/Builder.antt =====
-- include/mmpack/builder.hpp: the write side, part by part.
--
-- `Builder.Trim` is trim_bits and trim_bytes, `Builder.Remap` plan_remap and the remap table,
-- `Builder.Fields` the measurement of fields and the encoding of a tuple, `Builder.Directory` the
-- directory of write_image.
pub mod Trim
pub mod Fields
pub mod Remap
pub mod Staging
pub mod State
pub mod Commit
pub mod Finish
pub mod Directory
mod Examples
