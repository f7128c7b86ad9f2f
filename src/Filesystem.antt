-- ===== src/Filesystem.antt =====
-- student-distrib/filesystem.c over a mounted image. The three tables that the C code reaches by
-- address arithmetic are functions of an index (`Layout` has the addresses); whatever stands behind
-- the end of a table is part of the function, since the code can read one entry too far.
-- 32-bit fields are bit patterns, return values are integers.
mod Defs
pub mod Layout
pub mod Lookup
pub mod Data
pub mod Read
pub mod Program
unfoldable pub use Defs.*
