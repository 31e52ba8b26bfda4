-- ===== src/Sql.antt =====
-- Queries over the entries of a space (ugoite-core/src/sql.rs): the syntax tree that the SQL parser
-- of a library hands over, the restrictions that `parse_sql` puts on it, and the evaluation of a
-- query over tables of JSON rows.
pub mod Syntax
pub mod Parse
pub mod Values
pub mod Context
pub mod Where
pub mod Run
pub mod Bounds
pub mod Provenance
pub mod Semantics
pub mod Plain
pub mod Joined
pub mod Joins
mod Tests
