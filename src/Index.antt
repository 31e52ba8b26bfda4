-- ===== src/Index.antt =====
-- The index of a space (ugoite-core/src/index.rs).
pub mod Properties
pub mod Validation
pub mod Required
mod Records
mod Stats
pub mod Tables
pub mod Query
pub mod Filters
pub mod Scope
mod Tests
