-- ===== src/Entry.antt =====
-- Entries and their revisions (ugoite-core/src/entry.rs).
pub mod Types
pub mod Sections
pub mod Render
pub mod Cells
pub mod Rows
pub mod Store
pub mod Read
pub mod Write
pub mod Latest
mod Home
pub mod Appended
mod Conflicts
mod Revised
mod Answers
mod Growth
mod Nanos
mod Deleted
mod Created
mod Partial
mod Frame
mod Tests
