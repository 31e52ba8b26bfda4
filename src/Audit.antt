-- ===== src/Audit.antt =====
-- The audit log of a space (ugoite-core/src/audit.rs): a file of events, one JSON object to a line,
-- in which each event holds the hash of the one before it. A function that writes returns the files
-- it leaves; the lock of a space makes each call one step.
pub mod Space
pub mod Hash
pub mod Log
mod Chain
mod Tamper
mod Append
mod Listing
mod Tests
