-- ===== src/Auth.antt =====
-- Authentication of a request (ugoite-core/src/auth.rs).
pub mod Config
pub mod Signed
pub mod Headers
pub mod Tokens
pub mod Records
pub mod Accepted
pub mod Capabilities
mod Tests
