-- ===== src/Http.antt =====
-- The HTTP server of beast_practice-1.
pub mod Library
pub mod Files
pub mod Mime
pub mod Request
pub mod Session
pub mod Listener
