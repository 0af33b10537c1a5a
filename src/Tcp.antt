-- ===== src/Tcp.antt =====
-- The chat server and client of asio_practice_1.
pub mod Session
pub mod Server
pub mod Client
pub mod Relay
