-- ===== src/AsioRpc.antt =====
-- The earlier RPC of asio_rpc_practice: its server and its client.
pub mod Message
pub mod Session
pub mod Server
pub mod Client
pub mod RoundTrip
