-- ===== src/ProtoRpc.antt =====
-- The RPC library of proto_rpc/lib.
pub mod Message
pub mod Service
pub mod Codec
pub mod Session
pub mod Server
pub mod Client
pub mod Example
