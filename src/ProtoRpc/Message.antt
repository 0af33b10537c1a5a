-- ===== src/ProtoRpc/Message.antt =====
-- proto_rpc/lib/rpc.proto, and what the library uses of the code that it does not contain:
-- the message class that protoc generates, and zlib's `adler32`.
use boost_practice.Base.{IsAscii, ℕ, ◌^◌, ◌<◌, ◌≡◌, List}

pub data MessageType : Type 0 where
  request response error : MessageType

pub data ErrorCode : Type 0 where
  no_error invalid_request no_service no_method invalid_checksum : ErrorCode

-- `id` is a `fixed64`, given by its bit pattern; names are the bytes of strings, payloads are bytes.
pub record RpcMessage : Type 0 where
  pub type : MessageType
  pub id : ℕ
  pub service : List ℕ
  pub method : List ℕ
  pub request : List ℕ
  pub response : List ℕ
  pub error : ErrorCode

-- `serialize` is `SerializeWithCachedSizesToArray`, whose length is `ByteSize`; `parse` is the
-- message that `ParseFromArray` leaves behind, whose result the library ignores; `adler32` starts
-- at 1. The laws are those of proto3, where a message in range survives whose strings are valid, as
-- ASCII ones are, and of a 32-bit sum.
pub record RpcLibrary : Type 0 where
  pub serialize : RpcMessage → List ℕ
  pub parse : List ℕ → RpcMessage
  pub adler32 : List ℕ → ℕ
  pub parse-serialize :
      (m : RpcMessage)
      → m.id < 2 ^ 64
      → IsAscii m.service
      → IsAscii m.method
      → parse (serialize m) ≡ m
  pub adler32-lt : (bytes : List ℕ) → adler32 bytes < 2 ^ 32
