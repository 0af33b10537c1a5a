-- ===== src/AsioRpc/Message.antt =====
-- The messages of asio_rpc_practice's test.proto, and what the programs use of the classes that
-- protoc generates for them. `TestReq` and `TestRes` have the same fields.
use boost_practice.Base.{ℕ, ◌^◌, ◌<◌, ◌≡◌, List}
pub use boost_practice.Base.{IsAscii}

-- `id` is the bit pattern of an `int32`; `message` is bytes.
pub record Test : Type 0 where
  pub id : ℕ
  pub message : List ℕ

-- `serialize` is `SerializeAsString`; `parse` is the message that `ParseFromString` leaves behind,
-- whose result the programs ignore. The law is that of proto3 for messages in range.
pub record TestLibrary : Type 0 where
  pub serialize : Test → List ℕ
  pub parse : List ℕ → Test
  pub parse-serialize : (m : Test) → m.id < 2 ^ 32 → IsAscii m.message → parse (serialize m) ≡ m
