-- ===== src/ProtoRpc/Service.antt =====
-- proto_rpc/lib/rpc_session.h and rpc_session.cpp: the services that a session calls, the calls that
-- wait for a response, and the message that an answer or a call begins with.
use boost_practice.Base.{ℕ, Bool, List, [], ◌∷◌, Option, none, some, if◌then◌else◌, same_text}
use boost_practice.ProtoRpc.Message.{MessageType, ErrorCode, RpcMessage}

-- What the library uses of a `google::protobuf::Service`: its methods by name, whether a request
-- parses, and what its method answers. `some` is the response, serialised, of a method that runs
-- its closure before it returns; a method that keeps the closure for later answers `none`.
pub record Service : Type 0 where
  pub find_method : List ℕ → Option ℕ
  pub parses : ℕ → List ℕ → Bool
  pub call : ℕ → List ℕ → Option (List ℕ)

-- The response object and the closure of a call, each named by its address, or null.
pub record Waiting : Type 0 where
  pub response : Option ℕ
  pub done : Option ℕ

abbrev pub find_service : List ℕ → List (List ℕ × Service) → Option Service
find_service name [] = none
find_service name ((key, s) ∷ rest) = if same_text key name then some s else find_service name rest

abbrev pub empty_message : MessageType → ℕ → RpcMessage
empty_message type id = record {
  type = type;
  id = id;
  service = [];
  method = [];
  request = [];
  response = [];
  error = ErrorCode.no_error;
}
