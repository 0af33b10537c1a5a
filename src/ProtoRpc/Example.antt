-- ===== src/ProtoRpc/Example.antt =====
-- proto_rpc/example/server.cpp, client.cpp and test.proto: the sum of some numbers, asked of a
-- server.
pub mod Sum
pub mod Asking
use boost_practice.Base.{
  ℕ, ◌+◌, ◌-◌, ◌%◌, ◌^◌, ◌<◌, ◌≡◌, ◌≢◌, Bool, true, false, List, [], ◌∷◌, ◌++◌, All, text, Option,
  none, some, Run, ok, fault, spent, ◌>>=◌, ◌>>◌, check, leb, ltb, same_text, if◌then◌else◌,
}
use boost_practice.Acceptor.{Setup}
use boost_practice.Buffer.{BufferApi}
use boost_practice.ProtoRpc.Message.{RpcLibrary}
use boost_practice.ProtoRpc.Session.{Service, Session, call_method}
use boost_practice.ProtoRpc.Server.{Server, rpc_server, register_service, set_thread_num}
use boost_practice.ProtoRpc.Server as Servers
use boost_practice.ProtoRpc.Client.{Client, disconnect}

-- `a + b` of two `int`s, given by their bit patterns. The overflow, which is undefined, shows in the
-- sign: two numbers of one sign have a sum of the other.
abbrev pub is_negative : ℕ → Bool
is_negative w = leb (2 ^ 31) w

abbrev same_sign : ℕ → ℕ → Bool
same_sign a b = if is_negative a then is_negative b else ltb b (2 ^ 31)

abbrev pub add_int : ℕ → ℕ → Run ℕ
add_int a b =
    let sum = (a + b) % 2 ^ 32 in
    if same_sign a b then (check (same_sign a sum) >> ok sum) else ok sum

-- The loop of `Add`, from `result` on.
unfoldable pub add_from : ℕ → List ℕ → Run ℕ
add_from result [] = ok result
add_from result (value ∷ values) = add_int result value >>= λ result'. add_from result' values

unfoldable pub add : List ℕ → Run ℕ
add values = add_from 0 values

-- What protoc makes of test.proto: the numbers of a request, the result of a response. `none` is a
-- request that does not parse. A field with its default value, 0, is not written in proto3.
pub record AddLibrary : Type 0 where
  pub serialize_req : List ℕ → List ℕ
  pub parse_req : List ℕ → Option (List ℕ)
  pub serialize_res : ℕ → List ℕ
  pub parse_res : List ℕ → ℕ
  pub parse-serialize_req :
      (values : List ℕ)
      → All (λ v. v < 2 ^ 32) values
      → parse_req (serialize_req values) ≡ some values
  pub parse-serialize_res :
      (result : ℕ) → result < 2 ^ 32 → parse_res (serialize_res result) ≡ result
  pub serialize_res-zero : serialize_res 0 ≡ []
  pub serialize_res-nonzero : (result : ℕ) → result ≢ 0 → serialize_res result ≢ []

abbrev pub service_name : List ℕ
service_name = text "rpc.test.TestService"

abbrev pub method_name : List ℕ
method_name = text "Add"

module _ ⦃tests : AddLibrary⦄ where
  open tests use {serialize_req, parse_req, serialize_res, parse_res}

  -- After the loop: `set_result` and `done->Run()`. A sum that overflows is undefined, and stands as
  -- a method that does not run its closure.
  abbrev pub set_result : Run ℕ → Option (List ℕ)
  set_result (ok result) = some (serialize_res result)
  set_result fault = none
  set_result spent = none

  abbrev pub answer : Option (List ℕ) → Option (List ℕ)
  answer none = none
  answer (some values) = set_result (add values)

  abbrev pub has_parsed : Option (List ℕ) → Bool
  has_parsed none = false
  has_parsed (some values) = true

  -- `TestServerImpl`, whose only method has the number 0.
  abbrev pub test_service : Service
  test_service = record {
    find_method = λ name. if same_text name method_name then some 0 else none;
    parses = λ method bytes. has_parsed (parse_req bytes);
    call = λ method bytes. answer (parse_req bytes);
  }

  module _ ⦃api : BufferApi⦄ where
    -- The server's `main`, up to the event loop.
    unfoldable pub server_main : (Setup → Bool) → Run Server
    server_main fails =
        Servers.run
          (set_thread_num 4 (register_service service_name test_service (rpc_server fails)))

    module _ ⦃lib : RpcLibrary⦄ where
      -- `stub->Add`, with the addresses of the response and of the closure.
      unfoldable pub call_add : List ℕ → ℕ → ℕ → Session → Run Session
      call_add values response closure s =
          call_method service_name method_name (serialize_req values) (some response) (some closure)
            s

      unfoldable pub on_connection : ℕ → ℕ → Session → Run Session
      on_connection response closure s = call_add (1 ∷ 2 ∷ []) response closure s

    -- What is printed, and the client afterwards; `response` is what its object has been parsed from.
    unfoldable pub done_callback : List ℕ → Client → Run (ℕ × Client)
    done_callback response c = disconnect c >>= λ c'. ok (parse_res response, c')
