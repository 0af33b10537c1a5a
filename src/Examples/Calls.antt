-- ===== src/Examples/Calls.antt =====
-- Two sessions, one of which serves a method that echoes its request.
use boost_practice.Base.{
  ℕ, ◌≡◌, refl, true, false, List, [], ◌∷◌, length, none, some, ok, fault, arith, if◌then◌else◌,
  ◌==◌,
}
use boost_practice.Frame.{next_frame, size_total}
use boost_practice.Frame.Relation.{stop, more}
use boost_practice.Inputs.{ListBuffer, list_buffer}
use boost_practice.Inputs.Library.{text_library}
use boost_practice.ProtoRpc.Message.{MessageType, RpcMessage}
use boost_practice.ProtoRpc.Codec.{Reader, rpc_codec}
use boost_practice.ProtoRpc.Codec.Slots.{encode, rpc_codec-AllReady}
use boost_practice.ProtoRpc.Session.{
  Service, Waiting, Session, rpc_session, set_services, empty_message, on_read, call_method,
}
use boost_practice.Pending.{find_call}
use boost_practice.ProtoRpc.Session.Requests.{Wrote, IsReady, Served, response_to, on_read-corrupt}
use boost_practice.ProtoRpc.Session.Calls.{request_of, entered, CallsBelow, call_method_lem}
use boost_practice.ProtoRpc.Session.RoundTrip.{call_round_trip}

abbrev pub echo : Service
echo = record { find_method = λ _. some 0; parses = λ _ _. true; call = λ _ request. some request }

abbrev pub name : List ℕ
name = b's' ∷ []

abbrev pub method_name : List ℕ
method_name = b'm' ∷ []

abbrev pub client : Session
client = rpc_session

abbrev pub server : Session
server = set_services (some ((name, echo) ∷ [])) rpc_session

client-IsReady : IsReady client
unfolding rpc_session
client-IsReady = rpc_codec-AllReady

pub server-IsReady : IsReady server
unfolding rpc_session set_services
server-IsReady = rpc_codec-AllReady

abbrev pub no_bytes : ListBuffer
no_bytes = record { front = 8; content = [] }

abbrev pub ask : List ℕ → RpcMessage
ask request = request_of client name method_name request

abbrev pub served : (request : List ℕ) → Served server (ask request) request
unfolding set_services
served request = record {
  services = (name, echo) ∷ [];
  service = echo;
  method = 0;
  has_services = refl;
  has_service = refl;
  has_method = refl;
  has_request = refl;
  has_answer = refl;
}

abbrev pub text : List ℕ
text = b'x' ∷ b'y' ∷ []

call_round_trip_example :
    (s1 : Session) × (peer' : Reader Session) × (r : Reader Session) × (i : ℕ) × (j : ℕ)
    × (call_method name method_name text (some 40) (some 50) client ≡ ok s1)
    × (s1.codec.writes ≡ (i, encode (ask text)) ∷ [])
    × (on_read false
          (length (encode (ask text)))
          (encode (ask text))
          (record { input_buffer = no_bytes; owner = server })
        ≡ ok peer')
    × (peer'.owner.codec.writes ≡ (j, encode (response_to (ask text) text)) ∷ [])
    × (on_read false
          (length (encode (response_to (ask text) text)))
          (encode (response_to (ask text) text))
          (record { input_buffer = no_bytes; owner = s1 })
        ≡ ok r)
    × (r.owner.parsed ≡ (40, text) ∷ [])
    × (r.owner.ran ≡ 50 ∷ [])
unfolding rpc_session set_services rpc_codec
call_round_trip_example =
    call_round_trip client (record { input_buffer = no_bytes; owner = server }) name method_name
      text text 40 50 no_bytes client-IsReady tt (omega arith) refl refl server-IsReady
      (served text) (λ e. absurd (cc e)) (omega arith, tt) (omega arith, tt) (omega arith)
      (omega arith)

-- A frame of one byte and a checksum that is not its own.
abbrev pub corrupt : List ℕ
corrupt = 0 ∷ 0 ∷ 0 ∷ 5 ∷ 1 ∷ 0 ∷ 0 ∷ 0 ∷ 0 ∷ []

on_read-corrupt_example :
    on_read false 9 corrupt (record { input_buffer = no_bytes; owner = server }) ≡ fault
unfolding size_total next_frame
on_read-corrupt_example =
    on_read-corrupt (record { input_buffer = no_bytes; owner = server }) 9 corrupt (omega arith)
      (1 ∷ 0 ∷ 0 ∷ 0 ∷ 0 ∷ []) [] (more refl (stop refl)) (omega arith) refl

abbrev pub wanted : Waiting
wanted = record { response = some 40; done = some 50 }

call_method_lem_example :
    (s' : Session) × (call_method name method_name text (some 40) (some 50) client ≡ ok s')
    × Wrote (ask text) (entered client wanted) s'
    × (find_call 0 client.req_callbacks ≡ none)
    × ((id : ℕ)
        → find_call id s'.req_callbacks
          ≡ (if 0 == id then some wanted else find_call id client.req_callbacks))
    × CallsBelow s'
    × (s'.id ≡ 1)
unfolding rpc_session
call_method_lem_example =
    call_method_lem client name method_name text (some 40) (some 50) client-IsReady tt (omega arith)
      (omega arith)

abbrev pub answer : RpcMessage
answer = record (empty_message MessageType.response 0) { response = text }
