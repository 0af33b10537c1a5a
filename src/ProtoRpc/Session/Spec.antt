-- ===== src/ProtoRpc/Session/Spec.antt =====
-- What a session of the RPC library promises to both of its ends, without its buffers, its map and
-- its codec: calls, responses and requests one after another.
pub mod Replies
pub mod Responses
pub mod Refines
use boost_practice.Base.{
  ℕ, suc, ◌+◌, ◌%◌, ◌^◌, ◌≡◌, true, false, List, [], ◌∷◌, ◌++◌, map, Option, none, some, Run, ok,
  ◌>>=◌, ◌==◌, if◌then◌else◌, Bool,
}
use boost_practice.Buffer.{BufferApi}
use boost_practice.Frame.{to_size}
use boost_practice.Pending.{find_call}
use boost_practice.ProtoRpc.Message.{MessageType, ErrorCode, RpcMessage, RpcLibrary}
use boost_practice.ProtoRpc.Codec.{CodecError}
use boost_practice.ProtoRpc.Codec.Slots.{encode}
use boost_practice.ProtoRpc.Session.{
  Service, Waiting, find_service, empty_message, Session, call_method, on_rpc_callback,
}

-- What happens to a session: a call with its names, its request and the addresses of its response
-- and its closure; a response with its identifier, its error and its bytes; a request.
pub data Event : Type 0 where
  called : List ℕ → List ℕ → List ℕ → Option ℕ → Option ℕ → Event
  answered : ℕ → ErrorCode → List ℕ → Event
  asked : ℕ → List ℕ → List ℕ → List ℕ → Event

abbrev pub Calls : Type 0
Calls = ℕ → Option Waiting

-- What a caller sees: which call each identifier stands for, what has become of the calls, and what
-- has been sent, in order.
pub record Promise : Type 0 where
  pub services : Option (List (List ℕ × Service))
  pub next : ℕ
  pub calls : Calls
  pub parsed : List (ℕ × List ℕ)
  pub ran : List ℕ
  pub deferred : List ℕ
  pub sent : List (List ℕ)

abbrev pub set_call : ℕ → Option Waiting → Calls → Calls
set_call id w calls = λ k. if id == k then w else calls k

-- What a request is answered by, or the identifier under which its service answers later.
pub data Reply : Type 0 where
  replied : RpcMessage → Reply
  kept : ℕ → Reply

abbrev pub refusal : RpcMessage → ErrorCode → RpcMessage
refusal m code = record (empty_message MessageType.response m.id) { error = code }

abbrev pub answer_message : ℕ → ErrorCode → List ℕ → RpcMessage
answer_message id error bytes = record (empty_message MessageType.response id) {
  error = error;
  response = bytes;
}

abbrev pub reply_of : RpcMessage → Option (List ℕ) → Reply
reply_of m none = kept (m.id % 2 ^ 32)
reply_of m (some []) =
    replied (answer_message (to_size (m.id % 2 ^ 32)) ErrorCode.invalid_request [])
reply_of m (some (x ∷ xs)) =
    replied (answer_message (to_size (m.id % 2 ^ 32)) ErrorCode.no_error (x ∷ xs))

abbrev pub reply_by : RpcMessage → Service → Option ℕ → Reply
reply_by m service none = replied (refusal m ErrorCode.no_method)
reply_by m service (some method) =
    if service.parses method m.request
    then reply_of m (service.call method m.request)
    else replied (refusal m ErrorCode.invalid_request)

abbrev pub reply_with : RpcMessage → Option Service → Reply
reply_with m none = replied (refusal m ErrorCode.no_service)
reply_with m (some service) = reply_by m service (service.find_method m.method)

abbrev pub reply_to : RpcMessage → Option (List (List ℕ × Service)) → Reply
reply_to m none = replied (refusal m ErrorCode.no_service)
reply_to m (some services) = reply_with m (find_service m.service services)

-- A response settles the call that it is for: it is filled in, and its closure runs, if there is no
-- error and the caller has given an object.
abbrev pub fill_in : Option ℕ → ErrorCode → List ℕ → List (ℕ × List ℕ)
fill_in none error bytes = []
fill_in (some object) ErrorCode.no_error bytes = (object, bytes) ∷ []
fill_in (some object) _ bytes = []

abbrev pub settled : ErrorCode → List ℕ → Option Waiting → List (ℕ × List ℕ)
settled error bytes none = []
settled error bytes (some w) = fill_in w.response error bytes

abbrev pub closure_of : Option ℕ → List ℕ
closure_of none = []
closure_of (some closure) = closure ∷ []

abbrev pub finish : Option ℕ → ErrorCode → Option ℕ → List ℕ
finish none error closure = []
finish (some object) ErrorCode.no_error closure = closure_of closure
finish (some object) _ closure = []

abbrev pub finished : ErrorCode → Option Waiting → List ℕ
finished error none = []
finished error (some w) = finish w.response error w.done

abbrev pub call_message : ℕ → List ℕ → List ℕ → List ℕ → RpcMessage
call_message next service method request =
    record (empty_message MessageType.request (to_size next)) {
      service = service;
      method = method;
      request = request;
    }

abbrev pub request_message : ℕ → List ℕ → List ℕ → List ℕ → RpcMessage
request_message id service method request = record (empty_message MessageType.request id) {
  service = service;
  method = method;
  request = request;
}

module _ ⦃api : BufferApi⦄ ⦃lib : RpcLibrary⦄ where
  abbrev pub give : Reply → Promise → Promise
  give (replied m) p = record p { sent = p.sent ++ encode m ∷ [] }
  give (kept id) p = record p { deferred = p.deferred ++ id ∷ [] }

  -- The specification.
  abbrev pub promise : Event → Promise → Promise
  promise (called service method request object closure) p = record p {
    next = suc p.next;
    calls = set_call p.next (some (record { response = object; done = closure })) p.calls;
    sent = p.sent ++ encode (call_message p.next service method request) ∷ [];
  }
  promise (answered id error bytes) p = record p {
    calls = set_call (id % 2 ^ 32) none p.calls;
    parsed = p.parsed ++ settled error bytes (p.calls (id % 2 ^ 32));
    ran = p.ran ++ finished error (p.calls (id % 2 ^ 32));
  }
  promise (asked id service method request) p =
      give (reply_to (request_message id service method request) p.services) p

  abbrev pub promises : List Event → Promise → Promise
  promises [] p = p
  promises (e ∷ es) p = promises es (promise e p)

  -- The session's operations.
  abbrev pub perform : Event → Session → Run Session
  perform (called service method request object closure) s =
      call_method service method request object closure s
  perform (answered id error bytes) s =
      on_rpc_callback (some (answer_message id error bytes)) CodecError.no_error s
  perform (asked id service method request) s =
      on_rpc_callback (some (request_message id service method request)) CodecError.no_error s

  abbrev pub perform_all : List Event → Session → Run Session
  perform_all [] s = ok s
  perform_all (e ∷ es) s = perform e s >>= λ s'. perform_all es s'

  -- What is seen of a session.
  abbrev pub view : Session → Promise
  view s = record {
    services = s.services;
    next = s.id;
    calls = λ id. find_call id s.req_callbacks;
    parsed = s.parsed;
    ran = s.ran;
    deferred = s.deferred;
    sent = map (λ w. w.1) s.codec.writes;
  }
