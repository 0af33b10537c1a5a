-- ===== src/ProtoRpc/Session/Calls.antt =====
-- What a call does to the calls that wait and to what is sent.
use boost_practice.Base.{
  ℕ, suc, ◌+◌, ◌%◌, ◌^◌, ◌<◌, ◌≡◌, ap, ◌∙◌, List, Option, none, some, ok, arith, ◌==◌,
  if◌then◌else◌,
}
use boost_practice.Buffer.{BufferApi}
use boost_practice.Frame.{to_size}
use boost_practice.ProtoRpc.Message.{MessageType, RpcMessage, RpcLibrary}
use boost_practice.ProtoRpc.Session.{Waiting, empty_message, Session, call_method}
use boost_practice.Pending.{find_call, put_call}
use boost_practice.ProtoRpc.Session.Requests.{IsReady, Fits, Wrote, send_lem}
use boost_practice.Pending.Laws.{find-put, Below, find-Absent, Below-Absent, put-Below}

module _ ⦃api : BufferApi⦄ ⦃lib : RpcLibrary⦄ where
  -- The message of a call.
  abbrev pub request_of : Session → List ℕ → List ℕ → List ℕ → RpcMessage
  request_of s service method request = record (empty_message MessageType.request (to_size s.id)) {
    service = service;
    method = method;
    request = request;
  }

  -- The session once the call has been entered, before its message is sent.
  abbrev pub entered : Session → Waiting → Session
  entered s w = record s {
    id = (s.id + 1) % 2 ^ 32;
    req_callbacks = put_call s.id w s.req_callbacks;
  }

  -- Every waiting call has an identifier of its own, below the next one.
  abbrev pub CallsBelow : Session → Type 0
  CallsBelow s = Below s.id s.req_callbacks

  -- A call sends one request, under an identifier that no waiting call has; it is entered under
  -- that identifier, no other entry changes, and the waiting calls stay below the counter. The free
  -- output buffers are ready, the waiting calls lie below the counter, which does not wrap, and the
  -- request fits the length field.
  pub call_method_lem :
      (s : Session) (service method request : List ℕ) (object closure : Option ℕ)
      → IsReady s
      → CallsBelow s
      → s.id + 1 < 2 ^ 32
      → Fits (request_of s service method request)
      → let w : Waiting = record { response = object; done = closure } in
        (s' : Session) × (call_method service method request object closure s ≡ ok s')
        × Wrote (request_of s service method request) (entered s w) s'
        × (find_call s.id s.req_callbacks ≡ none)
        × ((id : ℕ)
            → find_call id s'.req_callbacks
              ≡ (if s.id == id then some w else find_call id s.req_callbacks))
        × CallsBelow s'
        × (s'.id ≡ suc s.id)
  unfolding call_method
  call_method_lem s service method request object closure ready below room fits =
      let w : Waiting = record { response = object; done = closure } in
      let (s', e, wrote) =
        send_lem (request_of s service method request) (entered s w) ready fits in
      let same : s'.req_callbacks ≡ put_call s.id w s.req_callbacks =
        ap (λ t. t.req_callbacks) wrote.others in
      let wraps : (s.id + 1) % 2 ^ 32 ≡ suc s.id = omega arith in
      let next : s'.id ≡ suc s.id = ap (λ t. t.id) wrote.others ∙ wraps in
      (
        s',
        e,
        wrote,
        find-Absent s.id s.req_callbacks (Below-Absent s.id s.req_callbacks below),
        (λ id. rw same (find-put id s.id w s.req_callbacks)),
        rw (next, same) (put-Below s.id w s.req_callbacks below),
        next,
      )
