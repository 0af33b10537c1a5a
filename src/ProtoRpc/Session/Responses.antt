-- ===== src/ProtoRpc/Session/Responses.antt =====
-- What a response does to the calls that wait.
use boost_practice.Base.{
  ℕ, ◌%◌, ◌^◌, ◌≡◌, ◌≢◌, refl, sym, ap, ◌∙◌, [], ◌∷◌, ◌++◌, Option, none, some, ◌==◌, if◌then◌else◌,
}
use boost_practice.Buffer.{BufferApi}
use boost_practice.ProtoRpc.Message.{ErrorCode, RpcMessage, RpcLibrary}
use boost_practice.ProtoRpc.Session.{settle, Waiting, Session, on_response, complete, fill_response}
use boost_practice.Pending.{find_call, erase_call}
use boost_practice.Pending.Laws.{Below, erase-Below, erase-none, find-erase, if-same}
use boost_practice.ProtoRpc.Session.Calls.{CallsBelow}
use boost_practice.ProtoRpc.Session.{settle}

module _ ⦃api : BufferApi⦄ ⦃lib : RpcLibrary⦄ where
  -- The session once the call with this identifier waits no longer.
  abbrev pub without_call : ℕ → Session → Session
  without_call id s = record s { req_callbacks = erase_call id s.req_callbacks }

  fill_response-req_callbacks :
      (code : ErrorCode) (m : RpcMessage) (object : ℕ) (closure : Option ℕ) (s : Session)
      → (fill_response code m object closure s).req_callbacks ≡ s.req_callbacks
  fill_response-req_callbacks ErrorCode.no_error m object none s = refl
  fill_response-req_callbacks ErrorCode.no_error m object (some closure) s = refl
  fill_response-req_callbacks ErrorCode.no_service m object closure s = refl
  fill_response-req_callbacks ErrorCode.no_method m object closure s = refl
  fill_response-req_callbacks ErrorCode.invalid_request m object closure s = refl
  fill_response-req_callbacks ErrorCode.invalid_checksum m object closure s = refl

  complete-req_callbacks :
      (m : RpcMessage) (object closure : Option ℕ) (s : Session)
      → (complete m object closure s).req_callbacks ≡ s.req_callbacks
  complete-req_callbacks m none closure s = refl
  complete-req_callbacks m (some object) closure s =
      fill_response-req_callbacks m.error m object closure s

  settle-req_callbacks :
      (m : RpcMessage) (o : Option Waiting) (s : Session)
      → o ≡ find_call (m.id % 2 ^ 32) s.req_callbacks
      → (settle m o s).req_callbacks ≡ erase_call (m.id % 2 ^ 32) s.req_callbacks
  settle-req_callbacks m none s e = sym (erase-none (m.id % 2 ^ 32) s.req_callbacks (sym e))
  settle-req_callbacks m (some w) s e =
      complete-req_callbacks m w.response w.done (without_call (m.id % 2 ^ 32) s)

  pub on_response-req_callbacks :
      (m : RpcMessage) (s : Session)
      → (on_response m s).req_callbacks ≡ erase_call (m.id % 2 ^ 32) s.req_callbacks
  unfolding on_response
  on_response-req_callbacks m s =
      settle-req_callbacks m (find_call (m.id % 2 ^ 32) s.req_callbacks) s refl

  on_response-none :
      (m : RpcMessage) (s : Session)
      → find_call (m.id % 2 ^ 32) s.req_callbacks ≡ none
      → on_response m s ≡ s
  unfolding on_response
  on_response-none m s e = ap (λ o. settle m o s) e

  -- Whatever a response carries, its identifier waits no longer, the other calls wait on as they
  -- did, and the identifiers stay distinct; the counter stays as it is.
  pub on_response-waiting :
      (s : Session) (m : RpcMessage)
      → CallsBelow s
      → Below s.id (on_response m s).req_callbacks
        × ((id : ℕ)
            → find_call id (on_response m s).req_callbacks
              ≡ (if m.id % 2 ^ 32 == id then none else find_call id s.req_callbacks))
  on_response-waiting s m below = rw (on_response-req_callbacks m s) (
    erase-Below s.id (m.id % 2 ^ 32) s.req_callbacks below,
    λ id. find-erase id (m.id % 2 ^ 32) s.id s.req_callbacks below,
  )

  -- A response without an error completes the call that waits under its identifier: it fills in
  -- that call's response object with the bytes that it carries, runs that call's closure once, and
  -- takes the call out of the map, and does nothing else.
  pub on_response_lem :
      (s : Session) (m : RpcMessage) (object closure : ℕ)
      → m.error ≡ ErrorCode.no_error
      → find_call (m.id % 2 ^ 32) s.req_callbacks
        ≡ some (record { response = some object; done = some closure })
      → on_response m s ≡ record s {
        req_callbacks = erase_call (m.id % 2 ^ 32) s.req_callbacks;
        parsed = s.parsed ++ (object, m.response) ∷ [];
        ran = s.ran ++ closure ∷ [];
      }
  unfolding on_response
  on_response_lem s m object closure right e =
      ap (λ o. settle m o s) e
      ∙ ap (λ code. fill_response code m object (some closure) (without_call (m.id % 2 ^ 32) s))
          right

  fill_response-error :
      (code : ErrorCode) (m : RpcMessage) (object : ℕ) (closure : Option ℕ) (s : Session)
      → code ≢ ErrorCode.no_error
      → fill_response code m object closure s ≡ s
  fill_response-error ErrorCode.no_error m object closure s ne = absurd (ne refl)
  fill_response-error ErrorCode.no_service m object closure s ne = refl
  fill_response-error ErrorCode.no_method m object closure s ne = refl
  fill_response-error ErrorCode.invalid_request m object closure s ne = refl
  fill_response-error ErrorCode.invalid_checksum m object closure s ne = refl

  complete-error :
      (m : RpcMessage) (object closure : Option ℕ) (s : Session)
      → m.error ≢ ErrorCode.no_error
      → complete m object closure s ≡ s
  complete-error m none closure s ne = refl
  complete-error m (some object) closure s ne = fill_response-error m.error m object closure s ne

  -- A response with an error drops the call that waits for it: the call's closure never runs, and
  -- nothing else tells the caller.
  pub on_response_error :
      (s : Session) (m : RpcMessage) (w : Waiting)
      → m.error ≢ ErrorCode.no_error
      → find_call (m.id % 2 ^ 32) s.req_callbacks ≡ some w
      → on_response m s ≡ record s { req_callbacks = erase_call (m.id % 2 ^ 32) s.req_callbacks }
  unfolding on_response
  on_response_error s m w wrong e =
      ap (λ o. settle m o s) e
      ∙ complete-error m w.response w.done (without_call (m.id % 2 ^ 32) s) wrong

  -- A response that arrives a second time changes nothing: no closure runs twice.
  pub on_response_twice :
      (s : Session) (m : RpcMessage)
      → CallsBelow s
      → on_response m (on_response m s) ≡ on_response m s
  on_response_twice s m below = on_response-none m (on_response m s) (
      (on_response-waiting s m below).1 (m.id % 2 ^ 32)
      ∙ if-same (m.id % 2 ^ 32) (find_call (m.id % 2 ^ 32) s.req_callbacks))
