-- ===== src/ProtoRpc/Session/Kept.antt =====
-- What the operations of a session leave of its waiting calls and of the closures that it has run.
pub mod Reads
use boost_practice.Base.{
  ap, ℕ, ◌%◌, ◌^◌, ◌≡◌, refl, subst, ◌⊎◌, inl, inr, List, [], ◌∷◌, ◌++◌, Option, none, some, ok,
  first_returns, Bool-cases, Option-cases,
}
use boost_practice.Buffer.{BufferApi}
use boost_practice.ProtoRpc.Message.{ErrorCode, RpcMessage, RpcLibrary}
use boost_practice.ProtoRpc.Codec.{send_rpc_msg}
use boost_practice.Pending.{find_call, erase_call}
use boost_practice.ProtoRpc.Session.{
  Waiting, Service, find_service, Session, send, done_callback, call_service, call_found, serve_by,
  serve_from, on_request, fill_response, complete, settle, on_response, reply,
}

module _ ⦃api : BufferApi⦄ ⦃lib : RpcLibrary⦄ where
  -- The counter, the calls and the closures that have run are the same.
  abbrev pub Keeps : Session → Session → Type 0
  Keeps s s' = (s'.id ≡ s.id) × (s'.req_callbacks ≡ s.req_callbacks) × (s'.ran ≡ s.ran)

  -- So are the reads, those that have completed and the ends that are reported.
  abbrev pub Stays : Session → Session → Type 0
  Stays s s' = (s'.reads ≡ s.reads) × (s'.cancels ≡ s.cancels) × (s'.overs ≡ s.overs)

  -- Nothing changes but what is sent, now or later.
  abbrev pub Sends : Session → Session → Type 0
  Sends s s' = s' ≡ record s { codec = s'.codec; deferred = s'.deferred }

  pub Sends-Keeps : (s s' : Session) → Sends s s' → Keeps s s'
  Sends-Keeps s s' e = (ap (λ t. t.id) e, ap (λ t. t.req_callbacks) e, ap (λ t. t.ran) e)

  pub Sends-Stays : (s s' : Session) → Sends s s' → Stays s s'
  Sends-Stays s s' e = (ap (λ t. t.reads) e, ap (λ t. t.cancels) e, ap (λ t. t.overs) e)

  pub send-Sends : (m : RpcMessage) (s s' : Session) → send m s ≡ ok s' → Sends s s'
  send-Sends m s s' e =
      let (c, _, done) = first_returns _ (send_rpc_msg m s.codec) e in
      let same : record s { codec = c } ≡ s' = cc done in subst (Sends s) same refl

  done_callback-Sends :
      (answer : List ℕ) (id : ℕ) (s s' : Session) → done_callback answer id s ≡ ok s' → Sends s s'
  unfolding done_callback
  done_callback-Sends [] id s s' e = send-Sends _ s s' e
  done_callback-Sends (x ∷ xs) id s s' e = send-Sends _ s s' e

  call_service-Sends :
      (service : Service) (method : ℕ) (m : RpcMessage) (s s' : Session)
      → call_service service method m s ≡ ok s'
      → Sends s s'
  call_service-Sends service method m s s' e = elim (Option-cases (service.call method m.request)) [
    | inl later ↦
        let same : record s { deferred = s.deferred ++ (m.id % 2 ^ 32) ∷ [] } ≡ s' =
          cc (rw (later, call_service) at e) in
        subst (Sends s) same refl
    | inr (answer, now) ↦
        done_callback-Sends answer (m.id % 2 ^ 32) s s' (rw (now, call_service) at e)
  ]

  returned-Sends :
      (s : Session) (r r' : ErrorCode × Session) → Sends s r.1 → ok r ≡ ok r' → Sends s r'.1
  returned-Sends s r r' k e =
      let same : r ≡ r' = cc e in subst (λ (t : ErrorCode × Session). Sends s t.1) same k

  call_found-Sends :
      (service : Service) (method : Option ℕ) (m : RpcMessage) (s s' : Session) (code : ErrorCode)
      → call_found service method m s ≡ ok (code, s')
      → Sends s s'
  call_found-Sends service none m s s' code e =
      returned-Sends s (ErrorCode.no_method, s) (code, s') refl e
  call_found-Sends service (some method) m s s' code e =
      elim (Bool-cases (service.parses method m.request)) [
        | inl parsed ↦
            let (t, called, done) =
              first_returns _ (call_service service method m s) (rw (parsed, call_found) at e) in
            returned-Sends s (ErrorCode.no_error, t) (code, s')
              (call_service-Sends service method m s t called) done
        | inr unparsed ↦
            returned-Sends s (ErrorCode.invalid_request, s) (code, s') refl
              (rw (unparsed, call_found) at e)
      ]

  serve_by-Sends :
      (service : Option Service) (m : RpcMessage) (s s' : Session) (code : ErrorCode)
      → serve_by service m s ≡ ok (code, s')
      → Sends s s'
  serve_by-Sends none m s s' code e = returned-Sends s (ErrorCode.no_service, s) (code, s') refl e
  serve_by-Sends (some service) m s s' code e =
      call_found-Sends service (service.find_method m.method) m s s' code e

  serve_from-Sends :
      (services : Option (List (List ℕ × Service))) (m : RpcMessage) (s s' : Session)
      (code : ErrorCode)
      → serve_from services m s ≡ ok (code, s')
      → Sends s s'
  serve_from-Sends none m s s' code e = returned-Sends s (ErrorCode.no_service, s) (code, s') refl e
  serve_from-Sends (some services) m s s' code e =
      serve_by-Sends (find_service m.service services) m s s' code e

  pub on_request-Sends :
      (m : RpcMessage) (s s' : Session) (code : ErrorCode)
      → on_request m s ≡ ok (code, s')
      → Sends s s'
  unfolding on_request
  on_request-Sends m s s' code e = serve_from-Sends s.services m s s' code e

  pub reply-Sends :
      (code : ErrorCode) (m : Option RpcMessage) (s s' : Session)
      → reply code m s ≡ ok s'
      → Sends s s'
  unfolding reply
  reply-Sends ErrorCode.no_error m s s' e = let same : s ≡ s' = cc e in subst (Sends s) same refl
  reply-Sends ErrorCode.invalid_request (some m) s s' e = send-Sends _ s s' e
  reply-Sends ErrorCode.no_service (some m) s s' e = send-Sends _ s s' e
  reply-Sends ErrorCode.no_method (some m) s s' e = send-Sends _ s s' e
  reply-Sends ErrorCode.invalid_checksum (some m) s s' e = send-Sends _ s s' e
  reply-Sends ErrorCode.invalid_request none s s' e = absurd (cc e)
  reply-Sends ErrorCode.no_service none s s' e = absurd (cc e)
  reply-Sends ErrorCode.no_method none s s' e = absurd (cc e)
  reply-Sends ErrorCode.invalid_checksum none s s' e = absurd (cc e)

  -- Either no closure runs, or that one which waits.
  abbrev pub Runs : Option ℕ → Session → Session → Type 0
  Runs closure s s' =
      (s'.id ≡ s.id)
      × ((s'.ran ≡ s.ran) ⊎ ((c : ℕ) × (closure ≡ some c) × (s'.ran ≡ s.ran ++ c ∷ [])))

  fill_response-Runs :
      (code : ErrorCode) (m : RpcMessage) (object : ℕ) (closure : Option ℕ) (s : Session)
      → Runs closure s (fill_response code m object closure s)
  fill_response-Runs ErrorCode.no_error m object none s = (refl, inl refl)
  fill_response-Runs ErrorCode.no_error m object (some c) s = (refl, inr (c, refl, refl))
  fill_response-Runs ErrorCode.no_service m object closure s = (refl, inl refl)
  fill_response-Runs ErrorCode.no_method m object closure s = (refl, inl refl)
  fill_response-Runs ErrorCode.invalid_request m object closure s = (refl, inl refl)
  fill_response-Runs ErrorCode.invalid_checksum m object closure s = (refl, inl refl)

  complete-Runs :
      (m : RpcMessage) (object closure : Option ℕ) (s : Session)
      → Runs closure s (complete m object closure s)
  complete-Runs m none closure s = (refl, inl refl)
  complete-Runs m (some object) closure s = fill_response-Runs m.error m object closure s

  abbrev pub waiting_closure : Option Waiting → Option ℕ
  waiting_closure none = none
  waiting_closure (some w) = w.done

  settle-Runs :
      (m : RpcMessage) (o : Option Waiting) (s : Session)
      → Runs (waiting_closure o) s (settle m o s)
  settle-Runs m none s = (refl, inl refl)
  settle-Runs m (some w) s =
      complete-Runs m w.response w.done
        (record s { req_callbacks = erase_call (m.id % 2 ^ 32) s.req_callbacks })

  -- A response runs no closure but that of the call which waits under its identifier.
  pub on_response-Runs :
      (m : RpcMessage) (s : Session)
      → Runs (waiting_closure (find_call (m.id % 2 ^ 32) s.req_callbacks)) s (on_response m s)
  unfolding on_response
  on_response-Runs m s = settle-Runs m (find_call (m.id % 2 ^ 32) s.req_callbacks) s

  fill_response-Stays :
      (code : ErrorCode) (m : RpcMessage) (object : ℕ) (closure : Option ℕ) (s : Session)
      → Stays s (fill_response code m object closure s)
  fill_response-Stays ErrorCode.no_error m object none s = (refl, refl, refl)
  fill_response-Stays ErrorCode.no_error m object (some c) s = (refl, refl, refl)
  fill_response-Stays ErrorCode.no_service m object closure s = (refl, refl, refl)
  fill_response-Stays ErrorCode.no_method m object closure s = (refl, refl, refl)
  fill_response-Stays ErrorCode.invalid_request m object closure s = (refl, refl, refl)
  fill_response-Stays ErrorCode.invalid_checksum m object closure s = (refl, refl, refl)

  settle-Stays : (m : RpcMessage) (o : Option Waiting) (s : Session) → Stays s (settle m o s)
  settle-Stays m none s = (refl, refl, refl)
  settle-Stays m (some w) s = elim (Option-cases w.response) [
    | inl without ↦ rw without (refl, refl, refl)
    | inr (object, e) ↦ rw e (
        fill_response-Stays m.error m object w.done
          (record s { req_callbacks = erase_call (m.id % 2 ^ 32) s.req_callbacks }))
  ]

  pub on_response-Stays : (m : RpcMessage) (s : Session) → Stays s (on_response m s)
  unfolding on_response
  on_response-Stays m s = settle-Stays m (find_call (m.id % 2 ^ 32) s.req_callbacks) s
