-- ===== src/ProtoRpc/Session/Spec/Replies.antt =====
-- A session answers each request as it promises.
use boost_practice.Base.{
  Run, ℕ, ◌≡◌, refl, ap, ◌∙◌, List, [], ◌∷◌, ◌++◌, Option, none, some, ok, ◌>>=◌, Bool-cases, inl,
  inr,
}
use boost_practice.Buffer.{BufferApi}
use boost_practice.ProtoRpc.Message.{MessageType, ErrorCode, RpcMessage, RpcLibrary}
use boost_practice.ProtoRpc.Codec.{CodecError}
use boost_practice.ProtoRpc.Session.{
  Service, find_service, Session, send, done_callback, call_service, call_found, serve_by,
  serve_from, on_request, reply, dispatch, on_rpc_callback,
}
use boost_practice.ProtoRpc.Session.Requests.{IsReady, Fits, Wrote, send_lem, response_to}
use boost_practice.ProtoRpc.Session.Spec.{
  Reply, replied, kept, refusal, reply_of, reply_by, reply_with, reply_to,
}

module _ ⦃api : BufferApi⦄ ⦃lib : RpcLibrary⦄ where
  abbrev pub ReplyFits : Reply → Type 0
  ReplyFits (replied m) = Fits m
  ReplyFits (kept id) = Unit {0}

  -- The session `s'` is `s` with its reply given.
  abbrev pub Gave : Reply → Session → Session → Type 0
  Gave (replied m) s s' = Wrote m s s'
  Gave (kept id) s s' = s' ≡ record s { deferred = s.deferred ++ id ∷ [] }

  -- A request that has been served or refused, and the answer to a refusal.
  abbrev answering : RpcMessage → Run (ErrorCode × Session) → Run Session
  answering m run = run >>= λ (code, s'). reply code (some m) s'

  abbrev Gives : Reply → Run Session → Session → Type 0
  Gives r run s = (s' : Session) × (run ≡ ok s') × Gave r s s'

  refuse :
      (m : RpcMessage) (code : ErrorCode) (s : Session)
      → IsReady s
      → Fits (refusal m code)
      → Gives (replied (refusal m code)) (send (refusal m code) s) s
  refuse m code s ready fits = send_lem (refusal m code) s ready fits

  of_call :
      (m : RpcMessage) (service : Service) (method : ℕ) (s : Session) (o : Option (List ℕ))
      → service.call method m.request ≡ o
      → IsReady s
      → ReplyFits (reply_of m o)
      → Gives
          (reply_of m o)
          (answering m (call_service service method m s >>= λ s'. ok (ErrorCode.no_error, s')))
          s
  unfolding reply done_callback
  of_call m service method s none e ready fits = (_, rw (e, call_service) refl, refl)
  of_call m service method s (some []) e ready fits =
      let (s', sent, wrote) =
        send_lem (record (response_to m []) { error = ErrorCode.invalid_request }) s ready fits in
      (s', rw (e, call_service, sent) refl, wrote)
  of_call m service method s (some (x ∷ xs)) e ready fits =
      let (s', sent, wrote) = send_lem (response_to m (x ∷ xs)) s ready fits in
      (s', rw (e, call_service, sent) refl, wrote)

  by_method :
      (m : RpcMessage) (service : Service) (o : Option ℕ) (s : Session)
      → IsReady s
      → ReplyFits (reply_by m service o)
      → Gives (reply_by m service o) (answering m (call_found service o m s)) s
  unfolding reply
  by_method m service none s ready fits = refuse m ErrorCode.no_method s ready fits
  by_method m service (some method) s ready fits =
      elim (Bool-cases (service.parses method m.request)) [
        | inl parsed ↦ rw parsed (
            of_call m service method s (service.call method m.request) refl ready
              (rw parsed at fits))
        | inr unparsed ↦
            rw unparsed (refuse m ErrorCode.invalid_request s ready (rw unparsed at fits))
      ]

  with_service :
      (m : RpcMessage) (o : Option Service) (s : Session)
      → IsReady s
      → ReplyFits (reply_with m o)
      → Gives (reply_with m o) (answering m (serve_by o m s)) s
  unfolding reply
  with_service m none s ready fits = refuse m ErrorCode.no_service s ready fits
  with_service m (some service) s ready fits =
      by_method m service (service.find_method m.method) s ready fits

  from_services :
      (m : RpcMessage) (o : Option (List (List ℕ × Service))) (s : Session)
      → IsReady s
      → ReplyFits (reply_to m o)
      → Gives (reply_to m o) (answering m (serve_from o m s)) s
  unfolding reply
  from_services m none s ready fits = refuse m ErrorCode.no_service s ready fits
  from_services m (some services) s ready fits =
      with_service m (find_service m.service services) s ready fits

  -- Each request, whatever its names and its bytes, is answered by the one message that the
  -- specification says, or is kept by its service.
  pub on_rpc_callback_gives :
      (m : RpcMessage) (s : Session)
      → m.type ≡ MessageType.request
      → IsReady s
      → ReplyFits (reply_to m s.services)
      → (s' : Session) × (on_rpc_callback (some m) CodecError.no_error s ≡ ok s')
        × Gave (reply_to m s.services) s s'
  unfolding on_rpc_callback on_request
  on_rpc_callback_gives m s t ready fits =
      let (s', e, gave) = from_services m s.services s ready fits in
      (s', ap (λ k. dispatch k m s) t ∙ e, gave)
