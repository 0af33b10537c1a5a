-- ===== src/ProtoRpc/Session.antt =====
-- proto_rpc/lib/rpc_session.h and rpc_session.cpp, built with USE_SSL: one end of a connection. It
-- answers requests by its services, and matches responses to the calls that wait for them.
pub mod Start
pub mod Handshake
pub mod Requests
pub mod Calls
pub mod Responses
pub mod RoundTrip
pub mod Total
pub mod Kept
pub mod Once
pub mod Life
pub mod Spec
use boost_practice.Base.{
  ℕ, zero, suc, ◌+◌, ◌-◌, ◌%◌, ◌^◌, Bool, true, false, List, [], ◌∷◌, ◌++◌, length, Option, none,
  some, Run, ok, fault, ◌>>=◌, ◌==◌, if◌then◌else◌, same_text,
}
use boost_practice.Pending.{find_call, erase_call, put_call}
use boost_practice.Buffer.{BufferApi}
use boost_practice.Frame.{to_size}
use boost_practice.ProtoRpc.Message.{MessageType, ErrorCode, RpcMessage, RpcLibrary}
use boost_practice.ProtoRpc.Codec.{CodecError, Codec, Reader, rpc_codec, send_rpc_msg}
use boost_practice.ProtoRpc.Codec as Codecs
pub use boost_practice.ProtoRpc.Service.{Service, Waiting, find_service, empty_message}

module _ ⦃api : BufferApi⦄ where
  -- The session but for its codec's input buffer. `id` is the bit pattern of an `int`. The fields
  -- from `parsed` on record what the session does to the outside, in order: the responses that it
  -- fills in, the closures that it runs, the requests whose services keep their closure, how often
  -- it reads, shuts the socket down, cancels and sets its timer and reports its end, whether the
  -- stream verifies its peer, and the sides of the handshakes begun, true for the server's.
  pub record Session : Type 0 where
    pub codec : Codec
    pub services : Option (List (List ℕ × Service))
    pub id : ℕ
    pub req_callbacks : List (ℕ × Waiting)
    pub is_open : Bool
    pub parsed : List (ℕ × List ℕ)
    pub ran : List ℕ
    pub deferred : List ℕ
    pub reads : ℕ
    pub shutdowns : ℕ
    pub cancels : ℕ
    pub timers : ℕ
    pub overs : ℕ
    pub verifies : Bool
    pub handshakes : List Bool

  unfoldable pub rpc_session : Session
  rpc_session = record {
    codec = rpc_codec;
    services = none;
    id = 0;
    req_callbacks = [];
    is_open = true;
    parsed = [];
    ran = [];
    deferred = [];
    reads = 0;
    shutdowns = 0;
    cancels = 0;
    timers = 0;
    overs = 0;
    verifies = false;
    handshakes = [];
  }

  unfoldable pub set_services : Option (List (List ℕ × Service)) → Session → Session
  set_services services s = record s { services = services }

  unfoldable pub do_read : Session → Session
  do_read s = record s { reads = s.reads + 1; timers = s.timers + 1 }

  abbrev pub session_over : Session → Session
  session_over s = record s { overs = s.overs + 1 }

  -- `shutdown`, if the lowest layer of the stream is open. No code of the library closes it, so that
  -- it is open for the life of the session.
  abbrev pub shut_down : Session → Session
  shut_down s = if s.is_open then record s { shutdowns = s.shutdowns + 1 } else s

  -- Called with an error code: `operation_aborted` and any other error do nothing.
  unfoldable pub time_out : Bool → Session → Session
  time_out false s = session_over (shut_down s)
  time_out true s = s

  unfoldable pub disconnect : Session → Session
  disconnect s = shut_down s

  module _ ⦃lib : RpcLibrary⦄ where
    abbrev pub send : RpcMessage → Session → Run Session
    send m s = do codec ← send_rpc_msg m s.codec; ok (record s { codec = codec })

    -- The answer of a service, for the request with this `int32_t` identifier.
    unfoldable pub done_callback : List ℕ → ℕ → Session → Run Session
    done_callback [] id s =
        send
          (record (empty_message MessageType.response (to_size id)) {
            error = ErrorCode.invalid_request;
          })
          s
    done_callback (x ∷ xs) id s =
        send (record (empty_message MessageType.response (to_size id)) { response = x ∷ xs }) s

    -- `service->CallMethod`, with the closure for `done_callback`.
    abbrev pub call_service : Service → ℕ → RpcMessage → Session → Run Session
    call_service service method m s = elim (service.call method m.request) [
      | some answer ↦ done_callback answer (m.id % 2 ^ 32) s
      | none ↦ ok (record s { deferred = s.deferred ++ (m.id % 2 ^ 32) ∷ [] })
    ]

    abbrev pub call_found : Service → Option ℕ → RpcMessage → Session → Run (ErrorCode × Session)
    call_found service none m s = ok (ErrorCode.no_method, s)
    call_found service (some method) m s =
        if service.parses method m.request
        then (call_service service method m s >>= λ s'. ok (ErrorCode.no_error, s'))
        else ok (ErrorCode.invalid_request, s)

    abbrev pub serve_by : Option Service → RpcMessage → Session → Run (ErrorCode × Session)
    serve_by none m s = ok (ErrorCode.no_service, s)
    serve_by (some service) m s = call_found service (service.find_method m.method) m s

    abbrev pub serve_from :
        Option (List (List ℕ × Service)) → RpcMessage → Session → Run (ErrorCode × Session)
    serve_from none m s = ok (ErrorCode.no_service, s)
    serve_from (some services) m s = serve_by (find_service m.service services) m s

    -- The branch of `on_rpc_callback` for a request.
    unfoldable pub on_request : RpcMessage → Session → Run (ErrorCode × Session)
    on_request m s = serve_from s.services m s

    abbrev pub run_done : Option ℕ → Session → Session
    run_done none s = s
    run_done (some closure) s = record s { ran = s.ran ++ closure ∷ [] }

    abbrev pub fill_response : ErrorCode → RpcMessage → ℕ → Option ℕ → Session → Session
    fill_response ErrorCode.no_error m object closure s =
        run_done closure (record s { parsed = s.parsed ++ (object, m.response) ∷ [] })
    fill_response _ m object closure s = s

    abbrev pub complete : RpcMessage → Option ℕ → Option ℕ → Session → Session
    complete m none closure s = s
    complete m (some object) closure s = fill_response m.error m object closure s

    abbrev pub settle : RpcMessage → Option Waiting → Session → Session
    settle m none s = s
    settle m (some w) s =
        complete m w.response w.done
          (record s { req_callbacks = erase_call (m.id % 2 ^ 32) s.req_callbacks })

    -- The branch of `on_rpc_callback` for a response.
    unfoldable pub on_response : RpcMessage → Session → Session
    on_response m s = settle m (find_call (m.id % 2 ^ 32) s.req_callbacks) s

    -- The end of `on_rpc_callback`: an error is answered under the message's identifier, which
    -- cannot be read where there is no message.
    unfoldable pub reply : ErrorCode → Option RpcMessage → Session → Run Session
    reply ErrorCode.no_error m s = ok s
    reply code none s = fault
    reply code (some m) s =
        send (record (empty_message MessageType.response m.id) { error = code }) s

    abbrev pub dispatch : MessageType → RpcMessage → Session → Run Session
    dispatch MessageType.request m s = on_request m s >>= λ (code, s'). reply code (some m) s'
    dispatch MessageType.response m s = reply ErrorCode.no_error (some m) (on_response m s)
    dispatch MessageType.error m s = reply ErrorCode.no_error (some m) s

    unfoldable pub on_rpc_callback : Option RpcMessage → CodecError → Session → Run Session
    on_rpc_callback m CodecError.checksum_error s = reply ErrorCode.invalid_checksum m s
    on_rpc_callback none CodecError.no_error s = fault
    on_rpc_callback (some m) CodecError.no_error s = dispatch m.type m s

    -- `request` is the request, serialised; `service` and `method` are its names.
    unfoldable pub call_method :
        List ℕ → List ℕ → List ℕ → Option ℕ → Option ℕ → Session → Run Session
    call_method service method request object closure s =
        send
          (record (empty_message MessageType.request (to_size s.id)) {
            service = service;
            method = method;
            request = request;
          })
          (record s {
            id = (s.id + 1) % 2 ^ 32;
            req_callbacks =
                put_call s.id (record { response = object; done = closure }) s.req_callbacks;
          })

    unfoldable pub on_read : Bool → ℕ → List ℕ → Reader Session → Run (Reader Session)
    on_read ec bytes read_buffer r =
        let s = record (r.owner) { cancels = r.owner.cancels + 1 } in
        let go_on =
          Codecs.on_read on_rpc_callback bytes read_buffer (record r { owner = s }) >>= λ r'.
          ok (record r' { owner = do_read r'.owner }) in
        if ec then ok (record r { owner = session_over (shut_down s) }) else go_on
