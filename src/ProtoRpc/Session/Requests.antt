-- ===== src/ProtoRpc/Session/Requests.antt =====
-- How a session answers requests, and what a bad frame does to it.
use boost_practice.Base.{
  ℕ, ◌+◌, ◌%◌, ◌^◌, ◌≤◌, ◌<◌, ◌≡◌, ◌≢◌, refl, ap, ◌∙◌, true, false, List, [], ◌∷◌, ◌++◌, length,
  take, none, some, ok, fault, ◌>>=◌,
}
use boost_practice.Buffer.{BufferApi}
use boost_practice.Frame.{to_size, size_total}
use boost_practice.Frame.Relation.{Frames}
use boost_practice.ProtoRpc.Message.{MessageType, ErrorCode, RpcMessage, RpcLibrary}
use boost_practice.ProtoRpc.Codec.{CodecError, Reader}
use boost_practice.ProtoRpc.Codec.Slots.{AllReady, encode, send_rpc_msg_lem}
use boost_practice.ProtoRpc.Codec.Decode.{is_intact}
use boost_practice.ProtoRpc.Codec.Messages.{on_read_corrupt}
use boost_practice.ProtoRpc.Session.{
  Service, find_service, empty_message, Session, send, done_callback, on_request, reply,
  on_rpc_callback, on_read, dispatch, call_service,
}

module _ ⦃api : BufferApi⦄ ⦃lib : RpcLibrary⦄ where
  open lib use {serialize}

  -- `s'` is `s` with one message more written, from an output buffer that was free; the free output
  -- buffers are ready for more.
  pub record Wrote (m : RpcMessage) (s s' : Session) : Type 0 where
    pub slot : ℕ
    pub ready : AllReady s'.codec.output_buffers
    pub written : s'.codec.writes ≡ s.codec.writes ++ (slot, encode m) ∷ []
    pub others : s' ≡ record s { codec = s'.codec }

  abbrev pub IsReady : Session → Type 0
  IsReady s = AllReady s.codec.output_buffers

  -- A message that fits the length field.
  abbrev pub Fits : RpcMessage → Type 0
  Fits m = length (serialize m) + 4 < 2 ^ 31

  pub send_lem :
      (m : RpcMessage) (s : Session)
      → IsReady s
      → Fits m
      → (s' : Session) × (send m s ≡ ok s') × Wrote m s s'
  send_lem m s ready fits =
      let (c, i, e, ready', _, _, _, w, _) = send_rpc_msg_lem s.codec m ready fits in
      (
        record s { codec = c },
        rw e,
        record { slot = i; ready = ready'; written = w; others = refl },
      )

  -- Why a request is refused, and with which code.
  pub data Refused (s : Session) (m : RpcMessage) : ErrorCode → Type 0 where
    without_services : s.services ≡ none → Refused s m ErrorCode.no_service
    unknown_service :
        {services : List (List ℕ × Service)}
        → s.services ≡ some services
        → find_service m.service services ≡ none
        → Refused s m ErrorCode.no_service
    unknown_method :
        {services : List (List ℕ × Service)} {service : Service}
        → s.services ≡ some services
        → find_service m.service services ≡ some service
        → service.find_method m.method ≡ none
        → Refused s m ErrorCode.no_method
    unparsed :
        {services : List (List ℕ × Service)} {service : Service} {method : ℕ}
        → s.services ≡ some services
        → find_service m.service services ≡ some service
        → service.find_method m.method ≡ some method
        → service.parses method m.request ≡ false
        → Refused s m ErrorCode.invalid_request

  on_request-Refused :
      (s : Session) (m : RpcMessage) (code : ErrorCode)
      → Refused s m code
      → on_request m s ≡ ok (code, s)
  unfolding on_request
  on_request-Refused s m code (without_services e) = rw e
  on_request-Refused s m code (unknown_service e f) = rw (e, f)
  on_request-Refused s m code (unknown_method e f g) = rw (e, f, g)
  on_request-Refused s m code (unparsed e f g h) = rw (e, f, g, h)

  reply-Refused :
      (s : Session) (m : RpcMessage) (code : ErrorCode)
      → Refused s m code
      → reply code (some m) s
        ≡ send (record (empty_message MessageType.response m.id) { error = code }) s
  unfolding reply
  reply-Refused s m code (without_services e) = refl
  reply-Refused s m code (unknown_service e f) = refl
  reply-Refused s m code (unknown_method e f g) = refl
  reply-Refused s m code (unparsed e f g h) = refl

  -- A request that is refused is answered by one message, a response under the request's identifier
  -- with the code of the refusal, and nothing else happens.
  pub on_rpc_callback-Refused :
      (s : Session) (m : RpcMessage) (code : ErrorCode)
      → m.type ≡ MessageType.request
      → Refused s m code
      → IsReady s
      → Fits (record (empty_message MessageType.response m.id) { error = code })
      → (s' : Session) × (on_rpc_callback (some m) CodecError.no_error s ≡ ok s')
        × Wrote (record (empty_message MessageType.response m.id) { error = code }) s s'
  unfolding on_rpc_callback
  on_rpc_callback-Refused s m code t refused ready fits =
      let answer = record (empty_message MessageType.response m.id) { error = code } in
      let (s', e, wrote) = send_lem answer s ready fits in
      (
        s',
        ap (λ k. dispatch k m s) t
            ∙ rw (on_request-Refused s m code refused) (reply-Refused s m code refused ∙ e),
        wrote,
      )

  -- A checksum error calls back without a message, whose identifier the answer then asks for.
  pub on_rpc_callback-checksum_error :
      (s : Session) → on_rpc_callback none CodecError.checksum_error s ≡ fault
  unfolding on_rpc_callback reply
  on_rpc_callback-checksum_error s = refl

  -- A read that brings frames, of which the first has a payload of four bytes or more and a wrong
  -- checksum, faults.
  pub on_read-corrupt :
      (r : Reader Session) (bytes : ℕ) (read_buffer : List ℕ) (given : bytes ≤ length read_buffer)
      (p : List ℕ) (ps : List (List ℕ)) {rest : List ℕ}
      → Frames 8 size_total (api.readable r.input_buffer ++ take bytes read_buffer) (p ∷ ps) rest
      → 4 ≤ length p
      → is_intact p ≡ false
      → on_read false bytes read_buffer r ≡ fault
  unfolding on_read
  on_read-corrupt r bytes read_buffer given p ps f long broken_sum =
      let s : Session = record (r.owner) { cancels = r.owner.cancels + 1 } in
      rw (
        on_read_corrupt on_rpc_callback (record r { owner = s }) bytes read_buffer given p ps f long
          broken_sum (on_rpc_callback-checksum_error s))

  -- The response to a request whose service answers before it returns.
  abbrev pub response_to : RpcMessage → List ℕ → RpcMessage
  response_to m answer = record (empty_message MessageType.response (to_size (m.id % 2 ^ 32))) {
    response = answer;
  }

  -- What it takes for a request to be served, and with what answer.
  pub record Served (s : Session) (m : RpcMessage) (answer : List ℕ) : Type 0 where
    pub services : List (List ℕ × Service)
    pub service : Service
    pub method : ℕ
    pub has_services : s.services ≡ some services
    pub has_service : find_service m.service services ≡ some service
    pub has_method : service.find_method m.method ≡ some method
    pub has_request : service.parses method m.request ≡ true
    pub has_answer : service.call method m.request ≡ some answer

  on_request-Served :
      (s : Session) (m : RpcMessage) (answer : List ℕ)
      → Served s m answer
      → on_request m s
        ≡ (done_callback answer (m.id % 2 ^ 32) s >>= λ s'. ok (ErrorCode.no_error, s'))
  unfolding on_request
  on_request-Served s m answer v =
      rw (v.has_services, v.has_service, v.has_method, v.has_request, v.has_answer, call_service)

  -- A request that is served with an answer that is not empty is answered by one message, a response
  -- that carries the answer and no error, and nothing else happens.
  pub on_rpc_callback-Served :
      (s : Session) (m : RpcMessage) (answer : List ℕ)
      → m.type ≡ MessageType.request
      → Served s m answer
      → answer ≢ []
      → IsReady s
      → Fits (response_to m answer)
      → (s' : Session) × (on_rpc_callback (some m) CodecError.no_error s ≡ ok s')
        × Wrote (response_to m answer) s s'
  unfolding on_rpc_callback reply done_callback
  on_rpc_callback-Served s m [] t v ne ready fits = absurd (ne refl)
  on_rpc_callback-Served s m (x ∷ xs) t v ne ready fits =
      let (s', e, wrote) = send_lem (response_to m (x ∷ xs)) s ready fits in
      (s', ap (λ k. dispatch k m s) t ∙ rw (on_request-Served s m (x ∷ xs) v) (rw e), wrote)

  -- A service whose answer is serialised as no bytes at all, as proto3 does with a message whose
  -- fields are all zero, has its caller told that the request is invalid.
  pub on_rpc_callback-Served_nil :
      (s : Session) (m : RpcMessage)
      → m.type ≡ MessageType.request
      → Served s m []
      → IsReady s
      → Fits (record (response_to m []) { error = ErrorCode.invalid_request })
      → (s' : Session) × (on_rpc_callback (some m) CodecError.no_error s ≡ ok s')
        × Wrote (record (response_to m []) { error = ErrorCode.invalid_request }) s s'
  unfolding on_rpc_callback reply done_callback
  on_rpc_callback-Served_nil s m t v ready fits =
      let (s', e, wrote) =
        send_lem (record (response_to m []) { error = ErrorCode.invalid_request }) s ready fits in
      (s', ap (λ k. dispatch k m s) t ∙ rw (on_request-Served s m [] v) (rw e), wrote)
