-- ===== src/ProtoRpc/Session/RoundTrip.antt =====
-- A call from one session to another and back, over the bytes that each writes.
use boost_practice.Base.{
  IsAscii, ℕ, ◌+◌, ◌%◌, ◌^◌, ◌<◌, ◌≡◌, ◌≢◌, refl, sym, ap, ◌∙◌, false, List, [], ◌∷◌, ◌++◌, length,
  take, some, ok, arith, append-nil, take-length, ◌==◌, if◌then◌else◌,
}
use boost_practice.Buffer.{BufferApi}
use boost_practice.Frame.{to_size, size_total}
use boost_practice.Frame.Encode.{next_frame-nil}
use boost_practice.ProtoRpc.Message.{MessageType, ErrorCode, RpcMessage, RpcLibrary}
use boost_practice.ProtoRpc.Codec.{CodecError, Reader}
use boost_practice.ProtoRpc.Codec.Slots.{encode}
use boost_practice.ProtoRpc.Codec.Messages.{IsInRange, on_read_messages}
use boost_practice.ProtoRpc.Session.{
  Session, do_read, on_response, reply, on_rpc_callback, call_method, on_read, dispatch,
}
use boost_practice.Pending.{find_call}
use boost_practice.ProtoRpc.Session.Requests.{
  IsReady, Fits, Served, response_to, on_rpc_callback-Served,
}
use boost_practice.ProtoRpc.Session.Calls.{request_of, CallsBelow, call_method_lem}
use boost_practice.ProtoRpc.Session.Responses.{on_response_lem}

-- An identifier that comes back as it went out.
same_id_lem : (n : ℕ) → n < 2 ^ 31 → to_size (to_size n % 2 ^ 32) % 2 ^ 32 ≡ n
same_id_lem n h = ground arith

own {ℓ} : {A : Type ℓ} {a : A} (n : ℕ) (b : A) → (if n == n then a else b) ≡ a
own n b = ground arith

module _ ⦃api : BufferApi⦄ ⦃lib : RpcLibrary⦄ where
  open api use {readable}

  -- The session as `on_read` hands it to the codec.
  abbrev woken : Session → Session
  woken s = record s { cancels = s.cancels + 1 }

  -- A session that reads one whole message, from an empty input buffer.
  read_message :
      (r : Reader Session) (m : RpcMessage) (v : Session)
      → readable r.input_buffer ≡ []
      → IsInRange m
      → on_rpc_callback (some m) CodecError.no_error (woken r.owner) ≡ ok v
      → (r' : Reader Session) × (on_read false (length (encode m)) (encode m) r ≡ ok r')
        × (readable r'.input_buffer ≡ [])
        × (r'.owner ≡ do_read v)
  unfolding on_read
  read_message r m v empty range e =
      let wire = encode m in
      let sent : take (length wire) wire ≡ (wire ++ []) ++ [] =
        ap (take (length wire)) (sym (append-nil wire))
        ∙ take-length wire []
        ∙ sym (append-nil wire)
        ∙ sym (append-nil (wire ++ [])) in
      let (r', d, kept, same) =
        on_read_messages on_rpc_callback (record r { owner = woken r.owner }) (length wire) wire
          (omega arith) (m ∷ []) [] empty sent (range, tt)
          (next_frame-nil 8 size_total (omega arith)) (rw e) in
      (record r' { owner = do_read r'.owner }, rw d, kept, ap do_read same)

  on_rpc_callback-response :
      (s : Session) (m : RpcMessage)
      → m.type ≡ MessageType.response
      → on_rpc_callback (some m) CodecError.no_error s ≡ ok (on_response m s)
  unfolding on_rpc_callback reply
  on_rpc_callback-response s m t = ap (λ k. dispatch k m s) t

  -- The other end's answer, read by the session that waits for it.
  read_answer :
      (r : Reader Session) (m : RpcMessage) (object closure : ℕ)
      → readable r.input_buffer ≡ []
      → IsInRange m
      → m.type ≡ MessageType.response
      → m.error ≡ ErrorCode.no_error
      → find_call (m.id % 2 ^ 32) r.owner.req_callbacks
        ≡ some (record { response = some object; done = some closure })
      → (r' : Reader Session) × (on_read false (length (encode m)) (encode m) r ≡ ok r')
        × (r'.owner.parsed ≡ r.owner.parsed ++ (object, m.response) ∷ [])
        × (r'.owner.ran ≡ r.owner.ran ++ closure ∷ [])
        × (r'.owner.codec.writes ≡ r.owner.codec.writes)
  unfolding do_read
  read_answer r m object closure empty range t right e =
      let s = woken r.owner in
      let done = on_response_lem s m object closure right e in
      let (r', d, _, same) =
        read_message r m (on_response m s) empty range (on_rpc_callback-response s m t) in
      (
        r',
        d,
        ap (λ o. o.parsed) same ∙ ap (λ o. o.parsed) done,
        ap (λ o. o.ran) same ∙ ap (λ o. o.ran) done,
        ap (λ o. o.codec.writes) same ∙ ap (λ o. o.codec.writes) done,
      )

  -- A session that reads a request which it serves.
  read_request :
      (r : Reader Session) (m : RpcMessage) (answer : List ℕ)
      → readable r.input_buffer ≡ []
      → IsInRange m
      → m.type ≡ MessageType.request
      → Served r.owner m answer
      → answer ≢ []
      → IsReady r.owner
      → Fits (response_to m answer)
      → (r' : Reader Session) × (slot : ℕ) × (on_read false (length (encode m)) (encode m) r
          ≡ ok r')
        × (r'.owner.codec.writes
            ≡ r.owner.codec.writes ++ (slot, encode (response_to m answer)) ∷ [])
  unfolding do_read
  read_request r m answer empty range t v ne ready fits =
      let s = woken r.owner in
      let served : Served s m answer = record {
        services = v.services;
        service = v.service;
        method = v.method;
        has_services = v.has_services;
        has_service = v.has_service;
        has_method = v.has_method;
        has_request = v.has_request;
        has_answer = v.has_answer;
      } in
      let (s', e, wrote) = on_rpc_callback-Served s m answer t served ne ready fits in
      let (r', d, _, same) = read_message r m s' empty range e in
      (r', wrote.slot, d, ap (λ o. o.codec.writes) same ∙ wrote.written)

  -- A call with ASCII names that the other session serves, with an answer that is not empty, makes
  -- the round trip: what the caller writes, read by that session, makes it write a response, and
  -- this, read by the caller, fills the call's response object with the answer and runs the call's
  -- closure, once. Neither session has anything unread, their free output buffers are ready, both
  -- messages fit the length field, and the caller's counter is above its waiting calls and below
  -- 2^31 - 1.
  pub call_round_trip :
      (s : Session) (peer : Reader Session) (service method request answer : List ℕ)
      (object closure : ℕ) (unread : api.Buffer)
      → IsReady s
      → CallsBelow s
      → s.id + 1 < 2 ^ 31
      → readable peer.input_buffer ≡ []
      → readable unread ≡ []
      → IsReady peer.owner
      → Served peer.owner (request_of s service method request) answer
      → answer ≢ []
      → IsAscii service
      → IsAscii method
      → Fits (request_of s service method request)
      → Fits (response_to (request_of s service method request) answer)
      → let asked = encode (request_of s service method request) in
        let answered = encode (response_to (request_of s service method request) answer) in
        (s1 : Session) × (peer' : Reader Session) × (r : Reader Session) × (i : ℕ) × (j : ℕ)
        × (call_method service method request (some object) (some closure) s ≡ ok s1)
        × (s1.codec.writes ≡ s.codec.writes ++ (i, asked) ∷ [])
        × (on_read false (length asked) asked peer ≡ ok peer')
        × (peer'.owner.codec.writes ≡ peer.owner.codec.writes ++ (j, answered) ∷ [])
        × (on_read false (length answered) answered (record { input_buffer = unread; owner = s1 })
            ≡ ok r)
        × (r.owner.parsed ≡ s.parsed ++ (object, answer) ∷ [])
        × (r.owner.ran ≡ s.ran ++ closure ∷ [])
  call_round_trip s peer service method request answer object closure unread ready below room
        none_left no_bytes peer_ready served ne ascii_service ascii_method fits answer_fits =
      let m = request_of s service method request in
      let back = response_to m answer in
      let (s1, e1, wrote, _, waits, _, _) =
        call_method_lem s service method request (some object) (some closure) ready below
          (omega arith) fits in
      let small : to_size s.id ≡ s.id = ground arith in
      let (peer', j, e2, w2) =
        read_request peer m answer none_left (ground arith, ascii_service, ascii_method, fits) refl
          served ne peer_ready answer_fits in
      let same_id : back.id % 2 ^ 32 ≡ s.id = same_id_lem s.id (omega arith) in
      let waiting : find_call (back.id % 2 ^ 32) s1.req_callbacks
          ≡ some (record { response = some object; done = some closure }) =
        ap (λ k. find_call k s1.req_callbacks) same_id
        ∙ waits s.id
        ∙ own s.id (find_call s.id s.req_callbacks) in
      let (r, e3, got, ran, _) =
        read_answer (record { input_buffer = unread; owner = s1 }) back object closure no_bytes
          (ground arith, tt, tt, answer_fits) refl refl waiting in
      (
        s1,
        peer',
        r,
        wrote.slot,
        j,
        e1,
        wrote.written,
        e2,
        w2,
        e3,
        got ∙ ap (λ (o : Session). o.parsed ++ (object, answer) ∷ []) wrote.others,
        ran ∙ ap (λ (o : Session). o.ran ++ closure ∷ []) wrote.others,
      )
