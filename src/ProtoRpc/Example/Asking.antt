-- ===== src/ProtoRpc/Example/Asking.antt =====
-- The example's client and server, over the bytes that each writes.
use boost_practice.Base.{
  IsAscii, ◌+◌, sym, first_returns, Run, true, ℕ, ◌^◌, ◌<◌, ◌≡◌, ◌≢◌, refl, ap, ◌∙◌, subst, false,
  List, [], ◌∷◌, length, All, some, ok, arith,
}
use boost_practice.Buffer.{BufferApi}
use boost_practice.ProtoRpc.Message.{ErrorCode, RpcMessage, RpcLibrary}
use boost_practice.ProtoRpc.Codec.{Reader, CodecError, rpc_codec}
use boost_practice.ProtoRpc.Codec.Slots.{encode, rpc_codec-AllReady}
use boost_practice.ProtoRpc.Session.{
  Service, Session, rpc_session, set_services, on_read, call_method, on_rpc_callback, on_response,
  do_read,
}
use boost_practice.ProtoRpc.Session as Sessions
use boost_practice.ProtoRpc.Session.Start as Start
use boost_practice.ProtoRpc.Session.Requests.{IsReady, Fits, Served, response_to}
use boost_practice.ProtoRpc.Session.Calls.{request_of}
use boost_practice.ProtoRpc.Session.RoundTrip.{call_round_trip}
use boost_practice.ProtoRpc.Server.{put_service}
use boost_practice.ProtoRpc.Example.{
  add, AddLibrary, service_name, method_name, test_service, set_result, answer, has_parsed,
  call_add, done_callback,
}
use boost_practice.ProtoRpc.Example.Sum.{add-lt}
use boost_practice.Pending.{erase_call, put_call}
use boost_practice.ProtoRpc.Client.{on_ssl_complete, Client, connect, on_connect, disconnect}
use boost_practice.ProtoRpc.Client as Clients
use boost_practice.ProtoRpc.Session.{Waiting}
use boost_practice.ProtoRpc.Session.Responses.{on_response_error}
use boost_practice.ProtoRpc.Session.Requests.{on_rpc_callback-Served_nil}
use boost_practice.ProtoRpc.Session.Calls.{call_method_lem}

module _ ⦃tests : AddLibrary⦄ ⦃api : BufferApi⦄ ⦃lib : RpcLibrary⦄ where
  open tests use {
    serialize_req, parse_req, serialize_res, parse_res, parse-serialize_req, parse-serialize_res,
    serialize_res-zero, serialize_res-nonzero,
  }
  open api use {create, readable, readable-create}

  -- The session of the client, and one of the server that `server_main` has set up, at the first
  -- read.
  abbrev pub asking : Session
  asking = do_read (Start.run false rpc_session)

  abbrev pub answering : Session
  answering =
      do_read (
        Start.run true (set_services (some (put_service service_name test_service [])) rpc_session))

  -- A client that has connected, with its new session at this address.
  abbrev pub online : ℕ → Client → Client
  online self c = on_connect false self (connect c)

  -- Its handshake succeeds, and the callback of the connection asks for the sum of these.
  abbrev pub shake : List ℕ → ℕ → ℕ → ℕ → Client → Run Client
  shake values response closure self c =
      Clients.on_handshake (λ s. call_add values response closure s) false (online self c)

  -- It has reported the connection once more, and has this session.
  abbrev pub reported : ℕ → Session → Client → Client
  reported self s c = record (online self c) {
    connections = c.connections + 1;
    session = some (self, s);
  }

  shake_lem :
      (values : List ℕ) (response closure self : ℕ) (c : Client) (s : Session)
      → call_add values response closure asking ≡ ok s
      → shake values response closure self c ≡ ok (reported self s c)
  unfolding call_add on_ssl_complete Clients.on_handshake Start.on_handshake Start.ssl_complete
      on_connect connect
  shake_lem values response closure self c s e =
      let both =
        Start.call_method-do_read service_name method_name (serialize_req values) (some response)
          (some closure) (Start.run false rpc_session) in
      let (t, called, done) =
        first_returns _ (call_add values response closure (Start.run false rpc_session))
          (sym both ∙ e) in
      let same : do_read t ≡ s = cc done in rw (called, same)

  abbrev pub asked : List ℕ → RpcMessage
  asked values = request_of asking service_name method_name (serialize_req values)

  -- The error that answers a sum of zero.
  abbrev pub refusal : List ℕ → RpcMessage
  refusal values = record (response_to (asked values) []) { error = ErrorCode.invalid_request }

  service_name-IsAscii : IsAscii service_name
  service_name-IsAscii = ground arith

  method_name-IsAscii : IsAscii method_name
  method_name-IsAscii = ground arith

  asking-IsReady : IsReady asking
  unfolding Start.run Start.do_handshake do_read rpc_session
  asking-IsReady = rpc_codec-AllReady

  answering-IsReady : IsReady answering
  unfolding Start.run Start.do_handshake do_read rpc_session set_services
  answering-IsReady = rpc_codec-AllReady

  served :
      (values : List ℕ) (sum : ℕ)
      → All (λ v. v < 2 ^ 32) values
      → add values ≡ ok sum
      → Served answering (asked values) (serialize_res sum)
  unfolding set_services Start.run Start.do_handshake do_read rpc_session put_service
  served values sum hs e = record {
    services = (service_name, test_service) ∷ [];
    service = test_service;
    method = 0;
    has_services = refl;
    has_service = refl;
    has_method = refl;
    has_request = ap has_parsed (parse-serialize_req values hs);
    has_answer = ap answer (parse-serialize_req values hs) ∙ ap set_result e;
  }

  -- A client that has connected, and whose handshake succeeds, asks a new session of the server to
  -- add numbers. If their sum is exact and not zero it is sent the sum, and its closure runs once,
  -- which prints the sum and disconnects; both messages have to fit the length field.
  pub call_add_lem :
      (values : List ℕ) (sum response closure self : ℕ) (c : Client)
      → All (λ v. v < 2 ^ 32) values
      → add values ≡ ok sum
      → sum ≢ 0
      → Fits (asked values)
      → Fits (response_to (asked values) (serialize_res sum))
      → let wire = encode (asked values) in
        let back = encode (response_to (asked values) (serialize_res sum)) in
        (s : Session) × (peer : Reader Session) × (r : Reader Session) × (i : ℕ) × (j : ℕ) × (shake
            values response closure self c
          ≡ ok (reported self s c))
        × (s.codec.writes ≡ (i, wire) ∷ [])
        × (on_read false (length wire) wire (record { input_buffer = create; owner = answering })
            ≡ ok peer)
        × (peer.owner.codec.writes ≡ (j, back) ∷ [])
        × (on_read false (length back) back (record { input_buffer = create; owner = s }) ≡ ok r)
        × (r.owner.parsed ≡ (response, serialize_res sum) ∷ [])
        × (r.owner.ran ≡ closure ∷ [])
        × (done_callback (serialize_res sum) (reported self r.owner c)
            ≡ ok (sum, reported self (Sessions.disconnect r.owner) c))
  unfolding call_add done_callback disconnect Start.run Start.do_handshake do_read rpc_session
      rpc_codec set_services
  call_add_lem values sum response closure self c hs e ne fits answer_fits =
      let (s, peer, r, i, j, called, wrote, read, answered, back, parsed, ran) =
        call_round_trip asking (record { input_buffer = create; owner = answering }) service_name
          method_name (serialize_req values) (serialize_res sum) response closure create
          asking-IsReady tt (omega arith) readable-create readable-create answering-IsReady
          (served values sum hs e) (serialize_res-nonzero sum ne) service_name-IsAscii
          method_name-IsAscii fits answer_fits in
      (
        s,
        peer,
        r,
        i,
        j,
        shake_lem values response closure self c s called,
        wrote,
        read,
        answered,
        back,
        parsed,
        ran,
        ap {B = Run (ℕ × Client)} (λ t. ok (t, reported self (Sessions.disconnect r.owner) c))
            (parse-serialize_res sum (add-lt values sum hs e)),
      )

  -- If such a client asks for a sum that is zero, which is serialised as no bytes, the server's
  -- only answer is an error, on which the client forgets the call: the response stays as it was and
  -- no closure runs. Both messages have to fit the length field.
  pub call_add_zero :
      (values : List ℕ) (response closure self : ℕ) (c : Client)
      → All (λ v. v < 2 ^ 32) values
      → add values ≡ ok 0
      → Fits (asked values)
      → Fits (refusal values)
      → (s s' : Session) × (i : ℕ) × (shake values response closure self c ≡ ok (reported self s c))
        × (on_rpc_callback (some (asked values)) CodecError.no_error answering ≡ ok s')
        × (s'.codec.writes ≡ (i, encode (refusal values)) ∷ [])
        × ((on_response (refusal values) s).req_callbacks ≡ [])
        × ((on_response (refusal values) s).parsed ≡ [])
        × ((on_response (refusal values) s).ran ≡ [])
  unfolding call_add Start.run Start.do_handshake do_read rpc_session set_services rpc_codec
      erase_call put_call
  call_add_zero values response closure self c hs e fits refusal_fits =
      let w : Waiting = record { response = some response; done = some closure } in
      let (s, called, wrote, _, waits, _, _) =
        call_method_lem asking service_name method_name (serialize_req values) (some response)
          (some closure) asking-IsReady tt (omega arith) fits in
      let (s', answered, sent) =
        on_rpc_callback-Served_nil answering (asked values) refl
          (subst (Served answering (asked values)) serialize_res-zero (served values 0 hs e))
          answering-IsReady refusal_fits in
      let dropped = on_response_error s (refusal values) w (λ b. cc b) (waits 0) in
      (
        s,
        s',
        sent.slot,
        shake_lem values response closure self c s called,
        answered,
        sent.written,
        ap (λ t. t.req_callbacks) dropped ∙ ap (λ t. erase_call 0 t.req_callbacks) wrote.others,
        ap (λ t. t.parsed) dropped ∙ ap (λ t. t.parsed) wrote.others,
        ap (λ t. t.ran) dropped ∙ ap (λ t. t.ran) wrote.others,
      )
