-- ===== src/ProtoRpc/Session/Total.antt =====
-- The session whatever its peer sends: it returns or faults, so the loop over its bytes ends, on
-- whole messages and half ones, with any checksum and any length before them.
use boost_practice.Base.{
  IsDecided, decided_rules, ℕ, inl, inr, Bool, true, false, List, [], ◌∷◌, Option, none, some,
  Option-cases,
}
use boost_practice.Buffer.{BufferApi}
use boost_practice.ProtoRpc.Message.{MessageType, ErrorCode, RpcMessage, RpcLibrary}
use boost_practice.ProtoRpc.Codec.{CodecError, Reader}
use boost_practice.ProtoRpc.Codec.Total.{send_rpc_msg-IsDecided, on_read-IsDecided}
use boost_practice.ProtoRpc.Session.{
  Service, Session, done_callback, call_service, call_found, serve_by, serve_from, on_request,
  reply, dispatch, on_rpc_callback, on_read,
}

module _ ⦃api : BufferApi⦄ ⦃lib : RpcLibrary⦄ where
  ruleset session_rules = (decided_rules, send_rpc_msg-IsDecided)

  done_callback-IsDecided :
      (answer : List ℕ) (id : ℕ) (s : Session) → IsDecided (done_callback answer id s)
  unfolding done_callback
  done_callback-IsDecided [] id s = search session_rules
  done_callback-IsDecided (x ∷ xs) id s = search session_rules

  call_service-IsDecided :
      (service : Service) (method : ℕ) (m : RpcMessage) (s : Session)
      → IsDecided (call_service service method m s)
  call_service-IsDecided service method m s = elim (Option-cases (service.call method m.request)) [
    | inl later ↦ rw (later, call_service) (search session_rules)
    | inr (answer, now) ↦ rw (now, call_service) (search done_callback-IsDecided)
  ]

  call_found-IsDecided :
      (service : Service) (method : Option ℕ) (m : RpcMessage) (s : Session)
      → IsDecided (call_found service method m s)
  call_found-IsDecided service none m s = search session_rules
  call_found-IsDecided service (some method) m s = search (session_rules, call_service-IsDecided)

  serve_by-IsDecided :
      (service : Option Service) (m : RpcMessage) (s : Session) → IsDecided (serve_by service m s)
  serve_by-IsDecided none m s = search session_rules
  serve_by-IsDecided (some service) m s = search call_found-IsDecided

  serve_from-IsDecided :
      (services : Option (List (List ℕ × Service))) (m : RpcMessage) (s : Session)
      → IsDecided (serve_from services m s)
  serve_from-IsDecided none m s = search session_rules
  serve_from-IsDecided (some services) m s = search serve_by-IsDecided

  on_request-IsDecided : (m : RpcMessage) (s : Session) → IsDecided (on_request m s)
  unfolding on_request
  on_request-IsDecided m s = search serve_from-IsDecided

  reply-IsDecided :
      (code : ErrorCode) (m : Option RpcMessage) (s : Session) → IsDecided (reply code m s)
  unfolding reply
  reply-IsDecided code none s = elim code as (λ k. IsDecided (reply k none s)) [
    | ErrorCode.no_error ↦ search session_rules
    | _ ↦ search session_rules
  ]
  reply-IsDecided code (some m) s = elim code as (λ k. IsDecided (reply k (some m) s)) [
    | ErrorCode.no_error ↦ search session_rules
    | _ ↦ search session_rules
  ]

  dispatch-IsDecided :
      (type : MessageType) (m : RpcMessage) (s : Session) → IsDecided (dispatch type m s)
  dispatch-IsDecided MessageType.request m s =
      search (session_rules, on_request-IsDecided, reply-IsDecided)
  dispatch-IsDecided MessageType.response m s = search reply-IsDecided
  dispatch-IsDecided MessageType.error m s = search reply-IsDecided

  on_rpc_callback-IsDecided :
      (m : Option RpcMessage) (e : CodecError) (s : Session) → IsDecided (on_rpc_callback m e s)
  unfolding on_rpc_callback
  on_rpc_callback-IsDecided m CodecError.checksum_error s = search reply-IsDecided
  on_rpc_callback-IsDecided none CodecError.no_error s = search session_rules
  on_rpc_callback-IsDecided (some m) CodecError.no_error s = search dispatch-IsDecided

  -- A completed read, successful or not, with any bytes and in any state, returns or faults: the
  -- fuel of the loop over the frames, one more than the bytes at hand, never runs out.
  pub on_read_total :
      (ec : Bool) (bytes : ℕ) (read_buffer : List ℕ) (r : Reader Session)
      → IsDecided (on_read ec bytes read_buffer r)
  unfolding on_read
  on_read_total true bytes read_buffer r = search session_rules
  on_read_total false bytes read_buffer r =
      search (session_rules, on_read-IsDecided, on_rpc_callback-IsDecided)
