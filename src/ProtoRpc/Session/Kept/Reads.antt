-- ===== src/ProtoRpc/Session/Kept/Reads.antt =====
-- proto_rpc/lib/rpc_session.cpp: what the operations of a session do to its reads and its end.
use boost_practice.Base.{
  ℕ, ◌+◌, ◌%◌, ◌^◌, ◌⊎◌, ◌≡◌, refl, ap, ◌∙◌, subst, Bool, true, false, List, Option, none, some, ok,
  first_returns, Bool-cases, inl, inr,
}
use boost_practice.Buffer.{BufferApi}
use boost_practice.ProtoRpc.Message.{MessageType, ErrorCode, RpcMessage, RpcLibrary}
use boost_practice.ProtoRpc.Codec.{CodecError, Reader}
use boost_practice.ProtoRpc.Codec as Codecs
use boost_practice.ProtoRpc.Codec.Keeps.{on_read_keeps}
use boost_practice.ProtoRpc.Session.{
  put_call, Session, shut_down, session_over, disconnect, on_request, on_response, dispatch,
  on_rpc_callback, call_method, on_read, do_read,
}
use boost_practice.ProtoRpc.Session.Kept.{
  Stays, Sends-Stays, on_request-Sends, reply-Sends, send-Sends, on_response-Stays,
}

module _ ⦃api : BufferApi⦄ ⦃lib : RpcLibrary⦄ where
  Stays-trans : (s t u : Session) → Stays s t → Stays t u → Stays s u
  Stays-trans s t u h k = (k.0 ∙ h.0, k.1 ∙ h.1, k.2 ∙ h.2)

  pub disconnect-Stays : (s : Session) → Stays s (disconnect s)
  unfolding disconnect
  disconnect-Stays s = elim (Bool-cases s.is_open) [
    | inl shut ↦ rw shut (refl, refl, refl)
    | inr closed ↦ rw closed (refl, refl, refl)
  ]

  dispatch-Stays :
      (type : MessageType) (m : RpcMessage) (s s' : Session)
      → dispatch type m s ≡ ok s'
      → Stays s s'
  dispatch-Stays MessageType.request m s s' e =
      let ((code, t), served, replied) = first_returns _ (on_request m s) e in
      Stays-trans s t s' (Sends-Stays s t (on_request-Sends m s t code served))
        (Sends-Stays t s' (reply-Sends code (some m) t s' replied))
  dispatch-Stays MessageType.response m s s' e =
      Stays-trans s (on_response m s) s' (on_response-Stays m s) (
        Sends-Stays (on_response m s) s'
          (reply-Sends ErrorCode.no_error (some m) (on_response m s) s' e))
  dispatch-Stays MessageType.error m s s' e =
      Sends-Stays s s' (reply-Sends ErrorCode.no_error (some m) s s' e)

  on_rpc_callback-Stays :
      (m : Option RpcMessage) (code : CodecError) (s s' : Session)
      → on_rpc_callback m code s ≡ ok s'
      → Stays s s'
  unfolding on_rpc_callback
  on_rpc_callback-Stays m CodecError.checksum_error s s' e =
      Sends-Stays s s' (reply-Sends ErrorCode.invalid_checksum m s s' e)
  on_rpc_callback-Stays none CodecError.no_error s s' e = absurd (cc e)
  on_rpc_callback-Stays (some m) CodecError.no_error s s' e = dispatch-Stays m.type m s s' e

  pub call_method-Stays :
      (service method request : List ℕ) (object closure : Option ℕ) (s s' : Session)
      → call_method service method request object closure s ≡ ok s'
      → Stays s s'
  unfolding call_method
  call_method-Stays service method request object closure s s' e =
      let t : Session = record s {
        id = (s.id + 1) % 2 ^ 32;
        req_callbacks =
            put_call s.id (record { response = object; done = closure }) s.req_callbacks;
      } in
      let k = Sends-Stays t s' (send-Sends _ t s' e) in (k.0, k.1, k.2)

  ended-Stays :
      (s : Session) → Stays (record s { overs = s.overs + 1 }) (session_over (shut_down s))
  ended-Stays s = elim (Bool-cases s.is_open) [
    | inl shut ↦ rw shut (refl, refl, refl)
    | inr closed ↦ rw closed (refl, refl, refl)
  ]

  -- A read that completes ends the session, or is followed by the next one.
  abbrev pub Completes : Session → Session → Type 0
  Completes s s' =
      (s'.cancels ≡ s.cancels + 1)
      × (((s'.reads ≡ s.reads) × (s'.overs ≡ s.overs + 1))
          ⊎ ((s'.reads ≡ s.reads + 1) × (s'.overs ≡ s.overs)))

  pub on_read-Completes :
      (ec : Bool) (bytes : ℕ) (read_buffer : List ℕ) (r r' : Reader Session)
      → on_read ec bytes read_buffer r ≡ ok r'
      → Completes r.owner r'.owner
  unfolding on_read do_read
  on_read-Completes true bytes read_buffer r r' e =
      let s = record (r.owner) { cancels = r.owner.cancels + 1 } in
      let same : record r { owner = session_over (shut_down s) } ≡ r' = cc e in
      let k = ended-Stays s in
      subst (λ (t : Reader Session). Completes r.owner t.owner) same (k.1, inl (k.0, k.2))
  on_read-Completes false bytes read_buffer r r' e =
      let s = record (r.owner) { cancels = r.owner.cancels + 1 } in
      let (t, looped, done) =
        first_returns _ (Codecs.on_read on_rpc_callback bytes read_buffer (record r { owner = s }))
          e in
      let same : record t { owner = do_read t.owner } ≡ r' = cc done in
      let k : Stays s t.owner =
        on_read_keeps on_rpc_callback (Stays s)
          (λ m code u u' called h. Stays-trans s u u' h (on_rpc_callback-Stays m code u u' called))
          bytes read_buffer (record r { owner = s }) t looped (refl, refl, refl) in
      subst (λ (u : Reader Session). Completes r.owner u.owner) same
        (k.1, inr (ap (λ n. n + 1) k.0, k.2))
