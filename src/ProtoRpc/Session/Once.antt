-- ===== src/ProtoRpc/Session/Once.antt =====
-- The operations of a session keep the invariant of its closures.
use boost_practice.Base.{
  ℕ, suc, ◌+◌, ◌%◌, ◌^◌, ◌<◌, ◌≡◌, refl, sym, subst, inl, inr, Bool, true, false, List, Option,
  none, some, ok, first_returns, Bool-cases, arith,
}
use boost_practice.Buffer.{BufferApi}
use boost_practice.Pending.{find_call, erase_call, put_call}
use boost_practice.ProtoRpc.Message.{MessageType, ErrorCode, RpcMessage, RpcLibrary}
use boost_practice.ProtoRpc.Codec.{CodecError, Reader, min_message_len, validate_checksum, on_frame}
use boost_practice.ProtoRpc.Codec.Keeps.{on_read_keeps}
use boost_practice.ProtoRpc.Codec as Codecs
use boost_practice.ProtoRpc.Session.{
  Waiting, shut_down, session_over, Session, on_request, on_response, dispatch, on_rpc_callback,
  call_method, on_read, do_read,
}
use boost_practice.ProtoRpc.Session.Responses.{on_response-req_callbacks}
use boost_practice.ProtoRpc.Session.Kept.{
  Keeps, Sends, Sends-Keeps, send-Sends, on_request-Sends, reply-Sends, waiting_closure,
  on_response-Runs,
}
use boost_practice.Pending.Once.{Once, erase-Once, run-Once, enter-Once, IsNew}

module _ ⦃api : BufferApi⦄ ⦃lib : RpcLibrary⦄ where
  -- The invariant, of a session.
  abbrev pub IsOnce : Session → Type 0
  IsOnce s = Once (λ w. w.done) s.id s.req_callbacks s.ran

  pub Keeps-IsOnce : (s s' : Session) → Keeps s s' → IsOnce s → IsOnce s'
  Keeps-IsOnce s s' k h =
      subst (λ n. Once (λ w. w.done) n s'.req_callbacks s'.ran) (sym k.0)
        (subst (λ x. Once (λ w. w.done) s.id x s'.ran) (sym k.1)
          (subst (λ x. Once (λ w. w.done) s.id s.req_callbacks x) (sym k.2) h))

  Sends-IsOnce : (s s' : Session) → Sends s s' → IsOnce s → IsOnce s'
  Sends-IsOnce s s' e h = Keeps-IsOnce s s' (Sends-Keeps s s' e) h

  waiting_call :
      (o : Option Waiting) (c : ℕ)
      → waiting_closure o ≡ some c
      → (w : Waiting) × (o ≡ some w) × (w.done ≡ some c)
  waiting_call none c e = absurd (cc e)
  waiting_call (some w) c e = (w, refl, e)

  on_response-IsOnce : (m : RpcMessage) (s : Session) → IsOnce s → IsOnce (on_response m s)
  on_response-IsOnce m s h =
      let k = m.id % 2 ^ 32 in
      let calls : (on_response m s).req_callbacks ≡ erase_call k s.req_callbacks =
        on_response-req_callbacks m s in
      let (same, ran) = on_response-Runs m s in
      subst (λ n. Once (λ w. w.done) n (on_response m s).req_callbacks (on_response m s).ran)
        (sym same)
        (subst (λ x. Once (λ w. w.done) s.id x (on_response m s).ran) (sym calls)
          (elim ran [
            | inl none_run ↦
                subst (λ x. Once (λ w. w.done) s.id (erase_call k s.req_callbacks) x) (sym none_run)
                  (erase-Once (λ w. w.done) s.id k s.req_callbacks s.ran h)
            | inr (c, closure, one_run) ↦
                let (w, e, d) = waiting_call (find_call k s.req_callbacks) c closure in
                subst (λ x. Once (λ w. w.done) s.id (erase_call k s.req_callbacks) x) (sym one_run)
                  (run-Once (λ w. w.done) s.id k s.req_callbacks s.ran w c e d h)
          ]))

  dispatch-IsOnce :
      (type : MessageType) (m : RpcMessage) (s s' : Session)
      → dispatch type m s ≡ ok s'
      → IsOnce s
      → IsOnce s'
  dispatch-IsOnce MessageType.request m s s' e h =
      let ((code, t), served, replied) = first_returns _ (on_request m s) e in
      Sends-IsOnce t s' (reply-Sends code (some m) t s' replied)
        (Sends-IsOnce s t (on_request-Sends m s t code served) h)
  dispatch-IsOnce MessageType.response m s s' e h =
      Sends-IsOnce (on_response m s) s'
        (reply-Sends ErrorCode.no_error (some m) (on_response m s) s' e) (on_response-IsOnce m s h)
  dispatch-IsOnce MessageType.error m s s' e h =
      Sends-IsOnce s s' (reply-Sends ErrorCode.no_error (some m) s s' e) h

  on_rpc_callback-IsOnce :
      (m : Option RpcMessage) (code : CodecError) (s s' : Session)
      → on_rpc_callback m code s ≡ ok s'
      → IsOnce s
      → IsOnce s'
  unfolding on_rpc_callback
  on_rpc_callback-IsOnce m CodecError.checksum_error s s' e h =
      Sends-IsOnce s s' (reply-Sends ErrorCode.invalid_checksum m s s' e) h
  on_rpc_callback-IsOnce none CodecError.no_error s s' e h = absurd (cc e)
  on_rpc_callback-IsOnce (some m) CodecError.no_error s s' e h = dispatch-IsOnce m.type m s s' e h

  pub shut_down-Keeps : (s t : Session) → Keeps s t → Keeps s (session_over (shut_down t))
  shut_down-Keeps s t k = elim (Bool-cases t.is_open) [
    | inl shut ↦ rw shut k
    | inr closed ↦ rw closed k
  ]

  pub on_read-IsOnce :
      (ec : Bool) (bytes : ℕ) (read_buffer : List ℕ) (r r' : Reader Session)
      → on_read ec bytes read_buffer r ≡ ok r'
      → IsOnce r.owner
      → IsOnce r'.owner
  unfolding on_read do_read
  on_read-IsOnce true bytes read_buffer r r' e h =
      let s = record (r.owner) { cancels = r.owner.cancels + 1 } in
      let same : record r { owner = session_over (shut_down s) } ≡ r' = cc e in
      subst (λ (t : Reader Session). IsOnce t.owner) same
        (Keeps-IsOnce r.owner (session_over (shut_down s))
          (shut_down-Keeps r.owner s (refl, refl, refl)) h)
  on_read-IsOnce false bytes read_buffer r r' e h =
      let s = record (r.owner) { cancels = r.owner.cancels + 1 } in
      let (t, looped, done) =
        first_returns _ (Codecs.on_read on_rpc_callback bytes read_buffer (record r { owner = s }))
          e in
      let same : record t { owner = do_read t.owner } ≡ r' = cc done in
      let kept : IsOnce t.owner =
        on_read_keeps on_rpc_callback IsOnce on_rpc_callback-IsOnce bytes read_buffer
          (record r { owner = s }) t looped h in
      subst (λ (u : Reader Session). IsOnce u.owner) same kept

  pub call_method-IsOnce :
      (service method request : List ℕ) (object : Option ℕ) (c : ℕ) (s s' : Session)
      → call_method service method request object (some c) s ≡ ok s'
      → s.id + 1 < 2 ^ 32
      → IsNew (λ w. w.done) c s.req_callbacks s.ran
      → IsOnce s
      → IsOnce s'
  unfolding call_method
  call_method-IsOnce service method request object c s s' e room new h =
      let w : Waiting = record { response = object; done = some c } in
      let t : Session = record s {
        id = (s.id + 1) % 2 ^ 32;
        req_callbacks = put_call s.id w s.req_callbacks;
      } in
      let next : suc s.id ≡ (s.id + 1) % 2 ^ 32 = omega arith in
      Sends-IsOnce t s' (send-Sends _ t s' e) (
        subst (λ n. Once (λ w. w.done) n (put_call s.id w s.req_callbacks) s.ran) next
          (enter-Once (λ w. w.done) s.id s.req_callbacks s.ran w c refl new h))
