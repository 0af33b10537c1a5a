-- ===== src/ProtoRpc/Session/Spec/Refines.antt =====
-- A session keeps its promise, over any sequence of calls, responses and requests.
use boost_practice.Base.{
  ℕ, suc, ◌+◌, ◌^◌, ◌≤◌, ◌<◌, ◌≡◌, refl, sym, ap, ◌∙◌, subst, List, [], ◌∷◌, ◌++◌, map, length,
  Option, ok, arith,
}
use mathlib.Core.List.{map-append}
use boost_practice.Buffer.{BufferApi}
use boost_practice.Pending.{find_call}
use boost_practice.Pending.Laws.{Below}
use boost_practice.ProtoRpc.Message.{ErrorCode, RpcMessage, RpcLibrary}
use boost_practice.ProtoRpc.Codec.Slots.{AllReady, encode}
use boost_practice.ProtoRpc.Session.{Codec, Waiting, Session, on_response, on_rpc_callback, reply}
use boost_practice.ProtoRpc.Session.Requests.{IsReady, Fits, Wrote}
use boost_practice.ProtoRpc.Session.Calls.{entered, CallsBelow, call_method_lem}
use boost_practice.ProtoRpc.Session.Responses.{on_response-waiting}
use boost_practice.ProtoRpc.Session.Spec.{
  Event, called, answered, asked, Promise, Reply, replied, kept, reply_to, call_message,
  answer_message, request_message, give, promise, promises, perform, perform_all, view,
}
use boost_practice.ProtoRpc.Session.Spec.Responses.{on_response-Settles}
use boost_practice.ProtoRpc.Session.Spec.Replies.{ReplyFits, Gave, on_rpc_callback_gives}

Promise-eq :
    (p q : Promise)
    → p.services ≡ q.services
    → p.next ≡ q.next
    → ((id : ℕ) → p.calls id ≡ q.calls id)
    → p.parsed ≡ q.parsed
    → p.ran ≡ q.ran
    → p.deferred ≡ q.deferred
    → p.sent ≡ q.sent
    → p ≡ q
Promise-eq p q a b c d e f g = λ i. record {
  services = a i;
  next = b i;
  calls = λ id. c id i;
  parsed = d i;
  ran = e i;
  deferred = f i;
  sent = g i;
}

module _ ⦃api : BufferApi⦄ ⦃lib : RpcLibrary⦄ where
  -- One operation has the outcome that the specification says.
  abbrev Performs : Event → Session → Type 0
  Performs e s =
      (s' : Session) × (perform e s ≡ ok s')
      × (view s' ≡ promise e (view s))
      × IsReady s'
      × CallsBelow s'
      × (s'.id ≤ suc s.id)

  sent_more :
      (m : RpcMessage) (s s' : Session)
      → Wrote m s s'
      → (view s').sent ≡ (view s).sent ++ encode m ∷ []
  sent_more m s s' wrote =
      ap (map (λ (w : ℕ × List ℕ). w.1)) wrote.written
      ∙ map-append (λ (w : ℕ × List ℕ). w.1) s.codec.writes ((wrote.slot, encode m) ∷ [])

  answered-Performs :
      (id : ℕ) (error : ErrorCode) (bytes : List ℕ) (s : Session)
      → IsReady s
      → CallsBelow s
      → Performs (answered id error bytes) s
  unfolding on_rpc_callback reply
  answered-Performs id error bytes s ready below =
      let m = answer_message id error bytes in
      let t = on_response m s in
      let settles = on_response-Settles m s in
      let (below', finds) = on_response-waiting s m below in
      (
        t,
        refl,
        Promise-eq (view t) (promise (answered id error bytes) (view s)) settles.services settles.id
            finds settles.parsed settles.ran settles.deferred
            (ap (λ (c : Codec). map (λ (w : ℕ × List ℕ). w.1) c.writes) settles.codec),
        subst (λ (c : Codec). AllReady c.output_buffers) (sym settles.codec) ready,
        subst (λ n. Below n t.req_callbacks) (sym settles.id) below',
        omega (arith, settles.id),
      )

  called-Performs :
      (service method request : List ℕ) (object closure : Option ℕ) (s : Session)
      → IsReady s
      → CallsBelow s
      → s.id + 1 < 2 ^ 32
      → Fits (call_message s.id service method request)
      → Performs (called service method request object closure) s
  called-Performs service method request object closure s ready below room fits =
      let w : Waiting = record { response = object; done = closure } in
      let (s', e, wrote, _, finds, below', next) =
        call_method_lem s service method request object closure ready below room fits in
      let same = wrote.others in
      (
        s',
        e,
        Promise-eq (view s') (promise (called service method request object closure) (view s))
            (ap (λ (t : Session). t.services) same) next finds (ap (λ (t : Session). t.parsed) same)
            (ap (λ (t : Session). t.ran) same) (ap (λ (t : Session). t.deferred) same)
            (sent_more (call_message s.id service method request) (entered s w) s' wrote),
        wrote.ready,
        below',
        omega (arith, next),
      )

  Gave-Performs :
      (r : Reply) (s s' : Session)
      → Gave r s s'
      → IsReady s
      → CallsBelow s
      → (view s' ≡ give r (view s)) × IsReady s' × CallsBelow s' × (s'.id ≤ suc s.id)
  Gave-Performs (replied m) s s' wrote ready below =
      let same = wrote.others in
      let id : s'.id ≡ s.id = ap (λ (t : Session). t.id) same in
      let calls : s'.req_callbacks ≡ s.req_callbacks = ap (λ (t : Session). t.req_callbacks) same in
      (
        Promise-eq (view s') (give (replied m) (view s)) (ap (λ (t : Session). t.services) same) id
            (λ k. ap (find_call k) calls) (ap (λ (t : Session). t.parsed) same)
            (ap (λ (t : Session). t.ran) same) (ap (λ (t : Session). t.deferred) same)
            (sent_more m s s' wrote),
        wrote.ready,
        rw (id, calls) below,
        omega (arith, id),
      )
  Gave-Performs (kept k) s s' same ready below =
      let given : Session = record s { deferred = s.deferred ++ k ∷ [] } in
      subst
        (λ (t : Session).
          (view t ≡ give (kept k) (view s)) × IsReady t × CallsBelow t × (t.id ≤ suc s.id))
        (sym same) (refl, ready, below, omega arith)

  asked-Performs :
      (id : ℕ) (service method request : List ℕ) (s : Session)
      → IsReady s
      → CallsBelow s
      → ReplyFits (reply_to (request_message id service method request) s.services)
      → Performs (asked id service method request) s
  asked-Performs id service method request s ready below fits =
      let m = request_message id service method request in
      let (s', e, gave) = on_rpc_callback_gives m s refl ready fits in
      let (seen, ready', below', next) =
        Gave-Performs (reply_to m s.services) s s' gave ready below in
      (s', e, seen, ready', below', next)

  -- What is sent fits the length field.
  abbrev pub EventFits : Event → Promise → Type 0
  EventFits (called service method request object closure) p =
      Fits (call_message p.next service method request)
  EventFits (answered id error bytes) p = Unit {0}
  EventFits (asked id service method request) p =
      ReplyFits (reply_to (request_message id service method request) p.services)

  abbrev pub AllFit : List Event → Promise → Type 0
  AllFit [] p = Unit {0}
  AllFit (e ∷ es) p = EventFits e p × AllFit es (promise e p)

  perform-Performs :
      (e : Event) (s : Session)
      → IsReady s
      → CallsBelow s
      → s.id + 1 < 2 ^ 32
      → EventFits e (view s)
      → Performs e s
  perform-Performs (called service method request object closure) s ready below room fits =
      called-Performs service method request object closure s ready below room fits
  perform-Performs (answered id error bytes) s ready below room fits =
      answered-Performs id error bytes s ready below
  perform-Performs (asked id service method request) s ready below room fits =
      asked-Performs id service method request s ready below fits

  -- Any sequence of calls, responses, right, wrong, late or stray, and requests, known or not, is
  -- performed without a fault and leaves what the specification says, from a session whose free
  -- output buffers are ready and whose waiting calls lie below the counter, as long as what is sent
  -- fits the length field and the counter does not come round.
  pub perform_refines :
      (es : List Event) (s : Session)
      → IsReady s
      → CallsBelow s
      → s.id + length es < 2 ^ 32
      → AllFit es (view s)
      → (s' : Session) × (perform_all es s ≡ ok s') × (view s' ≡ promises es (view s))
  perform_refines [] s ready below room fits = (s, refl, refl)
  perform_refines (e ∷ es) s ready below room fits =
      let (t, done, seen, ready', below', next) =
        perform-Performs e s ready below (omega (arith, room)) fits.0 in
      let (s', rest, seen') =
        perform_refines es t ready' below' (omega (arith, room, next))
          (subst (AllFit es) (sym seen) fits.1) in
      (s', rw (done, rest) refl, seen' ∙ ap (promises es) seen)
