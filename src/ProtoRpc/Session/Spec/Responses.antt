-- ===== src/ProtoRpc/Session/Spec/Responses.antt =====
-- What a response changes of what is seen of a session, and what it leaves.
use boost_practice.Base.{
  ℕ, ◌%◌, ◌^◌, ◌≡◌, refl, sym, ap, ◌∙◌, List, [], ◌++◌, append-nil, Option, none, some,
}
use boost_practice.Buffer.{BufferApi}
use boost_practice.Pending.{erase_call, find_call}
use boost_practice.ProtoRpc.Message.{ErrorCode, RpcMessage, RpcLibrary}
use boost_practice.ProtoRpc.Session.{Waiting, Session, fill_response, complete, settle, on_response}
use boost_practice.ProtoRpc.Session.Spec.{settled, finished}

module _ ⦃api : BufferApi⦄ ⦃lib : RpcLibrary⦄ where
  -- What a response changes, and what it leaves.
  pub record Settles (error : ErrorCode) (bytes : List ℕ) (o : Option Waiting) (s s' : Session)
      : Type 0 where
    pub parsed : s'.parsed ≡ s.parsed ++ settled error bytes o
    pub ran : s'.ran ≡ s.ran ++ finished error o
    pub codec : s'.codec ≡ s.codec
    pub services : s'.services ≡ s.services
    pub id : s'.id ≡ s.id
    pub deferred : s'.deferred ≡ s.deferred

  -- Nothing is filled in and no closure runs.
  unmoved :
      (error : ErrorCode) (bytes : List ℕ) (o : Option Waiting) (calls : List (ℕ × Waiting))
      (s : Session)
      → settled error bytes o ≡ []
      → finished error o ≡ []
      → Settles error bytes o s (record s { req_callbacks = calls })
  unmoved error bytes o calls s a b = record {
    parsed = sym (ap (λ x. s.parsed ++ x) a ∙ append-nil s.parsed);
    ran = sym (ap (λ x. s.ran ++ x) b ∙ append-nil s.ran);
    codec = refl;
    services = refl;
    id = refl;
    deferred = refl;
  }

  fill_response-Settles :
      (m : RpcMessage) (code : ErrorCode) (object : ℕ) (closure : Option ℕ)
      (calls : List (ℕ × Waiting)) (s : Session)
      → Settles code m.response
          (some (record { response = some object; done = closure }))
          s
          (fill_response code m object closure (record s { req_callbacks = calls }))
  fill_response-Settles m ErrorCode.no_error object (some closure) calls s = record {
    parsed = refl;
    ran = refl;
    codec = refl;
    services = refl;
    id = refl;
    deferred = refl;
  }
  fill_response-Settles m ErrorCode.no_error object none calls s = record {
    parsed = refl;
    ran = sym (append-nil s.ran);
    codec = refl;
    services = refl;
    id = refl;
    deferred = refl;
  }
  fill_response-Settles m ErrorCode.no_service object closure calls s =
      unmoved _ _ _ calls s refl refl
  fill_response-Settles m ErrorCode.no_method object closure calls s =
      unmoved _ _ _ calls s refl refl
  fill_response-Settles m ErrorCode.invalid_request object closure calls s =
      unmoved _ _ _ calls s refl refl
  fill_response-Settles m ErrorCode.invalid_checksum object closure calls s =
      unmoved _ _ _ calls s refl refl

  complete-Settles :
      (m : RpcMessage) (object closure : Option ℕ) (calls : List (ℕ × Waiting)) (s : Session)
      → Settles m.error m.response
          (some (record { response = object; done = closure }))
          s
          (complete m object closure (record s { req_callbacks = calls }))
  complete-Settles m none closure calls s = unmoved _ _ _ calls s refl refl
  complete-Settles m (some object) closure calls s =
      fill_response-Settles m m.error object closure calls s

  settle-Settles :
      (m : RpcMessage) (o : Option Waiting) (s : Session)
      → Settles m.error m.response o s (settle m o s)
  settle-Settles m none s = unmoved m.error m.response none s.req_callbacks s refl refl
  settle-Settles m (some w) s =
      complete-Settles m w.response w.done (erase_call (m.id % 2 ^ 32) s.req_callbacks) s

  pub on_response-Settles :
      (m : RpcMessage) (s : Session)
      → Settles m.error m.response (find_call (m.id % 2 ^ 32) s.req_callbacks) s (on_response m s)
  unfolding on_response
  on_response-Settles m s = settle-Settles m (find_call (m.id % 2 ^ 32) s.req_callbacks) s
