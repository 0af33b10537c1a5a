-- ===== src/ProtoRpc/Session/Start.antt =====
-- proto_rpc/lib/rpc_session.cpp: how a session starts, by a handshake and then its first read.
use boost_practice.Base.{
  ◌≡◌, ℕ, ◌+◌, Bool, true, false, List, [], ◌∷◌, ◌++◌, Option, none, some, Run, ok, fault, spent,
  ◌>>=◌, ◌%◌, ◌^◌, ◌≡◌, refl,
}
use boost_practice.Buffer.{BufferApi}
use boost_practice.ProtoRpc.Session.{put_call, RpcLibrary, call_method, Codec, Session, do_read}

module _ ⦃api : BufferApi⦄ where
  -- `async_handshake`, as the server if `is_server`.
  unfoldable pub do_handshake : Bool → Session → Session
  do_handshake is_server s = record s { handshakes = s.handshakes ++ is_server ∷ [] }

  -- A client first sets the verify mode; its verify callback prints the certificate's subject and
  -- gives back what it is given.
  unfoldable pub run : Bool → Session → Session
  run true s = do_handshake true s
  run false s = do_handshake false (record s { verifies = true })

  -- `sslComplete_`, with what it changes of its owner and of the session, if there is one.
  unfoldable pub ssl_complete :
      {A : Type 0}
      → Option (Bool → A × Session → Run (A × Session))
      → Bool
      → A × Session
      → Run (A × Session)
  ssl_complete none succeed x = ok x
  ssl_complete (some callback) succeed x = callback succeed x

  -- The callback of `async_handshake`, by whether it has an error.
  unfoldable pub on_handshake :
      {A : Type 0}
      → Option (Bool → A × Session → Run (A × Session))
      → Bool
      → A × Session
      → Run (A × Session)
  on_handshake callback true x = ssl_complete callback false x
  on_handshake callback false x = do (a, s) ← ssl_complete callback true x; ok (a, do_read s)

  read_first :
      (send : Run Codec) (s : Session)
      → (send >>= λ c. ok (record (do_read s) { codec = c }))
        ≡ ((send >>= λ c. ok (record s { codec = c })) >>= λ s'. ok (do_read s'))
  unfolding do_read
  read_first (ok c) s = refl
  read_first fault s = refl
  read_first spent s = refl

  -- A call in the callback of the handshake leaves what the same call does after the first read.
  pub call_method-do_read :
      ⦃lib : RpcLibrary⦄ (service method request : List ℕ) (object closure : Option ℕ) (s : Session)
      → call_method service method request object closure (do_read s)
        ≡ (call_method service method request object closure s >>= λ s'. ok (do_read s'))
  unfolding call_method do_read
  call_method-do_read service method request object closure s = read_first _ (record s {
    id = (s.id + 1) % 2 ^ 32;
    req_callbacks = put_call s.id (record { response = object; done = closure }) s.req_callbacks;
  })
