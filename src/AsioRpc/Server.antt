-- ===== src/AsioRpc/Server.antt =====
-- asio_rpc_practice/server/boost_async.hpp and boost_async.cpp: the server, whose sessions are named
-- by their addresses.
use boost_practice.Base.{
  ℕ, ◌+◌, ◌≡◌, ◌≢◌, ap, Bool, true, false, List, [], ◌∷◌, ◌++◌, Option, ◌==◌, if◌then◌else◌,
  Bool-cases, inl, inr, arith,
}
use boost_practice.Acceptor.{Setup, set_up}
use boost_practice.Buffer.{BufferApi}
use boost_practice.AsioRpc.Session.{Session, rpc_session}
use boost_practice.AsioRpc.Session as Sessions

module _ ⦃api : BufferApi⦄ where
  -- `accepts` and `shutdowns` count the calls of `async_accept` and of the socket's `shutdown`.
  pub record Server : Type 0 where
    pub sessions : List (ℕ × Session)
    pub accepts : ℕ
    pub shutdowns : ℕ
    pub setup : List Setup
    pub reported : Option Setup

  unfoldable pub boost_async : (Setup → Bool) → Server
  boost_async fails = record {
    sessions = [];
    accepts = 0;
    shutdowns = 0;
    setup = (set_up fails).0;
    reported = (set_up fails).1;
  }

  unfoldable pub do_accept : Server → Server
  do_accept v = record v { accepts = v.accepts + 1 }

  unfoldable pub run : Server → Server
  run v = do_accept v

  -- `self` is the address of the new session.
  unfoldable pub on_accept : Bool → ℕ → Server → Server
  on_accept true self v = record v { shutdowns = v.shutdowns + 1 }
  on_accept false self v =
      do_accept (record v { sessions = v.sessions ++ (self, Sessions.run (rpc_session true)) ∷ [] })

  unfoldable pub erase_session : ℕ → List (ℕ × Session) → List (ℕ × Session)
  erase_session self [] = []
  erase_session self ((id, s) ∷ rest) =
      if id == self then rest else (id, s) ∷ erase_session self rest

  unfoldable pub on_session_over : ℕ → Server → Server
  on_session_over self v = record v { sessions = erase_session self v.sessions }

  -- No session has the address.
  abbrev pub Absent : ℕ → List (ℕ × Session) → Type 0
  Absent self [] = Unit {0}
  Absent self ((id, s) ∷ rest) = (id ≢ self) × Absent self rest

  erase-push :
      (self : ℕ) (s : Session) (xs : List (ℕ × Session))
      → Absent self xs
      → erase_session self (xs ++ (self, s) ∷ []) ≡ xs
  unfolding erase_session
  erase-push self s [] a = ground arith
  erase-push self s ((id, t) ∷ rest) a = elim (Bool-cases (id == self)) [
    | inl hit ↦ absurd (a.0 (ground arith))
    | inr miss ↦ rw miss (ap (λ xs. (id, t) ∷ xs) (erase-push self s rest a.1))
  ]

  -- A connection at an address that no session has, and its end, leave the server with the sessions
  -- that it had before.
  pub on_session_over-on_accept :
      (self : ℕ) (v : Server)
      → Absent self v.sessions
      → (on_session_over self (on_accept false self v)).sessions ≡ v.sessions
  unfolding on_session_over on_accept do_accept
  on_session_over-on_accept self v a =
      erase-push self (Sessions.run (rpc_session true)) v.sessions a
