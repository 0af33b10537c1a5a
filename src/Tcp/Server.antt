-- ===== src/Tcp/Server.antt =====
-- asio_practice_1/tcp_server_1/boost_server_async.hpp and .cpp: the chat server. A session is named
-- by its address, and `sessions` is the vector of the sessions that are held.
pub mod Relay
pub mod Burst
pub mod Sessions
pub mod Ends
pub mod Life
pub mod Total
use boost_practice.Base.{
  ℕ, suc, ◌+◌, Bool, true, false, List, [], ◌∷◌, ◌++◌, length, drop, Option, none, some, Run, ok,
  fault, ◌>>=◌, for_each, ltb, ◌==◌, if◌then◌else◌,
}
use boost_practice.Buffer.{BufferApi}
use boost_practice.Acceptor.{Setup, set_up}
use boost_practice.Tcp.Session.{Session, session, run, on_read, on_write, send_message}

module _ ⦃api : BufferApi⦄ where
  pub record Server : Type 0 where
    pub sessions : List (ℕ × Session)
    pub accepts : ℕ
    pub setup : List Setup
    pub reported : Option Setup

  unfoldable pub boost_server : (Setup → Bool) → Server
  boost_server fails = record {
    sessions = [];
    accepts = 0;
    setup = (set_up fails).0;
    reported = (set_up fails).1;
  }

  -- `async_accept`.
  unfoldable pub start : Server → Server
  start v = record v { accepts = v.accepts + 1 }

  -- `self` is the address of the new session.
  unfoldable pub on_accept : Bool → ℕ → Server → Server
  on_accept true self v = v
  on_accept false self v =
      start (record v { sessions = v.sessions ++ (self, run (session true true)) ∷ [] })

  -- `std::find` and `erase`: the first session with the address.
  unfoldable pub erase_session : ℕ → List (ℕ × Session) → List (ℕ × Session)
  erase_session self [] = []
  erase_session self ((id, s) ∷ rest) =
      if id == self then rest else (id, s) ∷ erase_session self rest

  unfoldable pub on_session_disconnect : ℕ → Server → Server
  on_session_disconnect self v = record v { sessions = erase_session self v.sessions }

  -- The loop of `on_session_message`.
  unfoldable pub broadcast : List ℕ → ℕ → List (ℕ × Session) → Run (List (ℕ × Session))
  broadcast message self [] = ok []
  broadcast message self ((id, s) ∷ rest) = do
    s' ← if id == self then ok s else send_message message s
    rest' ← broadcast message self rest
    ok ((id, s') ∷ rest')

  unfoldable pub on_session_message : List ℕ → ℕ → Server → Run Server
  on_session_message message self v = do
    sessions ← broadcast message self v.sessions
    ok (record v { sessions = sessions })

  unfoldable pub find_session : ℕ → List (ℕ × Session) → Option Session
  find_session self [] = none
  find_session self ((id, s) ∷ rest) = if id == self then some s else find_session self rest

  unfoldable pub put_session : ℕ → Session → List (ℕ × Session) → List (ℕ × Session)
  put_session self t [] = []
  put_session self t ((id, s) ∷ rest) =
      if id == self then (id, t) ∷ rest else (id, s) ∷ put_session self t rest

  -- One `on_read` of the session `self` and the callbacks that it makes: `on_session_message` for
  -- each message that it delivers, and `on_session_disconnect` on an error. The callbacks touch
  -- only the other sessions, so that they can stand behind the read.
  unfoldable pub relay : ℕ → Session → Session → Server → Run Server
  relay self s s' v = do
    w ←
        for_each (λ m t. on_session_message m self t)
          (record v { sessions = put_session self s' v.sessions })
          (drop (length s.messages) s'.messages)
    ok (if ltb s.disconnects s'.disconnects then on_session_disconnect self w else w)

  -- `none` is a callback that reaches a session which is no longer held, so destroyed.
  unfoldable pub serve : ℕ → Bool → ℕ → List ℕ → Server → Run Server
  serve self ec bytes read_buffer v = elim (find_session self v.sessions) [
    | none ↦ fault
    | some s ↦ on_read ec bytes read_buffer s >>= λ s'. relay self s s' v
  ]

  -- One `on_write` of the session `self` and the callback that it makes on an error. A session that is
  -- no longer held lives on by the pointer in its handler, and its end erases nothing.
  unfoldable pub complete_write : ℕ → Bool → ℕ → Server → Run Server
  complete_write self ec bytes v = elim (find_session self v.sessions) [
    | none ↦ ok v
    | some s ↦ on_write ec bytes s >>= λ s'. relay self s s' v
  ]
