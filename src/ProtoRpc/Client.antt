-- ===== src/ProtoRpc/Client.antt =====
-- proto_rpc/lib/rpc_client.hpp, built with USE_SSL: a client with one connection, a timer of two
-- seconds for it to come about, its handshake, and the events that they bring.
pub mod Connection
use boost_practice.Base.{
  ℕ, ◌+◌, Bool, true, false, List, Option, none, some, Run, ok, fault, ◌==◌, if◌then◌else◌, ◌>>=◌,
}
use boost_practice.Buffer.{BufferApi}
use boost_practice.ProtoRpc.Session.{Session, rpc_session}
use boost_practice.ProtoRpc.Session as Sessions
use boost_practice.ProtoRpc.Session.Start as Start

module _ ⦃api : BufferApi⦄ where
  -- `session` is `session_`, named by its address, or null. The counts are those of the calls of
  -- `async_connect`, of setting and cancelling the timer, of `connectionCb_` and of the context's
  -- `stop`.
  pub record Client : Type 0 where
    pub session : Option (ℕ × Session)
    pub connects : ℕ
    pub timers : ℕ
    pub cancels : ℕ
    pub connections : ℕ
    pub stops : ℕ

  unfoldable pub rpc_client : Client
  rpc_client = record {
    session = none;
    connects = 0;
    timers = 0;
    cancels = 0;
    connections = 0;
    stops = 0;
  }

  unfoldable pub connect : Client → Client
  connect c = record c { connects = c.connects + 1; timers = c.timers + 1 }

  abbrev stop : Client → Client
  stop c = record c { stops = c.stops + 1 }

  -- The timer's callback, by whether it has an error.
  unfoldable pub on_timer : Bool → Client → Client
  on_timer false c = stop c
  on_timer true c = c

  -- `self` is the address of the new session.
  unfoldable pub on_connect : Bool → ℕ → Client → Client
  on_connect true self c = record c { cancels = c.cancels + 1 }
  on_connect false self c = record c {
    cancels = c.cancels + 1;
    session = some (self, Start.run false rpc_session);
  }

  -- The `sslComplete` of the session: `connectionCb_`, which gets the stub for the session, is
  -- called if the handshake has succeeded.
  unfoldable pub on_ssl_complete : (Session → Run Session) → Bool → ℕ × Session → Run (ℕ × Session)
  on_ssl_complete connection_cb true (connections, s) = do
    s' ← connection_cb s
    ok (connections + 1, s')
  on_ssl_complete connection_cb false x = ok x

  -- The handshake of the client's session ends, which there is none of before the connection.
  abbrev pub shake_session :
      (Session → Run Session) → Bool → ℕ → Option (ℕ × Session) → Run (ℕ × Option (ℕ × Session))
  shake_session connection_cb ec connections none = fault
  shake_session connection_cb ec connections (some (id, s)) = do
    (n, s') ← Start.on_handshake (some (on_ssl_complete connection_cb)) ec (connections, s)
    ok (n, some (id, s'))

  unfoldable pub on_handshake : (Session → Run Session) → Bool → Client → Run Client
  on_handshake connection_cb ec c = do
    (n, session) ← shake_session connection_cb ec c.connections c.session
    ok (record c { connections = n; session = session })

  abbrev pub is_own : Option (ℕ × Session) → ℕ → Bool
  is_own none self = false
  is_own (some (id, s)) self = id == self

  unfoldable pub on_session_over : ℕ → Client → Client
  on_session_over self c = if is_own c.session self then stop c else c

  abbrev pub disconnect_session : Option (ℕ × Session) → Run (Option (ℕ × Session))
  disconnect_session none = fault
  disconnect_session (some (id, s)) = ok (some (id, Sessions.disconnect s))

  -- A call through a null pointer before the connection has come about.
  unfoldable pub disconnect : Client → Run Client
  disconnect c = do session ← disconnect_session c.session; ok (record c { session = session })
