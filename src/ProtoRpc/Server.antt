-- ===== src/ProtoRpc/Server.antt =====
-- proto_rpc/lib/rpc_server.h and rpc_server.cpp, built with USE_SSL: the server of the RPC library.
-- A session is named by its address. A session is given a pointer to the server's own map of services,
-- which stands in the session as the map at that time; `dereference` is what it reaches later.
pub mod Services
pub mod Registry
pub mod Lifetime
pub mod Handshakes
use boost_practice.Base.{
  ℕ, suc, ◌+◌, ◌-◌, ◌^◌, Bool, true, false, List, [], ◌∷◌, ◌++◌, Option, none, some, Run, ok, ◌>>=◌,
  map, ltb, ◌==◌, if◌then◌else◌, same_text,
}
use boost_practice.Acceptor.{Setup, set_up}
use boost_practice.Buffer.{BufferApi}
use boost_practice.Threads.{spawn}
use boost_practice.ProtoRpc.Session.{Service, Session, rpc_session, set_services}
use boost_practice.ProtoRpc.Session.Start as Start

-- `services_[fullName] = service`.
unfoldable pub put_service : List ℕ → Service → List (List ℕ × Service) → List (List ℕ × Service)
put_service name service [] = (name, service) ∷ []
put_service name service ((key, s) ∷ rest) =
    if same_text key name then (key, service) ∷ rest else (key, s) ∷ put_service name service rest

module _ ⦃api : BufferApi⦄ where
  -- `threads`, `accepts`, `joined` and `stops` count the threads started, the calls of
  -- `async_accept`, the threads joined and the calls of the context's `stop`.
  pub record Server : Type 0 where
    pub thread_num : ℕ
    pub services : List (List ℕ × Service)
    pub sessions : List (ℕ × Session)
    pub threads : ℕ
    pub accepts : ℕ
    pub joined : ℕ
    pub stops : ℕ
    pub setup : List Setup
    pub reported : Option Setup

  unfoldable pub rpc_server : (Setup → Bool) → Server
  rpc_server fails = record {
    thread_num = 1;
    services = [];
    sessions = [];
    threads = 0;
    accepts = 0;
    joined = 0;
    stops = 0;
    setup = (set_up fails).0;
    reported = (set_up fails).1;
  }

  unfoldable pub set_thread_num : ℕ → Server → Server
  set_thread_num n v = record v { thread_num = n }

  unfoldable pub do_accept : Server → Server
  do_accept v = record v { accepts = v.accepts + 1 }

  -- What `run` does before the calling thread enters the event loop.
  unfoldable pub run : Server → Run Server
  run v =
      let w = do_accept v in
      let many = spawn (suc (v.thread_num - 1)) 0 (v.thread_num - 1) v.threads in
      if ltb 1 v.thread_num then (many >>= λ n. ok (record w { threads = n })) else ok w

  unfoldable pub stop : Server → Server
  stop v =
      let w = record v { stops = v.stops + 1 } in
      if ltb 1 v.thread_num then record w { joined = v.joined + v.threads } else w

  unfoldable pub register_service : List ℕ → Service → Server → Server
  register_service name service v = record v { services = put_service name service v.services }

  -- A session that is held, with what its pointer to the server's map of services reaches: the map as
  -- it is by now.
  unfoldable pub dereference : Server → Session → Session
  dereference v s = elim s.services [ none ↦ s | some _ ↦ set_services (some v.services) s ]

  -- `self` is the address of the new session.
  unfoldable pub on_accept : Bool → ℕ → Server → Server
  on_accept true self v = do_accept v
  on_accept false self v = do_accept (record v {
    sessions =
        v.sessions ++ (self, Start.run true (set_services (some v.services) rpc_session)) ∷ [];
  })

  -- The handshake of the session with this address ends; the server gives its sessions no
  -- `sslComplete`.
  abbrev pub shake_session : Bool → ℕ → List (ℕ × Session) → Run (List (ℕ × Session))
  shake_session ec self [] = ok []
  shake_session ec self ((id, s) ∷ rest) =
      if id == self
      then (Start.on_handshake {A = Unit {0}} none ec (tt, s) >>= λ (_, s'). ok ((id, s') ∷ rest))
      else (shake_session ec self rest >>= λ rest'. ok ((id, s) ∷ rest'))

  unfoldable pub on_handshake : Bool → ℕ → Server → Run Server
  on_handshake ec self v = do
    sessions ← shake_session ec self v.sessions
    ok (record v { sessions = sessions })

  abbrev pub erase_session : ℕ → List (ℕ × Session) → List (ℕ × Session)
  erase_session self [] = []
  erase_session self ((id, s) ∷ rest) =
      if id == self then rest else (id, s) ∷ erase_session self rest

  unfoldable pub on_session_over : ℕ → Server → Server
  on_session_over self v = record v { sessions = erase_session self v.sessions }
