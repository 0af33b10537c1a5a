-- ===== src/Examples/Promises.antt =====
-- A session of the RPC library from its handshake on, and against what it promises; the servers'
-- `main`s.
use boost_practice.Base.{
  fault, ◌==◌, leb, if◌then◌else◌, Bool, ◌≡◌, refl, true, false, List, [], ◌∷◌, none, some, ok,
  arith,
}
use boost_practice.Inputs.{list_buffer}
use boost_practice.Inputs.Library.{text_library}
use boost_practice.ProtoRpc.Message.{ErrorCode}
use boost_practice.ProtoRpc.Codec.{Reader}
use boost_practice.ProtoRpc.Session.{Session, rpc_session, set_services, do_read, on_read}
use boost_practice.ProtoRpc.Session.Start.{do_handshake, run, ssl_complete, on_handshake}
use boost_practice.ProtoRpc.Session.Handshake.{
  Phase, none-IsApart, Reads, fresh, running, shaken, reading, Reachable-Reads,
}
use boost_practice.ProtoRpc.Session.Spec.{
  Event, called, answered, asked, promises, perform_all, view,
}
use boost_practice.ProtoRpc.Session.Spec.Refines.{perform_refines}
use boost_practice.ProtoRpc.Server.{Server, rpc_server}
use boost_practice.ProtoRpc.Server as Servers
use boost_practice.ProtoRpc.Server.Handshakes.{holds, handle_all, on_handshake_leaks}
use boost_practice.ProtoRpc.Server.Registry as Registry
use boost_practice.Acceptor.{Setup}
use boost_practice.AsioRpc.Server.{boost_async}
use boost_practice.AsioRpc.Server as AsioServers
use boost_practice.Tcp.Server.{boost_server, start}
use boost_practice.Http.Listener.{listener}
use boost_practice.Http.Listener as Listeners
use boost_practice.Mains.{
  many_threads, asio_main_lem, asio_main, tcp_main, tcp_main_lem, beast_main, beast_main_lem,
}
use boost_practice.Examples.Calls.{name, method_name, server, server-IsReady, no_bytes, text}

-- A call and its response, which comes twice; a response that no call waits for; a request to the
-- service, and one to a service that there is not; and a call that is refused.
abbrev events : List Event
events =
    called name method_name text (some 40) (some 50)
    ∷ answered 0 ErrorCode.no_error text
    ∷ answered 0 ErrorCode.no_error text
    ∷ answered 7 ErrorCode.no_error text
    ∷ asked 3 name method_name text
    ∷ asked 4 method_name method_name text
    ∷ called name method_name text (some 41) (some 51)
    ∷ answered 1 ErrorCode.no_method []
    ∷ []

perform_refines_example :
    (s' : Session) × (perform_all events server ≡ ok s') × (view s' ≡ promises events (view server))
unfolding rpc_session set_services
perform_refines_example =
    perform_refines events server server-IsReady tt (omega arith)
      (omega arith, (tt, (tt, (tt, (omega arith, (omega arith, (omega arith, (tt, tt))))))))

-- A session of a server whose handshake succeeds, and whose first read has an error.
abbrev made : Reader Session
made = record { input_buffer = no_bytes; owner = rpc_session }

abbrev begun : Reader Session
begun = record made { owner = do_read (run true rpc_session) }

abbrev over : Reader Session
over = record made {
  owner = record rpc_session {
    reads = 1;
    timers = 1;
    cancels = 1;
    shutdowns = 1;
    overs = 1;
    handshakes = true ∷ [];
  };
}

ends : on_read true 0 [] begun ≡ ok over
unfolding on_read do_read run do_handshake rpc_session
ends = refl

shakes : on_handshake {A = Unit {0}} none false (tt, run true rpc_session) ≡ ok (tt, begun.owner)
unfolding on_handshake ssl_complete
shakes = refl

Reachable-Reads_example : Reads Phase.begun over.owner
unfolding do_read run do_handshake rpc_session
Reachable-Reads_example = Reachable-Reads Phase.begun over (
    reading {r = begun} true 0 []
      (shaken {r = record made { owner = run true rpc_session }} tt tt none (running true fresh)
        none-IsApart shakes)
      (omega arith) ends)

abbrev holding : Server
holding = record (rpc_server (λ _. false)) { sessions = (5, run true rpc_session) ∷ [] }

-- Another connection comes and goes.
abbrev comings : List Registry.Event
comings = Registry.accepted false 6 ∷ Registry.over 6 ∷ []

on_handshake_leaks_example :
    (v : Server) × (Servers.on_handshake true 5 holding ≡ ok v)
    × (holds 5 (handle_all comings v).sessions ≡ true)
on_handshake_leaks_example =
    on_handshake_leaks 5 holding comings refl (tt, ((λ e. absurd (omega arith)), tt))

abbrev works : Setup → Bool
works _ = false

tcp_main_lem_example :
    (tcp_main works none ≡ ok (start (boost_server works), 0))
    × (tcp_main works (some 4) ≡ ok (start (boost_server works), 3))
tcp_main_lem_example = tcp_main_lem works 4

beast_main_lem_example :
    beast_main (λ _. none) 2
    ≡ (if leb 2 1 then ok (Listeners.run (listener (λ _. none))) else fault)
beast_main_lem_example = beast_main_lem (λ _. none) 2

asio_main_lem_example : asio_main 1000 works (some 2) ≡ (
    if 2 == 1
    then ok (AsioServers.run (boost_async works))
    else if 2 == 0
    then fault
    else many_threads 1000 2)
asio_main_lem_example = asio_main_lem 999 works 2
