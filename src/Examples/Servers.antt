-- ===== src/Examples/Servers.antt =====
-- The server and the client of the RPC library over a few events, and the loops that start threads.
use boost_practice.Base.{◌++◌, All, ℕ, ◌≡◌, refl, Bool, true, false, List, [], ◌∷◌, some, ok, arith}
use boost_practice.Acceptor.{Setup}
use boost_practice.Inputs.{list_buffer}
use boost_practice.ProtoRpc.Session.{Session, rpc_session, Service, do_read}
use boost_practice.ProtoRpc.Server.{
  on_accept, dereference, Server, rpc_server, set_thread_num, run, stop,
}
use boost_practice.ProtoRpc.Server.Registry.{
  registered, accepted, handle, fresh, after, FindsLatest, Reachable-FindsLatest,
}
use boost_practice.ProtoRpc.Server.Lifetime.{run-stop}
use boost_practice.ProtoRpc.Session.Start as Start
use boost_practice.ProtoRpc.Client.{
  on_ssl_complete, on_handshake, Client, rpc_client, connect, on_connect, disconnect,
}
use boost_practice.ProtoRpc.Client.Connection.{Reachable-disconnect, connecting, connected}
use boost_practice.ProtoRpc.Client.Connection as Connection

abbrev works : Setup → Bool
works _ = false

abbrev echo : Service
echo = record { find_method = λ _. some 0; parses = λ _ _. true; call = λ _ request. some request }

abbrev name : List ℕ
name = b's' ∷ []

-- A connection at address 5, and a registration after it.
abbrev served : Server
served = handle (registered name echo) (handle (accepted false 5) (rpc_server works))

Reachable-FindsLatest_example :
    All (λ x. FindsLatest ((name, echo) ∷ []) (dereference served x.1)) served.sessions
    × ((self : ℕ)
        → (s : Session) × ((on_accept false self served).sessions
            ≡ served.sessions ++ (self, s) ∷ [])
          × FindsLatest ((name, echo) ∷ []) s)
Reachable-FindsLatest_example =
    Reachable-FindsLatest works ((name, echo) ∷ []) served
      (after (registered name echo) (after (accepted false 5) fresh))

run-stop_example :
    (w : Server) × (run (set_thread_num 4 (rpc_server works)) ≡ ok w)
    × (w.accepts ≡ 1)
    × (w.threads ≡ 3)
    × ((stop w).joined ≡ 3)
run-stop_example = run-stop works 4 (omega arith)

-- A client that has asked for a connection, got one at address 5 and reported it.
abbrev online : Client
online = record rpc_client {
  session = some (5, do_read (Start.run false rpc_session));
  connects = 1;
  timers = 1;
  cancels = 1;
  connections = 1;
}

shakes : on_handshake (λ s. ok s) false (on_connect false 5 (connect rpc_client)) ≡ ok online
unfolding on_handshake on_connect connect on_ssl_complete Start.on_handshake Start.ssl_complete
    rpc_client
shakes = refl

Reachable-disconnect_example : (c : Client) × (disconnect online ≡ ok c)
unfolding rpc_client
Reachable-disconnect_example =
    Reachable-disconnect online
      (Connection.after
        (Connection.after (Connection.after Connection.fresh connecting) (connected false 5))
        (Connection.shaken (λ s. ok s) false shakes))
      (omega arith)
