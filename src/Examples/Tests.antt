-- ===== src/Examples/Tests.antt =====
-- The server and the client of asio_rpc_practice on concrete bytes.
use boost_practice.Base.{ℕ, ◌≡◌, refl, true, false, List, [], ◌∷◌, ◌++◌, ok, fault, arith}
use boost_practice.Pending.Once.{Unique}
use boost_practice.Pending.Laws.{Below}
use boost_practice.Frame.{size_total, turn, drain, next_frame, int_total}
use boost_practice.Frame.Relation.{stop, more}
use boost_practice.Frame.Output.{create-IsIdle}
use boost_practice.Inputs.{list_buffer}
use boost_practice.Inputs.Texts.{test_library}
use boost_practice.AsioRpc.Message.{Test}
use boost_practice.AsioRpc.Session.{Session, rpc_session, test_solve, done_callback, on_read}
use boost_practice.AsioRpc.Session.Answers.{without_input, on_read_burst}
use boost_practice.Pending.{erase_call, put_call, find_call}
use boost_practice.AsioRpc.Client.{run, Client, rpc_client, send_request, input_loop}
use boost_practice.AsioRpc.Client.Life.{
  after, running, sending, reading, printed, Reachable-prints_once,
}
use boost_practice.AsioRpc.Client.Life as Life
use boost_practice.AsioRpc.Client.Input.{input_loop_burst}
use boost_practice.AsioRpc.Client as Clients
use boost_practice.AsioRpc.Client.Responses.{on_read_stray}
use boost_practice.AsioRpc.RoundTrip.{solve_round_trip}

abbrev fresh : Session
fresh = rpc_session true

abbrev ask : Test
ask = record { id = 7; message = b'a' ∷ b'b' ∷ [] }

abbrev wire : List ℕ
wire = 0 ∷ 0 ∷ 0 ∷ 3 ∷ 7 ∷ b'a' ∷ b'b' ∷ []

abbrev answered : List ℕ
answered = 0 ∷ 0 ∷ 0 ∷ 3 ∷ 7 ∷ b'b' ∷ b'c' ∷ []

on_read_burst_example :
    (v w : Session) × (done_callback (test_solve ask) (without_input fresh) ≡ ok v)
    × (done_callback (test_solve ask) v ≡ ok w)
    × (w.writes ≡ answered ∷ (0 ∷ 0 ∷ 0 ∷ 3 ∷ answered ++ 7 ∷ b'b' ∷ b'c' ∷ []) ∷ [])
    × (done_callback (test_solve ask) w ≡ fault)
    × (on_read false 21 (wire ++ wire ++ wire) fresh ≡ fault)
unfolding rpc_session test_solve int_total next_frame
on_read_burst_example =
    on_read_burst fresh 21 (wire ++ wire ++ wire) (omega arith) (7 ∷ b'a' ∷ b'b' ∷ [])
      (7 ∷ b'a' ∷ b'b' ∷ []) (7 ∷ b'a' ∷ b'b' ∷ []) [] [] create-IsIdle (omega arith) (omega arith)
      (more refl (more refl (more refl (stop refl))))

-- A client whose next identifier is 7.
abbrev client : Client
client = record rpc_client { id = 7 }

solve_round_trip_example :
    (c1 : Client) × (s' : Session) × (c2 : Client) × (send_request (b'a' ∷ b'b' ∷ []) 40 client
      ≡ ok c1)
    × (c1.writes ≡ wire ∷ [])
    × (on_read false 7 wire fresh ≡ ok s')
    × (s'.writes ≡ answered ∷ [])
    × (Clients.on_read false 7 answered c1 ≡ ok c2)
    × (c2.solved ≡ (40, record { id = 7; message = b'b' ∷ b'c' ∷ [] }) ∷ [])
unfolding rpc_session rpc_client test_solve
solve_round_trip_example =
    solve_round_trip client fresh (b'a' ∷ b'b' ∷ []) 40 create-IsIdle create-IsIdle refl refl
      (omega arith) (omega arith, (omega arith, tt)) (omega arith, (omega arith, tt)) (omega arith)
      (omega arith)

-- An answer that nothing has been asked for.
on_read_stray_example : Clients.on_read false 7 answered client ≡ fault
unfolding rpc_client find_call
on_read_stray_example =
    on_read_stray client 7 answered (omega arith) (record { id = 7; message = b'b' ∷ b'c' ∷ [] })
      refl (omega arith) (omega arith, (omega arith, tt)) (omega arith) refl

input_loop_burst_example :
    input_loop ((b'a' ∷ []) ∷ (b'b' ∷ []) ∷ (b'c' ∷ []) ∷ (b'0' ∷ []) ∷ []) 40 client ≡ fault
unfolding rpc_client
input_loop_burst_example =
    input_loop_burst client (b'a' ∷ []) (b'b' ∷ []) (b'c' ∷ []) ((b'0' ∷ []) ∷ []) 40 create-IsIdle
      refl refl refl (omega arith) (omega arith)

-- A client that connects, asks for one thing and is answered.
abbrev connecting : Client
connecting = record rpc_client { connects = 1 }

abbrev question : List ℕ
question = 0 ∷ 0 ∷ 0 ∷ 2 ∷ 0 ∷ b'a' ∷ []

abbrev asking : Client
asking = record connecting {
  id = 1;
  res_calls = (0, 40) ∷ [];
  output_buffer = record { front = 4; content = question };
  writes = question ∷ [];
}

abbrev told : Client
told = record asking {
  res_calls = [];
  solved = (40, record { id = 0; message = b'b' ∷ [] }) ∷ [];
  reads = 1;
}

asks : send_request (b'a' ∷ []) 40 connecting ≡ ok asking
unfolding rpc_client send_request Clients.call_method put_call
asks = refl

hears : Clients.on_read false 6 (0 ∷ 0 ∷ 0 ∷ 2 ∷ 0 ∷ b'b' ∷ []) asking ≡ ok told
unfolding rpc_client Clients.on_read Clients.on_frame Clients.on_solved Clients.do_read drain turn
    size_total find_call erase_call
hears = refl

Reachable-prints_once_example : Unique (printed told) × Below told.id told.res_calls
unfolding rpc_client run
Reachable-prints_once_example = Reachable-prints_once told (
    after (after (after Life.fresh running) (sending (b'a' ∷ []) 40 (omega arith) tt asks))
      (reading false 6 (0 ∷ 0 ∷ 0 ∷ 2 ∷ 0 ∷ b'b' ∷ []) hears))
