-- ===== src/Examples/Room.antt =====
-- The chat server with three connections, and a line from one client to another.
use boost_practice.Base.{
  IsDecided, ℕ, ◌≡◌, refl, true, false, List, [], ◌∷◌, ◌++◌, some, ok, fault, arith,
}
use boost_practice.Frame.{frame_of, next_frame, size_total}
use boost_practice.Frame.Relation.{stop, more}
use boost_practice.Frame.Output.{create-IsIdle}
use boost_practice.Inputs.{list_buffer}
use boost_practice.Frame.{drain, turn}
use boost_practice.Tcp.Session.{on_frame, send_message, on_write}
use boost_practice.Tcp.Server.{on_session_message, broadcast}
use boost_practice.Tcp.Session.{Session, session, run, do_read, on_read}
use boost_practice.Tcp.Server.{
  Server, boost_server, complete_write, serve, start, relay, put_session, erase_session,
  find_session, on_accept, on_session_disconnect,
}
use boost_practice.Tcp.Server.Relay.{ids}
use boost_practice.Tcp.Server.Sessions.{remove}
use boost_practice.Tcp.Server.Life.{Reachable-ids}
use boost_practice.Tcp.Server.Life as Life
use boost_practice.Tcp.Client.{Client, boost_client_async}
use boost_practice.Tcp.Client as Clients
use boost_practice.Tcp.Relay.{message_relayed}
use boost_practice.Tcp.Server.Total.{serve_total}
use boost_practice.Tcp.Server.Burst.{serve_burst, serve_relays}

abbrev fresh : Session
fresh = session true true

-- A server with the sessions 1, 2 and 3.
abbrev room : Server
room = record (boost_server (λ _. false)) { sessions = (1, fresh) ∷ (2, fresh) ∷ (3, fresh) ∷ [] }

abbrev hello : List ℕ
hello = b'h' ∷ b'i' ∷ []

abbrev wire : List ℕ
wire = 0 ∷ 0 ∷ 0 ∷ 2 ∷ b'h' ∷ b'i' ∷ []

serve_relays_example :
    (w : Server) × (other' : Session) × (serve 2 false 6 wire room ≡ ok w)
    × (find_session 3 w.sessions ≡ some other')
    × (other'.writes ≡ frame_of hello ∷ [])
unfolding session boost_server find_session size_total next_frame
serve_relays_example =
    serve_relays room 2 fresh refl 6 wire (omega arith) refl hello [] 3 fresh (omega arith)
      (λ _. create-IsIdle, (λ _. create-IsIdle, (λ _. create-IsIdle, tt))) (more refl (stop refl))
      (λ e. absurd (omega arith)) refl

-- Three frames in one read.
abbrev burst : List ℕ
burst = wire ++ wire ++ wire

serve_burst_example : serve 2 false 18 burst room ≡ fault
unfolding session boost_server find_session size_total next_frame
serve_burst_example =
    serve_burst room 2 fresh refl 18 burst (omega arith) refl hello hello hello [] 3 fresh
      (λ e. absurd (omega arith)) refl (omega arith) (more refl (more refl (more refl (stop refl))))

-- A server with one connection.
abbrev lone : Server
lone = on_accept false 4 (boost_server (λ _. false))

-- The second of two connections is lost after the first one's line has reached it.
abbrev pair : Server
pair = on_accept false 5 lone

abbrev told : Server
told = record pair {
  sessions =
      (4, record fresh { reads = 2; messages = hello ∷ [] })
      ∷ (
        5,
        record fresh {
          output_buffer = record { front = 4; content = wire };
          reads = 1;
          writes = wire ∷ [];
        },
      )
      ∷ [];
}

abbrev left : Server
left = record told { sessions = (4, record fresh { reads = 2; messages = hello ∷ [] }) ∷ [] }

from_first : serve 4 false 6 wire pair ≡ ok told
unfolding boost_server on_accept start serve relay session find_session put_session on_read
    on_session_disconnect erase_session run do_read drain turn size_total on_frame
    on_session_message broadcast send_message
from_first = refl

lost : complete_write 5 true 0 told ≡ ok left
unfolding complete_write find_session on_write relay session on_session_disconnect erase_session
    put_session
lost = refl

Reachable-ids_example : ids left.sessions ≡ 4 ∷ []
unfolding remove
Reachable-ids_example =
    Reachable-ids (λ _. false) (4 ∷ []) left
      (Life.write_failed 5 0
        (Life.read 4 6 wire (Life.accepted 5 (Life.accepted 4 Life.fresh)) from_first) lost)

-- A client that says "hi", and another one whose session is 3.
message_relayed_example :
    (sender' : Client) × (w : Server) × (s_b' : Session) × (listener' : Client)
    × (Clients.send_message hello boost_client_async ≡ ok sender')
    × (sender'.writes ≡ wire ∷ [])
    × (serve 2 false 6 wire room ≡ ok w)
    × (find_session 3 w.sessions ≡ some s_b')
    × (s_b'.writes ≡ wire ∷ [])
    × (Clients.on_read false 6 wire boost_client_async ≡ ok listener')
    × (listener'.printed ≡ hello ∷ [])
unfolding session boost_server find_session boost_client_async
message_relayed_example =
    message_relayed boost_client_async boost_client_async room 2 3 fresh fresh hello (omega arith)
      (omega arith) create-IsIdle refl refl refl (λ e. absurd (omega arith)) refl
      (λ _. create-IsIdle, (λ _. create-IsIdle, (λ _. create-IsIdle, tt))) refl

-- The length -1, in front of a text that is never looked at.
serve_total_example : IsDecided (serve 2 false 6 (255 ∷ 255 ∷ 255 ∷ 255 ∷ hello) room)
serve_total_example = serve_total 2 false 6 (255 ∷ 255 ∷ 255 ∷ 255 ∷ hello) room
