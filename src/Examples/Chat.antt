-- ===== src/Examples/Chat.antt =====
-- The sessions of the chat server on concrete bytes.
use boost_practice.Base.{
  ℕ, ◌≤◌, ◌≡◌, refl, true, false, List, [], ◌∷◌, length, ok, fault, ◌>>=◌, arith, ◌⊎◌,
}
use boost_practice.Frame.{turn, drain, frame_of, next_frame, size_total}
use boost_practice.Frame.Relation.{Frames, Breaks}
use boost_practice.Frame.Output.{create-IsIdle, IsIdle}
use boost_practice.Inputs.{list_buffer}
use boost_practice.Tcp.Session.{on_frame, do_read, Session, session, on_read, send_message}
use boost_practice.Tcp.Session.Read.{received, without_input}
use boost_practice.Tcp.Session.Stream.{read_all, read_all_delivers, on_read_split}
use boost_practice.Tcp.Session.Faults.{on_read_decides}
use boost_practice.Tcp.Session.Write.{complete_all, send_message-Completes}

abbrev hello : List ℕ
hello = b'h' ∷ b'i' ∷ []

abbrev bye : List ℕ
bye = b'!' ∷ []

abbrev fresh : Session
fresh = session true true

-- Two frames and the beginning of a third, cut inside the first header and the second payload.
abbrev pieces : List (List ℕ)
pieces = (0 ∷ 0 ∷ 0 ∷ []) ∷ (2 ∷ b'h' ∷ b'i' ∷ 0 ∷ 0 ∷ 0 ∷ 1 ∷ []) ∷ (b'!' ∷ 0 ∷ 0 ∷ []) ∷ []

read_all_delivers_example :
    (s' : Session) × (read_all pieces fresh ≡ ok s')
    × (s'.input_buffer.content ≡ 0 ∷ 0 ∷ [])
    × (s'.messages ≡ hello ∷ bye ∷ [])
unfolding session size_total next_frame
read_all_delivers_example =
    read_all_delivers fresh (hello ∷ bye ∷ []) (0 ∷ 0 ∷ []) pieces refl refl
      ((omega arith, omega arith, refl), ((omega arith, omega arith, refl), tt)) refl refl

-- A session with the first three bytes of a frame read.
abbrev begun : Session
begun = record fresh { input_buffer = record { front = 8; content = 0 ∷ 0 ∷ 0 ∷ [] }; reads = 1 }

abbrev heard : Session
heard = record fresh {
  input_buffer = record { front = 14; content = 0 ∷ [] };
  messages = hello ∷ [];
  reads = 2;
}

abbrev second_piece : List ℕ
second_piece = 2 ∷ b'h' ∷ b'i' ∷ 0 ∷ []

on_read_split_example :
    (s' : Session) × (on_read false 7 (0 ∷ 0 ∷ 0 ∷ 2 ∷ b'h' ∷ b'i' ∷ 0 ∷ []) fresh ≡ ok s')
    × (s'.messages ≡ hello ∷ [])
    × (s'.input_buffer.content ≡ 0 ∷ [])
unfolding session on_read do_read on_frame drain turn size_total
on_read_split_example = on_read_split fresh begun heard (0 ∷ 0 ∷ 0 ∷ []) second_piece refl refl refl

abbrev whole : List ℕ
whole = 0 ∷ 0 ∷ 0 ∷ 2 ∷ b'h' ∷ b'i' ∷ []

abbrev given_whole : 6 ≤ length whole
given_whole = omega arith

on_read_decides_example :
    ((ms : List (List ℕ)) × (s' : Session) × (on_read false 6 whole fresh ≡ ok s')
      × Frames 5 size_total whole ms s'.input_buffer.content
      × (without_input s' ≡ do_read (received ms (without_input fresh))))
    ⊎ ((ms : List (List ℕ)) × (on_read false 6 whole fresh ≡ fault) × Breaks 5 size_total whole ms)
unfolding session
on_read_decides_example = on_read_decides fresh 6 whole given_whole

fresh-IsIdle : IsIdle fresh.output_buffer
unfolding session
fresh-IsIdle = create-IsIdle

-- The frame of "hi" written in two pieces.
send_message-Completes_example :
    (s' : Session) × ((send_message hello fresh >>= complete_all (4 ∷ 2 ∷ [])) ≡ ok s')
    × IsIdle s'.output_buffer
    × (s'.writes ≡ frame_of hello ∷ hello ∷ [])
unfolding session
send_message-Completes_example =
    send_message-Completes fresh hello (4 ∷ 2 ∷ []) fresh-IsIdle (omega arith)
      (omega arith, omega arith, (omega arith, omega arith, refl))
