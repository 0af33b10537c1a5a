-- ===== src/Tcp/Session.antt =====
-- asio_practice_1/tcp_server_1/session.hpp and session.cpp: one connection of the chat server.
-- The object's fields come first. The calls that it makes to the outside are recorded in order:
-- `messages` those of `messageCb_`, `writes` the bytes given to `async_write_some`, `reads` and
-- `disconnects` how often `async_read_some` and `disCb_` have been called.
pub mod Read
pub mod Write
pub mod Stream
pub mod Faults
use boost_practice.Base.{
  ℕ, suc, ◌+◌, ◌%◌, ◌^◌, Bool, true, false, List, [], ◌∷◌, ◌++◌, length, take, Run, ok, ◌>>=◌, ◌>>◌,
  check, leb, ltb, if◌then◌else◌,
}
use boost_practice.Buffer.{BufferApi, checked_retrieve, copy_out}
use boost_practice.Frame.Output.{put_frame}
use boost_practice.Frame.{to_size, size_total, drain}

module _ ⦃api : BufferApi⦄ where
  open api use {Buffer, create, readable, append}

  pub record Session : Type 0 where
    pub input_buffer : Buffer
    pub output_buffer : Buffer
    pub message_cb : Bool
    pub dis_cb : Bool
    pub messages : List (List ℕ)
    pub writes : List (List ℕ)
    pub reads : ℕ
    pub disconnects : ℕ

  -- The constructor: whether the two callbacks are set.
  unfoldable pub session : Bool → Bool → Session
  session message_cb dis_cb = record {
    input_buffer = create;
    output_buffer = create;
    message_cb = message_cb;
    dis_cb = dis_cb;
    messages = [];
    writes = [];
    reads = 0;
    disconnects = 0;
  }

  unfoldable pub do_read : Session → Session
  do_read s = record s { reads = s.reads + 1 }

  unfoldable pub run : Session → Session
  run s = do_read s

  -- `if( disCb_ ) disCb_( this )`.
  abbrev pub disconnect : Session → Session
  disconnect s = if s.dis_cb then record s { disconnects = s.disconnects + 1 } else s

  -- `if( messageCb_ ) messageCb_( messagePtr, this )`.
  abbrev pub deliver : List ℕ → Session → Session
  deliver m s = if s.message_cb then record s { messages = s.messages ++ m ∷ [] } else s

  -- The body of the loop of `on_read`, at the length `w`.
  unfoldable pub on_frame : ℕ → Session → Run Session
  on_frame w s = do
    b ← checked_retrieve s.input_buffer 4
    m ← copy_out b (to_size w)
    b' ← checked_retrieve b (to_size w)
    ok (deliver m (record s { input_buffer = b' }))

  -- The fuel is more than the rounds that the bytes allow (`Read.on_read-Frames`).
  unfoldable pub on_read : Bool → ℕ → List ℕ → Session → Run Session
  on_read true bytes read_buffer s = ok (disconnect s)
  on_read false bytes read_buffer s = do
    check (leb bytes (length read_buffer))
    let input = append s.input_buffer (take bytes read_buffer)
    s' ←
        drain 5 size_total (λ (t : Session). t.input_buffer) on_frame
          (suc (length (readable input))) (record s { input_buffer = input })
    ok (do_read s')

  -- `async_write_some` of what the output buffer holds.
  abbrev pub start_write : Session → Session
  start_write s = record s { writes = s.writes ++ readable s.output_buffer ∷ [] }

  unfoldable pub send_message : List ℕ → Session → Run Session
  send_message message s = do
    b ← put_frame s.output_buffer message
    ok (start_write (record s { output_buffer = b }))

  unfoldable pub on_write : Bool → ℕ → Session → Run Session
  on_write true bytes s = ok (disconnect s)
  on_write false bytes s = do
    b ← checked_retrieve s.output_buffer bytes
    let s' = record s { output_buffer = b }
    ok (if ltb 0 (length (readable b)) then start_write s' else s')
