-- ===== src/AsioRpc/Session.antt =====
-- asio_rpc_practice/server/rpc_session.hpp and rpc_session.cpp: one connection of the server, and
-- the service that it answers by.
pub mod Answers
use boost_practice.Base.{
  ℕ, suc, ◌+◌, ◌%◌, Bool, true, false, List, [], ◌∷◌, ◌++◌, length, take, Run, ok, ◌>>=◌, ◌>>◌,
  check, leb, ltb, if◌then◌else◌,
}
use boost_practice.Buffer.{BufferApi, checked_retrieve, copy_out}
use boost_practice.Frame.{to_size, int_total, drain}
use boost_practice.Frame.Output.{put_frame}
use boost_practice.AsioRpc.Message.{Test, TestLibrary}

-- The loop of `TestSolve` over the message: each `char` plus one.
abbrev pub increment : List ℕ → List ℕ
increment [] = []
increment (c ∷ cs) = (c + 1) % 256 ∷ increment cs

-- The response of `TestServiceImpl::TestSolve`, which runs its closure before it returns.
unfoldable pub test_solve : Test → Test
test_solve request = record { id = request.id; message = increment request.message }

module _ ⦃api : BufferApi⦄ where
  open api use {Buffer, create, readable, append}

  -- The fields from `writes` on record the calls to the outside, in order.
  pub record Session : Type 0 where
    pub input_buffer : Buffer
    pub output_buffer : Buffer
    pub session_cb : Bool
    pub writes : List (List ℕ)
    pub reads : ℕ
    pub shutdowns : ℕ
    pub overs : ℕ

  unfoldable pub rpc_session : Bool → Session
  rpc_session session_cb = record {
    input_buffer = create;
    output_buffer = create;
    session_cb = session_cb;
    writes = [];
    reads = 0;
    shutdowns = 0;
    overs = 0;
  }

  unfoldable pub do_read : Session → Session
  do_read s = record s { reads = s.reads + 1 }

  unfoldable pub run : Session → Session
  run s = do_read s

  -- `shutdown`, and `sessionCb_` if it is set.
  abbrev pub close : Session → Session
  close s =
      let t = record s { shutdowns = s.shutdowns + 1 } in
      if s.session_cb then record t { overs = t.overs + 1 } else t

  -- `async_write_some` of what the output buffer holds.
  abbrev pub start_write : Session → Session
  start_write s = record s { writes = s.writes ++ readable s.output_buffer ∷ [] }

  module _ ⦃lib : TestLibrary⦄ where
    open lib use {serialize, parse}

    unfoldable pub done_callback : Test → Session → Run Session
    done_callback response s = do
      b ← put_frame s.output_buffer (serialize response)
      ok (start_write (record s { output_buffer = b }))

    -- The body of the loop of `on_read`, at the length `w`; the method is always there.
    unfoldable pub on_frame : ℕ → Session → Run Session
    on_frame w s = do
      b ← checked_retrieve s.input_buffer 4
      msg ← copy_out b (to_size w)
      b' ← checked_retrieve b (to_size w)
      done_callback (test_solve (parse msg)) (record s { input_buffer = b' })

    unfoldable pub on_read : Bool → ℕ → List ℕ → Session → Run Session
    on_read true bytes read_buffer s = ok (close s)
    on_read false bytes read_buffer s = do
      check (leb bytes (length read_buffer))
      let input = append s.input_buffer (take bytes read_buffer)
      s' ←
          drain 4 int_total (λ (t : Session). t.input_buffer) on_frame
            (suc (length (readable input))) (record s { input_buffer = input })
      ok (do_read s')

  unfoldable pub on_write : Bool → ℕ → Session → Run Session
  on_write true bytes s = ok (close s)
  on_write false bytes s = do
    b ← checked_retrieve s.output_buffer bytes
    let s' = record s { output_buffer = b }
    ok (if ltb 0 (length (readable b)) then start_write s' else s')
