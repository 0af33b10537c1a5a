-- ===== src/Tcp/Client.antt =====
-- asio_practice_1/tcp_client_1/boost_client_async.hpp and .cpp, and the input loop of main.cpp: the
-- chat client. The fields behind the two buffers record the calls to the outside in order:
-- `printed` the messages given to `std::cout`, `writes` the bytes given to `async_write_some`, and
-- how often the socket has been connected, read from and shut down.
pub mod Chat
use boost_practice.Base.{
  ℕ, suc, ◌+◌, ◌%◌, ◌^◌, Bool, true, false, List, [], ◌∷◌, ◌++◌, length, take, Run, ok, ◌>>=◌, ◌>>◌,
  check, leb, ltb, ◌==◌, if◌then◌else◌,
}
use boost_practice.Buffer.{BufferApi, checked_retrieve, copy_out}
use boost_practice.Frame.Output.{put_frame}
use boost_practice.Frame.{to_size, size_total, drain}

-- `line == "0"`.
abbrev pub is_quit : List ℕ → Bool
is_quit (x ∷ []) = x == b'0'
is_quit _ = false

module _ ⦃api : BufferApi⦄ where
  open api use {Buffer, create, readable, append}

  pub record Client : Type 0 where
    pub input_buffer : Buffer
    pub output_buffer : Buffer
    pub printed : List (List ℕ)
    pub writes : List (List ℕ)
    pub connects : ℕ
    pub reads : ℕ
    pub shutdowns : ℕ
    pub stopped : Bool

  unfoldable pub boost_client_async : Client
  boost_client_async = record {
    input_buffer = create;
    output_buffer = create;
    printed = [];
    writes = [];
    connects = 0;
    reads = 0;
    shutdowns = 0;
    stopped = false;
  }

  unfoldable pub start : Client → Client
  start c = record c { connects = c.connects + 1 }

  unfoldable pub do_read : Client → Client
  do_read c = record c { reads = c.reads + 1 }

  unfoldable pub on_connected : Bool → Client → Client
  on_connected true c = c
  on_connected false c = do_read c

  -- `socket_.shutdown( shutdown_both )`.
  abbrev shutdown : Client → Client
  shutdown c = record c { shutdowns = c.shutdowns + 1 }

  abbrev pub print : List ℕ → Client → Client
  print m c = record c { printed = c.printed ++ m ∷ [] }

  -- The body of the loop of `on_read`, at the length `w`; `retrieveAsString` copies, then retrieves.
  unfoldable pub on_frame : ℕ → Client → Run Client
  on_frame w c = do
    b ← checked_retrieve c.input_buffer 4
    m ← copy_out b (to_size w)
    b' ← checked_retrieve b (to_size w)
    ok (print m (record c { input_buffer = b' }))

  unfoldable pub on_read : Bool → ℕ → List ℕ → Client → Run Client
  on_read true bytes read_buffer c = ok (shutdown c)
  on_read false bytes read_buffer c = do
    check (leb bytes (length read_buffer))
    let input = append c.input_buffer (take bytes read_buffer)
    c' ←
        drain 5 size_total (λ (t : Client). t.input_buffer) on_frame (suc (length (readable input)))
          (record c { input_buffer = input })
    ok (do_read c')

  -- `async_write_some` of what the output buffer holds.
  abbrev start_write : Client → Client
  start_write c = record c { writes = c.writes ++ readable c.output_buffer ∷ [] }

  unfoldable pub on_write : Bool → ℕ → Client → Run Client
  on_write true bytes c = ok (shutdown c)
  on_write false bytes c = do
    b ← checked_retrieve c.output_buffer bytes
    let c' = record c { output_buffer = b }
    ok (if ltb 0 (length (readable b)) then start_write c' else c')

  unfoldable pub send_message : List ℕ → Client → Run Client
  send_message message c = do
    b ← put_frame c.output_buffer message
    ok (start_write (record c { output_buffer = b }))

  -- One line of the loop of `main` that does not end it.
  abbrev pub say : List ℕ → Client → Run Client
  say [] c = ok c
  say (x ∷ xs) c = send_message (x ∷ xs) c

  -- The loop of `main` over the lines of the standard input, with no write completed meanwhile.
  unfoldable pub input_loop : List (List ℕ) → Client → Run Client
  input_loop [] c = ok c
  input_loop (line ∷ lines) c =
      let rest = say line c >>= λ c'. input_loop lines c' in
      if is_quit line then ok (record c { stopped = true }) else rest
