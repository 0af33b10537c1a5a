-- ===== src/AsioRpc/Client.antt =====
-- asio_rpc_practice/client/rpc_client.hpp and rpc_client.cpp, and the input loop of its main.cpp:
-- the client of the earlier RPC.
pub mod Responses
pub mod Life
pub mod Input
use boost_practice.Base.{
  ℕ, suc, ◌+◌, ◌%◌, ◌^◌, Bool, true, false, List, [], ◌∷◌, ◌++◌, length, take, Option, none, some,
  Run, ok, fault, ◌>>=◌, ◌>>◌, check, leb, ltb, ◌==◌, same_text, text, if◌then◌else◌,
}
use boost_practice.Buffer.{BufferApi, checked_retrieve}
use boost_practice.Frame.{to_size, size_total, drain}
use boost_practice.Frame.Output.{put_frame}
use boost_practice.Pending.{find_call, erase_call, put_call}
use boost_practice.AsioRpc.Message.{Test, TestLibrary}

module _ ⦃api : BufferApi⦄ where
  open api use {Buffer, create, readable, append}

  -- A waiting call is kept by the address of its response object, which its closure prints. `id` is
  -- the bit pattern of an `int`. The fields from `solved` on record, in order, the responses printed
  -- by `on_solved`, each with its address, and the calls on the socket.
  pub record Client : Type 0 where
    pub input_buffer : Buffer
    pub output_buffer : Buffer
    pub res_calls : List (ℕ × ℕ)
    pub id : ℕ
    pub solved : List (ℕ × Test)
    pub writes : List (List ℕ)
    pub connects : ℕ
    pub reads : ℕ
    pub shutdowns : ℕ

  unfoldable pub rpc_client : Client
  rpc_client = record {
    input_buffer = create;
    output_buffer = create;
    res_calls = [];
    id = 0;
    solved = [];
    writes = [];
    connects = 0;
    reads = 0;
    shutdowns = 0;
  }

  unfoldable pub run : Client → Client
  run c = record c { connects = c.connects + 1 }

  unfoldable pub do_read : Client → Client
  do_read c = record c { reads = c.reads + 1 }

  unfoldable pub on_connect : Bool → Client → Client
  on_connect true c = c
  on_connect false c = do_read c

  abbrev shutdown : Client → Client
  shutdown c = record c { shutdowns = c.shutdowns + 1 }

  -- `async_write_some` of what the output buffer holds.
  abbrev pub start_write : Client → Client
  start_write c = record c { writes = c.writes ++ readable c.output_buffer ∷ [] }

  unfoldable pub on_send : Bool → ℕ → Client → Run Client
  on_send true bytes c = ok (shutdown c)
  on_send false bytes c = do
    b ← checked_retrieve c.output_buffer bytes
    let c' = record c { output_buffer = b }
    ok (if ltb 0 (length (readable b)) then start_write c' else c')

  -- The response is parsed into the object, which the closure then prints.
  unfoldable pub on_solved : ℕ → Test → Client → Client
  on_solved response content c = record c { solved = c.solved ++ (response, content) ∷ [] }

  -- `callback.response`, through a null pointer if no call waits.
  abbrev pub waiting_call : Option ℕ → Run ℕ
  waiting_call none = fault
  waiting_call (some response) = ok response

  module _ ⦃lib : TestLibrary⦄ where
    open lib use {serialize, parse}

    -- The body of the loop of `on_read`, at the length `w`: both times all the readable bytes are
    -- parsed, not only `w` of them.
    unfoldable pub on_frame : ℕ → Client → Run Client
    on_frame w c = do
      b ← checked_retrieve c.input_buffer 4
      let res = parse (readable b)
      response ← waiting_call (find_call res.id c.res_calls)
      b' ← checked_retrieve b (to_size w)
      ok (
          on_solved response res
            (record c { input_buffer = b'; res_calls = erase_call res.id c.res_calls }))

    unfoldable pub on_read : Bool → ℕ → List ℕ → Client → Run Client
    on_read true bytes read_buffer c = ok (shutdown c)
    on_read false bytes read_buffer c = do
      check (leb bytes (length read_buffer))
      let input = append c.input_buffer (take bytes read_buffer)
      c' ←
          drain 4 size_total (λ (t : Client). t.input_buffer) on_frame
            (suc (length (readable input))) (record c { input_buffer = input })
      ok (do_read c')

    -- `response` is the address of the response object.
    unfoldable pub call_method : Test → ℕ → Client → Run Client
    call_method request response c = do
      b ← put_frame c.output_buffer (serialize request)
      ok (
          start_write
            (record c { output_buffer = b; res_calls = put_call request.id response c.res_calls }))

    unfoldable pub send_request : List ℕ → ℕ → Client → Run Client
    send_request msg response c =
        call_method (record { id = c.id; message = msg }) response
          (record c { id = (c.id + 1) % 2 ^ 32 })

    -- The loop of `main` over the lines of the standard input, with no write completed meanwhile;
    -- the response objects are at the addresses from `response` on.
    unfoldable pub input_loop : List (List ℕ) → ℕ → Client → Run Client
    input_loop [] response c = ok c
    input_loop (line ∷ lines) response c =
        let rest = send_request line response c >>= λ c'. input_loop lines (response + 1) c' in
        if same_text line (text "0") then ok c else rest
