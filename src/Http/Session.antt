-- ===== src/Http/Session.antt =====
-- beast_practice-1/beast_practice/http_session.hpp and http_session.cpp: one connection of the HTTP
-- server.
pub mod Exchange
pub mod Conversation
use boost_practice.Base.{ℕ, ◌+◌, Bool, true, false, List, [], ◌∷◌, ◌++◌, Run, ok, fault, ◌>>=◌}
use boost_practice.Http.Library.{Request, Response, Body, Opened, HttpLibrary}
use boost_practice.Http.Request.{handle_request}

-- The operations on the socket that are under way.
pub data Pending : Type 0 where
  reading : Pending
  writing : Response → Pending

-- `parsers` counts the times that the parser is made anew; `pending` are the operations that have
-- been started and have not completed; `writes` are the responses given to `async_write`.
pub record Session : Type 0 where
  pub root_doc : List ℕ
  pub parsers : ℕ
  pub pending : List Pending
  pub writes : List Response
  pub shutdowns : ℕ

unfoldable pub http_session : List ℕ → Session
http_session root_doc = record {
  root_doc = root_doc;
  parsers = 0;
  pending = [];
  writes = [];
  shutdowns = 0;
}

unfoldable pub do_read : Session → Session
do_read s = record s { parsers = s.parsers + 1; pending = s.pending ++ reading ∷ [] }

unfoldable pub run : Session → Session
run s = do_read s

abbrev pub shut_down : Session → Session
shut_down s = record s { shutdowns = s.shutdowns + 1 }

-- `send_lamda`: the writer of a `file_body` asserts that its file is open.
abbrev pub is_open : Body → Run (Unit {0})
is_open Body.unopened = fault
is_open _ = ok tt

unfoldable pub send : Response → Session → Run Session
send r s = is_open r.body >>= λ _.
    ok (record s { pending = s.pending ++ writing r ∷ []; writes = s.writes ++ r ∷ [] })

unfoldable pub on_write : Bool → Bool → Session → Session
on_write true close s = s
on_write false true s = shut_down s
on_write false false s = do_read s

-- What a read completes with: a request, the end of the stream, or another error.
pub data Completion : Type 0 where
  received : Request → Completion
  end_of_stream : Completion
  error : Completion

module _ ⦃lib : HttpLibrary⦄ (files : List ℕ → Opened) where
  unfoldable pub on_read : Completion → Session → Run Session
  on_read end_of_stream s = ok (shut_down s)
  on_read error s = ok s
  on_read (received req) s = send (handle_request s.root_doc files req) s
