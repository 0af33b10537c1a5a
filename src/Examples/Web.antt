-- ===== src/Examples/Web.antt =====
-- The HTTP server on a document root with two files.
use boost_practice.Base.{
  ℕ, ◌≡◌, refl, true, false, List, [], ◌∷◌, ◌++◌, length, Option, none, some, ok, text, All,
}
use boost_practice.Acceptor.{Setup, set_up}
use boost_practice.Inputs.Web.{http_library, files}
use boost_practice.Http.Library.{Method, Request}
use boost_practice.Http.Files.{has_dots, path_of, is_illegal, ends_in, drop_last, path_cat}
use boost_practice.Http.Files.Inside.{path_of-inside}
use boost_practice.Http.Request.{handle_request, found, not_found}
use boost_practice.Http.Request.Answers.{Answer, handle_request_lem}
use boost_practice.Http.Session.{
  Completion, Session, http_session, run, do_read, on_read, Completion,
}
use boost_practice.Http.Session.Exchange.{AtMostOne, started, after, read, Reachable-AtMostOne}
use boost_practice.Http.Session.Conversation.{answers, converse, converse_refines}
use boost_practice.Http.Listener.{Failure, other_failure, operation_aborted, Listener, listener}
use boost_practice.Http.Listener as Listeners
use boost_practice.Http.Listener.Accepting.{
  accept_all, successes, failures, IsFresh, accept_all_lem,
}

abbrev root : List ℕ
root = text "/w"

abbrev ask : List ℕ → Request
ask target = record { method = Method.get; target = target; version = 11; keep_alive = true }

path_of-inside_example :
    (rest : List ℕ) × (path_of (text "/w/") (text "/a.PNG") ≡ text "/w" ++ b'/' ∷ rest)
    × (has_dots (path_of (text "/w/") (text "/a.PNG")) ≡ false)
unfolding path_of has_dots is_illegal ends_in drop_last
path_of-inside_example = path_of-inside (text "/w/") (text "/a.PNG") refl refl

handle_request_lem_example :
    Answer root files (ask (text "/../x")) (handle_request root files (ask (text "/../x")))
handle_request_lem_example = handle_request_lem root files (ask (text "/../x"))

-- The first page, and then a file that does not exist, on which the connection is closed.
abbrev asked : List Request
asked = ask (text "/") ∷ ask (text "/nothing") ∷ ask (text "/") ∷ []

converse_refines_example :
    (s' : Session) × (converse files asked (run (http_session root)) ≡ ok s')
    × (s'.writes ≡ answers files root asked)
    × (s'.pending ≡ [])
    × (s'.shutdowns ≡ 1)
unfolding run http_session do_read handle_request is_illegal has_dots path_of ends_in path_cat found
    not_found
converse_refines_example =
    converse_refines files asked (run (http_session root)) refl (refl, (refl, tt))

-- A session whose first read has failed.
Reachable-AtMostOne_example : AtMostOne files (record (http_session root) { parsers = 1 })
unfolding http_session run do_read on_read
Reachable-AtMostOne_example =
    Reachable-AtMostOne files root (record (http_session root) { parsers = 1 })
      (after started (read [] [] Completion.error refl refl))

abbrev all_work : Setup → Option Failure
all_work _ = none

abbrev outcomes : List (Option Failure)
outcomes = none ∷ some other_failure ∷ none ∷ some operation_aborted ∷ []

abbrev served : Listener
served = accept_all outcomes (Listeners.run (listener all_work))

accept_all_lem_example :
    (served.accepts ≡ 5)
    × (length served.sessions ≡ 2)
    × (length served.messages ≡ 1)
    × All IsFresh served.sessions
unfolding successes failures Listeners.run listener set_up
accept_all_lem_example = accept_all_lem all_work outcomes
