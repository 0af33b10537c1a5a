-- ===== src/Http/Listener.antt =====
-- beast_practice-1/beast_practice/listener.h and listener.cpp: the acceptor of the HTTP server, and
-- the loop of its main.cpp that starts the threads.
pub mod Accepting
use boost_practice.Base.{
  arith, ◌≡◌, ℕ, zero, suc, ◌+◌, ◌-◌, Bool, true, false, List, [], ◌∷◌, ◌++◌, text, Option, none,
  some, if◌then◌else◌,
}
use boost_practice.Acceptor.{Setup, set_up}
use boost_practice.Http.Session as Sessions
use boost_practice.Http.Session.{Session, http_session}

-- An error code, as far as `fail` looks at it.
pub data Failure : Type 0 where
  operation_aborted other_failure : Failure

-- The second argument of `fail`.
pub data What : Type 0 where
  in_setup : Setup → What
  on_accepting : What

-- `accepts` counts the calls of `async_accept`, `sessions` are those made, and `messages` is what
-- `fail` prints, in order.
pub record Listener : Type 0 where
  pub setup : List Setup
  pub accepts : ℕ
  pub sessions : List Session
  pub messages : List What

abbrev pub fail : Failure → What → Listener → Listener
fail operation_aborted what l = l
fail other_failure what l = record l { messages = l.messages ++ what ∷ [] }

abbrev pub is_error : Option Failure → Bool
is_error none = false
is_error (some e) = true

abbrev pub print_failure : Setup → Option Failure → Listener → Listener
print_failure c none l = l
print_failure c (some ec) l = fail ec (in_setup c) l

abbrev pub report : Option Setup → (Setup → Option Failure) → Listener → Listener
report none fails l = l
report (some c) fails l = print_failure c (fails c) l

-- The constructor, given the error code of each call on the acceptor.
unfoldable pub listener : (Setup → Option Failure) → Listener
listener fails =
    let (calls, failed) = set_up (λ c. is_error (fails c)) in
    report failed fails (record { setup = calls; accepts = 0; sessions = []; messages = [] })

abbrev pub async_accept : Listener → Listener
async_accept l = record l { accepts = l.accepts + 1 }

unfoldable pub run : Listener → Listener
run l = async_accept l

abbrev pub root_doc : List ℕ
root_doc =
    text "/Users/apple/Documents/c++server/boost_practice/beast_practice-1/beast_practice/folder"

-- `none` is an accept that succeeds.
unfoldable pub on_accept : Option Failure → Listener → Listener
on_accept (some ec) l = async_accept (fail ec on_accepting l)
on_accept none l =
    async_accept (record l { sessions = l.sessions ++ Sessions.run (http_session root_doc) ∷ [] })

-- `for (int i = threads - 1; i > 0; i--) v.emplace_back(...)`, where `i` is not negative.
unfoldable pub start_threads : ℕ → ℕ → ℕ
start_threads zero v = v
start_threads (suc i) v = start_threads i (v + 1)

-- One thread is left to the caller, which runs the context itself.
pub start_threads_lem : (i v : ℕ) → start_threads i v ≡ v + i
unfolding start_threads
start_threads_lem zero v = omega arith
start_threads_lem (suc i) v = omega (arith, start_threads_lem i (v + 1))
