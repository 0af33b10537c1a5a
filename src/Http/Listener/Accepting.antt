-- ===== src/Http/Listener/Accepting.antt =====
-- The listener over a sequence of completed accepts.
use boost_practice.Base.{
  sym, subst, ℕ, suc, ◌+◌, ◌≡◌, refl, ap, List, [], ◌∷◌, length, length_rules, All, All-append,
  Option, none, some, arith,
}
use boost_practice.Acceptor.{Setup, set_up}
use boost_practice.Http.Session as Sessions
use boost_practice.Http.Session.{Session, http_session}
use boost_practice.Http.Listener.{
  print_failure, report, is_error, Failure, operation_aborted, other_failure, Listener, listener,
  run, on_accept, root_doc,
}

-- The accepts complete one after the other, with these error codes.
unfoldable pub accept_all : List (Option Failure) → Listener → Listener
accept_all [] l = l
accept_all (ec ∷ rest) l = accept_all rest (on_accept ec l)

-- How many of them succeed, and how many fail with a code that `fail` prints.
unfoldable pub successes : List (Option Failure) → ℕ
successes [] = 0
successes (none ∷ rest) = suc (successes rest)
successes (some e ∷ rest) = successes rest

unfoldable pub failures : List (Option Failure) → ℕ
failures [] = 0
failures (some other_failure ∷ rest) = suc (failures rest)
failures (some operation_aborted ∷ rest) = failures rest
failures (none ∷ rest) = failures rest

abbrev pub IsFresh : Session → Type 0
IsFresh s = s ≡ Sessions.run (http_session root_doc)

accept_all-from :
    (cs : List (Option Failure)) (l : Listener)
    → All IsFresh l.sessions
    → ((accept_all cs l).accepts ≡ l.accepts + length cs)
      × (length (accept_all cs l).sessions ≡ length l.sessions + successes cs)
      × (length (accept_all cs l).messages ≡ length l.messages + failures cs)
      × All IsFresh (accept_all cs l).sessions
unfolding accept_all on_accept successes failures
accept_all-from [] l fresh = (omega arith, omega arith, omega arith, fresh)
accept_all-from (none ∷ cs) l fresh =
    let (a, s, m, f) = accept_all-from cs (on_accept none l) (
      All-append IsFresh l.sessions (Sessions.run (http_session root_doc) ∷ []) fresh (refl, tt)) in
    (omega (arith, a), grind (length_rules, s), m, f)
accept_all-from (some operation_aborted ∷ cs) l fresh =
    let (a, s, m, f) = accept_all-from cs (on_accept (some operation_aborted) l) fresh in
    (omega (arith, a), s, m, f)
accept_all-from (some other_failure ∷ cs) l fresh =
    let (a, s, m, f) = accept_all-from cs (on_accept (some other_failure) l) fresh in
    (omega (arith, a), s, grind (length_rules, m), f)

print_failure_keeps :
    (c : Setup) (e : Option Failure) (l : Listener)
    → ((print_failure c e l).accepts ≡ l.accepts) × ((print_failure c e l).sessions ≡ l.sessions)
print_failure_keeps c none l = (refl, refl)
print_failure_keeps c (some operation_aborted) l = (refl, refl)
print_failure_keeps c (some other_failure) l = (refl, refl)

report_keeps :
    (failed : Option Setup) (fails : Setup → Option Failure) (l : Listener)
    → ((report failed fails l).accepts ≡ l.accepts)
      × ((report failed fails l).sessions ≡ l.sessions)
report_keeps none fails l = (refl, refl)
report_keeps (some c) fails l = print_failure_keeps c (fails c) l

listener_starts :
    (fails : Setup → Option Failure)
    → ((listener fails).accepts ≡ 0) × ((listener fails).sessions ≡ [])
unfolding listener
listener_starts fails = report_keeps (set_up (λ c. is_error (fails c))).1 fails _

-- The listener, whatever its set-up came to and however its accepts complete, aborted and failed
-- ones included: after each completion one accept more has been started, so that exactly one is
-- under way, each success has made one session, which has been started on its first read and
-- nothing else, and each failure but an abort has printed one message.
pub accept_all_lem :
    (fails : Setup → Option Failure) (cs : List (Option Failure))
    → let l = run (listener fails) in
      ((accept_all cs l).accepts ≡ 1 + length cs)
      × (length (accept_all cs l).sessions ≡ successes cs)
      × (length (accept_all cs l).messages ≡ length l.messages + failures cs)
      × All IsFresh (accept_all cs l).sessions
unfolding run
accept_all_lem fails cs =
    let (none_yet, empty) = listener_starts fails in
    let (a, s, m, f) =
      accept_all-from cs (run (listener fails)) (subst (All IsFresh) (sym empty) tt) in
    (omega (arith, a, none_yet), omega (arith, s, ap length empty), m, f)
