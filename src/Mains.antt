-- ===== src/Mains.antt =====
-- The servers' `main`s, from the number of threads that they are given to their return once the event
-- loop has stopped: asio_practice_1/tcp_server_1/main.cpp, beast_practice-1/beast_practice/main.cpp
-- and asio_rpc_practice/server/main.cpp.
use boost_practice.Base.{
  spent, ◌==◌, ◌++◌, ◌&&◌, ap, ℕ, zero, suc, ◌+◌, ◌-◌, ◌^◌, ◌<◌, ◌≡◌, refl, ◌∙◌, Bool, true, false,
  List, [], ◌∷◌, Option, none, some, Run, ok, fault, ◌>>=◌, leb, ltb, if◌then◌else◌, arith,
  Bool-cases, inl, inr, length,
}
use boost_practice.Acceptor.{Setup}
use boost_practice.AsioRpc.Server.{boost_async}
use boost_practice.AsioRpc.Server as AsioServers
use boost_practice.Buffer.{BufferApi}
use boost_practice.Http.Listener.{
  Failure, Listener, listener, run, start_threads, start_threads_lem,
}
use boost_practice.Tcp.Server.{Server, boost_server, start}
use boost_practice.Threads.{grow_exact, grow, spawn, spawn_lem}

-- An `int`, by its bit pattern.
abbrev is_negative : ℕ → Bool
is_negative w = leb (2 ^ 31) w

-- A vector of threads, by whether each is joinable. Its destructor destroys the threads, which
-- terminates the program at one that is joinable.
abbrev pub joinable : ℕ → List Bool
joinable zero = []
joinable (suc n) = true ∷ joinable n

unfoldable pub destroy : List Bool → Run (Unit {0})
destroy [] = ok tt
destroy (true ∷ v) = fault
destroy (false ∷ v) = destroy v

-- `for( auto &it : v ) it.join()`.
unfoldable pub join_all : List Bool → List Bool
join_all [] = []
join_all (it ∷ v) = false ∷ join_all v

-- The number of threads of the chat server, by the argument, if there is one.
unfoldable pub thread_num : Option ℕ → ℕ
thread_num none = 1
thread_num (some w) = if is_negative w then 1 else (if leb w 1 then 1 else w)

module _ ⦃api : BufferApi⦄ where
  -- The chat server's `main`, given which calls of the set-up fail: the server as it enters the
  -- event loop, and how many threads have been joined at the end.
  unfoldable pub tcp_main : (Setup → Bool) → Option ℕ → Run (Server × ℕ)
  tcp_main fails argument = do
    let server = start (boost_server fails)
    let limit = thread_num argument - 1
    threads ← spawn (suc limit) 0 limit 0
    let v = join_all (joinable threads)
    _ ← destroy v
    ok (server, length v)

-- The HTTP server's `main`: the listener as it enters the event loop. A negative number becomes a
-- size that `reserve` throws at.
unfoldable pub beast_main : (Setup → Option Failure) → ℕ → Run Listener
beast_main fails threads =
    let listen_obj = run (listener fails) in
    if is_negative threads
    then fault
    else (destroy (joinable (start_threads (threads - 1) 0)) >>= λ _. ok listen_obj)

abbrev pub given : Option ℕ → ℕ
given none = 1
given (some w) = w

-- `std::vector<std::thread> v(n)`: threads that are not running, and not joinable.
abbrev pub unstarted : ℕ → List Bool
unstarted zero = []
unstarted (suc n) = false ∷ unstarted n

module _ ⦃api : BufferApi⦄ where
  -- The `main` of the RPC server, by its second argument, if there is one: the server as it enters
  -- the event loop. With `threads - 1` below zero the constructor of the vector throws.
  unfoldable pub asio_main : ℕ → (Setup → Bool) → Option ℕ → Run AsioServers.Server
  asio_main fuel fails argument =
      let server = AsioServers.run (boost_async fails) in
      let threads = given argument in
      let rest = grow fuel 0 (threads - 1) >>= λ size.
      destroy (unstarted (threads - 1) ++ joinable (size - (threads - 1))) >>= λ _. ok server in
      if is_negative threads then fault else (if threads == 0 then fault else rest)

join_all-destroy : (v : List Bool) → destroy (join_all v) ≡ ok tt
unfolding destroy join_all
join_all-destroy [] = refl
join_all-destroy (it ∷ v) = join_all-destroy v

length-join_all : (n : ℕ) → length (join_all (joinable n)) ≡ n
unfolding join_all
length-join_all zero = refl
length-join_all (suc n) = ap suc (length-join_all n)

thread_num-lt : (argument : Option ℕ) → thread_num argument - 1 < 2 ^ 31
unfolding thread_num
thread_num-lt none = omega arith
thread_num-lt (some w) = ground arith

thread_num_some :
    (w : ℕ) → thread_num (some w) - 1 ≡ (if leb 2 w && ltb w (2 ^ 31) then w - 1 else 0)
unfolding thread_num
thread_num_some w = ground arith

module _ ⦃api : BufferApi⦄ where
  tcp_main-thread_num :
      (fails : Setup → Bool) (argument : Option ℕ)
      → tcp_main fails argument ≡ ok (start (boost_server fails), thread_num argument - 1)
  unfolding tcp_main
  tcp_main-thread_num fails argument =
      let limit = thread_num argument - 1 in
      let e : 0 + limit ≡ limit = omega arith in
      rw (spawn_lem limit 0 (thread_num-lt argument))
        (rw (e, join_all-destroy (joinable limit), length-join_all limit) refl)

  -- The chat server accepts, and starts one thread less than the number that it is given, or none
  -- for a number below 2, a negative one or no number; it returns, and has joined all of them.
  pub tcp_main_lem :
      (fails : Setup → Bool) (w : ℕ)
      → (tcp_main fails none ≡ ok (start (boost_server fails), 0))
        × (tcp_main fails (some w)
            ≡ ok (start (boost_server fails), if leb 2 w && ltb w (2 ^ 31) then w - 1 else 0))
  unfolding thread_num
  tcp_main_lem fails w = (
    tcp_main-thread_num fails none,
    tcp_main-thread_num fails (some w)
        ∙ ap (λ n. ok (start (boost_server fails), n)) (thread_num_some w),
  )

-- Threads that are never joined stay joinable.
beast_main_many : (fails : Setup → Option Failure) (n : ℕ) → beast_main fails (suc (suc n)) ≡ fault
unfolding beast_main destroy
beast_main_many fails n = elim (Bool-cases (is_negative (suc (suc n)))) [
  | inl negative ↦ rw negative refl
  | inr positive ↦
      let started = start_threads_lem (suc (suc n) - 1) 0 in
      let e : 0 + (suc (suc n) - 1) ≡ suc n = omega arith in rw (positive, started, e) refl
]

-- The HTTP server, with its listener accepting, returns from its `main` if the number of threads is 0
-- or 1, and faults for every other: at the threads that nobody joins, or, if it is negative, as
-- `reserve` throws.
pub beast_main_lem :
    (fails : Setup → Option Failure) (threads : ℕ)
    → beast_main fails threads ≡ (if leb threads 1 then ok (run (listener fails)) else fault)
unfolding beast_main destroy start_threads
beast_main_lem fails zero = refl
beast_main_lem fails (suc zero) = refl
beast_main_lem fails (suc (suc n)) =
    let many : leb (suc (suc n)) 1 ≡ false = ground arith in rw many (beast_main_many fails n)

module _ ⦃api : BufferApi⦄ where
  asio_main_one :
      (fuel : ℕ) (fails : Setup → Bool)
      → asio_main (suc fuel) fails (some 1) ≡ ok (AsioServers.run (boost_async fails))
  unfolding asio_main grow destroy
  asio_main_one fuel fails = refl

  asio_main_zero : (fuel : ℕ) (fails : Setup → Bool) → asio_main (suc fuel) fails (some 0) ≡ fault
  unfolding asio_main
  asio_main_zero fuel fails = refl

  -- What becomes of `main` with two threads or more, or with a negative number of them.
  abbrev pub many_threads : ℕ → ℕ → Run AsioServers.Server
  many_threads fuel threads = if ltb threads (2 ^ 31) && ltb fuel (2 ^ 31) then spent else fault

  asio_main_many :
      (fuel : ℕ) (fails : Setup → Bool) (n : ℕ)
      → asio_main fuel fails (some (suc (suc n))) ≡ many_threads fuel (suc (suc n))
  unfolding asio_main
  asio_main_many fuel fails n = elim (Bool-cases (is_negative (suc (suc n)))) [
    | inl negative ↦
        let large : ltb (suc (suc n)) (2 ^ 31) ≡ false = ground arith in rw (negative, large) refl
    | inr positive ↦
        let small : ltb (suc (suc n)) (2 ^ 31) ≡ true = ground arith in
        let some_threads : (suc (suc n) == 0) ≡ false = ground arith in
        let loop = grow_exact fuel 0 (suc (suc n) - 1) (omega arith) (omega arith) in
        let e : fuel + 0 ≡ fuel = omega arith in
        rw (positive, some_threads, loop, small, e)
          (elim (Bool-cases (ltb fuel (2 ^ 31))) [
            | inl short ↦ rw short refl
            | inr long ↦ rw long refl
          ])
  ]

  -- The RPC server enters the event loop and returns from its `main` if the number of threads is 1.
  -- At 0 or a negative number it faults, as the vector throws; for more threads its loop uses up any
  -- fuel below 2^31, and faults with more, as its counter overflows.
  pub asio_main_lem :
      (fuel : ℕ) (fails : Setup → Bool) (threads : ℕ)
      → asio_main (suc fuel) fails (some threads) ≡ (
          if threads == 1
          then ok (AsioServers.run (boost_async fails))
          else (if threads == 0 then fault else many_threads (suc fuel) threads))
  asio_main_lem fuel fails zero = asio_main_zero fuel fails
  asio_main_lem fuel fails (suc zero) = asio_main_one fuel fails
  asio_main_lem fuel fails (suc (suc n)) =
      let one : (suc (suc n) == 1) ≡ false = ground arith in
      let none_at_all : (suc (suc n) == 0) ≡ false = ground arith in
      rw (one, none_at_all) (asio_main_many (suc fuel) fails n)
