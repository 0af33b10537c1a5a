-- ===== src/Acceptor.antt =====
-- How the constructors of the four servers prepare their acceptor: `open`, `set_option`, `bind` and
-- `listen`, with an early return at the first error (asio_practice_1/tcp_server_1/
-- boost_server_async.cpp, asio_rpc_practice/server/boost_async.cpp, proto_rpc/lib/rpc_server.cpp,
-- beast_practice-1/beast_practice/listener.cpp, which share this text).
use boost_practice.Base.{
  Bool, true, false, List, [], ◌∷◌, ◌≡◌, ◌↔◌, Option, none, some, if◌then◌else◌, arith,
}

pub data Setup : Type 0 where
  open_acceptor set_option bind_endpoint listen : Setup

-- The calls that are made, and the one whose error is reported by `fail`.
unfoldable pub set_up : (Setup → Bool) → List Setup × Option Setup
set_up fails =
    if fails open_acceptor
    then (open_acceptor ∷ [], some open_acceptor)
    else if fails set_option
    then (open_acceptor ∷ set_option ∷ [], some set_option)
    else if fails bind_endpoint
    then (open_acceptor ∷ set_option ∷ bind_endpoint ∷ [], some bind_endpoint)
    else if fails listen
    then (open_acceptor ∷ set_option ∷ bind_endpoint ∷ listen ∷ [], some listen)
    else (open_acceptor ∷ set_option ∷ bind_endpoint ∷ listen ∷ [], none)

-- Nothing is reported exactly when no call fails.
pub set_up-none :
    (fails : Setup → Bool) → ((set_up fails).1 ≡ none) ↔ ((c : Setup) → fails c ≡ false)
unfolding set_up
set_up-none fails =
    (λ e. all e, λ h. ground (arith, h open_acceptor, h set_option, h bind_endpoint, h listen))
  where
    all : (set_up fails).1 ≡ none → (c : Setup) → fails c ≡ false
    all e open_acceptor = ground arith
    all e set_option = ground arith
    all e bind_endpoint = ground arith
    all e listen = ground arith

unfoldable pub get_last : List Setup → Option Setup
get_last [] = none
get_last (c ∷ []) = some c
get_last (c ∷ d ∷ cs) = get_last (d ∷ cs)

-- The call that is reported is one that fails, and the last one made.
pub set_up-some :
    (fails : Setup → Bool) (c : Setup)
    → (set_up fails).1 ≡ some c
    → (fails c ≡ true) × (get_last (set_up fails).0 ≡ some c)
unfolding set_up get_last
set_up-some fails c e = ground arith
