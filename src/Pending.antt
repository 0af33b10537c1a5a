-- ===== src/Pending.antt =====
-- The maps from identifiers to the calls that wait for their responses: `reqCallbacks_` of
-- proto_rpc/lib/rpc_session.h and `resCalls_` of asio_rpc_practice/client/rpc_client.hpp.
pub mod Laws
pub mod Once
use boost_practice.Base.{ℕ, ◌≡◌, List, [], ◌∷◌, Option, none, some, ◌==◌, if◌then◌else◌}

module _ {A : Type 0} where
  -- `find`, `erase` and assignment.
  unfoldable pub find_call : ℕ → List (ℕ × A) → Option A
  find_call id [] = none
  find_call id ((k, w) ∷ rest) = if k == id then some w else find_call id rest

  unfoldable pub erase_call : ℕ → List (ℕ × A) → List (ℕ × A)
  erase_call id [] = []
  erase_call id ((k, w) ∷ rest) = if k == id then rest else (k, w) ∷ erase_call id rest

  unfoldable pub put_call : ℕ → A → List (ℕ × A) → List (ℕ × A)
  put_call id w [] = (id, w) ∷ []
  put_call id w ((k, v) ∷ rest) = if k == id then (k, w) ∷ rest else (k, v) ∷ put_call id w rest
