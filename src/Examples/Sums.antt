-- ===== src/Examples/Sums.antt =====
-- The example of proto_rpc: the sum of some numbers, asked of the server.
use boost_practice.Base.{
  ℕ, ◌≡◌, ◌⊎◌, ◌↔◌, refl, false, List, [], ◌∷◌, length, some, ok, fault, arith,
}
use boost_practice.Inputs.{list_buffer, ListBuffer}
use boost_practice.Inputs.Library.{text_library}
use boost_practice.Inputs.Sums.{add_library}
use boost_practice.ProtoRpc.Codec.{CodecError, Reader}
use boost_practice.ProtoRpc.Codec.Slots.{encode}
use boost_practice.ProtoRpc.Session.{Session, on_read, on_rpc_callback, on_response}
use boost_practice.ProtoRpc.Session as Sessions
use boost_practice.ProtoRpc.Session.Requests.{response_to}
use boost_practice.ProtoRpc.Client.{rpc_client}
use boost_practice.ProtoRpc.Example.{add, add_from, done_callback}
use boost_practice.ProtoRpc.Example.Sum.{Exact, Overflows, add_lem}
use boost_practice.ProtoRpc.Example.Asking.{
  shake, reported, answering, asked, refusal, call_add_lem, call_add_zero,
}

-- 2 ^ 31 - 1, and then 1.
abbrev too_much : List ℕ
too_much = 2147483647 ∷ 1 ∷ []

add_lem_example :
    (Exact 0 too_much ⊎ (add too_much ≡ fault)) × ((add too_much ≡ fault) ↔ Overflows 0 too_much)
add_lem_example = add_lem too_much (omega arith, (omega arith, tt))

abbrev empty : ListBuffer
empty = record { front = 8; content = [] }

abbrev numbers : List ℕ
numbers = 1 ∷ 2 ∷ []

call_add_lem_example :
    (s : Session) × (peer : Reader Session) × (r : Reader Session) × (i : ℕ) × (j : ℕ) × (shake
        numbers 40 50 7 rpc_client
      ≡ ok (reported 7 s rpc_client))
    × (s.codec.writes ≡ (i, encode (asked numbers)) ∷ [])
    × (on_read false
          (length (encode (asked numbers)))
          (encode (asked numbers))
          (record { input_buffer = empty; owner = answering })
        ≡ ok peer)
    × (peer.owner.codec.writes ≡ (j, encode (response_to (asked numbers) (3 ∷ []))) ∷ [])
    × (on_read false
          (length (encode (response_to (asked numbers) (3 ∷ []))))
          (encode (response_to (asked numbers) (3 ∷ [])))
          (record { input_buffer = empty; owner = s })
        ≡ ok r)
    × (r.owner.parsed ≡ (40, 3 ∷ []) ∷ [])
    × (r.owner.ran ≡ 50 ∷ [])
    × (done_callback (3 ∷ []) (reported 7 r.owner rpc_client)
        ≡ ok (3, reported 7 (Sessions.disconnect r.owner) rpc_client))
unfolding add add_from
call_add_lem_example =
    call_add_lem numbers 3 40 50 7 rpc_client (omega arith, (omega arith, tt)) refl
      (λ e. absurd (omega arith)) (omega arith) (omega arith)

abbrev nothing : List ℕ
nothing = 1 ∷ 4294967295 ∷ []

call_add_zero_example :
    (s s' : Session) × (i : ℕ) × (shake nothing 40 50 7 rpc_client ≡ ok (reported 7 s rpc_client))
    × (on_rpc_callback (some (asked nothing)) CodecError.no_error answering ≡ ok s')
    × (s'.codec.writes ≡ (i, encode (refusal nothing)) ∷ [])
    × ((on_response (refusal nothing) s).req_callbacks ≡ [])
    × ((on_response (refusal nothing) s).parsed ≡ [])
    × ((on_response (refusal nothing) s).ran ≡ [])
unfolding add add_from
call_add_zero_example =
    call_add_zero nothing 40 50 7 rpc_client (omega arith, (omega arith, tt)) refl (omega arith)
      (omega arith)
