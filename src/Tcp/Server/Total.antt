-- ===== src/Tcp/Server/Total.antt =====
-- The chat server on a completed read: whatever the bytes are, the read and the callbacks that it
-- makes end.
use boost_practice.Base.{
  ℕ, suc, ◌<◌, ◌≡◌, ap, List, [], ◌∷◌, length, take, Bool, true, false, none, some, ok, fault,
  ◌>>=◌, first_returns, for_each, arith, IsDecided, decided_rules, Bool-cases, inl, inr, refl,
}
use boost_practice.Buffer.{BufferApi, checked_retrieve, copy_out}
use boost_practice.Frame.{to_size, size_total}
use boost_practice.Frame.Total.{
  checked_retrieve-IsDecided, checked_retrieve-length, drain-IsDecided,
}
use boost_practice.Tcp.Session.{Session, on_frame, on_read, deliver, send_message}
use boost_practice.Tcp.Server.{Server, broadcast, on_session_message, find_session, relay, serve}

module _ ⦃api : BufferApi⦄ where
  open api use {readable, append}

  on_frame-IsDecided : (w : ℕ) (s : Session) → IsDecided (on_frame w s)
  unfolding on_frame
  on_frame-IsDecided w s = search (decided_rules, checked_retrieve-IsDecided)

  deliver-input_buffer : (m : List ℕ) (s : Session) → (deliver m s).input_buffer ≡ s.input_buffer
  deliver-input_buffer m s = elim (Bool-cases s.message_cb) [
    | inl called ↦ rw called refl
    | inr silent ↦ rw silent refl
  ]

  on_frame_takes :
      (w : ℕ) (s s' : Session)
      → on_frame w s ≡ ok s'
      → length (readable s'.input_buffer) < length (readable s.input_buffer)
  unfolding on_frame
  on_frame_takes w s s' e =
      let (b, head, e1) = first_returns _ (checked_retrieve s.input_buffer 4) e in
      let (m, _, e2) = first_returns _ (copy_out b (to_size w)) e1 in
      let (b', tail, e3) = first_returns _ (checked_retrieve b (to_size w)) e2 in
      let same : deliver m (record s { input_buffer = b' }) ≡ s' = cc e3 in
      let kept = deliver-input_buffer m (record s { input_buffer = b' }) in
      omega (
        arith,
        checked_retrieve-length s.input_buffer b 4 head,
        checked_retrieve-length b b' (to_size w) tail,
        ap (λ t. length (readable t)) kept,
        ap (λ (t : Session). length (readable t.input_buffer)) same,
      )

  on_read-IsDecided :
      (ec : Bool) (bytes : ℕ) (read_buffer : List ℕ) (s : Session)
      → IsDecided (on_read ec bytes read_buffer s)
  unfolding on_read
  on_read-IsDecided true bytes read_buffer s = search decided_rules
  on_read-IsDecided false bytes read_buffer s =
      let input = append s.input_buffer (take bytes read_buffer) in
      let looped =
        drain-IsDecided 5 size_total (λ (t : Session). t.input_buffer) on_frame on_frame-IsDecided
          on_frame_takes (suc (length (readable input))) (record s { input_buffer = input })
          (omega arith) in
      search (decided_rules, looped)

  send_message-IsDecided : (m : List ℕ) (s : Session) → IsDecided (send_message m s)
  unfolding send_message
  send_message-IsDecided m s = search decided_rules

  broadcast-IsDecided :
      (m : List ℕ) (self : ℕ) (xs : List (ℕ × Session)) → IsDecided (broadcast m self xs)
  unfolding broadcast
  broadcast-IsDecided m self [] = search decided_rules
  broadcast-IsDecided m self ((id, s) ∷ rest) =
      search (decided_rules, send_message-IsDecided, broadcast-IsDecided m self rest)

  on_session_message-IsDecided :
      (m : List ℕ) (self : ℕ) (v : Server) → IsDecided (on_session_message m self v)
  unfolding on_session_message
  on_session_message-IsDecided m self v = search (decided_rules, broadcast-IsDecided)

  for_each-IsDecided :
      (self : ℕ) (ms : List (List ℕ)) (v : Server)
      → IsDecided (for_each (λ m t. on_session_message m self t) v ms)
  for_each-IsDecided self [] v = search decided_rules
  for_each-IsDecided self (m ∷ ms) v =
      search (decided_rules, on_session_message-IsDecided, for_each-IsDecided self ms)

  relay-IsDecided : (self : ℕ) (s s' : Session) (v : Server) → IsDecided (relay self s s' v)
  unfolding relay
  relay-IsDecided self s s' v = search (decided_rules, for_each-IsDecided)

  -- A completed read of any session, with any bytes and whatever the other sessions are in the midst
  -- of, returns or faults, the messages passed on and the end of the session included.
  pub serve_total :
      (self : ℕ) (ec : Bool) (bytes : ℕ) (read_buffer : List ℕ) (v : Server)
      → IsDecided (serve self ec bytes read_buffer v)
  unfolding serve
  serve_total self ec bytes read_buffer v =
      elim (find_session self v.sessions)
        as (λ o. IsDecided (elim o [
          | none ↦ fault
          | some s ↦ on_read ec bytes read_buffer s >>= λ s'. relay self s s' v
        ])) [
          | none ↦ search decided_rules
          | some s ↦ search (decided_rules, on_read-IsDecided, relay-IsDecided)
        ]
