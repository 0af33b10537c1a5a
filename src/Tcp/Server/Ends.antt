-- ===== src/Tcp/Server/Ends.antt =====
-- asio_practice_1/tcp_server_1/session.cpp: which operations of a session end it.
use boost_practice.Base.{
  ℕ, suc, ◌≡◌, refl, ◌∙◌, subst, true, false, List, length, take, ok, check, leb, ltb,
  first_returns, Bool-cases, inl, inr, arith,
}
use boost_practice.Buffer.{BufferApi, checked_retrieve, copy_out}
use boost_practice.Frame.{to_size, size_total}
use boost_practice.Frame.Output.{put_frame}
use boost_practice.Frame.Total.{drain_keeps}
use boost_practice.Tcp.Session.{
  Session, deliver, disconnect, do_read, on_frame, on_read, send_message, on_write,
}

module _ ⦃api : BufferApi⦄ where
  open api use {readable, append}

  -- The end has not been reported again, and still would be.
  abbrev pub Lasts : Session → Session → Type 0
  Lasts s s' = (s'.dis_cb ≡ s.dis_cb) × (s'.disconnects ≡ s.disconnects)

  Lasts-trans : (s t u : Session) → Lasts s t → Lasts t u → Lasts s u
  Lasts-trans s t u h k = (k.0 ∙ h.0, k.1 ∙ h.1)

  returned : (P : Session → Type 0) (s s' : Session) → ok s ≡ ok s' → P s → P s'
  returned P s s' e h = let same : s ≡ s' = cc e in subst P same h

  deliver-Lasts : (m : List ℕ) (s : Session) → Lasts s (deliver m s)
  deliver-Lasts m s = elim (Bool-cases s.message_cb) [
    | inl called ↦ rw called (refl, refl)
    | inr quiet ↦ rw quiet (refl, refl)
  ]

  on_frame-Lasts : (w : ℕ) (s s' : Session) → on_frame w s ≡ ok s' → Lasts s s'
  unfolding on_frame
  on_frame-Lasts w s s' e =
      let (b, _, e1) = first_returns _ (checked_retrieve s.input_buffer 4) e in
      let (m, _, e2) = first_returns _ (copy_out b (to_size w)) e1 in
      let (b', _, e3) = first_returns _ (checked_retrieve b (to_size w)) e2 in
      returned (Lasts s) _ s' e3 (deliver-Lasts m (record s { input_buffer = b' }))

  pub on_read-Lasts :
      (bytes : ℕ) (read_buffer : List ℕ) (s s' : Session)
      → on_read false bytes read_buffer s ≡ ok s'
      → Lasts s s'
  unfolding on_read do_read
  on_read-Lasts bytes read_buffer s s' e =
      let (_, _, e1) = first_returns _ (check (leb bytes (length read_buffer))) e in
      let input = append s.input_buffer (take bytes read_buffer) in
      let (t, drained, e2) = first_returns _ _ e1 in
      let kept : Lasts s t =
        drain_keeps 5 size_total (λ (u : Session). u.input_buffer) on_frame (Lasts s)
          (λ w u u' framed h. Lasts-trans s u u' h (on_frame-Lasts w u u' framed))
          (suc (length (readable input))) (record s { input_buffer = input }) t drained
          (refl, refl) in
      returned (Lasts s) (do_read t) s' e2 kept

  pub send_message-Lasts :
      (message : List ℕ) (s s' : Session) → send_message message s ≡ ok s' → Lasts s s'
  unfolding send_message
  send_message-Lasts message s s' e =
      let (b, _, e1) = first_returns _ (put_frame s.output_buffer message) e in
      returned (Lasts s) _ s' e1 (refl, refl)

  pub on_write-Lasts : (bytes : ℕ) (s s' : Session) → on_write false bytes s ≡ ok s' → Lasts s s'
  unfolding on_write
  on_write-Lasts bytes s s' e =
      let (b, _, e1) = first_returns _ (checked_retrieve s.output_buffer bytes) e in
      elim (Bool-cases (ltb 0 (length (readable b)))) [
        | inl more ↦ returned (Lasts s) _ s' (rw more at e1) (refl, refl)
        | inr over ↦ returned (Lasts s) _ s' (rw over at e1) (refl, refl)
      ]

  -- The end has been reported once more.
  abbrev pub Ends : Session → Session → Type 0
  Ends s s' = (s'.dis_cb ≡ s.dis_cb) × (s'.disconnects ≡ suc s.disconnects)

  disconnect-Ends : (s : Session) → s.dis_cb ≡ true → Ends s (disconnect s)
  disconnect-Ends s called = rw called (refl, omega arith)

  pub on_read-Ends :
      (bytes : ℕ) (read_buffer : List ℕ) (s s' : Session)
      → s.dis_cb ≡ true
      → on_read true bytes read_buffer s ≡ ok s'
      → Ends s s'
  unfolding on_read
  on_read-Ends bytes read_buffer s s' called e = returned (Ends s) _ s' e (disconnect-Ends s called)

  pub on_write-Ends :
      (bytes : ℕ) (s s' : Session) → s.dis_cb ≡ true → on_write true bytes s ≡ ok s' → Ends s s'
  unfolding on_write
  on_write-Ends bytes s s' called e = returned (Ends s) _ s' e (disconnect-Ends s called)
