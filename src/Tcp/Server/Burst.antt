-- ===== src/Tcp/Server/Burst.antt =====
-- One read of a chatting client, through the server: a single message reaches the other clients,
-- three at once bring the server down.
use boost_practice.Base.{
  le→ltb, ℕ, ◌+◌, ◌^◌, ◌<◌, ◌≤◌, ◌≡◌, ◌≢◌, refl, ap, ◌∙◌, true, false, List, [], ◌∷◌, ◌++◌, length,
  drop-length, some, Run, ok, fault, for_each, arith, ◌==◌, if◌then◌else◌, Bool-cases, inl, inr,
  ◌⊎◌,
}
use boost_practice.Buffer.{BufferApi, cheap_prepend}
use boost_practice.Frame.{frame_of, size_total}
use boost_practice.Frame.Relation.{Frames}
use boost_practice.Frame.Output.{put_frame_decided}
use boost_practice.Tcp.Session.{Session, send_message, on_read, do_read}
use boost_practice.Tcp.Session.Read.{arrived, on_read-Frames}
use boost_practice.Tcp.Server.{
  Server, broadcast, on_session_message, find_session, put_session, serve, relay,
}
use boost_practice.Tcp.Session.Stream.{messages-received}
use boost_practice.Tcp.Server.Relay.{OthersIdle, broadcast_reaches}

module _ ⦃api : BufferApi⦄ where
  open api use {readable, prependable}

  -- A message is sent, using four bytes of the room before the content, or an assertion fails.
  abbrev SentOrFault : Session → Run Session → Type 0
  SentOrFault s r =
      (r ≡ fault)
      ⊎ ((s' : Session) × (r ≡ ok s')
          × (prependable s.output_buffer ≤ cheap_prepend
              → prependable s'.output_buffer + 4 ≡ prependable s.output_buffer))

  send_message_decided : (m : List ℕ) (s : Session) → SentOrFault s (send_message m s)
  unfolding send_message
  send_message_decided m s = elim (put_frame_decided s.output_buffer m) [
    | inl bad ↦ inl (rw bad)
    | inr (b, e, room) ↦
        inr (record s { output_buffer = b; writes = s.writes ++ readable b ∷ [] }, rw e, room)
  ]

  -- The same of a broadcast, for a session `id` that is not the sender.
  abbrev ReachedOrFault : ℕ → Session → Run (List (ℕ × Session)) → Type 0
  ReachedOrFault id s r =
      (r ≡ fault)
      ⊎ ((ys : List (ℕ × Session)) × (s' : Session) × (r ≡ ok ys)
          × (find_session id ys ≡ some s')
          × (prependable s.output_buffer ≤ cheap_prepend
              → prependable s'.output_buffer + 4 ≡ prependable s.output_buffer))

  module _ (m : List ℕ) (self : ℕ) where
    one_decided :
        (id : ℕ) (s : Session)
        → ((if id == self then ok s else send_message m s) ≡ fault)
          ⊎ ((s' : Session) × ((if id == self then ok s else send_message m s) ≡ ok s')
              × (id ≢ self
                  → prependable s.output_buffer ≤ cheap_prepend
                  → prependable s'.output_buffer + 4 ≡ prependable s.output_buffer))
    one_decided id s = elim (Bool-cases (id == self)) [
      | inl same ↦ inr (s, rw same, λ ne _. absurd (ne (ground arith)))
      | inr other ↦ elim (send_message_decided m s) [
        | inl bad ↦ inl (rw other bad)
        | inr (s', e, room) ↦ inr (s', rw other e, λ _. room)
      ]
    ]

    broadcast_decided :
        (xs : List (ℕ × Session))
        → (broadcast m self xs ≡ fault)
          ⊎ ((ys : List (ℕ × Session)) × (broadcast m self xs ≡ ok ys))
    unfolding broadcast
    broadcast_decided [] = inr ([], refl)
    broadcast_decided ((id, s) ∷ rest) = elim (one_decided id s) [
      | inl bad ↦ inl (rw bad)
      | inr (s', e, _) ↦ elim (broadcast_decided rest) [
        | inl bad ↦ inl (rw (e, bad))
        | inr (ys, e') ↦ inr ((id, s') ∷ ys, rw (e, e'))
      ]
    ]

    broadcast_reached :
        (xs : List (ℕ × Session)) (id : ℕ) (s : Session)
        → id ≢ self
        → find_session id xs ≡ some s
        → ReachedOrFault id s (broadcast m self xs)
    unfolding broadcast find_session
    broadcast_reached [] id s ne found = absurd (cc found)
    broadcast_reached ((k, t) ∷ rest) id s ne found = elim (one_decided k t) [
      | inl bad ↦ inl (rw bad)
      | inr (t', e, room) ↦ elim (Bool-cases (k == id)) [
        | inl hit ↦
            let same : t ≡ s = ground arith in
            let other : k ≢ self = λ q. ne (ground arith) in
            elim (broadcast_decided rest) [
              | inl bad ↦ inl (rw (e, bad))
              | inr (ys, e') ↦ inr ((k, t') ∷ ys, t', rw (e, e'), rw hit, rw same at (room other))
            ]
        | inr miss ↦ elim (broadcast_reached rest id s ne (ground arith)) [
          | inl bad ↦ inl (rw (e, bad))
          | inr (ys, s', e', f, room') ↦ inr ((k, t') ∷ ys, s', rw (e, e'), rw miss f, room')
        ]
      ]
    ]

  -- Three messages broadcast before a write is completed, with another session connected whose
  -- output buffer has its usual room: an assertion fails.
  broadcast_thrice :
      (a b c : List ℕ) (ms : List (List ℕ)) (self id : ℕ) (v : Server) (s : Session)
      → id ≢ self
      → find_session id v.sessions ≡ some s
      → prependable s.output_buffer ≤ cheap_prepend
      → for_each {S = Server} (λ m t. on_session_message m self t) v (a ∷ b ∷ c ∷ ms) ≡ fault
  unfolding on_session_message
  broadcast_thrice a b c ms self id v s ne found room =
      elim (broadcast_reached a self v.sessions id s ne found) [
        | inl bad ↦ rw bad
        | inr (xs, s1, e1, f1, r1) ↦ elim (broadcast_reached b self xs id s1 ne f1) [
          | inl bad ↦ rw (e1, bad)
          | inr (ys, s2, e2, f2, r2) ↦ elim (broadcast_reached c self ys id s2 ne f2) [
            | inl bad ↦ rw (e1, e2, bad)
            | inr (zs, s3, e3, f3, r3) ↦ absurd (
                omega (
                  arith,
                  r1 room,
                  r2 (omega (arith, r1 room)),
                  r3 (omega (arith, r1 room, r2 (omega (arith, r1 room)))),
                ))
          ]
        ]
      ]

  find-put_ne :
      (self id : ℕ) (t : Session) (xs : List (ℕ × Session))
      → id ≢ self
      → find_session id (put_session self t xs) ≡ find_session id xs
  unfolding find_session put_session
  find-put_ne self id t [] ne = refl
  find-put_ne self id t ((k, s) ∷ rest) ne = ground (arith, find-put_ne self id t rest ne)

  module _ (v : Server) (self : ℕ) (s : Session) (here : find_session self v.sessions ≡ some s)
      (bytes : ℕ) (read_buffer : List ℕ) (given : bytes ≤ length read_buffer)
      (cb : s.message_cb ≡ true) where
    serve_read :
        (s' : Session)
        → on_read false bytes read_buffer s ≡ ok s'
        → serve self false bytes read_buffer v ≡ relay self s s' v
    unfolding serve
    serve_read s' e = rw (here, serve) (rw e)

    -- A read of `self`, whose callback is set, that brings three messages or more, while another
    -- session is connected whose output buffer has no more than its usual room, ends in a failed
    -- assertion.
    pub serve_burst :
        (a b c : List ℕ) (ms : List (List ℕ)) {rest : List ℕ} (id : ℕ) (other : Session)
        → id ≢ self
        → find_session id v.sessions ≡ some other
        → prependable other.output_buffer ≤ cheap_prepend
        → Frames 5 size_total (arrived s bytes read_buffer given) (a ∷ b ∷ c ∷ ms) rest
        → serve self false bytes read_buffer v ≡ fault
    unfolding relay
    serve_burst a b c ms id other ne found room f =
        let all = a ∷ b ∷ c ∷ ms in
        let (s', e, kept, seen) = on_read-Frames s bytes read_buffer given all f in
        let got : s'.messages ≡ s.messages ++ all = messages-received s s' all seen cb in
        serve_read s' e
        ∙ rw (got, drop-length s.messages all)
            (rw (
              broadcast_thrice a b c ms self id
                (record v { sessions = put_session self s' v.sessions }) other ne
                (find-put_ne self id s' v.sessions ne ∙ found) room))

    OthersIdle-put :
        (xs : List (ℕ × Session)) (t : Session)
        → OthersIdle self xs
        → OthersIdle self (put_session self t xs)
    unfolding put_session
    OthersIdle-put [] t i = tt
    OthersIdle-put ((k, u) ∷ rest) t i = elim (Bool-cases (k == self)) [
      | inl hit ↦ rw hit (λ ne. absurd (ne (ground arith)), i.1)
      | inr miss ↦ rw miss (i.0, OthersIdle-put rest t i.1)
    ]

    relayed :
        (m rest : List ℕ)
        → length m < 2 ^ 31
        → OthersIdle self v.sessions
        → Frames 5 size_total (arrived s bytes read_buffer given) (m ∷ []) rest
        → (w : Server) × (serve self false bytes read_buffer v ≡ ok w)
          × ((id : ℕ) (other : Session)
              → id ≢ self
              → find_session id v.sessions ≡ some other
              → (other' : Session) × (find_session id w.sessions ≡ some other')
                × (other'.writes ≡ other.writes ++ frame_of m ∷ []))
    unfolding relay on_session_message do_read
    relayed m rest short idle f =
        let (s', e, kept, seen) = on_read-Frames s bytes read_buffer given (m ∷ []) f in
        let got : s'.messages ≡ s.messages ++ m ∷ [] = messages-received s s' (m ∷ []) seen cb in
        let same_disconnects : s'.disconnects ≡ s.disconnects =
          ap (λ (t : Session). t.disconnects) seen ∙ ground arith in
        let xs = put_session self s' v.sessions in
        let (ys, e', _, _, others) =
          broadcast_reaches m self short xs (OthersIdle-put v.sessions s' idle) in
        (
          record v { sessions = ys },
          serve_read s' e
              ∙ rw (
                got,
                drop-length s.messages (m ∷ []),
                e',
                same_disconnects,
                le→ltb s.disconnects s.disconnects (omega arith),
              ),
          λ id other ne found. others id other ne (find-put_ne self id s' v.sessions ne ∙ found),
        )

    -- A read of `self`, whose callback is set, that brings one message shorter than 2^31, while no
    -- other session has a write under way, makes any other session write the frame of that message,
    -- once.
    pub serve_relays :
        (m rest : List ℕ) (id : ℕ) (other : Session)
        → length m < 2 ^ 31
        → OthersIdle self v.sessions
        → Frames 5 size_total (arrived s bytes read_buffer given) (m ∷ []) rest
        → id ≢ self
        → find_session id v.sessions ≡ some other
        → (w : Server) × (other' : Session) × (serve self false bytes read_buffer v ≡ ok w)
          × (find_session id w.sessions ≡ some other')
          × (other'.writes ≡ other.writes ++ frame_of m ∷ [])
    serve_relays m rest id other short idle f ne found =
        let (w, e, reach) = relayed m rest short idle f in
        let (other', g, wrote) = reach id other ne found in (w, other', e, g, wrote)
