-- ===== src/Tcp/Server/Life.antt =====
-- The chat server over its whole life: accepted connections, reads with the callbacks that they make,
-- and completed writes, in any order.
use boost_practice.Base.{
  ℕ, ◌≡◌, refl, ◌∙◌, sym, subst, Bool, true, false, List, [], ◌∷◌, ◌++◌, Option-cases, ok,
  first_returns, for_each, drop, length, ltb, if◌then◌else◌, inl, inr, arith, ap,
}
use boost_practice.Buffer.{BufferApi}
use boost_practice.Acceptor.{Setup}
use boost_practice.Tcp.Session.{Session, session, run, do_read, on_read, on_write}
use boost_practice.Tcp.Server.{
  Server, boost_server, on_accept, start, on_session_disconnect, on_session_message, put_session,
  find_session, relay, serve, complete_write,
}
use boost_practice.Tcp.Server.Relay.{ids}
use boost_practice.Tcp.Server.Ends.{
  Lasts, Ends, on_read-Lasts, on_write-Lasts, on_read-Ends, on_write-Ends,
}
use boost_practice.Tcp.Server.Sessions.{
  remove, Holds, put_session-Holds, erase_session-Holds, push-Holds, for_each-Holds, find-Called,
  remove-absent,
}

module _ ⦃api : BufferApi⦄ where
  -- The servers that come about from the constructor, each with the addresses of the connections that
  -- have been accepted and have not ended, oldest first: an accepted connection is a new last one, and a
  -- read or a write that reports an error ends its connection.
  pub data Reachable (fails : Setup → Bool) : List ℕ → Server → Type 0 where
    fresh : Reachable fails [] (boost_server fails)
    starting :
        {connected : List ℕ} {v : Server}
        → Reachable fails connected v
        → Reachable fails connected (start v)
    accepted :
        {connected : List ℕ} {v : Server} (self : ℕ)
        → Reachable fails connected v
        → Reachable fails (connected ++ self ∷ []) (on_accept false self v)
    refused :
        {connected : List ℕ} {v : Server} (self : ℕ)
        → Reachable fails connected v
        → Reachable fails connected (on_accept true self v)
    read :
        {connected : List ℕ} {v v' : Server} (self bytes : ℕ) (read_buffer : List ℕ)
        → Reachable fails connected v
        → serve self false bytes read_buffer v ≡ ok v'
        → Reachable fails connected v'
    read_failed :
        {connected : List ℕ} {v v' : Server} (self bytes : ℕ) (read_buffer : List ℕ)
        → Reachable fails connected v
        → serve self true bytes read_buffer v ≡ ok v'
        → Reachable fails (remove self connected) v'
    wrote :
        {connected : List ℕ} {v v' : Server} (self bytes : ℕ)
        → Reachable fails connected v
        → complete_write self false bytes v ≡ ok v'
        → Reachable fails connected v'
    write_failed :
        {connected : List ℕ} {v v' : Server} (self bytes : ℕ)
        → Reachable fails connected v
        → complete_write self true bytes v ≡ ok v'
        → Reachable fails (remove self connected) v'

  module _ (connected : List ℕ) (self : ℕ) (s s' : Session) (v w : Server)
      (held : Holds connected v.sessions) (called : s.dis_cb ≡ true) where
    -- What the callbacks of a session leave: the messages passed on, and the session erased if its end
    -- has been reported.
    relayed :
        s'.dis_cb ≡ s.dis_cb
        → relay self s s' v ≡ ok w
        → (u : Server) × (Holds connected u.sessions)
          × ((if ltb s.disconnects s'.disconnects then on_session_disconnect self u else u) ≡ w)
    unfolding relay
    relayed kept e =
        let passed =
          for_each (λ m t. on_session_message m self t)
            (record v { sessions = put_session self s' v.sessions })
            (drop (length s.messages) s'.messages) in
        let (u, e1, e2) = first_returns _ passed e in
        (
          u,
          for_each-Holds connected self _ _ u e1
              (put_session-Holds connected self s' v.sessions (kept ∙ called) held),
          cc e2,
        )

    relay-Lasts : Lasts s s' → relay self s s' v ≡ ok w → Holds connected w.sessions
    relay-Lasts (kept, quiet) e =
        let (u, h, left) = relayed kept e in
        let silent : ltb s.disconnects s'.disconnects ≡ false = ground (arith, quiet) in
        let same : u ≡ w =
          sym (ap (λ b. if b then on_session_disconnect self u else u) silent) ∙ left in
        subst (λ (t : Server). Holds connected t.sessions) same h

    relay-Ends : Ends s s' → relay self s s' v ≡ ok w → Holds (remove self connected) w.sessions
    unfolding on_session_disconnect
    relay-Ends (kept, once) e =
        let (u, h, left) = relayed kept e in
        let reported : ltb s.disconnects s'.disconnects ≡ true = ground (arith, once) in
        let same : on_session_disconnect self u ≡ w =
          sym (ap (λ b. if b then on_session_disconnect self u else u) reported) ∙ left in
        subst (λ (t : Server). Holds (remove self connected) t.sessions) same
          (erase_session-Holds connected self u.sessions h)

  module _ (connected : List ℕ) (self bytes : ℕ) (v w : Server)
      (held : Holds connected v.sessions) where
    serve-Holds :
        (read_buffer : List ℕ)
        → serve self false bytes read_buffer v ≡ ok w
        → Holds connected w.sessions
    unfolding serve
    serve-Holds read_buffer e = elim (Option-cases (find_session self v.sessions)) [
      | inl absent ↦ absurd (cc (rw (absent, serve) at e))
      | inr (s, found) ↦
          let (s', e1, e2) =
            first_returns (λ s'. relay self s s' v) (on_read false bytes read_buffer s)
              (rw (found, serve) at e) in
          relay-Lasts connected self s s' v w held (find-Called self s v.sessions held.1 found)
            (on_read-Lasts bytes read_buffer s s' e1) e2
    ]

    serve-removes :
        (read_buffer : List ℕ)
        → serve self true bytes read_buffer v ≡ ok w
        → Holds (remove self connected) w.sessions
    unfolding serve
    serve-removes read_buffer e = elim (Option-cases (find_session self v.sessions)) [
      | inl absent ↦ absurd (cc (rw (absent, serve) at e))
      | inr (s, found) ↦
          let (s', e1, e2) =
            first_returns (λ s'. relay self s s' v) (on_read true bytes read_buffer s)
              (rw (found, serve) at e) in
          let called = find-Called self s v.sessions held.1 found in
          relay-Ends connected self s s' v w held called
            (on_read-Ends bytes read_buffer s s' called e1) e2
    ]

    complete_write-Holds : complete_write self false bytes v ≡ ok w → Holds connected w.sessions
    unfolding complete_write
    complete_write-Holds e = elim (Option-cases (find_session self v.sessions)) [
      | inl absent ↦
          let same : v ≡ w = cc (rw (absent, complete_write) at e) in
          subst (λ (t : Server). Holds connected t.sessions) same held
      | inr (s, found) ↦
          let (s', e1, e2) =
            first_returns (λ s'. relay self s s' v) (on_write false bytes s)
              (rw (found, complete_write) at e) in
          relay-Lasts connected self s s' v w held (find-Called self s v.sessions held.1 found)
            (on_write-Lasts bytes s s' e1) e2
    ]

    complete_write-removes :
        complete_write self true bytes v ≡ ok w → Holds (remove self connected) w.sessions
    unfolding complete_write
    complete_write-removes e = elim (Option-cases (find_session self v.sessions)) [
      | inl absent ↦
          let same : v ≡ w = cc (rw (absent, complete_write) at e) in
          let gone = sym (remove-absent self v.sessions absent) ∙ ap (remove self) held.0 in
          subst (λ (t : Server). Holds (remove self connected) t.sessions) same (gone, held.1)
      | inr (s, found) ↦
          let (s', e1, e2) =
            first_returns (λ s'. relay self s s' v) (on_write true bytes s)
              (rw (found, complete_write) at e) in
          let called = find-Called self s v.sessions held.1 found in
          relay-Ends connected self s s' v w held called (on_write-Ends bytes s s' called e1) e2
    ]

  Reachable-Holds :
      (fails : Setup → Bool) (connected : List ℕ) (v : Server)
      → Reachable fails connected v
      → Holds connected v.sessions
  unfolding boost_server on_accept start run do_read session
  Reachable-Holds fails connected v fresh = (refl, tt)
  Reachable-Holds fails connected v (starting {v = u} r) = Reachable-Holds fails connected u r
  Reachable-Holds fails connected v (accepted {connected = ids} {v = u} self r) =
      push-Holds ids self (run (session true true)) u.sessions refl (Reachable-Holds fails ids u r)
  Reachable-Holds fails connected v (refused {v = u} self r) = Reachable-Holds fails connected u r
  Reachable-Holds fails connected v (read {v = u} self bytes read_buffer r e) =
      serve-Holds connected self bytes u v (Reachable-Holds fails connected u r) read_buffer e
  Reachable-Holds fails connected v
        (read_failed {connected = ids} {v = u} self bytes read_buffer r e) =
      serve-removes ids self bytes u v (Reachable-Holds fails ids u r) read_buffer e
  Reachable-Holds fails connected v (wrote {v = u} self bytes r e) =
      complete_write-Holds connected self bytes u v (Reachable-Holds fails connected u r) e
  Reachable-Holds fails connected v (write_failed {connected = ids} {v = u} self bytes r e) =
      complete_write-removes ids self bytes u v (Reachable-Holds fails ids u r) e

  -- Whatever happens to the server, accepted and refused connections, reads with the messages passed
  -- on, completed writes and errors of both, the sessions that it holds are those of the connections
  -- that have been accepted and have had no failed read or write since, in the order in which they
  -- were accepted.
  pub Reachable-ids :
      (fails : Setup → Bool) (connected : List ℕ) (v : Server)
      → Reachable fails connected v
      → ids v.sessions ≡ connected
  Reachable-ids fails connected v r = (Reachable-Holds fails connected v r).0
