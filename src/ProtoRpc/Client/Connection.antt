-- ===== src/ProtoRpc/Client/Connection.antt =====
-- The life of a client's connection, as a relation on its states.
use boost_practice.Base.{
  first_returns, Run, ℕ, ◌<◌, ◌≡◌, refl, Bool, true, false, Option, none, some, ok, fault, arith,
  subst, Bool-cases, inl, inr,
}
use boost_practice.Buffer.{BufferApi}
use boost_practice.ProtoRpc.Session.{Session, rpc_session}
use boost_practice.ProtoRpc.Session as Sessions
use boost_practice.ProtoRpc.Session.Start as Start
use boost_practice.ProtoRpc.Client.{
  on_ssl_complete, shake_session, on_handshake, is_own, Client, rpc_client, connect, on_timer,
  on_connect, on_session_over, disconnect,
}

module _ ⦃api : BufferApi⦄ where
  -- One event or call.
  pub data Step : Client → Client → Type 0 where
    connecting : {c : Client} → Step c (connect c)
    timed : {c : Client} (ec : Bool) → Step c (on_timer ec c)
    connected : {c : Client} (ec : Bool) (self : ℕ) → Step c (on_connect ec self c)
    shaken :
        {c c' : Client} (connection_cb : Session → Run Session) (ec : Bool)
        → on_handshake connection_cb ec c ≡ ok c'
        → Step c c'
    session_over : {c : Client} (self : ℕ) → Step c (on_session_over self c)
    disconnecting : {c c' : Client} → disconnect c ≡ ok c' → Step c c'

  pub data Reachable : Client → Type 0 where
    fresh : Reachable rpc_client
    after : {c c' : Client} → Reachable c → Step c c' → Reachable c'

  -- No connection is reported without a session.
  abbrev Known : Option (ℕ × Session) → ℕ → Type 0
  Known none n = n ≡ 0
  Known (some _) n = Unit {0}

  disconnect-none : (c : Client) → c.session ≡ none → disconnect c ≡ fault
  unfolding disconnect
  disconnect-none c e = rw e refl

  disconnect-some :
      (c : Client) (id : ℕ) (s : Session)
      → c.session ≡ some (id, s)
      → disconnect c ≡ ok (record c { session = some (id, Sessions.disconnect s) })
  unfolding disconnect
  disconnect-some c id s e = rw e refl

  Known-disconnect :
      (o : Option (ℕ × Session)) (c c' : Client)
      → c.session ≡ o
      → Known o c.connections
      → disconnect c ≡ ok c'
      → Known c'.session c'.connections
  Known-disconnect none c c' e h d = absurd (cc (disconnect-none c e))
  Known-disconnect (some (id, s)) c c' e h d =
      let first = disconnect-some c id s e in
      let same : record c { session = some (id, Sessions.disconnect s) } ≡ c' = cc first in
      subst (λ (t : Client). Known t.session t.connections) same h

  Known-on_session_over :
      (self : ℕ) (c : Client)
      → Known c.session c.connections
      → Known (on_session_over self c).session (on_session_over self c).connections
  unfolding on_session_over
  Known-on_session_over self c h = elim (Bool-cases (is_own c.session self)) [
    | inl mine ↦ rw mine h
    | inr other ↦ rw other h
  ]

  Known-shake_session :
      (connection_cb : Session → Run Session) (ec : Bool) (n n' : ℕ)
      (session session' : Option (ℕ × Session))
      → shake_session connection_cb ec n session ≡ ok (n', session')
      → Known session' n'
  Known-shake_session connection_cb ec n n' (some (id, s)) session' e =
      let ((m, t), _, done) =
        first_returns _ (Start.on_handshake (some (on_ssl_complete connection_cb)) ec (n, s)) e in
      let same : some (id, t) ≡ session' = cc done in subst (λ o. Known o n') same tt
  Known-shake_session connection_cb ec n n' none session' e = absurd (cc e)

  Known-on_handshake :
      (connection_cb : Session → Run Session) (ec : Bool) (c c' : Client)
      → on_handshake connection_cb ec c ≡ ok c'
      → Known c'.session c'.connections
  unfolding on_handshake
  Known-on_handshake connection_cb ec c c' e =
      let ((n, session), shook, done) =
        first_returns _ (shake_session connection_cb ec c.connections c.session) e in
      let same : record c { connections = n; session = session } ≡ c' = cc done in
      subst (λ (t : Client). Known t.session t.connections) same
        (Known-shake_session connection_cb ec c.connections n c.session session shook)

  Known-Step :
      {c c' : Client} → Step c c' → Known c.session c.connections → Known c'.session c'.connections
  unfolding connect on_timer on_connect
  Known-Step connecting h = h
  Known-Step (timed true) h = h
  Known-Step (timed false) h = h
  Known-Step (connected true self) h = h
  Known-Step (connected false self) h = tt
  Known-Step (shaken {c = c} {c' = c'} connection_cb ec e) h =
      Known-on_handshake connection_cb ec c c' e
  Known-Step (session_over {c = c} self) h = Known-on_session_over self c h
  Known-Step (disconnecting {c = c} {c' = c'} d) h = Known-disconnect c.session c c' refl h d

  Reachable-Known : (c : Client) → Reachable c → Known c.session c.connections
  unfolding rpc_client
  Reachable-Known c fresh = refl
  Reachable-Known c (after {c = b} r step) = Known-Step step (Reachable-Known b r)

  disconnect-returns :
      (o : Option (ℕ × Session)) (c : Client)
      → c.session ≡ o
      → Known o c.connections
      → 0 < c.connections
      → (c' : Client) × (disconnect c ≡ ok c')
  disconnect-returns none c e h reported = absurd (omega arith)
  disconnect-returns (some (id, s)) c e h reported = (_, disconnect-some c id s e)

  -- In any state that connecting, the timer, handshakes, the end of a session and disconnecting can
  -- lead to, if a connection has been reported, a further disconnect does not call through a null
  -- pointer, whatever the callback of the connection does.
  pub Reachable-disconnect :
      (c : Client) → Reachable c → 0 < c.connections → (c' : Client) × (disconnect c ≡ ok c')
  Reachable-disconnect c r reported =
      disconnect-returns c.session c refl (Reachable-Known c r) reported
