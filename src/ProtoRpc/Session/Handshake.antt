-- ===== src/ProtoRpc/Session/Handshake.antt =====
-- proto_rpc/lib/rpc_session.cpp: a session from its handshake on, as a relation on its states that
-- goes by phases: what it reads, and when it reports its end.
use boost_practice.Base.{
  none, ℕ, ◌+◌, ◌≤◌, ◌<◌, ◌≡◌, refl, ◌∙◌, subst, Bool, true, false, List, Option, Run, ok,
  first_returns, inl, inr, arith,
}
use boost_practice.Buffer.{BufferApi}
use boost_practice.ProtoRpc.Message.{RpcLibrary}
use boost_practice.ProtoRpc.Codec.{Reader}
use boost_practice.ProtoRpc.Session.{
  Service, Session, rpc_session, set_services, disconnect, call_method, on_read, do_read,
}
use boost_practice.ProtoRpc.Session.Start.{do_handshake, run, ssl_complete, on_handshake}
use boost_practice.ProtoRpc.Session.Kept.Reads.{
  disconnect-Stays, call_method-Stays, Completes, on_read-Completes,
}
use boost_practice.ProtoRpc.Session.Kept.{Stays}

-- Made, with its handshake under way, and then with a handshake that has succeeded or failed.
pub data Phase : Type 0 where
  made shaking begun failed : Phase

module _ ⦃api : BufferApi⦄ ⦃lib : RpcLibrary⦄ where
  -- The callback of the handshake calls the session's public operations at most.
  abbrev pub IsApart : {A : Type 0} → Option (Bool → A × Session → Run (A × Session)) → Type 0
  IsApart {A} callback =
      (succeed : Bool) (a a' : A) (s s' : Session)
      → ssl_complete callback succeed (a, s) ≡ ok (a', s')
      → Stays s s'

  -- Before the handshake has succeeded nothing is read, and where it has failed nothing ever is, nor
  -- is an end reported. After that there is one read under way, until one end has been reported.
  abbrev pub Reads : Phase → Session → Type 0
  Reads Phase.begun s = (s.reads + s.overs ≡ s.cancels + 1) × (s.overs ≤ 1)
  Reads _ s = (s.reads ≡ 0) × (s.cancels ≡ 0) × (s.overs ≡ 0)

  pub none-IsApart : {A : Type 0} → IsApart {A = A} none
  unfolding ssl_complete
  none-IsApart succeed a a' s s' e =
      let same : s ≡ s' = cc e in subst (Stays s) same (refl, refl, refl)

  Stays-Reads : (p : Phase) (s s' : Session) → Stays s s' → Reads p s → Reads p s'
  Stays-Reads Phase.made s s' k h = (k.0 ∙ h.0, k.1 ∙ h.1, k.2 ∙ h.2)
  Stays-Reads Phase.shaking s s' k h = (k.0 ∙ h.0, k.1 ∙ h.1, k.2 ∙ h.2)
  Stays-Reads Phase.failed s s' k h = (k.0 ∙ h.0, k.1 ∙ h.1, k.2 ∙ h.2)
  Stays-Reads Phase.begun s s' k h = (omega (arith, k.0, k.1, k.2, h.0), omega (arith, k.2, h.1))

  -- The event loop completes a handshake or a read that is under way once.
  pub data Reachable : Phase → Reader Session → Type 1 where
    fresh : Reachable Phase.made (record { input_buffer = api.create; owner = rpc_session })
    running :
        {r : Reader Session} (is_server : Bool)
        → Reachable Phase.made r
        → Reachable Phase.shaking (record r { owner = run is_server r.owner })
    refused :
        {r : Reader Session} {s' : Session} {A : Type 0} (a a' : A)
        (callback : Option (Bool → A × Session → Run (A × Session)))
        → Reachable Phase.shaking r
        → IsApart callback
        → on_handshake callback true (a, r.owner) ≡ ok (a', s')
        → Reachable Phase.failed (record r { owner = s' })
    shaken :
        {r : Reader Session} {s' : Session} {A : Type 0} (a a' : A)
        (callback : Option (Bool → A × Session → Run (A × Session)))
        → Reachable Phase.shaking r
        → IsApart callback
        → on_handshake callback false (a, r.owner) ≡ ok (a', s')
        → Reachable Phase.begun (record r { owner = s' })
    calling :
        {p : Phase} {r : Reader Session} {s' : Session} (service method request : List ℕ)
        (object closure : Option ℕ)
        → Reachable p r
        → call_method service method request object closure r.owner ≡ ok s'
        → Reachable p (record r { owner = s' })
    serving :
        {p : Phase} {r : Reader Session} (services : Option (List (List ℕ × Service)))
        → Reachable p r
        → Reachable p (record r { owner = set_services services r.owner })
    disconnecting :
        {p : Phase} {r : Reader Session}
        → Reachable p r
        → Reachable p (record r { owner = disconnect r.owner })
    reading :
        {p : Phase} {r r' : Reader Session} (ec : Bool) (bytes : ℕ) (read_buffer : List ℕ)
        → Reachable p r
        → r.owner.cancels < r.owner.reads
        → on_read ec bytes read_buffer r ≡ ok r'
        → Reachable p r'

  Completes-Reads :
      (p : Phase) (s s' : Session) → Completes s s' → s.cancels < s.reads → Reads p s → Reads p s'
  Completes-Reads Phase.made s s' c waits h = absurd (omega (arith, waits, h.0))
  Completes-Reads Phase.shaking s s' c waits h = absurd (omega (arith, waits, h.0))
  Completes-Reads Phase.failed s s' c waits h = absurd (omega (arith, waits, h.0))
  Completes-Reads Phase.begun s s' (c, inl (k, l)) waits (h, few) = (omega arith, omega arith)
  Completes-Reads Phase.begun s s' (c, inr (k, l)) waits (h, few) = (omega arith, omega arith)

  shaken-Reads :
      {A : Type 0} (a a' : A) (s s' : Session)
      (callback : Option (Bool → A × Session → Run (A × Session)))
      → IsApart callback
      → on_handshake callback false (a, s) ≡ ok (a', s')
      → Reads Phase.shaking s
      → Reads Phase.begun s'
  unfolding on_handshake do_read
  shaken-Reads a a' s s' callback apart e h =
      let ((b, t), called, done) = first_returns _ (ssl_complete callback true (a, s)) e in
      let same : do_read t ≡ s' = cc done in
      let k = apart true a b s t called in
      subst (Reads Phase.begun) same
        (omega (arith, k.0, k.1, k.2, h.0, h.1, h.2), omega (arith, k.2, h.2))

  refused-Reads :
      {A : Type 0} (a a' : A) (s s' : Session)
      (callback : Option (Bool → A × Session → Run (A × Session)))
      → IsApart callback
      → on_handshake callback true (a, s) ≡ ok (a', s')
      → Reads Phase.shaking s
      → Reads Phase.failed s'
  unfolding on_handshake
  refused-Reads a a' s s' callback apart e h =
      Stays-Reads Phase.failed s s' (apart false a a' s s' e) h

  run-Reads :
      (is_server : Bool) (s : Session) → Reads Phase.made s → Reads Phase.shaking (run is_server s)
  unfolding run do_handshake
  run-Reads true s h = h
  run-Reads false s h = h

  -- Whatever is called on a session, and whatever its peer sends, it reads nothing before its
  -- handshake has succeeded; from then on one read is under way, until one end of the session has
  -- been reported, and none is reported twice; and a session whose handshake has failed never reads
  -- and never reports its end.
  pub Reachable-Reads : (p : Phase) (r : Reader Session) → Reachable p r → Reads p r.owner
  unfolding rpc_session set_services
  Reachable-Reads p r fresh = (refl, refl, refl)
  Reachable-Reads p r (running {r = q} is_server h) =
      run-Reads is_server q.owner (Reachable-Reads Phase.made q h)
  Reachable-Reads p r (refused {r = q} {s' = s'} a a' callback h apart e) =
      refused-Reads a a' q.owner s' callback apart e (Reachable-Reads Phase.shaking q h)
  Reachable-Reads p r (shaken {r = q} {s' = s'} a a' callback h apart e) =
      shaken-Reads a a' q.owner s' callback apart e (Reachable-Reads Phase.shaking q h)
  Reachable-Reads p r (calling {r = q} {s' = s'} service method request object closure h e) =
      Stays-Reads p q.owner s'
        (call_method-Stays service method request object closure q.owner s' e)
        (Reachable-Reads p q h)
  Reachable-Reads p r (serving {r = q} services h) =
      Stays-Reads p q.owner (set_services services q.owner) (refl, refl, refl)
        (Reachable-Reads p q h)
  Reachable-Reads p r (disconnecting {r = q} h) =
      Stays-Reads p q.owner (disconnect q.owner) (disconnect-Stays q.owner) (Reachable-Reads p q h)
  Reachable-Reads p r (reading {r = q} ec bytes read_buffer h waits e) =
      Completes-Reads p q.owner r.owner (on_read-Completes ec bytes read_buffer q r e) waits
        (Reachable-Reads p q h)
