-- ===== src/ProtoRpc/Session/Life.antt =====
-- A session over its whole life, as a relation on its states: no closure runs twice.
use boost_practice.Base.{
  subst, none, ℕ, ◌+◌, ◌^◌, ◌<◌, ◌≡◌, refl, Bool, true, false, List, Option, some, ok,
}
use boost_practice.Buffer.{BufferApi}
use boost_practice.Pending.{find_call}
use boost_practice.Pending.Laws.{Below}
use boost_practice.ProtoRpc.Message.{RpcLibrary}
use boost_practice.ProtoRpc.Codec.{Reader}
use boost_practice.ProtoRpc.Session.{
  Service, Session, rpc_session, set_services, time_out, disconnect, call_method, on_read, do_read,
}
use boost_practice.ProtoRpc.Session.Start.{do_handshake, run, ssl_complete, on_handshake}
use boost_practice.ProtoRpc.Session.Kept.{Keeps}
use boost_practice.Pending.Once.{Unique, IsNew}
use boost_practice.ProtoRpc.Session.Once.{
  IsOnce, Keeps-IsOnce, on_read-IsOnce, call_method-IsOnce, shut_down-Keeps,
}

module _ ⦃api : BufferApi⦄ ⦃lib : RpcLibrary⦄ where
  -- One operation of the session: a call with a closure of its own, as long as the counter of the
  -- identifiers has not come round, or a read that has completed, with whatever bytes, or the rest.
  -- The calls that the callback of a handshake makes are steps of their own before it.
  pub data Step : Reader Session → Reader Session → Type 0 where
    starting :
        {r : Reader Session} (is_server : Bool)
        → Step r (record r { owner = run is_server r.owner })
    shaken :
        {r : Reader Session} {s' : Session} (ec : Bool)
        → on_handshake {A = Unit {0}} none ec (tt, r.owner) ≡ ok (tt, s')
        → Step r (record r { owner = s' })
    calling :
        {r : Reader Session} {s' : Session} (service method request : List ℕ) (object : Option ℕ)
        (closure : ℕ)
        → r.owner.id + 1 < 2 ^ 32
        → IsNew (λ w. w.done) closure r.owner.req_callbacks r.owner.ran
        → call_method service method request object (some closure) r.owner ≡ ok s'
        → Step r (record r { owner = s' })
    reading :
        {r r' : Reader Session} (ec : Bool) (bytes : ℕ) (read_buffer : List ℕ)
        → on_read ec bytes read_buffer r ≡ ok r'
        → Step r r'
    serving :
        {r : Reader Session} (services : Option (List (List ℕ × Service)))
        → Step r (record r { owner = set_services services r.owner })
    timing : {r : Reader Session} (ec : Bool) → Step r (record r { owner = time_out ec r.owner })
    disconnecting : {r : Reader Session} → Step r (record r { owner = disconnect r.owner })

  pub data Reachable : Reader Session → Type 0 where
    fresh : Reachable (record { input_buffer = api.create; owner = rpc_session })
    after : {r r' : Reader Session} → Reachable r → Step r r' → Reachable r'

  time_out-Keeps : (ec : Bool) (s : Session) → Keeps s (time_out ec s)
  unfolding time_out
  time_out-Keeps true s = (refl, refl, refl)
  time_out-Keeps false s = shut_down-Keeps s s (refl, refl, refl)

  disconnect-Keeps : (s : Session) → Keeps s (disconnect s)
  unfolding disconnect
  disconnect-Keeps s = shut_down-Keeps s s (refl, refl, refl)

  on_handshake-Keeps :
      (ec : Bool) (s s' : Session)
      → on_handshake {A = Unit {0}} none ec (tt, s) ≡ ok (tt, s')
      → Keeps s s'
  unfolding on_handshake ssl_complete do_read
  on_handshake-Keeps true s s' e =
      let same : s ≡ s' = cc e in subst (Keeps s) same (refl, refl, refl)
  on_handshake-Keeps false s s' e =
      let same : do_read s ≡ s' = cc e in subst (Keeps s) same (refl, refl, refl)

  Step-IsOnce : {r r' : Reader Session} → Step r r' → IsOnce r.owner → IsOnce r'.owner
  unfolding run do_handshake set_services
  Step-IsOnce (starting true) h = h
  Step-IsOnce (starting false) h = h
  Step-IsOnce {r} (shaken {s' = s'} ec e) h =
      Keeps-IsOnce r.owner s' (on_handshake-Keeps ec r.owner s' e) h
  Step-IsOnce {r} (calling {s' = s'} service method request object closure room new e) h =
      call_method-IsOnce service method request object closure r.owner s' e room new h
  Step-IsOnce {r} {r'} (reading ec bytes read_buffer e) h =
      on_read-IsOnce ec bytes read_buffer r r' e h
  Step-IsOnce (serving services) h = h
  Step-IsOnce {r} (timing ec) h =
      Keeps-IsOnce r.owner (time_out ec r.owner) (time_out-Keeps ec r.owner) h
  Step-IsOnce {r} disconnecting h =
      Keeps-IsOnce r.owner (disconnect r.owner) (disconnect-Keeps r.owner) h

  Reachable-IsOnce : (r : Reader Session) → Reachable r → IsOnce r.owner
  unfolding rpc_session find_call
  Reachable-IsOnce r fresh = record {
    below = tt;
    unique = tt;
    apart = λ id w c e d. absurd (cc e);
    own = λ id id' w w' c e e' d d'. absurd (cc e);
  }
  Reachable-IsOnce r (after {r = q} rest step) = Step-IsOnce step (Reachable-IsOnce q rest)

  -- Whatever the peer sends, in messages whole or cut, repeated, stray or with errors, and however
  -- the session's own calls come between, each with a closure of its own: no closure runs twice, and
  -- each call still waiting has an identifier of its own, as long as the counter has not come round.
  pub Reachable-Unique :
      (r : Reader Session)
      → Reachable r
      → Unique r.owner.ran × Below r.owner.id r.owner.req_callbacks
  Reachable-Unique r h = let once = Reachable-IsOnce r h in (once.unique, once.below)
