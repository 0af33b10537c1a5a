-- ===== src/ProtoRpc/Server/Registry.antt =====
-- What a session finds in the server's map of services.
use boost_practice.Base.{
  none, All, Option, ap, subst, first_returns, ok, ◌∙◌, ℕ, ◌≡◌, refl, Bool, true, false, List, [],
  ◌∷◌, ◌++◌, some, ◌==◌, if◌then◌else◌, same_text, Bool-cases, inl, inr,
}
use boost_practice.Buffer.{BufferApi}
use boost_practice.ProtoRpc.Session.{Service, Session, find_service, set_services, rpc_session}
use boost_practice.ProtoRpc.Session as Sessions
use boost_practice.ProtoRpc.Session.Start as Start
use boost_practice.ProtoRpc.Server.Services.{find-put}
use boost_practice.ProtoRpc.Server.{
  on_handshake, shake_session, Setup, Server, rpc_server, dereference, register_service, on_accept,
  erase_session, on_session_over, do_accept,
}

-- The service that has last been registered under a name, where the newest registration comes first.
unfoldable pub latest : List ℕ → List (List ℕ × Service) → Option Service
latest name [] = none
latest name ((key, service) ∷ earlier) =
    if same_text key name then some service else latest name earlier

module _ ⦃api : BufferApi⦄ where
  -- What happens to a server.
  pub data Event : Type 0 where
    registered : List ℕ → Service → Event
    accepted : Bool → ℕ → Event
    over : ℕ → Event

  abbrev pub handle : Event → Server → Server
  handle (registered name service) v = register_service name service v
  handle (accepted ec self) v = on_accept ec self v
  handle (over self) v = on_session_over self v

  -- The registrations, the newest first.
  abbrev pub note : Event → List (List ℕ × Service) → List (List ℕ × Service)
  note (registered name service) done = (name, service) ∷ done
  note (accepted ec self) done = done
  note (over self) done = done

  -- The servers that come about from the constructor, each with the registrations that have been made.
  pub data Reachable (fails : Setup → Bool) : List (List ℕ × Service) → Server → Type 0 where
    fresh : Reachable fails [] (rpc_server fails)
    after :
        {done : List (List ℕ × Service)} {v : Server} (e : Event)
        → Reachable fails done v
        → Reachable fails (note e done) (handle e v)
    shaken :
        {done : List (List ℕ × Service)} {v v' : Server} (ec : Bool) (self : ℕ)
        → Reachable fails done v
        → on_handshake ec self v ≡ ok v'
        → Reachable fails done v'

  -- The session has been given a pointer to the services.
  abbrev Points : Session → Type 0
  Points s = (services : List (List ℕ × Service)) × (s.services ≡ some services)

  abbrev AllPoint : List (ℕ × Session) → Type 0
  AllPoint xs = All (λ x. Points x.1) xs

  -- The registered services are those of the registrations.
  abbrev Registers : List (List ℕ × Service) → Server → Type 0
  Registers done v = (name : List ℕ) → find_service name v.services ≡ latest name done

  push-AllPoint :
      (id : ℕ) (s : Session) (xs : List (ℕ × Session))
      → Points s
      → AllPoint xs
      → AllPoint (xs ++ (id, s) ∷ [])
  push-AllPoint id s [] e h = (e, tt)
  push-AllPoint id s ((j, t) ∷ rest) e h = (h.0, push-AllPoint id s rest e h.1)

  erase-AllPoint :
      (self : ℕ) (xs : List (ℕ × Session)) → AllPoint xs → AllPoint (erase_session self xs)
  erase-AllPoint self [] h = tt
  erase-AllPoint self ((id, s) ∷ rest) h = elim (Bool-cases (id == self)) [
    | inl hit ↦ rw hit h.1
    | inr miss ↦ rw miss (h.0, erase-AllPoint self rest h.1)
  ]

  new_session-Points :
      (services : List (List ℕ × Service))
      → Points (Start.run true (set_services (some services) rpc_session))
  unfolding Start.run Start.do_handshake set_services
  new_session-Points services = (services, refl)

  handle-AllPoint : (e : Event) (v : Server) → AllPoint v.sessions → AllPoint (handle e v).sessions
  unfolding register_service on_accept on_session_over do_accept
  handle-AllPoint (registered name service) v h = h
  handle-AllPoint (accepted true self) v h = h
  handle-AllPoint (accepted false self) v h =
      push-AllPoint self (Start.run true (set_services (some v.services) rpc_session)) v.sessions
        (new_session-Points v.services) h
  handle-AllPoint (over self) v h = erase-AllPoint self v.sessions h

  handle-Registers :
      (e : Event) (done : List (List ℕ × Service)) (v : Server)
      → Registers done v
      → Registers (note e done) (handle e v)
  unfolding register_service on_accept on_session_over do_accept latest
  handle-Registers (registered name service) done v h other =
      find-put name other service v.services
      ∙ ap (λ o. if same_text name other then some service else o) (h other)
  handle-Registers (accepted true self) done v h other = h other
  handle-Registers (accepted false self) done v h other = h other
  handle-Registers (over self) done v h other = h other

  one-Points :
      (ec : Bool) (s s' : Session)
      → Start.on_handshake {A = Unit {0}} none ec (tt, s) ≡ ok (tt, s')
      → Points s
      → Points s'
  unfolding Start.on_handshake Start.ssl_complete Sessions.do_read
  one-Points true s s' e h = let same : s ≡ s' = cc e in subst Points same h
  one-Points false s s' e h = let same : Sessions.do_read s ≡ s' = cc e in subst Points same h

  shake_session-AllPoint :
      (ec : Bool) (self : ℕ) (xs ys : List (ℕ × Session))
      → AllPoint xs
      → shake_session ec self xs ≡ ok ys
      → AllPoint ys
  shake_session-AllPoint ec self [] ys h e = let same : [] ≡ ys = cc e in subst AllPoint same tt
  shake_session-AllPoint ec self ((id, s) ∷ rest) ys h e = elim (Bool-cases (id == self)) [
    | inl hit ↦
        let ((_, s'), shook, done) =
          first_returns _ (Start.on_handshake {A = Unit {0}} none ec (tt, s)) (rw hit at e) in
        let same : (id, s') ∷ rest ≡ ys = cc done in
        subst AllPoint same (one-Points ec s s' shook h.0, h.1)
    | inr miss ↦
        let (zs, more, done) = first_returns _ (shake_session ec self rest) (rw miss at e) in
        let same : (id, s) ∷ zs ≡ ys = cc done in
        subst AllPoint same (h.0, shake_session-AllPoint ec self rest zs h.1 more)
  ]

  -- The pointers are set, and the registered services are those of the registrations.
  abbrev IsServing : List (List ℕ × Service) → Server → Type 0
  IsServing done v = AllPoint v.sessions × Registers done v

  on_handshake-IsServing :
      (done : List (List ℕ × Service)) (ec : Bool) (self : ℕ) (v v' : Server)
      → IsServing done v
      → on_handshake ec self v ≡ ok v'
      → IsServing done v'
  unfolding on_handshake
  on_handshake-IsServing done ec self v v' (h, k) e =
      let (xs, shook, ended) = first_returns _ (shake_session ec self v.sessions) e in
      let same : record v { sessions = xs } ≡ v' = cc ended in
      subst (IsServing done) same (shake_session-AllPoint ec self v.sessions xs h shook, k)

  Reachable-IsServing :
      (fails : Setup → Bool) (done : List (List ℕ × Service)) (v : Server)
      → Reachable fails done v
      → IsServing done v
  unfolding rpc_server latest
  Reachable-IsServing fails done v fresh = (tt, λ name. refl)
  Reachable-IsServing fails done v (after {done = earlier} {v = w} e r) =
      let (h, k) = Reachable-IsServing fails earlier w r in
      (handle-AllPoint e w h, handle-Registers e earlier w k)
  Reachable-IsServing fails done v (shaken {v = w} ec self r e) =
      on_handshake-IsServing done ec self w v (Reachable-IsServing fails done w r) e

  -- A session that finds, under any name, the service last registered under it, and nothing where
  -- there is none.
  abbrev pub FindsLatest : List (List ℕ × Service) → Session → Type 0
  FindsLatest done s =
      (services : List (List ℕ × Service)) × (s.services ≡ some services)
      × ((name : List ℕ) → find_service name services ≡ latest name done)

  dereference-FindsLatest :
      (done : List (List ℕ × Service)) (v : Server) (xs : List (ℕ × Session))
      → Registers done v
      → AllPoint xs
      → All (λ x. FindsLatest done (dereference v x.1)) xs
  unfolding dereference set_services
  dereference-FindsLatest done v [] k h = tt
  dereference-FindsLatest done v ((id, s) ∷ rest) k h =
      ((v.services, rw h.0.1 refl, k), dereference-FindsLatest done v rest k h.1)

  next_session :
      (done : List (List ℕ × Service)) (v : Server) (self : ℕ)
      → Registers done v
      → (s : Session) × ((on_accept false self v).sessions ≡ v.sessions ++ (self, s) ∷ [])
        × FindsLatest done s
  unfolding on_accept do_accept Start.run Start.do_handshake set_services
  next_session done v self k =
      (Start.run true (set_services (some v.services) rpc_session), refl, (v.services, refl, k))

  -- However registrations, connections, handshakes and ends of sessions follow one another, every
  -- session that the server holds finds, through its pointer and under any name, the service that has
  -- last been registered under that name, before or after the session was accepted, and nothing under
  -- a name that has not been registered; and a session that is accepted next is given the map in which
  -- it finds the same.
  pub Reachable-FindsLatest :
      (fails : Setup → Bool) (done : List (List ℕ × Service)) (v : Server)
      → Reachable fails done v
      → (All (λ x. FindsLatest done (dereference v x.1)) v.sessions)
        × ((self : ℕ)
            → (s : Session) × ((on_accept false self v).sessions ≡ v.sessions ++ (self, s) ∷ [])
              × FindsLatest done s)
  Reachable-FindsLatest fails done v r =
      let (h, k) = Reachable-IsServing fails done v r in
      (dereference-FindsLatest done v v.sessions k h, λ self. next_session done v self k)
