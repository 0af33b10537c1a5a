-- ===== src/ProtoRpc/Server/Handshakes.antt =====
-- proto_rpc/lib/rpc_server.cpp: what the end of a handshake does to the sessions that are held.
use boost_practice.Base.{
  if◌then◌else◌, ◌≢◌, refl, Bool, true, false, Bool-cases, inl, inr, ℕ, ◌≡◌, true, false, List, [],
  ◌∷◌, ◌++◌, All, ok, ◌==◌, arith,
}
use boost_practice.Buffer.{BufferApi}
use boost_practice.ProtoRpc.Session.{Session, do_read}
use boost_practice.ProtoRpc.Session.Start as Start
use boost_practice.ProtoRpc.Server.{
  Server, erase_session, register_service, on_accept, on_session_over, do_accept, shake_session,
  on_handshake,
}
use boost_practice.ProtoRpc.Server.Registry.{Event, registered, accepted, over, handle}

module _ ⦃api : BufferApi⦄ where
  -- None of these has this address.
  abbrev pub Without : ℕ → List (ℕ × Session) → Type 0
  Without self xs = All (λ x. (x.0 == self) ≡ false) xs

  shake_true : (self : ℕ) (xs : List (ℕ × Session)) → shake_session true self xs ≡ ok xs
  unfolding Start.on_handshake Start.ssl_complete
  shake_true self [] = refl
  shake_true self ((id, s) ∷ rest) = elim (Bool-cases (id == self)) [
    | inl hit ↦ rw hit refl
    | inr miss ↦ rw (miss, shake_true self rest) refl
  ]

  shake_false :
      (self : ℕ) (before : List (ℕ × Session)) (s : Session) (after : List (ℕ × Session))
      → Without self before
      → shake_session false self (before ++ (self, s) ∷ after)
        ≡ ok (before ++ (self, do_read s) ∷ after)
  unfolding Start.on_handshake Start.ssl_complete
  shake_false self [] s after h = let e : (self == self) ≡ true = ground arith in rw e
  shake_false self ((id, t) ∷ before) s after h = rw (h.0, shake_false self before s after h.1)

  -- A handshake that succeeds starts the first read of its session and changes nothing else; one
  -- that fails changes nothing, so that the server holds its session on.
  pub on_handshake_lem :
      (self : ℕ) (v : Server) (before : List (ℕ × Session)) (s : Session)
      (after : List (ℕ × Session))
      → v.sessions ≡ before ++ (self, s) ∷ after
      → Without self before
      → (on_handshake false self v
          ≡ ok (record v { sessions = before ++ (self, do_read s) ∷ after }))
        × (on_handshake true self v ≡ ok v)
  unfolding on_handshake
  on_handshake_lem self v before s after e h =
      (rw (e, shake_false self before s after h), rw (shake_true self v.sessions))

  -- Whether a session is held.
  abbrev pub holds : ℕ → List (ℕ × Session) → Bool
  holds self [] = false
  holds self ((id, s) ∷ rest) = if id == self then true else holds self rest

  holds-push :
      (self id : ℕ) (t : Session) (xs : List (ℕ × Session))
      → holds self xs ≡ true
      → holds self (xs ++ (id, t) ∷ []) ≡ true
  holds-push self id t [] h = absurd (cc h)
  holds-push self id t ((j, s) ∷ rest) h = elim (Bool-cases (j == self)) [
    | inl hit ↦ rw hit refl
    | inr miss ↦ rw miss (holds-push self id t rest (rw miss at h))
  ]

  holds-erase :
      (self id : ℕ) (xs : List (ℕ × Session))
      → id ≢ self
      → holds self xs ≡ true
      → holds self (erase_session id xs) ≡ true
  holds-erase self id [] ne h = absurd (cc h)
  holds-erase self id ((j, s) ∷ rest) ne h = elim (Bool-cases (j == id)) [
    | inl hit ↦ let other : (j == self) ≡ false = ground arith in rw hit (rw other at h)
    | inr miss ↦ rw miss (elim (Bool-cases (j == self)) [
      | inl own ↦ rw own refl
      | inr other ↦ rw other (holds-erase self id rest ne (rw other at h))
    ])
  ]

  -- An event that is not the end of this session.
  abbrev pub Spares : ℕ → Event → Type 0
  Spares self (over id) = id ≢ self
  Spares self e = Unit {0}

  abbrev pub handle_all : List Event → Server → Server
  handle_all [] v = v
  handle_all (e ∷ es) v = handle_all es (handle e v)

  handle-holds :
      (self : ℕ) (e : Event) (v : Server)
      → Spares self e
      → holds self v.sessions ≡ true
      → holds self (handle e v).sessions ≡ true
  unfolding register_service on_accept on_session_over do_accept
  handle-holds self (registered name service) v h held = held
  handle-holds self (accepted true id) v h held = held
  handle-holds self (accepted false id) v h held = holds-push self id _ v.sessions held
  handle-holds self (over id) v h held = holds-erase self id v.sessions h held

  handle_all-holds :
      (self : ℕ) (es : List Event) (v : Server)
      → All (Spares self) es
      → holds self v.sessions ≡ true
      → holds self (handle_all es v).sessions ≡ true
  handle_all-holds self [] v h held = held
  handle_all-holds self (e ∷ es) v h held =
      handle_all-holds self es (handle e v) h.1 (handle-holds self e v h.0 held)

  -- A session that is held and whose handshake fails is held on, whatever is registered, accepted
  -- and ended after it, as long as its own end is not reported.
  pub on_handshake_leaks :
      (self : ℕ) (v : Server) (es : List Event)
      → holds self v.sessions ≡ true
      → All (Spares self) es
      → (v' : Server) × (on_handshake true self v ≡ ok v')
        × (holds self (handle_all es v').sessions ≡ true)
  unfolding on_handshake
  on_handshake_leaks self v es held h =
      (v, rw (shake_true self v.sessions) refl, handle_all-holds self es v h held)
