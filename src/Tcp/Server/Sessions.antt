-- ===== src/Tcp/Server/Sessions.antt =====
-- The vector of sessions: the addresses that it holds, in order, and the callbacks of its sessions.
use boost_practice.Base.{
  ℕ, ◌≡◌, refl, ◌∙◌, Bool, true, false, List, [], ◌∷◌, ◌++◌, All, some, none, ok, first_returns,
  for_each, ap, arith, ◌==◌, if◌then◌else◌, Bool-cases, inl, inr, subst,
}
use boost_practice.Buffer.{BufferApi}
use boost_practice.Tcp.Session.{Session, send_message}
use boost_practice.Tcp.Server.{
  Server, erase_session, broadcast, on_session_message, find_session, put_session,
}
use boost_practice.Tcp.Server.Relay.{ids}
use boost_practice.Tcp.Server.Ends.{send_message-Lasts}

-- A list without the first occurrence of an address.
unfoldable pub remove : ℕ → List ℕ → List ℕ
remove self [] = []
remove self (id ∷ rest) = if id == self then rest else id ∷ remove self rest

module _ ⦃api : BufferApi⦄ where
  -- Each session has its `disCb_`.
  abbrev pub Called : List (ℕ × Session) → Type 0
  Called xs = All (λ x. x.1.dis_cb ≡ true) xs

  -- The sessions have these addresses, in this order, and each has its `disCb_`.
  abbrev pub Holds : List ℕ → List (ℕ × Session) → Type 0
  Holds connected xs = (ids xs ≡ connected) × Called xs

  ids-put :
      (self : ℕ) (t : Session) (xs : List (ℕ × Session)) → ids (put_session self t xs) ≡ ids xs
  unfolding put_session
  ids-put self t [] = refl
  ids-put self t ((id, s) ∷ rest) = ground (arith, ids-put self t rest)

  Called-put :
      (self : ℕ) (t : Session) (xs : List (ℕ × Session))
      → t.dis_cb ≡ true
      → Called xs
      → Called (put_session self t xs)
  unfolding put_session
  Called-put self t [] e h = tt
  Called-put self t ((id, s) ∷ rest) e h = elim (Bool-cases (id == self)) [
    | inl hit ↦ rw hit (e, h.1)
    | inr miss ↦ rw miss (h.0, Called-put self t rest e h.1)
  ]

  pub put_session-Holds :
      (connected : List ℕ) (self : ℕ) (t : Session) (xs : List (ℕ × Session))
      → t.dis_cb ≡ true
      → Holds connected xs
      → Holds connected (put_session self t xs)
  put_session-Holds connected self t xs e h = (ids-put self t xs ∙ h.0, Called-put self t xs e h.1)

  ids-erase :
      (self : ℕ) (xs : List (ℕ × Session)) → ids (erase_session self xs) ≡ remove self (ids xs)
  unfolding erase_session remove
  ids-erase self [] = refl
  ids-erase self ((id, s) ∷ rest) = ground (arith, ids-erase self rest)

  Called-erase : (self : ℕ) (xs : List (ℕ × Session)) → Called xs → Called (erase_session self xs)
  unfolding erase_session
  Called-erase self [] h = tt
  Called-erase self ((id, s) ∷ rest) h = elim (Bool-cases (id == self)) [
    | inl hit ↦ rw hit h.1
    | inr miss ↦ rw miss (h.0, Called-erase self rest h.1)
  ]

  pub erase_session-Holds :
      (connected : List ℕ) (self : ℕ) (xs : List (ℕ × Session))
      → Holds connected xs
      → Holds (remove self connected) (erase_session self xs)
  erase_session-Holds connected self xs h =
      (ids-erase self xs ∙ ap (remove self) h.0, Called-erase self xs h.1)

  ids-push :
      (id : ℕ) (s : Session) (xs : List (ℕ × Session))
      → ids (xs ++ (id, s) ∷ []) ≡ ids xs ++ id ∷ []
  ids-push id s [] = refl
  ids-push id s ((j, t) ∷ rest) = ap (λ l. j ∷ l) (ids-push id s rest)

  Called-push :
      (id : ℕ) (s : Session) (xs : List (ℕ × Session))
      → s.dis_cb ≡ true
      → Called xs
      → Called (xs ++ (id, s) ∷ [])
  Called-push id s [] e h = (e, tt)
  Called-push id s ((j, t) ∷ rest) e h = (h.0, Called-push id s rest e h.1)

  pub push-Holds :
      (connected : List ℕ) (id : ℕ) (s : Session) (xs : List (ℕ × Session))
      → s.dis_cb ≡ true
      → Holds connected xs
      → Holds (connected ++ id ∷ []) (xs ++ (id, s) ∷ [])
  push-Holds connected id s xs e h =
      (ids-push id s xs ∙ ap (λ l. l ++ id ∷ []) h.0, Called-push id s xs e h.1)

  one-Called :
      (message : List ℕ) (b : Bool) (s s' : Session)
      → (if b then ok s else send_message message s) ≡ ok s'
      → s.dis_cb ≡ true
      → s'.dis_cb ≡ true
  one-Called message true s s' e h =
      let same : s ≡ s' = cc e in subst (λ (t : Session). t.dis_cb ≡ true) same h
  one-Called message false s s' e h = (send_message-Lasts message s s' e).0 ∙ h

  -- A broadcast keeps the sessions in place.
  broadcast_keeps :
      (message : List ℕ) (self : ℕ) (xs ys : List (ℕ × Session))
      → broadcast message self xs ≡ ok ys
      → Called xs
      → Holds (ids xs) ys
  unfolding broadcast
  broadcast_keeps message self [] ys e h =
      let same : [] ≡ ys = cc e in subst (Holds []) same (refl, tt)
  broadcast_keeps message self ((id, s) ∷ rest) ys e h =
      let (s', one, e1) = first_returns _ (if id == self then ok s else send_message message s) e in
      let (rest', e2, e3) = first_returns _ (broadcast message self rest) e1 in
      let same : (id, s') ∷ rest' ≡ ys = cc e3 in
      let (kept, called) = broadcast_keeps message self rest rest' e2 h.1 in
      subst (Holds (id ∷ ids rest)) same
        (ap (λ l. id ∷ l) kept, (one-Called message (id == self) s s' one h.0, called))

  on_session_message-Holds :
      (connected message : List ℕ) (self : ℕ) (v w : Server)
      → on_session_message message self v ≡ ok w
      → Holds connected v.sessions
      → Holds connected w.sessions
  unfolding on_session_message
  on_session_message-Holds connected message self v w e h =
      let (ys, e1, e2) = first_returns _ (broadcast message self v.sessions) e in
      let same : (record v { sessions = ys }) ≡ w = cc e2 in
      let (kept, called) = broadcast_keeps message self v.sessions ys e1 h.1 in
      subst (λ (t : Server). Holds connected t.sessions) same (kept ∙ h.0, called)

  -- Messages passed on keep the sessions in place.
  pub for_each-Holds :
      (connected : List ℕ) (self : ℕ) (ms : List (List ℕ)) (v w : Server)
      → for_each (λ m t. on_session_message m self t) v ms ≡ ok w
      → Holds connected v.sessions
      → Holds connected w.sessions
  for_each-Holds connected self [] v w e h =
      let same : v ≡ w = cc e in subst (λ (t : Server). Holds connected t.sessions) same h
  for_each-Holds connected self (m ∷ ms) v w e h =
      let (u, e1, e2) = first_returns _ (on_session_message m self v) e in
      for_each-Holds connected self ms u w e2 (on_session_message-Holds connected m self v u e1 h)

  pub find-Called :
      (self : ℕ) (s : Session) (xs : List (ℕ × Session))
      → Called xs
      → find_session self xs ≡ some s
      → s.dis_cb ≡ true
  unfolding find_session
  find-Called self s [] h e = absurd (cc e)
  find-Called self s ((id, t) ∷ rest) h e = elim (Bool-cases (id == self)) [
    | inl hit ↦
        let same : t ≡ s = cc (rw hit at e) in subst (λ (t : Session). t.dis_cb ≡ true) same h.0
    | inr miss ↦ find-Called self s rest h.1 (rw miss at e)
  ]

  -- Removing the address of a session that is not held changes nothing.
  pub remove-absent :
      (self : ℕ) (xs : List (ℕ × Session))
      → find_session self xs ≡ none
      → remove self (ids xs) ≡ ids xs
  unfolding find_session remove
  remove-absent self [] e = refl
  remove-absent self ((id, t) ∷ rest) e = elim (Bool-cases (id == self)) [
    | inl hit ↦ absurd (cc (rw hit at e))
    | inr miss ↦ rw miss (ap (λ l. id ∷ l) (remove-absent self rest (rw miss at e)))
  ]
