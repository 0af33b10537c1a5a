-- ===== src/Http/Session/Conversation.antt =====
-- A session against its specification: the answers that it owes to a sequence of requests.
use boost_practice.Base.{
  ℕ, ◌+◌, ◌≡◌, refl, sym, ap, ◌∙◌, Bool, true, false, List, [], ◌∷◌, ◌++◌, append_assoc, append-nil,
  Run, ok, ◌>>=◌, if◌then◌else◌, Bool-cases, inl, inr, All,
}
use boost_practice.Http.Library.{Request, Response, Opened, HttpLibrary}
use boost_practice.Http.Request.{handle_request}
use boost_practice.Http.Session.{
  Pending, reading, writing, Session, do_read, shut_down, is_open, send, on_write, received,
  on_read,
}

module _ ⦃lib : HttpLibrary⦄ (files : List ℕ → Opened) where
  -- The answers that are owed: one for each request, up to the first that closes the connection.
  abbrev pub answers : List ℕ → List Request → List Response
  answers root_doc [] = []
  answers root_doc (q ∷ qs) =
      let r = handle_request root_doc files q in
      let rest = answers root_doc qs in r ∷ (if lib.need_eof r then [] else rest)

  -- Whether one of the answers closes the connection.
  abbrev pub closes : List ℕ → List Request → Bool
  closes root_doc [] = false
  closes root_doc (q ∷ qs) =
      let rest = closes root_doc qs in
      if lib.need_eof (handle_request root_doc files q) then true else rest

  -- A write under way completes.
  abbrev complete_write : List Pending → Session → Session
  complete_write (writing r ∷ rest) s =
      on_write false (lib.need_eof r) (record s { pending = rest })
  complete_write _ s = s

  -- A read under way completes with a request, and then the write of its answer completes.
  abbrev pub exchange : List Pending → Request → Session → Run Session
  exchange (reading ∷ rest) q s = on_read files (received q) (record s { pending = rest }) >>= λ t.
      ok (complete_write t.pending t)
  exchange _ q s = ok s

  -- The requests of a client, one after another, as long as the session reads.
  abbrev pub converse : List Request → Session → Run Session
  converse [] s = ok s
  converse (q ∷ qs) s = exchange s.pending q s >>= λ t. converse qs t

  -- The bodies of the answers are open.
  abbrev pub AllOpen : List Response → Type 0
  AllOpen rs = All (λ (r : Response). is_open r.body ≡ ok tt) rs

  module _ (s : Session) (q : Request) (free : s.pending ≡ reading ∷ [])
      (opens : is_open (handle_request s.root_doc files q).body ≡ ok tt) where
    abbrev answer : Response
    answer = handle_request s.root_doc files q

    -- The session once the answer has been given to the socket and has gone out.
    abbrev sent : Session
    sent = record s { pending = []; writes = s.writes ++ answer ∷ [] }

    exchange_lem : exchange s.pending q s ≡ ok (on_write false (lib.need_eof answer) sent)
    unfolding on_read send
    exchange_lem = ap (λ p. exchange p q s) free ∙ rw opens refl

  -- A session that has nothing under way stays as it is.
  converse_closed : (qs : List Request) (s : Session) → s.pending ≡ [] → converse qs s ≡ ok s
  converse_closed [] s e = refl
  converse_closed (q ∷ qs) s e =
      ap (λ p. exchange p q s >>= λ t. converse qs t) e ∙ converse_closed qs s e

  -- A reading session that is sent requests one after another writes exactly the answers that are
  -- owed, in order; it reads on if none of them closes the connection, and else shuts it down once
  -- and does nothing more. The bodies of the answers are open.
  pub converse_refines :
      (qs : List Request) (s : Session)
      → s.pending ≡ reading ∷ []
      → AllOpen (answers s.root_doc qs)
      → (s' : Session) × (converse qs s ≡ ok s')
        × (s'.writes ≡ s.writes ++ answers s.root_doc qs)
        × (s'.pending ≡ (if closes s.root_doc qs then [] else reading ∷ []))
        × (s'.shutdowns ≡ (if closes s.root_doc qs then s.shutdowns + 1 else s.shutdowns))
  unfolding on_write do_read
  converse_refines [] s free opens = (s, refl, sym (append-nil s.writes), free, refl)
  converse_refines (q ∷ qs) s free opens =
      elim (Bool-cases (lib.need_eof (handle_request s.root_doc files q))) [
        | inl last ↦
            let t = shut_down (record s {
              pending = [];
              writes = s.writes ++ handle_request s.root_doc files q ∷ [];
            }) in
            let done : exchange s.pending q s ≡ ok t =
              exchange_lem s q free opens.0 ∙ rw last refl in
            (t, rw done (converse_closed qs t refl), rw last refl, rw last refl, rw last refl)
        | inr more ↦
            let t = do_read (record s {
              pending = [];
              writes = s.writes ++ handle_request s.root_doc files q ∷ [];
            }) in
            let done : exchange s.pending q s ≡ ok t =
              exchange_lem s q free opens.0 ∙ rw more refl in
            let (s', e, wrote, under_way, shut) = converse_refines qs t refl (rw more at opens.1) in
            (
              s',
              rw done e,
              wrote
                  ∙ rw more (
                      append_assoc s.writes (handle_request s.root_doc files q ∷ [])
                        (answers s.root_doc qs)),
              rw more under_way,
              rw more shut,
            )
      ]
