-- ===== src/Http/Session/Exchange.antt =====
-- The life of a session: one operation at a time.
use boost_practice.Base.{
  ℕ, suc, ◌≤◌, ◌≡◌, ap, Bool, true, false, List, [], ◌∷◌, ◌++◌, length, length-append, length_rules,
  ok, arith, first_returns,
}
use boost_practice.Http.Library.{Response, Opened, HttpLibrary}
use boost_practice.Http.Request.{handle_request}
use boost_practice.Http.Session.{
  Pending, reading, writing, Session, http_session, do_read, run, shut_down, is_open, send,
  on_write, Completion, received, end_of_stream, error, on_read,
}

module _ ⦃lib : HttpLibrary⦄ (files : List ℕ → Opened) where
  -- An operation under way completes, and its handler runs. `need_eof` of the response says whether
  -- the connection is closed after it.
  pub data Step (s : Session) (s' : Session) : Type 0 where
    read :
        (before rest : List Pending) (done : Completion)
        → s.pending ≡ before ++ reading ∷ rest
        → on_read files done (record s { pending = before ++ rest }) ≡ ok s'
        → Step s s'
    written :
        (before rest : List Pending) (r : Response) (ec : Bool)
        → s.pending ≡ before ++ writing r ∷ rest
        → s' ≡ on_write ec (lib.need_eof r) (record s { pending = before ++ rest })
        → Step s s'

  pub data Reachable (root_doc : List ℕ) : Session → Type 0 where
    started : Reachable root_doc (run (http_session root_doc))
    after : {s s' : Session} → Reachable root_doc s → Step s s' → Reachable root_doc s'

  removed :
      (before rest : List Pending) (p : Pending)
      → length (before ++ p ∷ rest) ≡ suc (length (before ++ rest))
  removed before rest p = grind length_rules

  abbrev pub AtMostOne : Session → Type 0
  AtMostOne s = length s.pending ≤ 1

  send-pending :
      (r : Response) (s s' : Session)
      → send r s ≡ ok s'
      → length s'.pending ≡ suc (length s.pending)
  unfolding send
  send-pending r s s' e =
      let (_, _, sent) =
        first_returns
          (λ _.
            ok (record s { pending = s.pending ++ writing r ∷ []; writes = s.writes ++ r ∷ [] }))
          (is_open r.body) e in
      let same : record s { pending = s.pending ++ writing r ∷ []; writes = s.writes ++ r ∷ [] }
          ≡ s' =
        cc sent in
      omega (
        arith,
        ap (λ (t : Session). length t.pending) same,
        length-append s.pending (writing r ∷ []),
      )

  on_read-pending :
      (done : Completion) (s s' : Session)
      → on_read files done s ≡ ok s'
      → length s'.pending ≤ suc (length s.pending)
  unfolding on_read
  on_read-pending end_of_stream s s' e =
      let same : shut_down s ≡ s' = cc e in
      omega (arith, ap (λ (t : Session). length t.pending) same)
  on_read-pending error s s' e =
      let same : s ≡ s' = cc e in omega (arith, ap (λ (t : Session). length t.pending) same)
  on_read-pending (received req) s s' e =
      omega (arith, send-pending (handle_request s.root_doc files req) s s' e)

  on_write-pending :
      (ec close : Bool) (s : Session)
      → length (on_write ec close s).pending ≤ suc (length s.pending)
  unfolding on_write do_read
  on_write-pending true close s = omega arith
  on_write-pending false true s = omega arith
  on_write-pending false false s = grind length_rules

  Step-AtMostOne : (s s' : Session) → Step s s' → AtMostOne s → AtMostOne s'
  Step-AtMostOne s s' (read before rest done e h) one = omega (
    arith,
    ap length e,
    removed before rest reading,
    on_read-pending done (record s { pending = before ++ rest }) s' h,
  )
  Step-AtMostOne s s' (written before rest r ec e h) one = omega (
    arith,
    ap length e,
    removed before rest (writing r),
    ap (λ (t : Session). length t.pending) h,
    on_write-pending ec (lib.need_eof r) (record s { pending = before ++ rest }),
  )

  -- Whatever completes, and with whatever result, a session never has two operations on its socket
  -- under way, so that no response is written into another.
  pub Reachable-AtMostOne : (root_doc : List ℕ) (s : Session) → Reachable root_doc s → AtMostOne s
  unfolding run do_read http_session
  Reachable-AtMostOne root_doc s started = omega arith
  Reachable-AtMostOne root_doc s (after {s = b} r step) =
      Step-AtMostOne b s step (Reachable-AtMostOne root_doc b r)
