-- ===== src/Http/Request/Answers.antt =====
-- Every request has exactly one kind of answer.
use boost_practice.Base.{
  ℕ, ◌≡◌, refl, ap, ◌∙◌, Bool, true, false, not, List, ◌++◌, some, text, Bool-cases, inl, inr,
}
use boost_practice.Http.Library.{
  Request, Status, Body, Opened, opened, missing, failed, Response, size, HttpLibrary,
}
use boost_practice.Http.Files.{is_illegal, path_of}
use boost_practice.Http.Mime.{mime_type}
use boost_practice.Http.Request.{
  is_get_or_head, bad_request, not_found, found, answer_opened, handle_request,
}

module _ ⦃lib : HttpLibrary⦄ where
  open lib use {prepare_payload, prepare_payload_lem, need_eof, need_eof_lem}

  -- What a response says, with the length of its body.
  pub record Says (r : Response) (status : Status) (type : List ℕ) (keep_alive : Bool) (body : Body)
      : Type 0 where
    pub has_status : r.status ≡ status
    pub has_type : r.content_type ≡ type
    pub has_keep_alive : r.keep_alive ≡ keep_alive
    pub has_body : r.body ≡ body
    pub has_length : r.content_length ≡ some (size body)
    pub ends : need_eof r ≡ not keep_alive

  prepared : (r : Response) → Says (prepare_payload r) r.status r.content_type r.keep_alive r.body
  prepared r =
      let e = prepare_payload_lem r in
      let sized : (prepare_payload r).content_length ≡ some (size r.body) =
        ap (λ (t : Response). t.content_length) e in
      record {
        has_status = ap (λ (t : Response). t.status) e;
        has_type = ap (λ (t : Response). t.content_type) e;
        has_keep_alive = ap (λ (t : Response). t.keep_alive) e;
        has_body = ap (λ (t : Response). t.body) e;
        has_length = sized;
        ends =
            need_eof_lem (prepare_payload r) (size r.body) sized
            ∙ ap (λ (t : Response). not t.keep_alive) e;
      }

  module _ (doc_root : List ℕ) (files : List ℕ → Opened) where
    -- How a request is answered, and when.
    pub data Answer (req : Request) (r : Response) : Type 0 where
      unknown_method :
          is_get_or_head req.method ≡ false
          → Says r Status.bad_request
              (text "text/html")
              req.keep_alive
              (Body.string (text "An error occurred: 'Unknown http method'"))
          → Answer req r
      illegal_target :
          is_get_or_head req.method ≡ true
          → is_illegal req.target ≡ true
          → Says r Status.bad_request
              (text "text/html")
              req.keep_alive
              (Body.string (text "An error occurred: 'Illegal request-target'"))
          → Answer req r
      no_file :
          is_get_or_head req.method ≡ true
          → is_illegal req.target ≡ false
          → files (path_of doc_root req.target) ≡ missing
          → Says r Status.not_found
              (text "text/html")
              false
              (Body.string (req.target ++ text " is not found"))
          → Answer req r
      sent_file :
          {content : List ℕ}
          → is_get_or_head req.method ≡ true
          → is_illegal req.target ≡ false
          → files (path_of doc_root req.target) ≡ opened content
          → Says r Status.ok
              (mime_type (path_of doc_root req.target))
              req.keep_alive
              (Body.file content)
          → Answer req r
      unreadable_file :
          is_get_or_head req.method ≡ true
          → is_illegal req.target ≡ false
          → files (path_of doc_root req.target) ≡ failed
          → Says r Status.ok (mime_type (path_of doc_root req.target)) req.keep_alive Body.unopened
          → Answer req r

    answer_opened_lem :
        (req : Request) (o : Opened)
        → is_get_or_head req.method ≡ true
        → is_illegal req.target ≡ false
        → files (path_of doc_root req.target) ≡ o
        → Answer req (answer_opened req (path_of doc_root req.target) o)
    unfolding found not_found
    answer_opened_lem req (opened content) g l e = sent_file g l e (prepared _)
    answer_opened_lem req missing g l e = no_file g l e (prepared _)
    answer_opened_lem req failed g l e = unreadable_file g l e (prepared _)

    -- A request is refused for its method, then for its target; else the file that it names decides:
    -- its content is sent with the type of its name, or it is reported as not found and the
    -- connection closed, or, if it cannot be opened for another reason, a body that is not open is
    -- sent as if it were the file. Each response has the length of its body.
    pub handle_request_lem : (req : Request) → Answer req (handle_request doc_root files req)
    unfolding handle_request bad_request
    handle_request_lem req = elim (Bool-cases (is_get_or_head req.method)) [
      | inl good ↦ elim (Bool-cases (is_illegal req.target)) [
        | inl refused ↦ rw (good, refused) (illegal_target good refused (prepared _))
        | inr legal ↦
            rw (good, legal)
              (answer_opened_lem req (files (path_of doc_root req.target)) good legal refl)
      ]
      | inr bad ↦ rw bad (unknown_method bad (prepared _))
    ]
