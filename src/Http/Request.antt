-- ===== src/Http/Request.antt =====
-- `handle_request` of beast_practice-1/beast_practice/http_session.cpp: the response that it sends.
-- The file system is an argument, the content that each path has when it is opened.
pub mod Answers
use boost_practice.Base.{
  ℕ, Bool, true, false, not, ◌&&◌, List, [], ◌∷◌, ◌++◌, Option, none, some, if◌then◌else◌, text,
}
use boost_practice.Http.Library.{
  Method, Request, Status, Body, Opened, opened, missing, failed, Response, size, HttpLibrary,
}
use boost_practice.Http.Files.{is_illegal, path_of}
use boost_practice.Http.Mime.{mime_type}

abbrev pub is_get_or_head : Method → Bool
is_get_or_head Method.other = false
is_get_or_head _ = true

module _ ⦃lib : HttpLibrary⦄ where
  open lib use {version_string, prepare_payload}

  unfoldable pub bad_request : Request → List ℕ → Response
  bad_request req why = prepare_payload (record {
    status = Status.bad_request;
    version = req.version;
    server = version_string;
    content_type = text "text/html";
    keep_alive = req.keep_alive;
    content_length = none;
    body = Body.string (text "An error occurred: '" ++ why ++ text "'");
  })

  unfoldable pub not_found : Request → List ℕ → Response
  not_found req path = prepare_payload (record {
    status = Status.not_found;
    version = req.version;
    server = version_string;
    content_type = text "text/html";
    keep_alive = false;
    content_length = none;
    body = Body.string (path ++ text " is not found");
  })

  -- The response with the body that has been opened, or not; its length is set before its payload is
  -- prepared.
  unfoldable pub found : Request → List ℕ → Body → Response
  found req path body = prepare_payload (record {
    status = Status.ok;
    version = req.version;
    server = version_string;
    content_type = mime_type path;
    keep_alive = req.keep_alive;
    content_length = some (size body);
    body = body;
  })

  abbrev pub answer_opened : Request → List ℕ → Opened → Response
  answer_opened req path (opened content) = found req path (Body.file content)
  answer_opened req path missing = not_found req req.target
  answer_opened req path failed = found req path Body.unopened

  unfoldable pub handle_request : List ℕ → (List ℕ → Opened) → Request → Response
  handle_request doc_root files req =
      if not (is_get_or_head req.method)
      then bad_request req (text "Unknown http method")
      else if is_illegal req.target
      then bad_request req (text "Illegal request-target")
      else answer_opened req (path_of doc_root req.target) (files (path_of doc_root req.target))
