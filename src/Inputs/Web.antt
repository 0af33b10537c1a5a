-- ===== src/Inputs/Web.antt =====
-- What Boost.Beast does for the responses of the HTTP server, and a file system of two files.
use boost_practice.Base.{
  ℕ, refl, Bool, true, not, List, map, Option, none, some, same_text, same_text_iff, text,
  if◌then◌else◌, ap,
}
use boost_practice.Http.Library.{HttpLibrary, Opened, opened, missing, size, lower}

abbrev pub ends_stream : Option ℕ → Bool → Bool
ends_stream none keep_alive = true
ends_stream (some n) keep_alive = not keep_alive

instance abbrev pub http_library : HttpLibrary
http_library = record {
  version_string = text "Boost.Beast/181";
  iequals = λ a b. same_text (map lower a) (map lower b);
  prepare_payload = λ r. record r { content_length = some (size r.body) };
  need_eof = λ r. ends_stream r.content_length r.keep_alive;
  iequals_iff = λ a b. same_text_iff (map lower a) (map lower b);
  prepare_payload_lem = λ r. refl;
  need_eof_lem = λ r n e. ap (λ o. ends_stream o r.keep_alive) e;
}

-- The document root "/w" with two files.
abbrev pub files : List ℕ → Opened
files path =
    if same_text path (text "/w/index.html")
    then opened (text "hi")
    else if same_text path (text "/w/a.PNG")
    then opened (text "x")
    else missing
