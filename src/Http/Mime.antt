-- ===== src/Http/Mime.antt =====
-- `mime_type` of beast_practice-1/beast_practice/http_session.cpp.
pub mod Types
use boost_practice.Base.{ℕ, List, [], ◌∷◌, Option, none, some, ◌==◌, if◌then◌else◌, text}
use boost_practice.Http.Library.{HttpLibrary}

-- `path.substr(path.rfind("."))`.
unfoldable pub from_last_dot : List ℕ → Option (List ℕ)
from_last_dot [] = none
from_last_dot (c ∷ cs) = elim (from_last_dot cs) [
  | some ext ↦ some ext
  | none ↦ if c == b'.' then some (c ∷ cs) else none
]

unfoldable pub extension : List ℕ → List ℕ
extension path = elim (from_last_dot path) [ none ↦ [] | some ext ↦ ext ]

-- The tests on the extension, in order.
abbrev pub table : List (List ℕ × List ℕ)
table =
    (text ".htm", text "text/html")
    ∷ (text ".html", text "text/html")
    ∷ (text ".php", text "text/html")
    ∷ (text ".css", text "text/css")
    ∷ (text ".txt", text "text/plain")
    ∷ (text ".js", text "application/javascript")
    ∷ (text ".json", text "application/json")
    ∷ (text ".xml", text "application/xml")
    ∷ (text ".swf", text "application/x-shockwave-flash")
    ∷ (text ".flv", text "video/x-flv")
    ∷ (text ".png", text "image/png")
    ∷ (text ".jpe", text "image/jpeg")
    ∷ (text ".jpeg", text "image/jpeg")
    ∷ (text ".jpg", text "image/jpeg")
    ∷ (text ".gif", text "image/gif")
    ∷ (text ".bmp", text "image/bmp")
    ∷ (text ".ico", text "image/vnd.microsoft.icon")
    ∷ (text ".tiff", text "image/tiff")
    ∷ (text ".tif", text "image/tiff")
    ∷ (text ".svg", text "image/svg+xml")
    ∷ (text ".svgz", text "image/svg+xml")
    ∷ []

module _ ⦃lib : HttpLibrary⦄ where
  unfoldable pub choose : List ℕ → List (List ℕ × List ℕ) → List ℕ
  choose ext [] = text "application/text"
  choose ext ((key, type) ∷ rest) = if lib.iequals ext key then type else choose ext rest

  unfoldable pub mime_type : List ℕ → List ℕ
  mime_type path = choose (extension path) table
