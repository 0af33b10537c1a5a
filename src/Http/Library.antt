-- ===== src/Http/Library.antt =====
-- Requests and responses of the HTTP server of beast_practice-1, and what it uses of Boost.Beast.
use boost_practice.Base.{
  ℕ, ◌+◌, ◌≡◌, ◌↔◌, Bool, true, not, ◌&&◌, List, length, map, Option, some, leb, if◌then◌else◌,
}

pub data Method : Type 0 where
  get head other : Method

pub record Request : Type 0 where
  pub method : Method
  pub target : List ℕ
  pub version : ℕ
  pub keep_alive : Bool

pub data Status : Type 0 where
  ok bad_request not_found : Status

-- A `string_body`, or a `file_body` that has been opened, by the content of its file, or one that has
-- not.
pub data Body : Type 0 where
  string : List ℕ → Body
  file : List ℕ → Body
  unopened : Body

-- What `open` does to a `file_body`: `missing` is `no_such_file_or_directory`, `failed` is any other
-- error.
pub data Opened : Type 0 where
  opened : List ℕ → Opened
  missing failed : Opened

pub record Response : Type 0 where
  pub status : Status
  pub version : ℕ
  pub server : List ℕ
  pub content_type : List ℕ
  pub keep_alive : Bool
  pub content_length : Option ℕ
  pub body : Body

-- The size that a body reports.
abbrev pub size : Body → ℕ
size (string s) = length s
size (file content) = length content
size unopened = 0

-- The ASCII letters in lower case.
abbrev pub lower : ℕ → ℕ
lower c = if leb b'A' c && leb c b'Z' then c + 32 else c

-- `iequals` compares ASCII texts whatever the case of their letters; `prepare_payload` sets the
-- length of a body of known size; `need_eof` is whether the end of the message is the end of the
-- stream, which is so for a message of known length exactly if the connection is not kept.
pub record HttpLibrary : Type 0 where
  pub version_string : List ℕ
  pub iequals : List ℕ → List ℕ → Bool
  pub prepare_payload : Response → Response
  pub need_eof : Response → Bool
  pub iequals_iff : (a b : List ℕ) → (iequals a b ≡ true) ↔ (map lower a ≡ map lower b)
  pub prepare_payload_lem :
      (r : Response) → prepare_payload r ≡ record r { content_length = some (size r.body) }
  pub need_eof_lem :
      (r : Response) (n : ℕ) → r.content_length ≡ some n → need_eof r ≡ not r.keep_alive
