-- ===== src/Http/Files.antt =====
-- Which file a request asks for: `path_cat` and the tests of `handle_request` on its target, in
-- beast_practice-1/beast_practice/http_session.cpp.
pub mod Inside
use boost_practice.Base.{
  ℕ, Bool, true, false, not, ◌&&◌, ◌||◌, List, [], ◌∷◌, ◌++◌, ◌==◌, if◌then◌else◌, text,
}

-- `s.back() == c`, for a text that is not empty.
unfoldable pub ends_in : ℕ → List ℕ → Bool
ends_in c [] = false
ends_in c (x ∷ []) = x == c
ends_in c (x ∷ y ∷ ys) = ends_in c (y ∷ ys)

-- `result.resize(result.size() - 1)`.
unfoldable pub drop_last : List ℕ → List ℕ
drop_last [] = []
drop_last (x ∷ []) = []
drop_last (x ∷ y ∷ ys) = x ∷ drop_last (y ∷ ys)

unfoldable pub path_cat : List ℕ → List ℕ → List ℕ
path_cat [] path = path
path_cat (b ∷ bs) path =
    if ends_in b'/' (b ∷ bs) then drop_last (b ∷ bs) ++ path else (b ∷ bs) ++ path

-- `target.find("..") != npos`.
unfoldable pub has_dots : List ℕ → Bool
has_dots [] = false
has_dots (a ∷ []) = false
has_dots (a ∷ b ∷ rest) = ((a == b'.') && (b == b'.')) || has_dots (b ∷ rest)

-- The test that a target is refused by.
unfoldable pub is_illegal : List ℕ → Bool
is_illegal [] = true
is_illegal (c ∷ cs) = not (c == b'/') || has_dots (c ∷ cs)

-- The path that is opened.
unfoldable pub path_of : List ℕ → List ℕ → List ℕ
path_of doc_root target =
    if ends_in b'/' target
    then path_cat doc_root target ++ text "index.html"
    else path_cat doc_root target
