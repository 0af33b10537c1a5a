-- ===== src/Http/Mime/Types.antt =====
-- The type of a file is that of its extension, whatever the case of the letters.
use boost_practice.Base.{
  zero, suc, ℕ, ◌≡◌, ◌≢◌, refl, sym, ap, ◌∙◌, Bool, true, List, [], ◌∷◌, ◌++◌, map, none, some,
  if◌then◌else◌, text, All, same_text, same_text_iff, get_elem?, Bool-cases, inl, inr, arith, ◌&&◌,
}
use boost_practice.Http.Library.{HttpLibrary, lower}
use boost_practice.Http.Mime.{from_last_dot, extension, table, choose, mime_type}

abbrev pub NoDot : List ℕ → Type 0
NoDot cs = All (λ c. c ≢ b'.') cs

from_last_dot-NoDot : (cs : List ℕ) → NoDot cs → from_last_dot cs ≡ none
unfolding from_last_dot
from_last_dot-NoDot [] n = refl
from_last_dot-NoDot (c ∷ cs) n = ground (arith, from_last_dot-NoDot cs n.1)

from_last_dot-append :
    (stem cs : List ℕ) → NoDot cs → from_last_dot (stem ++ b'.' ∷ cs) ≡ some (b'.' ∷ cs)
unfolding from_last_dot
from_last_dot-append [] cs n = rw (from_last_dot-NoDot cs n) refl
from_last_dot-append (c ∷ stem) cs n = rw (from_last_dot-append stem cs n) refl

extension-append : (stem cs : List ℕ) → NoDot cs → extension (stem ++ b'.' ∷ cs) ≡ b'.' ∷ cs
unfolding extension
extension-append stem cs n = rw (from_last_dot-append stem cs n, extension) refl

-- The choice by a comparison of texts in lower case.
abbrev choose_lower : List ℕ → List (List ℕ × List ℕ) → List ℕ
choose_lower ext [] = text "application/text"
choose_lower ext ((key, type) ∷ rest) =
    if same_text ext (map lower key) then type else choose_lower ext rest

-- Whether each of these rows is the one that its key finds in the table.
is_found : List (List ℕ × List ℕ) → Bool
is_found [] = true
is_found ((key, type) ∷ rest) = same_text (choose_lower key table) type && is_found rest

table-is_found : is_found table ≡ true
unfolding is_found
table-is_found = refl

find-is_found :
    (rows : List (List ℕ × List ℕ)) (i : ℕ) (key type : List ℕ)
    → is_found rows ≡ true
    → get_elem? rows i ≡ some (key, type)
    → choose_lower key table ≡ type
unfolding is_found
find-is_found [] i key type f e = absurd (cc e)
find-is_found ((k, t) ∷ rest) zero key type f e =
    let same_key : k ≡ key = cc e in
    let same_type : t ≡ type = cc e in
    let found : same_text (choose_lower k table) t ≡ true = ground arith in
    ap (λ x. choose_lower x table) (sym same_key)
    ∙ (same_text_iff (choose_lower k table) t).0 found
    ∙ same_type
find-is_found ((k, t) ∷ rest) (suc i) key type f e = find-is_found rest i key type (ground arith) e

module _ ⦃lib : HttpLibrary⦄ where
  iequals_lower : (a b : List ℕ) → lib.iequals a b ≡ same_text (map lower a) (map lower b)
  iequals_lower a b = elim (Bool-cases (lib.iequals a b)) [
    | inl same ↦
        same ∙ sym ((same_text_iff (map lower a) (map lower b)).1 ((lib.iequals_iff a b).0 same))
    | inr differ ↦ elim (Bool-cases (same_text (map lower a) (map lower b))) [
      | inl same ↦
          let e = (lib.iequals_iff a b).1 ((same_text_iff (map lower a) (map lower b)).0 same) in
          absurd (cc (sym e ∙ differ))
      | inr other ↦ differ ∙ sym other
    ]
  ]

  choose_lem :
      (ext : List ℕ) (rows : List (List ℕ × List ℕ))
      → choose ext rows ≡ choose_lower (map lower ext) rows
  unfolding choose
  choose_lem ext [] = refl
  choose_lem ext ((key, type) ∷ rest) = rw (iequals_lower ext key, choose_lem ext rest) refl

  -- The type of a file depends only on what stands behind the last dot of its path, and not on the
  -- case of the letters there.
  pub mime_type-extension :
      (stem stem' ext ext' : List ℕ)
      → NoDot ext
      → NoDot ext'
      → map lower ext ≡ map lower ext'
      → mime_type (stem ++ b'.' ∷ ext) ≡ mime_type (stem' ++ b'.' ∷ ext')
  unfolding mime_type
  mime_type-extension stem stem' ext ext' n n' same =
      rw (extension-append stem ext n, extension-append stem' ext' n')
        (choose_lem (b'.' ∷ ext) table
          ∙ ap (λ t. choose_lower (b'.' ∷ t) table) same
          ∙ sym (choose_lem (b'.' ∷ ext') table))

  -- A path that ends in an extension of the table, in any case of its letters, has the type that the
  -- table gives it: no row is hidden by another.
  pub mime_type-table :
      (i : ℕ) (key type stem ext : List ℕ)
      → get_elem? table i ≡ some (key, type)
      → NoDot ext
      → map lower (b'.' ∷ ext) ≡ key
      → mime_type (stem ++ b'.' ∷ ext) ≡ type
  unfolding mime_type
  mime_type-table i key type stem ext row n same = rw (extension-append stem ext n) (
      choose_lem (b'.' ∷ ext) table
      ∙ ap (λ t. choose_lower t table) same
      ∙ find-is_found table i key type table-is_found row)
