-- ===== src/Http/Files/Inside.antt =====
-- A request cannot leave the document root.
use boost_practice.Base.{
  ℕ, ◌≡◌, refl, ap, ◌∙◌, false, List, [], ◌∷◌, ◌++◌, ◌==◌, if◌then◌else◌, text, Bool-cases, inl,
  inr, arith, append_assoc,
}
use boost_practice.Http.Files.{ends_in, drop_last, path_cat, has_dots, is_illegal, path_of}

-- The document root without the separator that may end it.
abbrev pub trimmed : List ℕ → List ℕ
trimmed root = if ends_in b'/' root then drop_last root else root

drop_last-dots : (xs : List ℕ) → has_dots xs ≡ false → has_dots (drop_last xs) ≡ false
unfolding drop_last has_dots
drop_last-dots [] h = refl
drop_last-dots (x ∷ []) h = refl
drop_last-dots (x ∷ y ∷ []) h = refl
drop_last-dots (x ∷ y ∷ z ∷ zs) h = ground (arith, drop_last-dots (y ∷ z ∷ zs))

-- Two texts with no two dots in a row, the second of which begins with no dot.
append-dots :
    (xs : List ℕ) (c : ℕ) (cs : List ℕ)
    → has_dots xs ≡ false
    → has_dots (c ∷ cs) ≡ false
    → (c == b'.') ≡ false
    → has_dots (xs ++ c ∷ cs) ≡ false
unfolding has_dots
append-dots [] c cs h k n = k
append-dots (x ∷ []) c cs h k n = ground arith
append-dots (x ∷ y ∷ ys) c cs h k n = ground (arith, append-dots (y ∷ ys) c cs)

path_cat-trimmed : (root target : List ℕ) → path_cat root target ≡ trimmed root ++ target
unfolding path_cat ends_in
path_cat-trimmed [] target = refl
path_cat-trimmed (b ∷ bs) target = ground arith

trimmed-dots : (root : List ℕ) → has_dots root ≡ false → has_dots (trimmed root) ≡ false
trimmed-dots root h = ground (arith, drop_last-dots root)

-- The part of the path behind the document root.
abbrev pub below_root : List ℕ → List ℕ
below_root target = if ends_in b'/' target then target ++ text "index.html" else target

path_of-below : (root target : List ℕ) → path_of root target ≡ trimmed root ++ below_root target
unfolding path_of
path_of-below root target = elim (Bool-cases (ends_in b'/' target)) [
  | inl slash ↦ rw slash (
      ap (λ t. t ++ text "index.html") (path_cat-trimmed root target)
      ∙ append_assoc (trimmed root) target (text "index.html"))
  | inr plain ↦ rw plain (path_cat-trimmed root target)
]

below_root-dots :
    (c : ℕ) (cs : List ℕ)
    → has_dots (c ∷ cs) ≡ false
    → (r : List ℕ) × (below_root (c ∷ cs) ≡ c ∷ r) × (has_dots (c ∷ r) ≡ false)
unfolding has_dots
below_root-dots c cs h = elim (Bool-cases (ends_in b'/' (c ∷ cs))) [
  | inl slash ↦ (
    cs ++ text "index.html",
    rw slash refl,
    append-dots (c ∷ cs) b'i' (text "ndex.html") h refl refl,
  )
  | inr plain ↦ (cs, rw plain refl, h)
]

-- For a target that is not refused, the path that is opened is the document root, less a separator
-- at its end, followed by a separator and a text, and two dots stand nowhere in it in a row, if they
-- do not in the document root.
pub path_of-inside :
    (root target : List ℕ)
    → has_dots root ≡ false
    → is_illegal target ≡ false
    → (rest : List ℕ) × (path_of root target ≡ trimmed root ++ b'/' ∷ rest)
      × (has_dots (path_of root target) ≡ false)
unfolding path_of is_illegal
path_of-inside root [] h k = absurd (cc k)
path_of-inside root (c ∷ cs) h k =
    let slash : c ≡ b'/' = ground arith in
    let plain : has_dots (c ∷ cs) ≡ false = ground arith in
    let (r, e, no_dots) = below_root-dots c cs plain in
    let whole : path_of root (c ∷ cs) ≡ trimmed root ++ c ∷ r =
      path_of-below root (c ∷ cs) ∙ ap (λ t. trimmed root ++ t) e in
    (
      r,
      whole ∙ ap (λ x. trimmed root ++ x ∷ r) slash,
      rw whole (append-dots (trimmed root) c r (trimmed-dots root h) no_dots (ground arith)),
    )
