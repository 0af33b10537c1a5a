-- ===== src/Pending/Laws.antt =====
-- What the maps of waiting calls find, and how their identifiers stay distinct.
use boost_practice.Base.{
  ℕ, suc, ◌<◌, ◌≡◌, ◌≢◌, refl, ap, List, [], ◌∷◌, Option, none, some, arith, ◌==◌, if◌then◌else◌,
  Bool-cases, inl, inr,
}
use boost_practice.Pending.{find_call, erase_call, put_call}

module _ {A : Type 0} where
  pub find-put :
      (id k : ℕ) (w : A) (xs : List (ℕ × A))
      → find_call id (put_call k w xs) ≡ (if k == id then some w else find_call id xs)
  unfolding find_call put_call
  find-put id k w [] = refl
  find-put id k w ((j, v) ∷ rest) = ground (arith, find-put id k w rest)

  -- The keys of a map: distinct, and below the next identifier.
  abbrev pub Absent : ℕ → List (ℕ × A) → Type 0
  Absent id [] = Unit {0}
  Absent id ((k, w) ∷ rest) = (k ≢ id) × Absent id rest

  abbrev pub Below : ℕ → List (ℕ × A) → Type 0
  Below n [] = Unit {0}
  Below n ((k, w) ∷ rest) = (k < n) × Absent k rest × Below n rest

  pub find-Absent : (id : ℕ) (xs : List (ℕ × A)) → Absent id xs → find_call id xs ≡ none
  unfolding find_call
  find-Absent id [] a = refl
  find-Absent id ((k, w) ∷ rest) a = ground (arith, find-Absent id rest a.1)

  pub Below-Absent : (n : ℕ) (xs : List (ℕ × A)) → Below n xs → Absent n xs
  Below-Absent n [] b = tt
  Below-Absent n ((k, w) ∷ rest) b = (λ e. absurd (omega arith), Below-Absent n rest b.2)

  pub put-Absent :
      (id k : ℕ) (w : A) (xs : List (ℕ × A)) → k ≢ id → Absent id xs → Absent id (put_call k w xs)
  unfolding put_call
  put-Absent id k w [] ne a = (ne, tt)
  put-Absent id k w ((j, v) ∷ rest) ne a = elim (Bool-cases (j == k)) [
    | inl hit ↦ rw hit (a.0, a.1)
    | inr miss ↦ rw miss (a.0, put-Absent id k w rest ne a.1)
  ]

  pub put-Below : (n : ℕ) (w : A) (xs : List (ℕ × A)) → Below n xs → Below (suc n) (put_call n w xs)
  unfolding put_call
  put-Below n w [] b = (omega arith, tt, tt)
  put-Below n w ((j, v) ∷ rest) b = elim (Bool-cases (j == n)) [
    | inl hit ↦ absurd (ground arith)
    | inr miss ↦
        rw miss (
          omega arith,
          put-Absent j n w rest (λ e. absurd (omega arith)) b.1,
          put-Below n w rest b.2,
        )
  ]

  pub erase-Absent : (id k : ℕ) (xs : List (ℕ × A)) → Absent id xs → Absent id (erase_call k xs)
  unfolding erase_call
  erase-Absent id k [] a = tt
  erase-Absent id k ((j, v) ∷ rest) a = elim (Bool-cases (j == k)) [
    | inl hit ↦ rw hit a.1
    | inr miss ↦ rw miss (a.0, erase-Absent id k rest a.1)
  ]

  pub erase-Below : (n k : ℕ) (xs : List (ℕ × A)) → Below n xs → Below n (erase_call k xs)
  unfolding erase_call
  erase-Below n k [] b = tt
  erase-Below n k ((j, v) ∷ rest) b = elim (Bool-cases (j == k)) [
    | inl hit ↦ rw hit b.2
    | inr miss ↦ rw miss (b.0, erase-Absent j k rest b.1, erase-Below n k rest b.2)
  ]

  pub erase-none : (id : ℕ) (xs : List (ℕ × A)) → find_call id xs ≡ none → erase_call id xs ≡ xs
  unfolding find_call erase_call
  erase-none id [] e = refl
  erase-none id ((k, w) ∷ rest) e = elim (Bool-cases (k == id)) [
    | inl hit ↦ absurd (ground arith)
    | inr miss ↦ rw miss (ap (λ t. (k, w) ∷ t) (erase-none id rest (ground arith)))
  ]

  pub if-same : (n : ℕ) (o : Option A) → (if n == n then none else o) ≡ none
  if-same n o = ground arith

  pub find-erase :
      (id k n : ℕ) (xs : List (ℕ × A))
      → Below n xs
      → find_call id (erase_call k xs) ≡ (if k == id then none else find_call id xs)
  unfolding find_call erase_call
  find-erase id k n [] b = ground arith
  find-erase id k n ((j, v) ∷ rest) b =
      ground (arith, find-erase id k n rest b.2, find-Absent j rest b.1)
