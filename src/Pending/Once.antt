-- ===== src/Pending/Once.antt =====
-- The closures of a map of waiting calls: what keeps each of them from running twice.
use boost_practice.Base.{
  ℕ, suc, ◌≡◌, ◌≢◌, sym, ap, ◌∙◌, subst, ◌⊎◌, inl, inr, List, [], ◌∷◌, ◌++◌, Option, none, some,
  Bool-cases, All, All-append, arith, ◌==◌,
}
use boost_practice.Pending.{find_call, erase_call, put_call}
use boost_practice.Pending.Laws.{Below, find-put, find-erase, erase-Below, put-Below}

-- A closure that is none of these, and closures that are all different.
abbrev pub NotIn : ℕ → List ℕ → Type 0
NotIn c cs = All (λ d. d ≢ c) cs

abbrev pub Unique : List ℕ → Type 0
Unique [] = Unit {0}
Unique (c ∷ cs) = NotIn c cs × Unique cs

push-Unique : (cs : List ℕ) (c : ℕ) → Unique cs → NotIn c cs → Unique (cs ++ c ∷ [])
push-Unique [] c u n = (tt, tt)
push-Unique (d ∷ cs) c u n =
    (All-append (λ e. e ≢ d) cs (c ∷ []) u.0 (λ e. n.0 (sym e), tt), push-Unique cs c u.1 n.1)

-- `closure` is the closure of a call, if it has one.
module _ {A : Type 0} (closure : A → Option ℕ) where
  -- The invariant, of the counter, the calls that wait and the closures that have run.
  pub record Once (n : ℕ) (calls : List (ℕ × A)) (ran : List ℕ) : Type 0 where
    pub below : Below n calls
    pub unique : Unique ran
    pub apart :
        (id : ℕ) (w : A) (c : ℕ) → find_call id calls ≡ some w → closure w ≡ some c → NotIn c ran
    pub own :
        (id id' : ℕ) (w w' : A) (c : ℕ)
        → find_call id calls ≡ some w
        → find_call id' calls ≡ some w'
        → closure w ≡ some c
        → closure w' ≡ some c
        → id ≡ id'

  find-erased :
      (n k id : ℕ) (calls : List (ℕ × A)) (w : A)
      → Below n calls
      → find_call id (erase_call k calls) ≡ some w
      → (k ≢ id) × (find_call id calls ≡ some w)
  find-erased n k id calls w b e =
      let law = find-erase id k n calls b in
      elim (Bool-cases (k == id)) [
        | inl hit ↦
            let gone : find_call id (erase_call k calls) ≡ none = rw hit at law in
            absurd (cc (gone, e))
        | inr miss ↦
            let there : find_call id (erase_call k calls) ≡ find_call id calls = rw miss at law in
            (λ same. absurd (ground arith), sym there ∙ e)
      ]

  pub erase-Once :
      (n k : ℕ) (calls : List (ℕ × A)) (ran : List ℕ)
      → Once n calls ran
      → Once n (erase_call k calls) ran
  erase-Once n k calls ran h = record {
    below = erase-Below n k calls h.below;
    unique = h.unique;
    apart = λ id w c e d. h.apart id w c (find-erased n k id calls w h.below e).1 d;
    own = λ id id' w w' c e e' d d'.
        h.own id id' w w' c (find-erased n k id calls w h.below e).1
          (find-erased n k id' calls w' h.below e').1 d d';
  }

  -- The closure of a call that is taken out runs.
  pub run-Once :
      (n k : ℕ) (calls : List (ℕ × A)) (ran : List ℕ) (w : A) (c : ℕ)
      → find_call k calls ≡ some w
      → closure w ≡ some c
      → Once n calls ran
      → Once n (erase_call k calls) (ran ++ c ∷ [])
  run-Once n k calls ran w c e d h = record {
    below = erase-Below n k calls h.below;
    unique = push-Unique ran c h.unique (h.apart k w c e d);
    apart = λ id v c' e' d'.
        let (ne, there) = find-erased n k id calls v h.below e' in
        All-append (λ x. x ≢ c') ran (c ∷ []) (h.apart id v c' there d')
          (λ same. ne (h.own k id w v c e there d (d' ∙ ap some (sym same))), tt);
    own = λ id id' v v' c' e1 e2 d1 d2.
        h.own id id' v v' c' (find-erased n k id calls v h.below e1).1
          (find-erased n k id' calls v' h.below e2).1 d1 d2;
  }

  -- A closure that neither waits nor has run.
  abbrev pub IsNew : ℕ → List (ℕ × A) → List ℕ → Type 0
  IsNew c [] ran = NotIn c ran
  IsNew c ((id, w) ∷ rest) ran = (closure w ≢ some c) × IsNew c rest ran

  new-NotIn : (c : ℕ) (calls : List (ℕ × A)) (ran : List ℕ) → IsNew c calls ran → NotIn c ran
  new-NotIn c [] ran h = h
  new-NotIn c ((id, w) ∷ rest) ran h = new-NotIn c rest ran h.1

  new-done :
      (c : ℕ) (calls : List (ℕ × A)) (ran : List ℕ) (id : ℕ) (v : A)
      → IsNew c calls ran
      → find_call id calls ≡ some v
      → closure v ≢ some c
  unfolding find_call
  new-done c [] ran id v h e = absurd (cc e)
  new-done c ((k, w) ∷ rest) ran id v h e = elim (Bool-cases (k == id)) [
    | inl hit ↦
        let same : w ≡ v = cc (rw hit at e) in subst (λ (t : A). closure t ≢ some c) same h.0
    | inr miss ↦ new-done c rest ran id v h.1 (rw miss at e)
  ]

  find-entered :
      (n id : ℕ) (w v : A) (calls : List (ℕ × A))
      → find_call id (put_call n w calls) ≡ some v
      → ((n ≡ id) × (w ≡ v)) ⊎ (find_call id calls ≡ some v)
  find-entered n id w v calls e =
      let law = find-put id n w calls in
      elim (Bool-cases (n == id)) [
        | inl hit ↦
            let here : find_call id (put_call n w calls) ≡ some w = rw hit at law in
            inl (ground arith, cc (here, e))
        | inr miss ↦
            let there : find_call id (put_call n w calls) ≡ find_call id calls = rw miss at law in
            inr (sym there ∙ e)
      ]

  -- A call with a new closure.
  pub enter-Once :
      (n : ℕ) (calls : List (ℕ × A)) (ran : List ℕ) (w : A) (c : ℕ)
      → closure w ≡ some c
      → IsNew c calls ran
      → Once n calls ran
      → Once (suc n) (put_call n w calls) ran
  enter-Once n calls ran w c d new h = record {
    below = put-Below n w calls h.below;
    unique = h.unique;
    apart = λ id v c' e d'. elim (find-entered n id w v calls e) [
      | inl (_, same) ↦
          let eq : some c ≡ some c' = sym d ∙ ap (λ (t : A). closure t) same ∙ d' in
          let num : c ≡ c' = cc eq in subst (λ k. NotIn k ran) num (new-NotIn c calls ran new)
      | inr there ↦ h.apart id v c' there d'
    ];
    own = λ id id' v v' c' e1 e2 d1 d2. elim (find-entered n id w v calls e1) [
      | inl (n1, same) ↦ elim (find-entered n id' w v' calls e2) [
        | inl (n2, _) ↦ sym n1 ∙ n2
        | inr there ↦ absurd (
            new-done c calls ran id' v' new there
              (d2 ∙ sym d1 ∙ sym (ap (λ (t : A). closure t) same) ∙ d))
      ]
      | inr here ↦ elim (find-entered n id' w v' calls e2) [
        | inl (_, same) ↦ absurd (
            new-done c calls ran id v new here
              (d1 ∙ sym d2 ∙ sym (ap (λ (t : A). closure t) same) ∙ d))
        | inr there ↦ h.own id id' v v' c' here there d1 d2
      ]
    ];
  }
