-- ===== src/Frame/Split.antt =====
-- A stream that splits into frames also does so piece by piece, wherever it is cut.
use boost_practice.Base.{
  ℕ, suc, ◌-◌, ◌^◌, ◌≤◌, ◌<◌, ◌≡◌, sym, ◌∙◌, subst, List, ◌++◌, length, Option, arith, inl, inr,
}
use boost_practice.Buffer.{of_be32}
use boost_practice.Frame.{wait, broken, next_frame, size_total}
use boost_practice.Frame.Relation.{
  Frames, stop, more, Breaks, here, later, Frames-append, Frames-Breaks, Breaks-append,
  Frames-total, Frames-unique, Next-frame_inj,
}

module _ (least : ℕ) (total : ℕ → Option ℕ) where
  pub Frames-not-Breaks :
      {xs r : List ℕ} {ms ms' : List (List ℕ)}
      → Frames least total xs ms r
      → Breaks least total xs ms'
      → ⊥
  Frames-not-Breaks (stop e) (here e') = cc
  Frames-not-Breaks (stop e) (later e' g) = cc
  Frames-not-Breaks (more e f) (here e') = cc
  Frames-not-Breaks (more e f) (later {ms = ms'} e' g) =
      Frames-not-Breaks f
        (subst (λ t. Breaks least total t ms') (sym (Next-frame_inj least total (sym e ∙ e')).1) g)

  pub Frames-split :
      (four : 4 ≤ least) (xs ys : List ℕ) {ms : List (List ℕ)} {rest : List ℕ}
      → Frames least total (xs ++ ys) ms rest
      → (ms1 : List (List ℕ)) × (r : List ℕ) × (ms2 : List (List ℕ)) × Frames least total xs ms1 r
        × Frames least total (r ++ ys) ms2 rest
        × (ms ≡ ms1 ++ ms2)
  Frames-split four xs ys {ms} {rest} f =
      elim (Frames-total least total four (suc (length xs)) xs (omega arith)) [
        | inr (ms1, b) ↦ absurd (Frames-not-Breaks f (Breaks-append least total four ys b))
        | inl (ms1, r, g) ↦
            elim (Frames-total least total four (suc (length (r ++ ys))) (r ++ ys) (omega arith)) [
              | inr (ms2, b) ↦ absurd (Frames-not-Breaks f (Frames-Breaks least total four ys g b))
              | inl (ms2, rest', g') ↦
                  let (same, same_rest) =
                    Frames-unique least total f (Frames-append least total four ys g g') in
                  (
                    ms1,
                    r,
                    ms2,
                    g,
                    subst (λ t. Frames least total (r ++ ys) ms2 t) (sym same_rest) g',
                    same,
                  )
            ]
      ]

-- A length of -4 … -1 gets through the test, since the sum with 4 wraps round to 0 … 3.
pub next_frame_negative :
    (least : ℕ) (bytes : List ℕ)
    → least ≤ length bytes
    → 4 ≤ least
    → 2 ^ 32 - 4 ≤ of_be32 bytes
    → of_be32 bytes < 2 ^ 32
    → next_frame least size_total bytes ≡ broken
unfolding next_frame size_total
next_frame_negative least bytes h k lo hi = ground arith

-- A length below -4 never does, with any number of bytes that a machine can hold.
pub next_frame_stuck :
    (least : ℕ) (bytes : List ℕ)
    → 2 ^ 31 ≤ of_be32 bytes
    → of_be32 bytes < 2 ^ 32 - 4
    → length bytes < 2 ^ 63
    → next_frame least size_total bytes ≡ wait
unfolding next_frame size_total
next_frame_stuck least bytes lo hi h = ground arith
