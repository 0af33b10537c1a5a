-- ===== src/Frame/Relation.antt =====
-- How a byte stream splits into frames, as a relation that does not mention the loop.
use boost_practice.Base.{
  ℕ, zero, suc, ◌+◌, ◌≤◌, ◌<◌, ◌≡◌, refl, sym, ◌∙◌, sym, ◌∙◌, subst, ◌⊎◌, inl, inr, List, [], ◌∷◌,
  ◌++◌, length, drop, Option, length-append, length-drop, take-append, drop-append, arith,
}
use boost_practice.Buffer.{of_be32}
use boost_practice.Frame.{Next, wait, frame, broken, next_frame}

-- To look at a `Next` and keep the equation.
pub Next-cases :
    (n : Next) → (n ≡ wait) ⊎ ((p : List ℕ) × (r : List ℕ) × (n ≡ frame p r)) ⊎ (n ≡ broken)
Next-cases wait = inl refl
Next-cases (frame p r) = inr (inl (p, r, refl))
Next-cases broken = inr (inr refl)

pub of_be32-append : (xs ys : List ℕ) → 4 ≤ length xs → of_be32 (xs ++ ys) ≡ of_be32 xs
of_be32-append (a ∷ b ∷ c ∷ d ∷ r) ys h = refl
of_be32-append [] ys h = absurd (omega arith)
of_be32-append (a ∷ []) ys h = absurd (omega arith)
of_be32-append (a ∷ b ∷ []) ys h = absurd (omega arith)
of_be32-append (a ∷ b ∷ c ∷ []) ys h = absurd (omega arith)

module _ (least : ℕ) (total : ℕ → Option ℕ) where
  -- The bytes hold these payloads, one frame after another, and then too little for a frame.
  pub data Frames : List ℕ → List (List ℕ) → List ℕ → Type 0 where
    stop : {bytes : List ℕ} → next_frame least total bytes ≡ wait → Frames bytes [] bytes
    more :
        {bytes p r rest : List ℕ} {ms : List (List ℕ)}
        → next_frame least total bytes ≡ frame p r
        → Frames r ms rest
        → Frames bytes (p ∷ ms) rest

  -- The bytes hold these payloads and then a length that no session can serve.
  pub data Breaks : List ℕ → List (List ℕ) → Type 0 where
    here : {bytes : List ℕ} → next_frame least total bytes ≡ broken → Breaks bytes []
    later :
        {bytes p r : List ℕ} {ms : List (List ℕ)}
        → next_frame least total bytes ≡ frame p r
        → Breaks r ms
        → Breaks bytes (p ∷ ms)

  module _ (four : 4 ≤ least) where
    pub frame_shorter :
        (bytes : List ℕ) {p r : List ℕ}
        → next_frame least total bytes ≡ frame p r
        → length r + 4 ≤ length bytes
    unfolding next_frame
    frame_shorter bytes e =
        ground (arith, length-drop 4 bytes, length-drop (of_be32 bytes) (drop 4 bytes))

    -- More bytes do not change a frame that is already whole.
    pub frame_stable :
        (bytes ys : List ℕ) {p r : List ℕ}
        → next_frame least total bytes ≡ frame p r
        → next_frame least total (bytes ++ ys) ≡ frame p (r ++ ys)
    unfolding next_frame
    frame_stable bytes ys e =
        let size = of_be32 bytes in
        ground (
          arith,
          of_be32-append bytes ys,
          length-append bytes ys,
          length-append (drop 4 bytes) ys,
          drop-append 4 bytes ys,
          take-append size (drop 4 bytes) ys,
          drop-append size (drop 4 bytes) ys,
        )

    broken_stable :
        (bytes ys : List ℕ)
        → next_frame least total bytes ≡ broken
        → next_frame least total (bytes ++ ys) ≡ broken
    unfolding next_frame
    broken_stable bytes ys e = ground (
      arith,
      of_be32-append bytes ys,
      length-append bytes ys,
      length-append (drop 4 bytes) ys,
      drop-append 4 bytes ys,
    )

    pub Frames-Breaks :
        {xs r : List ℕ} {ms : List (List ℕ)} (ys : List ℕ) {ms' : List (List ℕ)}
        → Frames xs ms r
        → Breaks (r ++ ys) ms'
        → Breaks (xs ++ ys) (ms ++ ms')
    Frames-Breaks ys (stop e) g = g
    Frames-Breaks ys (more {bytes = b} e f) g = later (frame_stable b ys e) (Frames-Breaks ys f g)

    pub Breaks-append :
        {xs : List ℕ} {ms : List (List ℕ)} (ys : List ℕ) → Breaks xs ms → Breaks (xs ++ ys) ms
    Breaks-append ys (here {bytes = b} e) = here (broken_stable b ys e)
    Breaks-append ys (later {bytes = b} e f) = later (frame_stable b ys e) (Breaks-append ys f)

    -- What two reads deliver is what one read of both would.
    pub Frames-append :
        {xs r : List ℕ} {ms : List (List ℕ)} (ys : List ℕ) {rest : List ℕ} {ms' : List (List ℕ)}
        → Frames xs ms r
        → Frames (r ++ ys) ms' rest
        → Frames (xs ++ ys) (ms ++ ms') rest
    Frames-append ys (stop e) g = g
    Frames-append ys (more {bytes = b} e f) g = more (frame_stable b ys e) (Frames-append ys f g)

    -- Every byte sequence has one of the two descriptions.
    pub Frames-total :
        (fuel : ℕ) (bytes : List ℕ)
        → length bytes < fuel
        → ((ms : List (List ℕ)) × (rest : List ℕ) × Frames bytes ms rest)
          ⊎ ((ms : List (List ℕ)) × Breaks bytes ms)
    Frames-total zero bytes h = elim h [ ]
    Frames-total (suc fuel) bytes h = elim (Next-cases (next_frame least total bytes)) [
      | inl e ↦ inl ([], bytes, stop e)
      | inr (inr e) ↦ inr ([], here e)
      | inr (inl (p, r, e)) ↦ elim (Frames-total fuel r (omega (arith, frame_shorter bytes e))) [
        | inl (ms, rest, f) ↦ inl (p ∷ ms, rest, more e f)
        | inr (ms, b) ↦ inr (p ∷ ms, later e b)
      ]
    ]

  pub Next-frame_inj : {p p' r r' : List ℕ} → frame p r ≡ frame p' r' → (p ≡ p') × (r ≡ r')
  Next-frame_inj e = ground arith

  pub Frames-end :
      {xs r : List ℕ} {ms : List (List ℕ)} → Frames xs ms r → next_frame least total r ≡ wait
  Frames-end (stop e) = e
  Frames-end (more e f) = Frames-end f

  -- A byte sequence splits in one way only.
  pub Frames-unique :
      {xs r r' : List ℕ} {ms ms' : List (List ℕ)}
      → Frames xs ms r
      → Frames xs ms' r'
      → (ms ≡ ms') × (r ≡ r')
  Frames-unique (stop e) (stop e') = (refl, refl)
  Frames-unique (stop e) (more e' g) = cc
  Frames-unique (more e f) (stop e') = cc
  Frames-unique {r' = rest'} (more e f) (more {ms = ms'} e' g) =
      let (same_p, same_r) = Next-frame_inj (sym e ∙ e') in
      let (ih_ms, ih_rest) = Frames-unique f (subst (λ t. Frames t ms' rest') (sym same_r) g) in
      (cc, ih_rest)
