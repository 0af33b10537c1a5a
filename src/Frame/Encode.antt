-- ===== src/Frame/Encode.antt =====
-- What a sender frames, the loop's description of the stream finds again.
use boost_practice.Base.{
  ◌∙◌, append-nil, subst, ℕ, ◌+◌, ◌-◌, ◌^◌, ◌≤◌, ◌<◌, ◌≡◌, List, [], ◌∷◌, ◌++◌, append_assoc,
  length, length-append, take-length, drop-length, Option, some, concat, map, arith,
}
use boost_practice.Buffer.{be32, of_be32}
use boost_practice.Frame.{size_total, int_total, wait, frame, next_frame, frame_of}
use boost_practice.Frame.Relation.{Frames, stop, more}

pub of_be32-be32 : (w : ℕ) (r : List ℕ) → w < 2 ^ 32 → of_be32 (be32 w ++ r) ≡ w
of_be32-be32 w r h = omega arith

-- A message that a session frames and its peer serves.
abbrev pub IsSendable : ℕ → (ℕ → Option ℕ) → List ℕ → Type 0
IsSendable least total m =
    (least ≤ length m + 4) × (length m < 2 ^ 31) × (total (length m) ≡ some (length m + 4))

pub size_total_lem : (n : ℕ) → n < 2 ^ 31 → size_total n ≡ some (n + 4)
unfolding size_total
size_total_lem n h = ground arith

pub int_total_lem : (n : ℕ) → n < 2 ^ 31 - 4 → int_total n ≡ some (n + 4)
unfolding int_total
int_total_lem n h = ground arith

module _ (least : ℕ) (total : ℕ → Option ℕ) where
  pub next_frame-frame_of :
      (m tail : List ℕ)
      → IsSendable least total m
      → next_frame least total (frame_of m ++ tail) ≡ frame m tail
  unfolding next_frame
  next_frame-frame_of m tail v = ground (
    arith,
    of_be32-be32 (length m) (m ++ tail),
    length-append m tail,
    take-length m tail,
    drop-length m tail,
  )

  abbrev pub AllSendable : List (List ℕ) → Type 0
  AllSendable [] = Unit {0}
  AllSendable (m ∷ ms) = IsSendable least total m × AllSendable ms

  -- Framed messages split into themselves, whatever incomplete frame follows.
  pub Frames-concat :
      (ms : List (List ℕ)) (tail : List ℕ)
      → AllSendable ms
      → next_frame least total tail ≡ wait
      → Frames least total (concat (map frame_of ms) ++ tail) ms tail
  Frames-concat [] tail v e = stop e
  Frames-concat (m ∷ ms) tail v e =
      more
        (rw (append_assoc (frame_of m) (concat (map frame_of ms)) tail)
          (next_frame-frame_of m (concat (map frame_of ms) ++ tail) v.0))
        (Frames-concat ms tail v.1 e)

  pub next_frame-nil : 0 < least → next_frame least total [] ≡ wait
  unfolding next_frame
  next_frame-nil h = ground arith

  -- One framed message, with nothing behind it.
  pub Frames-frame_of :
      (m : List ℕ)
      → 0 < least
      → IsSendable least total m
      → Frames least total (frame_of m) (m ∷ []) []
  Frames-frame_of m some_needed v =
      subst (λ t. Frames least total t (m ∷ []) [])
        (append-nil (frame_of m ++ []) ∙ append-nil (frame_of m))
        (Frames-concat (m ∷ []) [] (v, tt) (next_frame-nil some_needed))
