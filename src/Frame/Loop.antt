-- ===== src/Frame/Loop.antt =====
-- The loop of the sessions against the relation: it handles exactly the frames that the bytes hold,
-- in order, ends, and keeps what follows them; on a length that it cannot serve it faults.
use boost_practice.Base.{
  part_faults, ℕ, zero, suc, ◌+◌, ◌^◌, ◌≤◌, ◌<◌, ◌≡◌, ◌∙◌, ◌⊎◌, inl, inr, List, length, length-drop,
  Option, some, Run, ok, fault, ◌>>=◌, for_each, first_returns, leb, Bool-cases, Option-cases,
  leb→le, arith,
}
use boost_practice.Buffer.{BufferApi, of_be32}
use boost_practice.Frame.{
  size_total, int_total, wait, frame, broken, next_frame, turn, enter, leave, overflow, drain,
}
use boost_practice.Frame.Relation.{Frames, stop, more, Breaks, here, later, frame_shorter}

-- The arithmetic is exact where the length is not negative.
abbrev pub IsExact : (ℕ → Option ℕ) → Type 0
IsExact total = (w n : ℕ) → w < 2 ^ 31 → total w ≡ some n → n ≡ w + 4

pub size_total-IsExact : IsExact size_total
unfolding size_total
size_total-IsExact w n h e = ground arith

pub int_total-IsExact : IsExact int_total
unfolding int_total
int_total-IsExact w n h e = ground arith

module _ (least : ℕ) (total : ℕ → Option ℕ) (exact : IsExact total) (bytes : List ℕ) where
  turn-wait :
      next_frame least total bytes ≡ wait → turn least total (length bytes) (of_be32 bytes) ≡ leave
  unfolding turn next_frame
  turn-wait e = elim (Option-cases (total (of_be32 bytes))) [
    | inl over ↦ ground arith
    | inr (n, fits) ↦ ground (arith, length-drop 4 bytes, exact (of_be32 bytes) n)
  ]

  turn-frame :
      {p r : List ℕ}
      → next_frame least total bytes ≡ frame p r
      → turn least total (length bytes) (of_be32 bytes) ≡ enter
  unfolding turn next_frame
  turn-frame e = ground arith

  turn-broken :
      next_frame least total bytes ≡ broken
      → (turn least total (length bytes) (of_be32 bytes) ≡ overflow)
        ⊎ ((turn least total (length bytes) (of_be32 bytes) ≡ enter) × (2 ^ 31 ≤ of_be32 bytes))
  unfolding turn next_frame
  turn-broken e = ground arith

-- A loop over a buffer `buf` of the state. `handle` is the handler of a payload as it acts on a
-- `view` of the state, which the body's own description has to fit.
module _ ⦃api : BufferApi⦄ {S : Type 0} (least : ℕ) (total : ℕ → Option ℕ) (exact : IsExact total)
    (buf : S → api.Buffer) (body : ℕ → S → Run S) (four : 4 ≤ least) where
  open api use {readable, peek_int32, peek_int32_lem}

  -- The length that the loop peeks at is the one that the bytes spell.
  turn_lem :
      (s : S)
      → turn least total (length (readable (buf s))) (peek_int32 (buf s))
        ≡ turn least total (length (readable (buf s))) (of_be32 (readable (buf s)))
  unfolding turn
  turn_lem s = elim (Bool-cases (leb least (length (readable (buf s))))) [
    | inl long ↦
        rw (peek_int32_lem (buf s) (omega (arith, leb→le least (length (readable (buf s))) long)))
    | inr short ↦ rw short
  ]

  drain_wait :
      (fuel : ℕ) (s : S)
      → next_frame least total (readable (buf s)) ≡ wait
      → drain least total buf body (suc fuel) s ≡ ok s
  unfolding drain
  drain_wait fuel s e = rw (turn_lem s ∙ turn-wait least total exact (readable (buf s)) e, drain)

  drain_frame :
      (fuel : ℕ) (s : S) {p r : List ℕ}
      → next_frame least total (readable (buf s)) ≡ frame p r
      → drain least total buf body (suc fuel) s
        ≡ (body (peek_int32 (buf s)) s >>= λ s'. drain least total buf body fuel s')
  unfolding drain
  drain_frame fuel s e = rw (turn_lem s ∙ turn-frame least total exact (readable (buf s)) e, drain)

  drain_broken :
      (fuel : ℕ) (s : S)
      → next_frame least total (readable (buf s)) ≡ broken
      → (2 ^ 31 ≤ of_be32 (readable (buf s)) → body (peek_int32 (buf s)) s ≡ fault)
      → drain least total buf body (suc fuel) s ≡ fault
  unfolding drain
  drain_broken fuel s e bad = elim (turn-broken least total exact (readable (buf s)) e) [
    | inl over ↦ rw (turn_lem s ∙ over, drain)
    | inr (enters, negative) ↦ rw (turn_lem s ∙ enters, drain) (rw (bad negative))
  ]

  -- The rest of a run, once a round has handled a frame.
  drain_round :
      (fuel : ℕ) (s : S) {s' : S} {p r : List ℕ} (out : Run S)
      → next_frame least total (readable (buf s)) ≡ frame p r
      → body (peek_int32 (buf s)) s ≡ ok s'
      → drain least total buf body fuel s' ≡ out
      → drain least total buf body (suc fuel) s ≡ out
  drain_round fuel s out e b d = rw (drain_frame fuel s e, b) d

  -- A loop that handles one frame, whatever its body makes of it, and then has to wait.
  pub drain_one :
      (fuel : ℕ) (s s' : S) {p r : List ℕ}
      → 0 < fuel
      → next_frame least total (readable (buf s)) ≡ frame p r
      → body (peek_int32 (buf s)) s ≡ ok s'
      → next_frame least total (readable (buf s')) ≡ wait
      → drain least total buf body (suc fuel) s ≡ ok s'
  drain_one zero s s' some_left e b w = absurd (omega arith)
  drain_one (suc fuel) s s' {p} {r} some_left e b w =
      drain_round (suc fuel) s {p = p} {r = r} (ok s') e b (drain_wait fuel s' w)

  -- A body that faults on the first frame.
  pub drain_first_fault :
      (fuel : ℕ) (s : S) {p r : List ℕ}
      → next_frame least total (readable (buf s)) ≡ frame p r
      → body (peek_int32 (buf s)) s ≡ fault
      → drain least total buf body (suc fuel) s ≡ fault
  drain_first_fault fuel s {p} {r} e b = rw (drain_frame fuel s {p = p} {r = r} e, b)

  module _ {V : Type 0} (view : S → V) (handle : List ℕ → V → Run V)
      (served : (s : S) (p r : List ℕ) (v : V)
        → next_frame least total (readable (buf s)) ≡ frame p r
        → handle p (view s) ≡ ok v
        → (s' : S) × (body (peek_int32 (buf s)) s ≡ ok s')
          × (readable (buf s') ≡ r)
          × (view s' ≡ v)) where
    -- The loop ends with every whole frame handled, in order, and the rest kept.
    pub drain-Frames :
        {bytes rest : List ℕ} {ms : List (List ℕ)}
        → Frames least total bytes ms rest
        → (fuel : ℕ) (s : S) {v : V} → readable (buf s) ≡ bytes
        → length bytes < fuel
        → for_each handle (view s) ms ≡ ok v
        → (s' : S) × (drain least total buf body fuel s ≡ ok s')
          × (readable (buf s') ≡ rest)
          × (view s' ≡ v)
    drain-Frames f zero s e h c = absurd (omega arith)
    drain-Frames (stop w) (suc fuel) s e h c = (s, drain_wait fuel s (rw e w), e, ground arith)
    drain-Frames {bytes} (more {p} {r} {ms} w f) (suc fuel) s {v} e h c =
        let (v1, done, later_done) =
          first_returns (λ v'. for_each handle v' ms) (handle p (view s)) c in
        let (s1, b, e1, same) = served s p r v1 (rw e w) done in
        let (s', d, kept, seen) =
          drain-Frames f fuel s1 e1 (omega (arith, frame_shorter least total four bytes w))
            (rw same later_done) in
        (s', drain_round fuel s {p = p} {r = r} (ok s') (rw e w) b d, kept, seen)

    -- On a length that cannot be served it faults, if it has not done so before.
    pub drain-Breaks :
        ((s : S)
          → next_frame least total (readable (buf s)) ≡ broken
          → 2 ^ 31 ≤ of_be32 (readable (buf s))
          → body (peek_int32 (buf s)) s ≡ fault)
        → {bytes : List ℕ} {ms : List (List ℕ)} → Breaks least total bytes ms
        → (fuel : ℕ) (s : S) {v : V} → readable (buf s) ≡ bytes
        → length bytes < fuel
        → for_each handle (view s) ms ≡ ok v
        → drain least total buf body fuel s ≡ fault
    drain-Breaks bad f zero s e h c = absurd (omega arith)
    drain-Breaks bad (here w) (suc fuel) s e h c = drain_broken fuel s (rw e w) (bad s (rw e w))
    drain-Breaks bad {bytes} (later {p} {r} {ms} w f) (suc fuel) s {v} e h c =
        let (v1, done, later_done) =
          first_returns (λ v'. for_each handle v' ms) (handle p (view s)) c in
        let (s1, b, e1, same) = served s p r v1 (rw e w) done in
        drain_round fuel s {p = p} {r = r} fault (rw e w) b (
          drain-Breaks bad f fuel s1 {v = v} e1
            (omega (arith, frame_shorter least total four bytes w)) (rw same later_done))

    -- A handler that faults on one of the frames makes the loop fault.
    pub drain_fault :
        ((s : S) (p r : List ℕ)
          → next_frame least total (readable (buf s)) ≡ frame p r
          → handle p (view s) ≡ fault
          → body (peek_int32 (buf s)) s ≡ fault)
        → {bytes rest : List ℕ} {ms : List (List ℕ)} → Frames least total bytes ms rest
        → (fuel : ℕ) (s : S) → readable (buf s) ≡ bytes
        → length bytes < fuel
        → for_each handle (view s) ms ≡ fault
        → drain least total buf body fuel s ≡ fault
    drain_fault bad f zero s e h c = absurd (omega arith)
    drain_fault bad (stop w) (suc fuel) s e h c = absurd (cc c)
    drain_fault bad {bytes} (more {p} {r} {ms} w f) (suc fuel) s e h c =
        elim (part_faults (λ v'. for_each handle v' ms) (handle p (view s)) c) [
          | inl now ↦ rw (drain_frame fuel s {p = p} {r = r} (rw e w), bad s p r (rw e w) now)
          | inr (v1, done, later_fault) ↦
              let (s1, b, e1, same) = served s p r v1 (rw e w) done in
              drain_round fuel s {p = p} {r = r} fault (rw e w) b (
                drain_fault bad f fuel s1 e1 (omega (arith, frame_shorter least total four bytes w))
                  (rw same later_fault))
        ]
