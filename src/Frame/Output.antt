-- ===== src/Frame/Output.antt =====
-- The output buffer of a session: how a message is put into it, and how completed writes empty it.
use boost_practice.Base.{
  leb→le, ◌⊎◌, Bool-cases, inl, inr, ℕ, ◌+◌, ◌-◌, ◌%◌, ◌^◌, ◌≤◌, ◌<◌, ◌≡◌, sym, ap, ◌∙◌, List, [],
  ◌∷◌, ◌++◌, length, length-drop, drop_all, drop, Run, ok, fault, for_each, arith, append_assoc,
  append-nil, le→leb, lt→ltb, le→ltb, leb, ltb, if◌then◌else◌,
}
use boost_practice.Buffer.{BufferApi, be32, cheap_prepend, checked_prepend}
use boost_practice.Frame.{frame_of}

-- What the writes after the first one start with, where `ks` are the sizes of the completions.
abbrev pub remainders : List ℕ → List ℕ → List (List ℕ)
remainders [] bytes = []
remainders (k ∷ ks) bytes =
    if ltb 0 (length (drop k bytes)) then drop k bytes ∷ remainders ks (drop k bytes) else []

-- The completions of one write after another: each takes some of the bytes that are left, and
-- together they take them all.
abbrev pub Completes : List ℕ → ℕ → Type 0
Completes [] n = n ≡ 0
Completes (k ∷ ks) n = (0 < k) × (k ≤ n) × Completes ks (n - k)

module _ ⦃api : BufferApi⦄ where
  open api use {
    Buffer, readable, prependable, append, retrieve, prepend, readable-append, prependable-append,
    readable-prepend, prependable-prepend, readable-retrieve, prependable-retrieve,
    prependable-retrieve_all, create, readable-create, prependable-create,
  }

  -- No bytes are waiting to be written, and the content starts at its usual place.
  pub record IsIdle (b : Buffer) : Type 0 where
    pub empty : readable b ≡ []
    pub room : prependable b ≡ cheap_prepend

  pub create-IsIdle : IsIdle create
  create-IsIdle = record { empty = readable-create; room = prependable-create }

  -- `append(message); prependInt32((int32_t)message.length())`.
  abbrev pub put_frame : Buffer → List ℕ → Run Buffer
  put_frame b m = checked_prepend (append b m) (be32 (length m % 2 ^ 32))

  abbrev framed : Buffer → List ℕ → Buffer
  framed b m = prepend (append b m) (be32 (length m))

  module _ (b : Buffer) (m : List ℕ) (lo : 4 ≤ prependable b) (hi : prependable b ≤ cheap_prepend)
      (short : length m < 2 ^ 31) where
    kept : prependable (append b m) ≡ prependable b
    kept = prependable-append b m hi

    put_frame_lem : put_frame b m ≡ ok (framed b m)
    put_frame_lem =
        let same : length m % 2 ^ 32 ≡ length m = omega arith in
        rw (same, le→leb 4 (prependable (append b m)) (rw kept lo))

    readable-framed : readable (framed b m) ≡ be32 (length m) ++ (readable b ++ m)
    readable-framed =
        readable-prepend (append b m) (be32 (length m)) (rw kept lo) ∙ rw (readable-append b m)

    prependable-framed : prependable (framed b m) + 4 ≡ prependable b
    prependable-framed =
        omega (arith, prependable-prepend (append b m) (be32 (length m)) (rw kept lo), kept)

    -- A message goes in behind what is waiting, but its length goes before all of it.
    pub put_frame_pending :
        (b' : Buffer) × (put_frame b m ≡ ok b')
        × (readable b' ≡ be32 (length m) ++ (readable b ++ m))
        × (prependable b' + 4 ≡ prependable b)
    put_frame_pending = (framed b m, put_frame_lem, readable-framed, prependable-framed)

  -- With nothing waiting the buffer holds one frame.
  pub put_frame_idle :
      (b : Buffer) (m : List ℕ)
      → IsIdle b
      → length m < 2 ^ 31
      → (b' : Buffer) × (put_frame b m ≡ ok b') × (readable b' ≡ frame_of m) × (prependable b' ≡ 4)
  put_frame_idle b m idle short =
      let (b', e, shown, left) =
        put_frame_pending b m (omega (arith, idle.room)) (omega (arith, idle.room)) short in
      (b', e, rw idle.empty at shown, omega (arith, idle.room))

  -- Where two lengths have been put before a pending write, a third finds no room.
  pub put_frame_full : (b : Buffer) (m : List ℕ) → prependable b ≡ 0 → put_frame b m ≡ fault
  put_frame_full b m e = rw (prependable-append b m (omega arith), e)

  -- `retrieve(bytes); if (readableBytes() > 0)` start the next write.
  module _ (b : Buffer) (k : ℕ) (within : k ≤ length (readable b)) where
    pub readable-retrieve_part : readable (retrieve b k) ≡ drop k (readable b)
    readable-retrieve_part = readable-retrieve b k within

    pub retrieve-IsIdle : k ≡ length (readable b) → IsIdle (retrieve b k)
    retrieve-IsIdle e = record {
      empty = readable-retrieve_part ∙ drop_all k (readable b) (omega arith);
      room = prependable-retrieve_all b k e;
    }

-- A session that, on the completion of a write of `k` bytes, drops them from its output buffer and
-- starts a write of what is left, if anything is.
module _ ⦃api : BufferApi⦄ {S : Type 0} (out : S → api.Buffer) (writes : S → List (List ℕ))
    (completed : ℕ → S → Run S)
    (step : (k : ℕ) (s : S)
      → k ≤ length (api.readable (out s))
      → (s' : S) × (completed k s ≡ ok s')
        × (api.readable (out s') ≡ drop k (api.readable (out s)))
        × (k ≡ length (api.readable (out s)) → IsIdle (out s'))
        × (writes s' ≡ (
            if ltb 0 (length (api.readable (out s')))
            then writes s ++ api.readable (out s') ∷ []
            else writes s))) where
  open api use {readable}

  -- All the bytes get written, each write starts with what the one before has left over, and the
  -- output buffer is idle afterwards.
  pub completions :
      (ks : List ℕ) (s : S)
      → 0 < length (readable (out s))
      → Completes ks (length (readable (out s)))
      → (s' : S) × (for_each completed s ks ≡ ok s')
        × IsIdle (out s')
        × (writes s' ≡ writes s ++ remainders ks (readable (out s)))
  completions [] s left c = absurd (omega arith)
  completions (k ∷ []) s left c =
      let (s1, e1, same, idle, started) = step k s c.1 in
      let none_left : length (drop k (readable (out s))) ≡ 0 =
        omega (arith, length-drop k (readable (out s))) in
      let no_test = le→ltb 0 (length (drop k (readable (out s)))) (omega arith) in
      (s1, rw e1, idle (omega arith), started ∙ rw (same, no_test) (sym (append-nil (writes s))))
  completions (k ∷ j ∷ ks) s left c =
      let bytes = readable (out s) in
      let (s1, e1, same, idle, started) = step k s c.1 in
      let rest : length (readable (out s1)) ≡ length bytes - k =
        ap length same ∙ length-drop k bytes in
      let more = lt→ltb 0 (length (drop k bytes)) (omega (arith, length-drop k bytes)) in
      let (s', e, idle', w) = completions (j ∷ ks) s1 (omega arith) (rw rest c.2) in
      (
        s',
        rw e1 e,
        idle',
        w
            ∙ ap (λ t. t ++ remainders (j ∷ ks) (readable (out s1))) started
            ∙ rw (same, more)
                (append_assoc (writes s) (drop k bytes ∷ []) (remainders (j ∷ ks) (drop k bytes))),
      )

module _ ⦃api : BufferApi⦄ (b : api.Buffer) (m : List ℕ) where
  open api use {Buffer, prependable, append, prepend, prependable-append, prependable-prepend}

  -- A frame is put in, or the assertion of `prepend` fails; if it is put in, four bytes of the room
  -- before the content have been used.
  pub put_frame_decided :
      (put_frame b m ≡ fault)
      ⊎ ((b' : Buffer) × (put_frame b m ≡ ok b')
          × (prependable b ≤ cheap_prepend → prependable b' + 4 ≡ prependable b))
  put_frame_decided = elim (Bool-cases (leb 4 (prependable (append b m)))) [
    | inl fits ↦
        let room = leb→le 4 (prependable (append b m)) fits in
        inr (
          prepend (append b m) (be32 (length m % 2 ^ 32)),
          rw fits,
          λ h. omega (
            arith,
            prependable-prepend (append b m) (be32 (length m % 2 ^ 32)) room,
            prependable-append b m h,
          ),
        )
    | inr full ↦ inl (rw full)
  ]
