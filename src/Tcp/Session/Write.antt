-- ===== src/Tcp/Session/Write.antt =====
-- What a session sends: one frame per message while no write is under way, and what goes wrong if
-- one is.
use boost_practice.Base.{
  ℕ, ◌+◌, ◌^◌, ◌≤◌, ◌<◌, ◌≡◌, refl, ap, ◌∙◌, false, List, [], ◌∷◌, ◌++◌, length, drop, Run, ok,
  fault, ◌>>=◌, for_each, arith, append_assoc, Bool-cases, inl, inr, ltb, if◌then◌else◌,
}
use boost_practice.Buffer.{BufferApi, be32, cheap_prepend}
use boost_practice.Frame.{frame_of}
use boost_practice.Frame.Parts.{checked_retrieve_lem}
use boost_practice.Frame.Output.{
  IsIdle, put_frame_idle, put_frame_pending, put_frame_full, readable-retrieve_part,
  retrieve-IsIdle, remainders, Completes, completions,
}
use boost_practice.Tcp.Session.{Session, send_message, on_write}

module _ ⦃api : BufferApi⦄ where
  open api use {Buffer, readable, prependable, retrieve}

  -- While a write is under way (the frame of `a` is still waiting), another message puts its length
  -- before the waiting frame and its bytes behind it, and all of that is written once more.
  pub send_message_pending :
      (s : Session) (m : List ℕ)
      → 4 ≤ prependable s.output_buffer
      → prependable s.output_buffer ≤ cheap_prepend
      → length m < 2 ^ 31
      → (s' : Session) × (send_message m s ≡ ok s')
        × (readable s'.output_buffer ≡ be32 (length m) ++ (readable s.output_buffer ++ m))
        × (prependable s'.output_buffer + 4 ≡ prependable s.output_buffer)
        × (s'.writes ≡ s.writes ++ (be32 (length m) ++ (readable s.output_buffer ++ m)) ∷ [])
  unfolding send_message
  send_message_pending s m lo hi short =
      let (b, e, shown, left) = put_frame_pending s.output_buffer m lo hi short in
      (
        record s { output_buffer = b; writes = s.writes ++ readable b ∷ [] },
        rw e,
        shown,
        left,
        rw shown,
      )

  pub send_message_idle :
      (s : Session) (m : List ℕ)
      → IsIdle s.output_buffer
      → length m < 2 ^ 31
      → (s' : Session) × (send_message m s ≡ ok s')
        × (readable s'.output_buffer ≡ frame_of m)
        × (prependable s'.output_buffer ≡ 4)
        × (s'.writes ≡ s.writes ++ frame_of m ∷ [])
        × (s'.messages ≡ s.messages)
  unfolding send_message
  send_message_idle s m idle short =
      let (b, e, shown, left) = put_frame_idle s.output_buffer m idle short in
      (
        record s { output_buffer = b; writes = s.writes ++ readable b ∷ [] },
        rw e,
        shown,
        left,
        rw shown,
        refl,
      )

  send_message_full :
      (s : Session) (m : List ℕ) → prependable s.output_buffer ≡ 0 → send_message m s ≡ fault
  unfolding send_message
  send_message_full s m e = rw (put_frame_full s.output_buffer m e)

  -- Three messages in a row, with no write completed, run into the assertion of `prepend`.
  pub send_message_thrice :
      (s : Session) (a b c : List ℕ)
      → IsIdle s.output_buffer
      → length a < 2 ^ 31
      → length b < 2 ^ 31
      → for_each send_message s (a ∷ b ∷ c ∷ []) ≡ fault
  send_message_thrice s a b c idle ha hb =
      let (s1, e1, shown1, left1, _, _) = send_message_idle s a idle ha in
      let (s2, e2, _, left2, _) = send_message_pending s1 b (omega arith) (omega arith) hb in
      rw (e1, e2, send_message_full s2 c (omega arith))

  -- A completed write of part of the waiting bytes.
  pub on_write_lem :
      (k : ℕ) (s : Session)
      → k ≤ length (readable s.output_buffer)
      → (s' : Session) × (on_write false k s ≡ ok s')
        × (readable s'.output_buffer ≡ drop k (readable s.output_buffer))
        × (k ≡ length (readable s.output_buffer) → IsIdle s'.output_buffer)
        × (s'.writes ≡ (
            if ltb 0 (length (readable s'.output_buffer))
            then s.writes ++ readable s'.output_buffer ∷ []
            else s.writes))
  unfolding on_write
  on_write_lem k s within =
      let b = retrieve s.output_buffer k in
      let shown = readable-retrieve_part s.output_buffer k within in
      let step = checked_retrieve_lem s.output_buffer k within in
      elim (Bool-cases (ltb 0 (length (readable b)))) [
        | inl more ↦ (
          record s { output_buffer = b; writes = s.writes ++ readable b ∷ [] },
          rw (step, more),
          shown,
          retrieve-IsIdle s.output_buffer k within,
          rw more,
        )
        | inr over ↦ (
          record s { output_buffer = b },
          rw (step, over),
          shown,
          retrieve-IsIdle s.output_buffer k within,
          rw over,
        )
      ]

  -- Writes completed one after another.
  abbrev pub complete_all : List ℕ → Session → Run Session
  complete_all ks s = for_each (on_write false) s ks

  -- A message shorter than 2^31, sent while no write is under way, goes out as one frame, however
  -- its writes are completed: the first write is the frame, each further one what is left of it,
  -- and in the end no write is under way.
  pub send_message-Completes :
      (s : Session) (m : List ℕ) (ks : List ℕ)
      → IsIdle s.output_buffer
      → length m < 2 ^ 31
      → Completes ks (length m + 4)
      → (s' : Session) × ((send_message m s >>= complete_all ks) ≡ ok s')
        × IsIdle s'.output_buffer
        × (s'.writes ≡ s.writes ++ frame_of m ∷ remainders ks (frame_of m))
  send_message-Completes s m ks idle short c =
      let (s1, e1, shown, _, wrote, _) = send_message_idle s m idle short in
      let size : length (readable s1.output_buffer) ≡ length m + 4 =
        ap length shown ∙ omega arith in
      let (s', e, idle', w) =
        completions (λ (t : Session). t.output_buffer) (λ t. t.writes) (on_write false) on_write_lem
          ks s1 (omega arith) (rw size c) in
      (
        s',
        rw e1 e,
        idle',
        w
            ∙ ap (λ t. t ++ remainders ks (readable s1.output_buffer)) wrote
            ∙ rw shown (append_assoc s.writes (frame_of m ∷ []) (remainders ks (frame_of m))),
      )
