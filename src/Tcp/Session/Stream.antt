-- ===== src/Tcp/Session/Stream.antt =====
-- A session over a whole byte stream: what it delivers does not depend on how TCP cuts the stream.
use boost_practice.Base.{
  take_all, ℕ, suc, ◌≡◌, refl, sym, ap, ◌∙◌, subst, true, false, List, [], ◌∷◌, ◌++◌, length, Run,
  ok, for_each, arith, append_assoc, append-nil, concat, map, inl, inr,
}
use boost_practice.Buffer.{BufferApi}
use boost_practice.Frame.{size_total, next_frame, wait, frame_of}
use boost_practice.Frame.Relation.{
  Frames, Frames-unique, Frames-end, stop, Breaks, Frames-append, Frames-total,
}
use boost_practice.Frame.Split.{Frames-split}
use boost_practice.Frame.Encode.{AllSendable, Frames-concat, next_frame-nil}
use boost_practice.Tcp.Session.{Session, do_read, on_read}
use boost_practice.Tcp.Session.Read.{without_input, received, on_read-Frames, on_read-Breaks}

module _ ⦃api : BufferApi⦄ where
  open api use {readable}

  -- One `on_read` for each piece of the stream, in order.
  abbrev pub read_all : List (List ℕ) → Session → Run Session
  read_all pieces s = for_each (λ piece t. on_read false (length piece) piece t) s pieces

  read_piece :
      (s : Session) (piece : List ℕ) (ms : List (List ℕ)) {rest : List ℕ}
      → Frames 5 size_total (readable s.input_buffer ++ piece) ms rest
      → (s' : Session) × (on_read false (length piece) piece s ≡ ok s')
        × (readable s'.input_buffer ≡ rest)
        × (without_input s' ≡ do_read (received ms (without_input s)))
  read_piece s piece ms {rest} f = on_read-Frames s (length piece) piece (omega arith) ms (
      subst (λ t. Frames 5 size_total (readable s.input_buffer ++ t) ms rest) (sym (take_all piece))
        f)

  module _ (s s' : Session) (ms : List (List ℕ))
      (seen : without_input s' ≡ do_read (received ms (without_input s)))
      (cb : s.message_cb ≡ true) where
    pub message_cb-received : s'.message_cb ≡ true
    unfolding do_read
    message_cb-received = ap (λ (t : Session). t.message_cb) seen ∙ ground arith

    pub messages-received : s'.messages ≡ s.messages ++ ms
    unfolding do_read
    messages-received = ap (λ (t : Session). t.messages) seen ∙ ground arith

  -- A session that has handled what it has read.
  abbrev pub IsDrained : Session → Type 0
  IsDrained s = next_frame 5 size_total (readable s.input_buffer) ≡ wait

  read_all_Frames :
      (pieces : List (List ℕ)) (s : Session) {ms : List (List ℕ)} {rest : List ℕ}
      → s.message_cb ≡ true
      → IsDrained s
      → Frames 5 size_total (readable s.input_buffer ++ concat pieces) ms rest
      → (s' : Session) × (read_all pieces s ≡ ok s')
        × (readable s'.input_buffer ≡ rest)
        × (s'.messages ≡ s.messages ++ ms)
  read_all_Frames [] s {ms} {rest} cb w f =
      let (none_left, same) =
        Frames-unique 5 size_total (stop w)
          (subst (λ t. Frames 5 size_total t ms rest) (append-nil (readable s.input_buffer)) f) in
      (s, refl, same, ground (arith, append-nil s.messages))
  read_all_Frames (piece ∷ pieces) s {ms} {rest} cb w f =
      let xs = readable s.input_buffer in
      let (ms1, r, ms2, f1, f2, same) =
        Frames-split 5 size_total (omega arith) (xs ++ piece) (concat pieces) (
          subst (λ t. Frames 5 size_total t ms rest) (sym (append_assoc xs piece (concat pieces)))
            f) in
      let (s1, e1, kept, seen) = read_piece s piece ms1 f1 in
      let (s', e2, end, got) =
        read_all_Frames pieces s1 {ms = ms2} {rest = rest} (message_cb-received s s1 ms1 seen cb)
          (rw kept (Frames-end 5 size_total f1))
          (subst (λ t. Frames 5 size_total (t ++ concat pieces) ms2 rest) (sym kept) f2) in
      (
        s',
        rw e1 e2,
        end,
        got
            ∙ ap (λ t. t ++ ms2) (messages-received s s1 ms1 seen cb)
            ∙ append_assoc s.messages ms1 ms2
            ∙ ap (λ t. s.messages ++ t) (sym same),
      )

  -- However the bytes of framed messages, none of them empty and each shorter than 2^31, and of an
  -- incomplete frame behind them are cut into reads, a session whose callback is set and that has
  -- nothing unread delivers exactly these messages, in order, and keeps the incomplete frame.
  pub read_all_delivers :
      (s : Session) (ms : List (List ℕ)) (tail : List ℕ) (pieces : List (List ℕ))
      → s.message_cb ≡ true
      → readable s.input_buffer ≡ []
      → AllSendable 5 size_total ms
      → next_frame 5 size_total tail ≡ wait
      → concat pieces ≡ concat (map frame_of ms) ++ tail
      → (s' : Session) × (read_all pieces s ≡ ok s')
        × (readable s'.input_buffer ≡ tail)
        × (s'.messages ≡ s.messages ++ ms)
  read_all_delivers s ms tail pieces cb empty v w e =
      read_all_Frames pieces s cb (rw empty (next_frame-nil 5 size_total (omega arith)))
        (rw (empty, e) (Frames-concat 5 size_total ms tail v w))

  -- A read that succeeds has split what the buffer then showed into frames.
  pub on_read_inversion :
      (s s' : Session) (piece : List ℕ)
      → on_read false (length piece) piece s ≡ ok s'
      → (ms : List (List ℕ)) × Frames 5 size_total
          (readable s.input_buffer ++ piece)
          ms
          (readable s'.input_buffer)
        × (without_input s' ≡ do_read (received ms (without_input s)))
  on_read_inversion s s' piece e =
      let bytes = readable s.input_buffer ++ piece in
      elim (Frames-total 5 size_total (omega arith) (suc (length bytes)) bytes (omega arith)) [
        | inl (ms, rest, f) ↦
            let (s'', e', kept, seen) = read_piece s piece ms f in
            let same : s'' ≡ s' = cc in
            (
              ms,
              subst (λ t. Frames 5 size_total bytes ms (readable t.input_buffer)) same (rw kept f),
              rw same at seen,
            )
        | inr (ms, b) ↦
            let bad = on_read-Breaks s (length piece) piece (omega arith) ms (
              subst (λ t. Breaks 5 size_total (readable s.input_buffer ++ t) ms)
                (sym (take_all piece)) b) in
            absurd (cc bad)
      ]

  -- Two reads leave a session whose callback is set as one read of both pieces does: the same
  -- messages delivered, the same bytes kept, for any bytes whatever on which the two reads succeed.
  pub on_read_split :
      (s s1 s2 : Session) (c1 c2 : List ℕ)
      → s.message_cb ≡ true
      → on_read false (length c1) c1 s ≡ ok s1
      → on_read false (length c2) c2 s1 ≡ ok s2
      → (s' : Session) × (on_read false (length (c1 ++ c2)) (c1 ++ c2) s ≡ ok s')
        × (s'.messages ≡ s2.messages)
        × (readable s'.input_buffer ≡ readable s2.input_buffer)
  on_read_split s s1 s2 c1 c2 cb e1 e2 =
      let xs = readable s.input_buffer in
      let (ms1, f1, seen1) = on_read_inversion s s1 c1 e1 in
      let (ms2, f2, seen2) = on_read_inversion s1 s2 c2 e2 in
      let (s', e, kept, seen) =
        read_piece s (c1 ++ c2) (ms1 ++ ms2)
          (rw (← append_assoc xs c1 c2) (Frames-append 5 size_total (omega arith) c2 f1 f2)) in
      let cb1 = message_cb-received s s1 ms1 seen1 cb in
      (
        s',
        e,
        messages-received s s' (ms1 ++ ms2) seen cb
            ∙ sym (append_assoc s.messages ms1 ms2)
            ∙ ap (λ t. t ++ ms2) (sym (messages-received s s1 ms1 seen1 cb))
            ∙ sym (messages-received s1 s2 ms2 seen2 cb1),
        kept,
      )
