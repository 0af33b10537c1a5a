-- ===== src/Tcp/Session/Read.antt =====
-- What `on_read` of a session delivers.
use boost_practice.Base.{
  if◌then◌else◌, ◌∙◌, append_assoc, le→leb, append-nil, ap, ℕ, suc, ◌^◌, ◌≤◌, ◌≡◌, false, List, [],
  ◌∷◌, ◌++◌, length, take, Run, ok, fault, for_each, arith, if◌then◌else◌, ◌∙◌,
}
use boost_practice.Buffer.{BufferApi, of_be32}
use boost_practice.Frame.{size_total, next_frame, frame, broken}
use boost_practice.Frame.Relation.{Frames, Breaks}
use boost_practice.Frame.Parts.{
  frame-Parts, peek-Parts, retrieve-Parts, copy_out-Parts, retrieve_payload-Parts, readable-Parts,
  broken_long, copy_out_negative, checked_retrieve_lem,
}
use boost_practice.Frame.Loop.{size_total-IsExact, drain-Frames, drain-Breaks}
use boost_practice.Tcp.Session.{Session, deliver, do_read, on_frame, on_read}

module _ ⦃api : BufferApi⦄ where
  open api use {
    Buffer, create, readable, append, retrieve, readable-append, peek_int32, peek_int32_lem,
  }

  -- The session but for its input buffer.
  abbrev pub without_input : Session → Session
  without_input s = record s { input_buffer = create }

  on_frame_lem :
      (s : Session) (p r : List ℕ) (v : Session)
      → next_frame 5 size_total (readable s.input_buffer) ≡ frame p r
      → ◌≡◌ {A = Run Session} (ok (deliver p (without_input s))) (ok v)
      → (s' : Session) × (on_frame (peek_int32 s.input_buffer) s ≡ ok s')
        × (readable s'.input_buffer ≡ r)
        × (without_input s' ≡ v)
  unfolding on_frame
  on_frame_lem s p r v e h =
      let b = s.input_buffer in
      let parts = frame-Parts 5 size_total (readable b) size_total-IsExact (omega arith) e in
      (
        deliver p (record s { input_buffer = retrieve (retrieve b 4) (of_be32 (readable b)) }),
        rw (
          peek-Parts b parts,
          retrieve-Parts b parts,
          copy_out-Parts b parts,
          retrieve_payload-Parts b parts,
        ),
        ground (arith, readable-Parts b parts),
        ground arith,
      )

  on_frame_negative :
      (s : Session)
      → next_frame 5 size_total (readable s.input_buffer) ≡ broken
      → 2 ^ 31 ≤ of_be32 (readable s.input_buffer)
      → on_frame (peek_int32 s.input_buffer) s ≡ fault
  unfolding on_frame
  on_frame_negative s e h =
      let b = s.input_buffer in
      let long : 4 ≤ length (readable b) = omega (arith, broken_long 5 size_total (readable b) e) in
      rw (checked_retrieve_lem b 4 long, copy_out_negative b (retrieve b 4) long h)

  -- A session that has handed these messages to its callback.
  abbrev pub received : List (List ℕ) → Session → Session
  received ms s = if s.message_cb then record s { messages = s.messages ++ ms } else s

  deliver_all :
      (ms : List (List ℕ)) (s : Session)
      → for_each {S = Session} (λ p v. ok (deliver p v)) s ms ≡ ok (received ms s)
  deliver_all [] s = ground (arith, append-nil s.messages)
  deliver_all (m ∷ ms) s =
      deliver_all ms (deliver m s) ∙ ground (arith, append_assoc s.messages (m ∷ []) ms)

  module _ (s : Session) (bytes : ℕ) (read_buffer : List ℕ)
      (given : bytes ≤ length read_buffer) where
    -- What the input buffer shows once the bytes read have been appended.
    abbrev pub arrived : List ℕ
    arrived = readable s.input_buffer ++ take bytes read_buffer

    pub on_read-Frames :
        (ms : List (List ℕ)) {rest : List ℕ}
        → Frames 5 size_total arrived ms rest
        → (s' : Session) × (on_read false bytes read_buffer s ≡ ok s')
          × (readable s'.input_buffer ≡ rest)
          × (without_input s' ≡ do_read (received ms (without_input s)))
    unfolding on_read do_read
    on_read-Frames ms f =
        let input = append s.input_buffer (take bytes read_buffer) in
        let shown = readable-append s.input_buffer (take bytes read_buffer) in
        let (s', d, kept, seen) =
          drain-Frames 5 size_total size_total-IsExact (λ (t : Session). t.input_buffer) on_frame
            (omega arith) without_input (λ p v. ok (deliver p v)) on_frame_lem f
            (suc (length (readable input))) (record s { input_buffer = input }) shown
            (omega (arith, ap length shown)) (deliver_all ms (without_input s)) in
        (do_read s', rw (le→leb bytes (length read_buffer) given, d), kept, ap do_read seen)

    pub on_read-Breaks :
        (ms : List (List ℕ))
        → Breaks 5 size_total arrived ms
        → on_read false bytes read_buffer s ≡ fault
    unfolding on_read
    on_read-Breaks ms f =
        let input = append s.input_buffer (take bytes read_buffer) in
        let shown = readable-append s.input_buffer (take bytes read_buffer) in
        rw (
          le→leb bytes (length read_buffer) given,
          drain-Breaks 5 size_total size_total-IsExact (λ (t : Session). t.input_buffer) on_frame
              (omega arith) without_input (λ p v. ok (deliver p v)) on_frame_lem on_frame_negative f
              (suc (length (readable input))) (record s { input_buffer = input })
              {v = received ms (without_input s)} shown (omega (arith, ap length shown))
              (deliver_all ms (without_input s)),
        )
