-- ===== src/AsioRpc/Session/Answers.antt =====
-- What a session answers to the requests that it reads.
use boost_practice.Base.{
  append_assoc, ℕ, suc, ◌^◌, ◌≤◌, ◌<◌, ◌≡◌, refl, ap, ◌∙◌, false, List, [], ◌∷◌, ◌++◌, length, take,
  Run, ok, fault, for_each, first_returns, part_faults, arith, le→leb, inl, inr,
}
use boost_practice.Buffer.{be32, of_be32, BufferApi}
use boost_practice.Frame.{frame, next_frame, int_total, frame_of}
use boost_practice.Frame.Relation.{Frames}
use boost_practice.Frame.Loop.{int_total-IsExact, drain-Frames, drain_fault}
use boost_practice.Frame.Parts.{
  frame-Parts, peek-Parts, retrieve-Parts, copy_out-Parts, retrieve_payload-Parts, readable-Parts,
}
use boost_practice.Frame.Output.{
  IsIdle, put_frame, put_frame_idle, put_frame_pending, put_frame_full,
}
use boost_practice.AsioRpc.Message.{Test, TestLibrary, IsAscii}
use boost_practice.AsioRpc.Session.{
  Session, test_solve, start_write, done_callback, on_frame, on_read, do_read,
}

module _ ⦃api : BufferApi⦄ ⦃lib : TestLibrary⦄ where
  open api use {Buffer, create, readable, append, retrieve, readable-append, peek_int32}
  open lib use {serialize, parse, parse-serialize}

  abbrev pub without_input : Session → Session
  without_input s = record s { input_buffer = create }

  -- What a payload brings about.
  abbrev handle : List ℕ → Session → Run Session
  handle p v = done_callback (test_solve (parse p)) v

  served :
      (s : Session) (p r : List ℕ) (v : Session)
      → next_frame 4 int_total (readable s.input_buffer) ≡ frame p r
      → handle p (without_input s) ≡ ok v
      → (s' : Session) × (on_frame (peek_int32 s.input_buffer) s ≡ ok s')
        × (readable s'.input_buffer ≡ r)
        × (without_input s' ≡ v)
  unfolding on_frame done_callback
  served s p r v e h =
      let b = s.input_buffer in
      let parts = frame-Parts 4 int_total (readable b) int_total-IsExact (omega arith) e in
      let (out, put, done) =
        first_returns (λ t. ok (start_write (record (without_input s) { output_buffer = t })))
          (put_frame s.output_buffer (serialize (test_solve (parse p)))) h in
      (
        start_write (record s {
          input_buffer = retrieve (retrieve b 4) (of_be32 (readable b));
          output_buffer = out;
        }),
        rw (
          peek-Parts b parts,
          retrieve-Parts b parts,
          copy_out-Parts b parts,
          retrieve_payload-Parts b parts,
          put,
        ),
        readable-Parts b parts,
        ground arith,
      )

  unserved :
      (s : Session) (p r : List ℕ)
      → next_frame 4 int_total (readable s.input_buffer) ≡ frame p r
      → handle p (without_input s) ≡ fault
      → on_frame (peek_int32 s.input_buffer) s ≡ fault
  unfolding on_frame done_callback
  unserved s p r e h =
      let b = s.input_buffer in
      let parts = frame-Parts 4 int_total (readable b) int_total-IsExact (omega arith) e in
      elim (part_faults (λ t. ok (start_write (record (without_input s) { output_buffer = t })))
        (put_frame s.output_buffer (serialize (test_solve (parse p)))) h) [
          | inl put ↦ rw (
            peek-Parts b parts,
            retrieve-Parts b parts,
            copy_out-Parts b parts,
            retrieve_payload-Parts b parts,
            put,
          )
          | inr (out, put, done) ↦ absurd (cc done)
        ]

  done_callback_idle :
      (response : Test) (s : Session)
      → IsIdle s.output_buffer
      → length (serialize response) < 2 ^ 31
      → (s' : Session) × (done_callback response s ≡ ok s')
        × (readable s'.output_buffer ≡ frame_of (serialize response))
        × (api.prependable s'.output_buffer ≡ 4)
        × (s'.writes ≡ s.writes ++ frame_of (serialize response) ∷ [])
        × (s'.input_buffer ≡ s.input_buffer)
  unfolding done_callback
  done_callback_idle response s idle short =
      let (b, e, shown, left) = put_frame_idle s.output_buffer (serialize response) idle short in
      (start_write (record s { output_buffer = b }), rw e, shown, left, rw shown, refl)

  module _ (s : Session) (bytes : ℕ) (read_buffer : List ℕ)
      (given : bytes ≤ length read_buffer) where
    -- What the input buffer shows once the bytes read have been appended.
    abbrev pub arrived : List ℕ
    arrived = readable s.input_buffer ++ take bytes read_buffer

    input_size :
        length arrived < suc (length (readable (append s.input_buffer (take bytes read_buffer))))
    input_size = omega (arith, ap length (readable-append s.input_buffer (take bytes read_buffer)))

    read_all :
        (ps : List (List ℕ)) {rest : List ℕ} {v : Session}
        → Frames 4 int_total arrived ps rest
        → for_each handle (without_input s) ps ≡ ok v
        → (s' : Session) × (on_read false bytes read_buffer s ≡ ok s')
          × (readable s'.input_buffer ≡ rest)
          × (without_input s' ≡ do_read v)
    unfolding on_read do_read
    read_all ps f h =
        let input = append s.input_buffer (take bytes read_buffer) in
        let (s', d, kept, seen) =
          drain-Frames 4 int_total int_total-IsExact (λ (t : Session). t.input_buffer) on_frame
            (omega arith) without_input handle served f (suc (length (readable input)))
            (record s { input_buffer = input })
            (readable-append s.input_buffer (take bytes read_buffer)) input_size h in
        (do_read s', rw (le→leb bytes (length read_buffer) given, d), kept, ap do_read seen)

    read_fault :
        (ps : List (List ℕ)) {rest : List ℕ}
        → Frames 4 int_total arrived ps rest
        → for_each handle (without_input s) ps ≡ fault
        → on_read false bytes read_buffer s ≡ fault
    unfolding on_read
    read_fault ps f h =
        let input = append s.input_buffer (take bytes read_buffer) in
        rw (le→leb bytes (length read_buffer) given) (
          rw (
            drain_fault 4 int_total int_total-IsExact (λ (t : Session). t.input_buffer) on_frame
              (omega arith) without_input handle served unserved f (suc (length (readable input)))
              (record s { input_buffer = input })
              (readable-append s.input_buffer (take bytes read_buffer)) input_size h))

    -- A session with no write under way that reads one request answers it with one write: the frame
    -- of the response of the service, which has the request's identifier and its text with each
    -- character one up. It keeps the bytes that follow the request.
    pub on_read_answers :
        (request : Test) (rest : List ℕ)
        → IsIdle s.output_buffer
        → request.id < 2 ^ 32
        → IsAscii request.message
        → length (serialize (test_solve request)) < 2 ^ 31
        → Frames 4 int_total arrived (serialize request ∷ []) rest
        → (s' : Session) × (on_read false bytes read_buffer s ≡ ok s')
          × (readable s'.input_buffer ≡ rest)
          × (s'.writes ≡ s.writes ++ frame_of (serialize (test_solve request)) ∷ [])
    unfolding do_read
    on_read_answers request rest idle small ascii short f =
        let read = parse-serialize request small ascii in
        let (v, e, _, _, wrote, _) =
          done_callback_idle (test_solve request) (without_input s) idle short in
        let answered : for_each handle (without_input s) (serialize request ∷ []) ≡ ok v =
          rw (read, e) in
        let (s', d, kept, seen) = read_all (serialize request ∷ []) f answered in
        (s', d, kept, ap (λ (t : Session). t.writes) seen ∙ wrote)

    -- A read that brings three requests or more, the first two with responses that fit the length
    -- field, to a session with no write under way faults: the first response is written, the second
    -- is written with its length before the first and its text behind it, and the third faults.
    pub on_read_burst :
        (a b c : List ℕ) (ps : List (List ℕ)) (rest : List ℕ)
        → IsIdle s.output_buffer
        → length (serialize (test_solve (parse a))) < 2 ^ 31
        → length (serialize (test_solve (parse b))) < 2 ^ 31
        → Frames 4 int_total arrived (a ∷ b ∷ c ∷ ps) rest
        → let first = frame_of (serialize (test_solve (parse a))) in
          let text = serialize (test_solve (parse b)) in
          (v w : Session) × (done_callback (test_solve (parse a)) (without_input s) ≡ ok v)
          × (done_callback (test_solve (parse b)) v ≡ ok w)
          × (w.writes ≡ s.writes ++ first ∷ (be32 (length text) ++ (first ++ text)) ∷ [])
          × (done_callback (test_solve (parse c)) w ≡ fault)
          × (on_read false bytes read_buffer s ≡ fault)
    unfolding done_callback
    on_read_burst a b c ps rest idle short_a short_b f =
        let (v1, e1, shown1, left1, wrote1, _) =
          done_callback_idle (test_solve (parse a)) (without_input s) idle short_a in
        let (o2, put2, shown2, left2) =
          put_frame_pending v1.output_buffer (serialize (test_solve (parse b))) (omega arith)
            (omega arith) short_b in
        let put3 = put_frame_full o2 (serialize (test_solve (parse c))) (omega arith) in
        let second : done_callback (test_solve (parse b)) v1
            ≡ ok (start_write (record v1 { output_buffer = o2 })) =
          rw put2 refl in
        let third : done_callback (test_solve (parse c))
              (start_write (record v1 { output_buffer = o2 }))
            ≡ fault =
          rw put3 refl in
        let all : for_each handle (without_input s) (a ∷ b ∷ c ∷ ps) ≡ fault =
          rw (e1, second, third) refl in
        let w = start_write (record v1 { output_buffer = o2 }) in
        let text = serialize (test_solve (parse b)) in
        (
          v1,
          w,
          e1,
          second,
          ap (λ x. v1.writes ++ x ∷ []) shown2
              ∙ ap (λ x. v1.writes ++ (be32 (length text) ++ (x ++ text)) ∷ []) shown1
              ∙ ap
                  (λ ws.
                    ws
                    ++ (be32 (length text) ++ (frame_of (serialize (test_solve (parse a))) ++ text))
                      ∷ [])
                  wrote1
              ∙ append_assoc s.writes (frame_of (serialize (test_solve (parse a))) ∷ []) _,
          third,
          read_fault (a ∷ b ∷ c ∷ ps) f all,
        )
