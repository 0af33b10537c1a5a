-- ===== src/Tcp/Client/Chat.antt =====
-- What the chat client prints and sends.
use boost_practice.Base.{
  ℕ, suc, ◌+◌, ◌^◌, ◌≤◌, ◌<◌, ◌≡◌, sym, ap, ◌∙◌, true, false, List, [], ◌∷◌, ◌++◌, length, take,
  drop, Run, ok, fault, ◌>>=◌, for_each, first_returns, arith, append_assoc, append-nil, le→leb,
  ltb, if◌then◌else◌, Bool-cases, inl, inr,
}
use boost_practice.Buffer.{BufferApi, of_be32}
use boost_practice.Frame.{size_total, next_frame, frame, broken, frame_of}
use boost_practice.Frame.Relation.{Frames, Breaks}
use boost_practice.Frame.Loop.{size_total-IsExact, drain-Frames, drain-Breaks}
use boost_practice.Frame.Parts.{
  frame-Parts, peek-Parts, retrieve-Parts, copy_out-Parts, retrieve_payload-Parts, readable-Parts,
  broken_long, copy_out_negative, checked_retrieve_lem,
}
use boost_practice.Frame.Output.{
  IsIdle, put_frame_idle, readable-retrieve_part, retrieve-IsIdle, remainders, Completes,
  completions,
}
use boost_practice.Tcp.Client.{
  Client, do_read, print, on_frame, on_read, on_write, send_message, say, input_loop, is_quit,
}

module _ ⦃api : BufferApi⦄ where
  open api use {Buffer, create, readable, append, retrieve, readable-append, peek_int32}

  -- The client but for its input buffer.
  abbrev pub without_input : Client → Client
  without_input c = record c { input_buffer = create }

  on_frame_lem :
      (c : Client) (p r : List ℕ) (v : Client)
      → next_frame 5 size_total (readable c.input_buffer) ≡ frame p r
      → ◌≡◌ {A = Run Client} (ok (print p (without_input c))) (ok v)
      → (c' : Client) × (on_frame (peek_int32 c.input_buffer) c ≡ ok c')
        × (readable c'.input_buffer ≡ r)
        × (without_input c' ≡ v)
  unfolding on_frame
  on_frame_lem c p r v e h =
      let b = c.input_buffer in
      let parts = frame-Parts 5 size_total (readable b) size_total-IsExact (omega arith) e in
      (
        print p (record c { input_buffer = retrieve (retrieve b 4) (of_be32 (readable b)) }),
        rw (
          peek-Parts b parts,
          retrieve-Parts b parts,
          copy_out-Parts b parts,
          retrieve_payload-Parts b parts,
        ),
        readable-Parts b parts,
        ground arith,
      )

  on_frame_negative :
      (c : Client)
      → next_frame 5 size_total (readable c.input_buffer) ≡ broken
      → 2 ^ 31 ≤ of_be32 (readable c.input_buffer)
      → on_frame (peek_int32 c.input_buffer) c ≡ fault
  unfolding on_frame
  on_frame_negative c e h =
      let b = c.input_buffer in
      let long : 4 ≤ length (readable b) = omega (arith, broken_long 5 size_total (readable b) e) in
      rw (checked_retrieve_lem b 4 long, copy_out_negative b (retrieve b 4) long h)

  print_all :
      (ms : List (List ℕ)) (c : Client)
      → for_each {S = Client} (λ p v. ok (print p v)) c ms
        ≡ ok (record c { printed = c.printed ++ ms })
  print_all [] c = ground (arith, append-nil c.printed)
  print_all (m ∷ ms) c =
      print_all ms (print m c) ∙ ground (arith, append_assoc c.printed (m ∷ []) ms)

  module _ (c : Client) (bytes : ℕ) (read_buffer : List ℕ)
      (given : bytes ≤ length read_buffer) where
    -- What the input buffer shows once the bytes read have been appended.
    abbrev pub arrived : List ℕ
    arrived = readable c.input_buffer ++ take bytes read_buffer

    on_read_lem :
        (ms : List (List ℕ))
        → ((rest : List ℕ)
            → Frames 5 size_total arrived ms rest
            → (c' : Client) × (on_read false bytes read_buffer c ≡ ok c')
              × (readable c'.input_buffer ≡ rest)
              × (without_input c'
                  ≡ do_read (record (without_input c) { printed = c.printed ++ ms })))
          × (Breaks 5 size_total arrived ms → on_read false bytes read_buffer c ≡ fault)
    unfolding on_read do_read
    on_read_lem ms =
        let input = append c.input_buffer (take bytes read_buffer) in
        let shown = readable-append c.input_buffer (take bytes read_buffer) in
        let shorter : length arrived < suc (length (readable input)) =
          omega (arith, ap length shown) in
        (
          λ rest f.
              let (c', d, kept, seen) =
                drain-Frames 5 size_total size_total-IsExact (λ (t : Client). t.input_buffer)
                  on_frame (omega arith) without_input (λ p v. ok (print p v)) on_frame_lem f
                  (suc (length (readable input))) (record c { input_buffer = input }) shown shorter
                  (print_all ms (without_input c)) in
              (do_read c', rw (le→leb bytes (length read_buffer) given, d), kept, ap do_read seen),
          λ f. rw (
            le→leb bytes (length read_buffer) given,
            drain-Breaks 5 size_total size_total-IsExact (λ (t : Client). t.input_buffer) on_frame
                (omega arith) without_input (λ p v. ok (print p v)) on_frame_lem on_frame_negative f
                (suc (length (readable input))) (record c { input_buffer = input })
                {v = record (without_input c) { printed = c.printed ++ ms }} shown shorter
                (print_all ms (without_input c)),
          ),
        )

    -- Where the bytes at hand split into frames, the read prints their payloads in order, keeps the
    -- rest, asks for more, and changes nothing else.
    pub on_read_prints :
        (ms : List (List ℕ)) (rest : List ℕ)
        → Frames 5 size_total arrived ms rest
        → (c' : Client) × (on_read false bytes read_buffer c ≡ ok c')
          × (readable c'.input_buffer ≡ rest)
          × (without_input c' ≡ do_read (record (without_input c) { printed = c.printed ++ ms }))
    on_read_prints ms rest f = (on_read_lem ms).0 rest f

    -- Where they hold a length that the loop cannot serve, the read faults.
    pub on_read-Breaks :
        (ms : List (List ℕ))
        → Breaks 5 size_total arrived ms
        → on_read false bytes read_buffer c ≡ fault
    on_read-Breaks ms f = (on_read_lem ms).1 f

  pub send_message_idle :
      (c : Client) (m : List ℕ)
      → IsIdle c.output_buffer
      → length m < 2 ^ 31
      → (c' : Client) × (send_message m c ≡ ok c')
        × (readable c'.output_buffer ≡ frame_of m)
        × (c'.writes ≡ c.writes ++ frame_of m ∷ [])
  unfolding send_message
  send_message_idle c m idle short =
      let (b, e, shown, left) = put_frame_idle c.output_buffer m idle short in
      (record c { output_buffer = b; writes = c.writes ++ readable b ∷ [] }, rw e, shown, rw shown)

  on_write_lem :
      (k : ℕ) (c : Client)
      → k ≤ length (readable c.output_buffer)
      → (c' : Client) × (on_write false k c ≡ ok c')
        × (readable c'.output_buffer ≡ drop k (readable c.output_buffer))
        × (k ≡ length (readable c.output_buffer) → IsIdle c'.output_buffer)
        × (c'.writes ≡ (
            if ltb 0 (length (readable c'.output_buffer))
            then c.writes ++ readable c'.output_buffer ∷ []
            else c.writes))
  unfolding on_write
  on_write_lem k c within =
      let b = retrieve c.output_buffer k in
      let shown = readable-retrieve_part c.output_buffer k within in
      let step = checked_retrieve_lem c.output_buffer k within in
      let idle = retrieve-IsIdle c.output_buffer k within in
      elim (Bool-cases (ltb 0 (length (readable b)))) [
        | inl more ↦ (
          record c { output_buffer = b; writes = c.writes ++ readable b ∷ [] },
          rw (step, more),
          shown,
          idle,
          rw more,
        )
        | inr over ↦ (record c { output_buffer = b }, rw (step, over), shown, idle, rw over)
      ]

  -- A line typed while no write is under way goes out as one frame, however the writes are
  -- completed, and in the end no write is under way.
  pub client_send-Completes :
      (c : Client) (m : List ℕ) (ks : List ℕ)
      → IsIdle c.output_buffer
      → length m < 2 ^ 31
      → Completes ks (length m + 4)
      → (c' : Client) × ((send_message m c >>= λ t. for_each (on_write false) t ks) ≡ ok c')
        × IsIdle c'.output_buffer
        × (c'.writes ≡ c.writes ++ frame_of m ∷ remainders ks (frame_of m))
  client_send-Completes c m ks idle short done =
      let (c1, e1, shown, wrote) = send_message_idle c m idle short in
      let size : length (readable c1.output_buffer) ≡ length m + 4 =
        ap length shown ∙ omega arith in
      let (c', e, idle', w) =
        completions (λ (t : Client). t.output_buffer) (λ t. t.writes) (on_write false) on_write_lem
          ks c1 (omega arith) (rw size done) in
      (
        c',
        rw e1 e,
        idle',
        w
            ∙ ap (λ t. t ++ remainders ks (readable c1.output_buffer)) wrote
            ∙ rw shown (append_assoc c.writes (frame_of m ∷ []) (remainders ks (frame_of m))),
      )

  -- The input loop ends at the first line that is "0", whatever follows it.
  pub input_loop_quit :
      (line : List ℕ) (before after : List (List ℕ)) (c c' : Client)
      → is_quit line ≡ true
      → input_loop before c ≡ ok c'
      → c'.stopped ≡ false
      → input_loop (before ++ line ∷ after) c ≡ ok (record c' { stopped = true })
  unfolding input_loop
  input_loop_quit line [] after c c' q e s =
      let same : c ≡ c' = ground arith in
      rw q (ap (λ (t : Client). ok (record t { stopped = true })) same)
  input_loop_quit line (l ∷ before) after c c' q e s = elim (Bool-cases (is_quit l)) [
    | inl quits ↦
        let same : record c { stopped = true } ≡ c' = ground arith in
        let stops : c'.stopped ≡ true = sym (ap (λ (t : Client). t.stopped) same) in
        absurd (cc (sym stops ∙ s))
    | inr goes_on ↦
        let first : (say l c >>= λ t. input_loop before t) ≡ ok c' = ground arith in
        let (c1, e1, e2) = first_returns (λ t. input_loop before t) (say l c) first in
        rw goes_on (rw e1 (input_loop_quit line before after c1 c' q e2 s))
  ]
