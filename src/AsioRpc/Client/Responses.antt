-- ===== src/AsioRpc/Client/Responses.antt =====
-- What the client makes of a response that it reads.
use boost_practice.Base.{
  ℕ, ◌^◌, ◌≤◌, ◌<◌, ◌≡◌, refl, sym, ap, ◌∙◌, false, List, [], ◌∷◌, ◌++◌, length, take, drop, none,
  some, ok, fault, arith, le→leb, append-nil,
}
use boost_practice.Buffer.{BufferApi, of_be32}
use boost_practice.Pending.{find_call, erase_call}
use boost_practice.Frame.{frame, next_frame, size_total, frame_of}
use boost_practice.Frame.Loop.{size_total-IsExact, drain_one, drain_first_fault}
use boost_practice.Frame.Parts.{
  Parts, frame-Parts, peek-Parts, retrieve-Parts, retrieve_payload-Parts, readable-Parts,
}
use boost_practice.Frame.Encode.{size_total_lem, next_frame-frame_of, next_frame-nil}
use boost_practice.AsioRpc.Message.{Test, TestLibrary, IsAscii}
use boost_practice.AsioRpc.Client.{Client, on_frame, on_read, do_read, on_solved}

module _ ⦃api : BufferApi⦄ ⦃lib : TestLibrary⦄ where
  open api use {Buffer, readable, append, retrieve, readable-append, readable-retrieve, peek_int32}
  open lib use {serialize, parse, parse-serialize}

  -- A client whose input buffer shows one whole response and nothing more.
  module _ (c : Client) (m : Test) (shown : readable c.input_buffer ≡ frame_of (serialize m))
      (small : m.id < 2 ^ 32) (ascii : IsAscii m.message)
      (short : length (serialize m) < 2 ^ 31) where
    whole : next_frame 4 size_total (readable c.input_buffer) ≡ frame (serialize m) []
    whole =
        ap (next_frame 4 size_total) (shown ∙ sym (append-nil (frame_of (serialize m))))
        ∙ next_frame-frame_of 4 size_total (serialize m) []
            (omega arith, short, size_total_lem (length (serialize m)) short)

    parts : Parts (readable c.input_buffer) (serialize m) []
    parts =
        frame-Parts 4 size_total (readable c.input_buffer) size_total-IsExact (omega arith) whole

    payload_shown : readable (retrieve c.input_buffer 4) ≡ serialize m
    payload_shown =
        readable-retrieve c.input_buffer 4 (omega (arith, ap length shown)) ∙ ap (drop 4) shown

    parsed : parse (readable (retrieve c.input_buffer 4)) ≡ m
    parsed = ap parse payload_shown ∙ parse-serialize m small ascii

    -- The client once the response has been handled.
    abbrev handled : ℕ → Client
    handled response = on_solved response m (record c {
      input_buffer = retrieve (retrieve c.input_buffer 4) (of_be32 (readable c.input_buffer));
      res_calls = erase_call m.id c.res_calls;
    })

    on_frame_waiting :
        (response : ℕ)
        → find_call m.id c.res_calls ≡ some response
        → on_frame (peek_int32 c.input_buffer) c ≡ ok (handled response)
    unfolding on_frame
    on_frame_waiting response e =
        rw
          (
            peek-Parts c.input_buffer parts,
            retrieve-Parts c.input_buffer parts,
            parsed,
            e,
            retrieve_payload-Parts c.input_buffer parts,
          )
          refl

    on_frame_stray :
        find_call m.id c.res_calls ≡ none → on_frame (peek_int32 c.input_buffer) c ≡ fault
    unfolding on_frame
    on_frame_stray e = rw (retrieve-Parts c.input_buffer parts, parsed, e) refl

  module _ (c : Client) (bytes : ℕ) (read_buffer : List ℕ) (given : bytes ≤ length read_buffer)
      (m : Test) (sent : readable c.input_buffer ++ take bytes read_buffer ≡ frame_of (serialize m))
      (small : m.id < 2 ^ 32) (ascii : IsAscii m.message)
      (short : length (serialize m) < 2 ^ 31) where
    -- A read that completes one response, and brings nothing more, prints it for the call that waits
    -- under its identifier, by the object of that call, and takes the call out of the map.
    pub on_read_response :
        (response : ℕ)
        → find_call m.id c.res_calls ≡ some response
        → (c' : Client) × (on_read false bytes read_buffer c ≡ ok c')
          × (readable c'.input_buffer ≡ [])
          × (c'.solved ≡ c.solved ++ (response, m) ∷ [])
          × (c'.res_calls ≡ erase_call m.id c.res_calls)
    unfolding on_read do_read on_solved
    on_read_response response e =
        let input = append c.input_buffer (take bytes read_buffer) in
        let d : Client = record c { input_buffer = input } in
        let shown : readable input ≡ frame_of (serialize m) =
          readable-append c.input_buffer (take bytes read_buffer) ∙ sent in
        let t = handled d m shown small ascii short response in
        let empty : readable t.input_buffer ≡ [] =
          readable-Parts input (parts d m shown small ascii short) in
        let loop =
          drain_one 4 size_total size_total-IsExact (λ (u : Client). u.input_buffer) on_frame
            (omega arith) (length (readable input)) d t (omega (arith, ap length shown))
            (whole d m shown small ascii short)
            (on_frame_waiting d m shown small ascii short response e)
            (rw empty (next_frame-nil 4 size_total (omega arith))) in
        (do_read t, rw (le→leb bytes (length read_buffer) given, loop) refl, empty, refl, refl)

    -- A read that completes one response and brings nothing more, under an identifier that no call
    -- waits for, goes through a null pointer. The identifier has 32 bits, the text is ASCII and the
    -- response fits the length field.
    pub on_read_stray :
        find_call m.id c.res_calls ≡ none → on_read false bytes read_buffer c ≡ fault
    unfolding on_read
    on_read_stray e =
        let input = append c.input_buffer (take bytes read_buffer) in
        let d : Client = record c { input_buffer = input } in
        let shown : readable input ≡ frame_of (serialize m) =
          readable-append c.input_buffer (take bytes read_buffer) ∙ sent in
        rw (le→leb bytes (length read_buffer) given) (
          rw
            (drain_first_fault 4 size_total size_total-IsExact (λ (u : Client). u.input_buffer)
              on_frame (omega arith) (length (readable input)) d (whole d m shown small ascii short)
              (on_frame_stray d m shown small ascii short e))
            refl)
