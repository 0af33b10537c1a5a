-- ===== src/AsioRpc/RoundTrip.antt =====
-- A request of the client, answered by the server, over the bytes that each writes.
use boost_practice.Base.{
  ℕ, ◌+◌, ◌-◌, ◌%◌, ◌^◌, ◌<◌, ◌≡◌, refl, sym, ap, ◌∙◌, subst, false, List, [], ◌∷◌, ◌++◌, length,
  take, Option, some, ok, arith, take_all, ◌==◌, if◌then◌else◌,
}
use boost_practice.Buffer.{BufferApi}
use boost_practice.Pending.{find_call, put_call}
use boost_practice.Pending.Laws.{find-put}
use boost_practice.Frame.{frame_of, int_total}
use boost_practice.Frame.Relation.{Frames}
use boost_practice.Frame.Encode.{int_total_lem, Frames-frame_of}
use boost_practice.Frame.Output.{IsIdle, put_frame_idle}
use boost_practice.AsioRpc.Message.{Test, TestLibrary, IsAscii}
use boost_practice.AsioRpc.Session.{Session, increment, test_solve}
use boost_practice.AsioRpc.Session as Server
use boost_practice.AsioRpc.Session.Answers.{on_read_answers}
use boost_practice.AsioRpc.Client.{Client, send_request, call_method, start_write, on_read}
use boost_practice.AsioRpc.Client.Responses.{on_read_response}

module _ ⦃api : BufferApi⦄ ⦃lib : TestLibrary⦄ where
  open api use {readable}
  open lib use {serialize}

  -- The message of a request.
  abbrev pub request_of : Client → List ℕ → Test
  request_of c msg = record { id = c.id; message = msg }

  -- A request is sent as one frame under the client's identifier, which waits from then on for the
  -- response, by the object at the given address; the next request has the next identifier.
  pub send_request_lem :
      (c : Client) (msg : List ℕ) (response : ℕ)
      → IsIdle c.output_buffer
      → length (serialize (request_of c msg)) < 2 ^ 31
      → (c' : Client) × (send_request msg response c ≡ ok c')
        × (c'.writes ≡ c.writes ++ frame_of (serialize (request_of c msg)) ∷ [])
        × ((id : ℕ)
            → find_call id c'.res_calls
              ≡ (if c.id == id then some response else find_call id c.res_calls))
        × (c'.id ≡ (c.id + 1) % 2 ^ 32)
        × (c'.input_buffer ≡ c.input_buffer)
        × (c'.solved ≡ c.solved)
  unfolding send_request call_method
  send_request_lem c msg response idle short =
      let q = request_of c msg in
      let (b, e, shown, _) = put_frame_idle c.output_buffer (serialize q) idle short in
      let c' : Client = start_write (record c {
        id = (c.id + 1) % 2 ^ 32;
        output_buffer = b;
        res_calls = put_call c.id response c.res_calls;
      }) in
      (
        c',
        rw e refl,
        rw shown refl,
        (λ id. find-put id c.id response c.res_calls),
        refl,
        refl,
        refl,
      )

  own : (n : ℕ) (a b : Option ℕ) → (if n == n then a else b) ≡ a
  own n a b = ground arith

  -- A request makes the round trip: what the client writes, read by a session of the server, makes
  -- that session write a response, and this, read by the client, is printed for the request, with
  -- the request's identifier and its text with each character one up. Neither end has anything
  -- unread or a write under way, both texts are ASCII, and both messages fit the length field.
  pub solve_round_trip :
      (c : Client) (s : Session) (msg : List ℕ) (response : ℕ)
      → IsIdle c.output_buffer
      → IsIdle s.output_buffer
      → readable c.input_buffer ≡ []
      → readable s.input_buffer ≡ []
      → c.id < 2 ^ 32
      → IsAscii msg
      → IsAscii (increment msg)
      → length (serialize (request_of c msg)) < 2 ^ 31 - 4
      → length (serialize (test_solve (request_of c msg))) < 2 ^ 31
      → let asked = frame_of (serialize (request_of c msg)) in
        let answered = frame_of (serialize (test_solve (request_of c msg))) in
        (c1 : Client) × (s' : Session) × (c2 : Client) × (send_request msg response c ≡ ok c1)
        × (c1.writes ≡ c.writes ++ asked ∷ [])
        × (Server.on_read false (length asked) asked s ≡ ok s')
        × (s'.writes ≡ s.writes ++ answered ∷ [])
        × (on_read false (length answered) answered c1 ≡ ok c2)
        × (c2.solved ≡ c.solved ++ (response, record { id = c.id; message = increment msg }) ∷ [])
  unfolding test_solve
  solve_round_trip c s msg response idle server_idle no_bytes none_left small ascii ascii' short
        short' =
      let q = request_of c msg in
      let asked = frame_of (serialize q) in
      let answered = frame_of (serialize (test_solve q)) in
      let (c1, e1, w1, waits, _, same_input, same_solved) =
        send_request_lem c msg response idle (omega arith) in
      let shown : readable s.input_buffer ++ take (length asked) asked ≡ asked =
        ap (λ t. t ++ take (length asked) asked) none_left ∙ take_all asked in
      let (s', e2, _, w2) =
        on_read_answers s (length asked) asked (omega arith) q [] server_idle small ascii short' (
          subst (λ t. Frames 4 int_total t (serialize q ∷ []) []) (sym shown)
            (Frames-frame_of 4 int_total (serialize q) (omega arith)
              (omega arith, omega arith, int_total_lem (length (serialize q)) short))) in
      let unread : readable c1.input_buffer ≡ [] = ap readable same_input ∙ no_bytes in
      let back : readable c1.input_buffer ++ take (length answered) answered ≡ answered =
        ap (λ t. t ++ take (length answered) answered) unread ∙ take_all answered in
      let (c2, e3, _, got, _) =
        on_read_response c1 (length answered) answered (omega arith) (test_solve q) back small
          ascii' short' response
          (waits c.id ∙ own c.id (some response) (find_call c.id c.res_calls)) in
      (
        c1,
        s',
        c2,
        e1,
        w1,
        e2,
        w2,
        e3,
        got ∙ ap (λ t. t ++ (response, test_solve q) ∷ []) same_solved,
      )
