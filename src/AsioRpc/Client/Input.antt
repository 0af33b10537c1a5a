-- ===== src/AsioRpc/Client/Input.antt =====
-- Lines that are typed faster than they are written.
use boost_practice.Base.{
  ℕ, ◌+◌, ◌%◌, ◌^◌, ◌<◌, ◌≡◌, refl, false, List, ◌∷◌, length, fault, arith, same_text, text,
}
use boost_practice.Buffer.{BufferApi}
use boost_practice.Pending.{put_call}
use boost_practice.Frame.Output.{IsIdle, put_frame_idle, put_frame_pending, put_frame_full}
use boost_practice.AsioRpc.Message.{Test, TestLibrary}
use boost_practice.AsioRpc.Client.{Client, start_write, call_method, send_request, input_loop}

module _ ⦃api : BufferApi⦄ ⦃lib : TestLibrary⦄ where
  open api use {Buffer, prependable}
  open lib use {serialize}

  -- The request that the client makes of a line, under its next identifier.
  abbrev pub line_request : ℕ → List ℕ → Test
  line_request id line = record { id = id; message = line }

  abbrev sent : Client → Buffer → List ℕ → ℕ → Client
  sent c b line response = start_write (record c {
    id = (c.id + 1) % 2 ^ 32;
    output_buffer = b;
    res_calls = put_call c.id response c.res_calls;
  })

  -- Three lines that are read before the first of them has been written, none of which ends the
  -- loop, run into the assertion of the buffer, where no write was under way before them and the
  -- requests of the first two fit the length field.
  pub input_loop_burst :
      (c : Client) (a b d : List ℕ) (lines : List (List ℕ)) (response : ℕ)
      → IsIdle c.output_buffer
      → same_text a (text "0") ≡ false
      → same_text b (text "0") ≡ false
      → same_text d (text "0") ≡ false
      → length (serialize (line_request c.id a)) < 2 ^ 31
      → length (serialize (line_request ((c.id + 1) % 2 ^ 32) b)) < 2 ^ 31
      → input_loop (a ∷ b ∷ d ∷ lines) response c ≡ fault
  unfolding input_loop send_request call_method
  input_loop_burst c a b d lines response idle na nb nd ha hb =
      let (b1, e1, _, left1) =
        put_frame_idle c.output_buffer (serialize (line_request c.id a)) idle ha in
      let c1 = sent c b1 a response in
      let (b2, e2, _, left2) =
        put_frame_pending b1 (serialize (line_request c1.id b)) (omega arith) (omega arith) hb in
      let c2 = sent c1 b2 b (response + 1) in
      let full = put_frame_full b2 (serialize (line_request c2.id d)) (omega arith) in
      rw (na, e1) (rw (nb, e2) (rw (nd, full) refl))
