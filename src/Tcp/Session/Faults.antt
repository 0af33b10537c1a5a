-- ===== src/Tcp/Session/Faults.antt =====
-- Every read is decided: it delivers what the bytes hold, or faults on a length that the loop of
-- `on_read` cannot serve.
use boost_practice.Base.{
  ℕ, suc, ◌-◌, ◌^◌, ◌≤◌, ◌<◌, ◌≡◌, ap, ◌∙◌, false, List, [], length, ok, fault, arith, append-nil,
  ◌⊎◌, inl, inr,
}
use boost_practice.Buffer.{BufferApi, of_be32}
use boost_practice.Frame.{size_total}
use boost_practice.Frame.Relation.{Frames, stop, Breaks, here, Frames-total}
use boost_practice.Frame.Split.{next_frame_negative, next_frame_stuck}
use boost_practice.Tcp.Session.{Session, do_read, on_read}
use boost_practice.Tcp.Session.Read.{
  without_input, received, arrived, on_read-Frames, on_read-Breaks,
}

module _ ⦃api : BufferApi⦄ (s : Session) (bytes : ℕ) (read_buffer : List ℕ)
    (given : bytes ≤ length read_buffer) where
  open api use {readable}

  -- A read either succeeds on bytes that split into frames, delivers the payloads and keeps the
  -- rest, or faults on bytes with a length that the loop cannot serve; the loop never runs on.
  pub on_read_decides :
      ((ms : List (List ℕ)) × (s' : Session) × (on_read false bytes read_buffer s ≡ ok s')
        × Frames 5 size_total (arrived s bytes read_buffer given) ms (readable s'.input_buffer)
        × (without_input s' ≡ do_read (received ms (without_input s))))
      ⊎ ((ms : List (List ℕ)) × (on_read false bytes read_buffer s ≡ fault)
          × Breaks 5 size_total (arrived s bytes read_buffer given) ms)
  on_read_decides =
      let a = arrived s bytes read_buffer given in
      elim (Frames-total 5 size_total (omega arith) (suc (length a)) a (omega arith)) [
        | inl (ms, rest, f) ↦
            let (s', e, kept, seen) = on_read-Frames s bytes read_buffer given ms f in
            inl (ms, s', e, rw kept f, seen)
        | inr (ms, b) ↦ inr (ms, on_read-Breaks s bytes read_buffer given ms b, b)
      ]

  -- A length between -4 and -1, with one more byte behind it, makes the read fault.
  pub on_read_negative :
      5 ≤ length (arrived s bytes read_buffer given)
      → 2 ^ 32 - 4 ≤ of_be32 (arrived s bytes read_buffer given)
      → of_be32 (arrived s bytes read_buffer given) < 2 ^ 32
      → on_read false bytes read_buffer s ≡ fault
  on_read_negative h lo hi =
      on_read-Breaks s bytes read_buffer given []
        (here (next_frame_negative 5 _ h (omega arith) lo hi))

  -- A length below -4 holds the session up: the read delivers nothing and keeps all the bytes.
  pub on_read_stuck :
      2 ^ 31 ≤ of_be32 (arrived s bytes read_buffer given)
      → of_be32 (arrived s bytes read_buffer given) < 2 ^ 32 - 4
      → length (arrived s bytes read_buffer given) < 2 ^ 63
      → (s' : Session) × (on_read false bytes read_buffer s ≡ ok s')
        × (readable s'.input_buffer ≡ arrived s bytes read_buffer given)
        × (s'.messages ≡ s.messages)
  unfolding do_read
  on_read_stuck lo hi h =
      let (s', e, kept, seen) =
        on_read-Frames s bytes read_buffer given [] (stop (next_frame_stuck 5 _ lo hi h)) in
      (s', e, kept, ap (λ (t : Session). t.messages) seen ∙ ground (arith, append-nil s.messages))
