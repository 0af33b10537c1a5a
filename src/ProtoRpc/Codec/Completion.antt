-- ===== src/ProtoRpc/Codec/Completion.antt =====
-- What the completion of a write does to the output buffers of the codec.
use boost_practice.Base.{
  ◌==◌, ℕ, ◌-◌, ◌≤◌, ◌<◌, ◌≡◌, refl, sym, ap, ◌∙◌, true, false, [], ◌∷◌, ◌++◌, length, length-drop,
  drop, ok, arith, ltb→lt, ltb→le, subst, ltb, if◌then◌else◌, Bool-cases, inl, inr,
}
use boost_practice.Buffer.{BufferApi}
use boost_practice.Frame.Parts.{checked_retrieve_lem}
use boost_practice.Frame.Output.{IsIdle, readable-retrieve_part, retrieve-IsIdle}
use boost_practice.ProtoRpc.Codec.{BufferValue, Codec, put_value, get_value, on_write}
use boost_practice.ProtoRpc.Codec.Slots.{AllReady, get-put, get-put_if, put_value-AllReady}

module _ ⦃api : BufferApi⦄ where
  open api use {readable, retrieve}

  written_part :
      (c : Codec) (k i : ℕ)
      → AllReady c.output_buffers
      → i < length c.output_buffers
      → (get_value i c.output_buffers).valid ≡ false
      → k ≤ length (readable (get_value i c.output_buffers).buffer)
      → (c' : Codec) × (on_write false k i c ≡ ok c')
        × AllReady c'.output_buffers
        × ((j : ℕ)
            → get_value j c'.output_buffers
              ≡ (if i == j then get_value i c'.output_buffers else get_value j c.output_buffers))
        × (k < length (readable (get_value i c.output_buffers).buffer)
            → ((get_value i c'.output_buffers).valid ≡ false)
              × (c'.writes
                  ≡ c.writes ++ (i, drop k (readable (get_value i c.output_buffers).buffer)) ∷ []))
        × (k ≡ length (readable (get_value i c.output_buffers).buffer)
            → ((get_value i c'.output_buffers).valid ≡ true)
              × IsIdle (get_value i c'.output_buffers).buffer
              × (c'.writes ≡ c.writes))
  unfolding on_write
  written_part c k i ready here busy within =
      let vs = c.output_buffers in
      let old = (get_value i vs).buffer in
      let b = retrieve old k in
      let step = checked_retrieve_lem old k within in
      let shown = readable-retrieve_part old k within in
      let size : length (readable b) ≡ length (readable old) - k =
        ap length shown ∙ length-drop k (readable old) in
      elim (Bool-cases (ltb 0 (length (readable b)))) [
        | inl more ↦
            let w : BufferValue = record (get_value i vs) { buffer = b } in
            let got = get-put i w vs (omega arith) in
            (
              record c {
                output_buffers = put_value i w vs;
                writes = c.writes ++ (i, readable b) ∷ [];
              },
              rw (step, more),
              put_value-AllReady i w vs (λ f. absurd (cc (sym f ∙ busy))) ready,
              λ j. get-put_if i j w vs (omega arith),
              λ part. (ap (λ (t : BufferValue). t.valid) got ∙ busy, rw shown),
              λ whole. absurd (omega (arith, ltb→lt 0 (length (readable b)) more)),
            )
        | inr over ↦
            let w : BufferValue = record { valid = true; buffer = b } in
            let got = get-put i w vs (omega arith) in
            let all : k ≡ length (readable old) =
              omega (arith, ltb→le 0 (length (readable b)) over) in
            let idle = retrieve-IsIdle old k within all in
            (
              record c { output_buffers = put_value i w vs },
              rw (step, over),
              put_value-AllReady i w vs (λ f. idle) ready,
              λ j. get-put_if i j w vs (omega arith),
              λ part. absurd (omega arith),
              λ whole. (rw got, subst (λ (t : BufferValue). IsIdle t.buffer) (sym got) idle, refl),
            )
      ]

  module _ (c : Codec) (k i : ℕ) (ready : AllReady c.output_buffers)
      (here : i < length c.output_buffers)
      (busy : (get_value i c.output_buffers).valid ≡ false) where
    -- A completed write of part of a buffer under way starts the next write, of the rest, and keeps
    -- the buffer taken; every other buffer is left alone.
    pub on_write_part :
        k < length (readable (get_value i c.output_buffers).buffer)
        → (c' : Codec) × (on_write false k i c ≡ ok c')
          × AllReady c'.output_buffers
          × ((j : ℕ)
              → get_value j c'.output_buffers
                ≡ (if i == j then get_value i c'.output_buffers else get_value j c.output_buffers))
          × ((get_value i c'.output_buffers).valid ≡ false)
          × (c'.writes
              ≡ c.writes ++ (i, drop k (readable (get_value i c.output_buffers).buffer)) ∷ [])
    on_write_part part =
        let (c', e, r, others, p, _) = written_part c k i ready here busy (omega arith) in
        (c', e, r, others, (p part).0, (p part).1)

    -- A completed write of all of a buffer under way, while the free ones are ready, frees the
    -- buffer, empty and with its usual room, and starts no write; every other buffer is left alone.
    pub on_write_frees :
        k ≡ length (readable (get_value i c.output_buffers).buffer)
        → (c' : Codec) × (on_write false k i c ≡ ok c')
          × AllReady c'.output_buffers
          × ((j : ℕ)
              → get_value j c'.output_buffers
                ≡ (if i == j then get_value i c'.output_buffers else get_value j c.output_buffers))
          × ((get_value i c'.output_buffers).valid ≡ true)
          × IsIdle (get_value i c'.output_buffers).buffer
          × (c'.writes ≡ c.writes)
    on_write_frees all =
        let (c', e, r, others, _, p) = written_part c k i ready here busy (omega arith) in
        let (free, idle, written) = p all in (c', e, r, others, free, idle, written)
