-- ===== src/ProtoRpc/Codec/Decode.antt =====
-- What the codec makes of the bytes that it reads.
use boost_practice.Base.{
  ℕ, suc, ◌+◌, ◌-◌, ◌^◌, ◌≤◌, ◌<◌, ◌≡◌, refl, sym, ap, ◌∙◌, Bool, List, ◌++◌, length, length-append,
  length-drop, take-append, drop-append, take, drop, Option, none, some, Run, ok, fault, ◌>>=◌,
  arith, le→leb, lt→leb, lt→ltb, leb, ◌==◌, if◌then◌else◌, leb→le, leb→lt, Bool-cases, inl, inr,
  for_each,
}
use boost_practice.Buffer.{checked_retrieve, BufferApi, of_be32}
use boost_practice.Frame.{size_total, to_size, next_frame, frame}
use boost_practice.Frame.Relation.{Frames, of_be32-append}
use boost_practice.Frame.Loop.{size_total-IsExact, drain-Frames, drain_fault}
use boost_practice.Frame.Parts.{
  readable-Parts, retrieve-Parts, retrieve_payload-Parts, Parts, to_size_lem, Parts-split,
  frame-Parts,
}
use boost_practice.ProtoRpc.Message.{RpcMessage, RpcLibrary}
use boost_practice.ProtoRpc.Codec.{
  covered, CodecError, no_error, checksum_error, Reader, validate_checksum, on_frame, on_read,
}

module _ ⦃api : BufferApi⦄ ⦃lib : RpcLibrary⦄ where
  open api use {
    Buffer, readable, retrieve, append, readable-retrieve, readable-append, peek_int32,
    peek_int32_lem,
  }
  open lib use {serialize, parse, adler32, parse-serialize, adler32-lt}

  -- Whether a payload ends in the checksum of what stands before it.
  abbrev pub is_intact : List ℕ → Bool
  is_intact p = adler32 (take (length p - 4) p) == of_be32 (drop (length p - 4) p)

  validate_checksum_lem :
      (b : Buffer) (p r : List ℕ)
      → readable b ≡ p ++ r
      → length p < 2 ^ 31
      → 4 ≤ length p
      → validate_checksum b (length p) ≡ ok (is_intact p)
  unfolding validate_checksum
  validate_checksum_lem b p r e short long =
      let n = length p in
      let exact : covered n ≡ n - 4 = ground arith in
      let size : length (readable b) ≡ n + length r = ap length e ∙ length-append p r in
      rw (
        exact,
        size,
        le→leb (n - 4) (n + length r) (omega arith),
        le→leb 4 n long,
        lt→ltb n (2 ^ 31) short,
        le→leb n (n + length r) (omega arith),
        e,
        take-append (n - 4) p r (omega arith),
        drop-append (n - 4) p r (omega arith),
        of_be32-append (drop (n - 4) p) r (omega (arith, length-drop (n - 4) p)),
      )

  validate_checksum_short : (b : Buffer) (n : ℕ) → n < 4 → validate_checksum b n ≡ fault
  unfolding validate_checksum
  validate_checksum_short b n h = elim (Bool-cases (leb (covered n) (length (readable b)))) [
    | inl within ↦ rw (within, lt→leb 4 n h)
    | inr beyond ↦ rw beyond
  ]

  module _ {R : Type 0} (rpc_callback : Option RpcMessage → CodecError → R → Run R) where
    -- What a payload brings about: the message, a checksum error, or a fault if it has no room for a
    -- checksum.
    abbrev pub handle : List ℕ → R → Run R
    handle p v =
        if leb 4 (length p)
        then (if is_intact p
            then rpc_callback (some (parse (take (length p - 4) p))) no_error v
            else rpc_callback none checksum_error v)
        else fault

    module _ (s : Reader R) {p r : List ℕ}
        (e : next_frame 8 size_total (readable s.input_buffer) ≡ frame p r) where
      input : Buffer
      input = s.input_buffer

      parts : Parts (readable input) p r
      unfolding input
      parts = frame-Parts 8 size_total (readable input) size_total-IsExact (omega arith) e

      left_over : Reader R → Buffer
      left_over t = retrieve (retrieve t.input_buffer 4) (length p)

      on_frame_lem :
          on_frame rpc_callback (peek_int32 s.input_buffer) s
          ≡ (handle p s.owner >>= λ v. ok (record { input_buffer = left_over s; owner = v }))
      unfolding on_frame input left_over
      on_frame_lem =
          let b = s.input_buffer in
          let (content, size) = Parts-split (readable b) parts in
          let n = length p in
          let short : n < 2 ^ 31 = omega (arith, parts.positive) in
          let peek : peek_int32 b ≡ n = peek_int32_lem b (omega (arith, parts.fits)) ∙ sym size in
          let plain : to_size n ≡ n = to_size_lem n short in
          let shown : readable (retrieve b 4) ≡ p ++ r =
            readable-retrieve b 4 (omega (arith, parts.fits)) ∙ content in
          let again : checked_retrieve (retrieve b 4) n ≡ ok (retrieve (retrieve b 4) n) =
            rw size (retrieve_payload-Parts b parts) in
          elim (Bool-cases (leb 4 n)) [
            | inl long ↦
                let enough = leb→le 4 n long in
                let valid = validate_checksum_lem (retrieve b 4) p r shown short enough in
                let body : take (n - 4) (readable (retrieve b 4)) ≡ take (n - 4) p =
                  ap (take (n - 4)) shown ∙ take-append (n - 4) p r (omega arith) in
                elim (Bool-cases (is_intact p)) [
                  | inl intact ↦
                      rw (peek, retrieve-Parts b parts, valid, intact, plain, body, again, long)
                  | inr broken_sum ↦
                      rw (peek, retrieve-Parts b parts, valid, broken_sum, plain, again, long)
                ]
            | inr too_short ↦ rw (
              peek,
              retrieve-Parts b parts,
              validate_checksum_short (retrieve b 4) n (leb→lt 4 n too_short),
              too_short,
            )
          ]

      readable-left_over : readable (left_over s) ≡ r
      unfolding left_over input
      readable-left_over =
          let (_, size) = Parts-split (readable input) parts in
          rw (size, left_over) (readable-Parts input parts)

    served :
        (s : Reader R) (p r : List ℕ) (v : R)
        → next_frame 8 size_total (readable s.input_buffer) ≡ frame p r
        → handle p s.owner ≡ ok v
        → (s' : Reader R) × (on_frame rpc_callback (peek_int32 s.input_buffer) s ≡ ok s')
          × (readable s'.input_buffer ≡ r)
          × (s'.owner ≡ v)
    served s p r v e h = (
      record { input_buffer = left_over s e s; owner = v },
      on_frame_lem s e ∙ rw h,
      readable-left_over s e,
      refl,
    )

    unserved :
        (s : Reader R) (p r : List ℕ)
        → next_frame 8 size_total (readable s.input_buffer) ≡ frame p r
        → handle p s.owner ≡ fault
        → on_frame rpc_callback (peek_int32 s.input_buffer) s ≡ fault
    unserved s p r e h = on_frame_lem s e ∙ rw h

    module _ (s : Reader R) (bytes : ℕ) (read_buffer : List ℕ)
        (given : bytes ≤ length read_buffer) where
      -- What the input buffer shows once the bytes read have been appended.
      abbrev pub arrived : List ℕ
      arrived = readable s.input_buffer ++ take bytes read_buffer

      input_size :
          length arrived < suc (length (readable (append s.input_buffer (take bytes read_buffer))))
      input_size =
          omega (arith, ap length (readable-append s.input_buffer (take bytes read_buffer)))

      -- Where the bytes at hand split into frames whose payloads are all handled, the read handles
      -- them in order and keeps the rest.
      pub on_read-Frames :
          (ps : List (List ℕ)) {rest : List ℕ} {v : R}
          → Frames 8 size_total arrived ps rest
          → for_each handle s.owner ps ≡ ok v
          → (s' : Reader R) × (on_read rpc_callback bytes read_buffer s ≡ ok s')
            × (readable s'.input_buffer ≡ rest)
            × (s'.owner ≡ v)
      unfolding on_read
      on_read-Frames ps f h =
          let input = append s.input_buffer (take bytes read_buffer) in
          let (s', d, kept, same) =
            drain-Frames 8 size_total size_total-IsExact (λ (t : Reader R). t.input_buffer)
              (on_frame rpc_callback) (omega arith) (λ t. t.owner) handle served f
              (suc (length (readable input))) (record s { input_buffer = input })
              (readable-append s.input_buffer (take bytes read_buffer)) input_size h in
          (s', rw (le→leb bytes (length read_buffer) given) d, kept, same)

      -- Where one of the payloads is not handled, the read faults.
      pub on_read_fault :
          (ps : List (List ℕ)) {rest : List ℕ}
          → Frames 8 size_total arrived ps rest
          → for_each handle s.owner ps ≡ fault
          → on_read rpc_callback bytes read_buffer s ≡ fault
      unfolding on_read
      on_read_fault ps f h =
          let input = append s.input_buffer (take bytes read_buffer) in
          rw (le→leb bytes (length read_buffer) given) (
            drain_fault 8 size_total size_total-IsExact (λ (t : Reader R). t.input_buffer)
              (on_frame rpc_callback) (omega arith) (λ t. t.owner) handle served unserved f
              (suc (length (readable input))) (record s { input_buffer = input })
              (readable-append s.input_buffer (take bytes read_buffer)) input_size h)
