-- ===== src/ProtoRpc/Codec/Slots.antt =====
-- The output buffers of the codec: a free one is empty, a message takes a free one to itself, and
-- the completion of its last write frees it.
use boost_practice.Base.{
  ◌==◌, ℕ, zero, suc, ◌+◌, ◌%◌, ◌^◌, ◌≤◌, ◌<◌, ◌≡◌, ◌≢◌, refl, sym, ap, ◌∙◌, true, false, List, [],
  ◌∷◌, ◌++◌, length, length-append, ok, arith, le→leb, if◌then◌else◌, Bool-cases, inl, inr,
}
use boost_practice.Buffer.{BufferApi, be32}
use boost_practice.Frame.{frame_of}
use boost_practice.Frame.Output.{IsIdle, create-IsIdle}
use boost_practice.ProtoRpc.Message.{RpcMessage, RpcLibrary}
use boost_practice.ProtoRpc.Codec.{
  BufferValue, Codec, rpc_codec, find_valid, put_value, get_value, fill, send_rpc_msg,
}

-- A message as it goes over the wire.
abbrev pub encode : ⦃lib : RpcLibrary⦄ → RpcMessage → List ℕ
encode ⦃lib⦄ m = frame_of (lib.serialize m ++ be32 (lib.adler32 (lib.serialize m)))

module _ ⦃api : BufferApi⦄ where
  open api use {
    Buffer, readable, prependable, append, retrieve, prepend, readable-append, prependable-append,
    readable-prepend, prependable-prepend,
  }

  -- Every free buffer is empty, with the usual room before its content.
  abbrev pub AllReady : List BufferValue → Type 0
  AllReady [] = Unit {0}
  AllReady (v ∷ vs) = (v.valid ≡ true → IsIdle v.buffer) × AllReady vs

  pub rpc_codec-AllReady : AllReady rpc_codec.output_buffers
  unfolding rpc_codec
  rpc_codec-AllReady = (λ _. create-IsIdle, tt)

  find_valid-IsIdle :
      (vs : List BufferValue) → AllReady vs → IsIdle (get_value (find_valid vs) vs).buffer
  unfolding find_valid get_value
  find_valid-IsIdle [] r = create-IsIdle
  find_valid-IsIdle (v ∷ vs) r = elim (Bool-cases v.valid) [
    | inl free ↦ rw free (r.0 free)
    | inr busy ↦ rw busy (find_valid-IsIdle vs r.1)
  ]

  find_valid-free : (vs : List BufferValue) → (get_value (find_valid vs) vs).valid ≡ true
  unfolding find_valid get_value
  find_valid-free [] = refl
  find_valid-free (v ∷ vs) = elim (Bool-cases v.valid) [
    | inl free ↦ rw free
    | inr busy ↦ rw busy (find_valid-free vs)
  ]

  find_valid-le : (vs : List BufferValue) → find_valid vs ≤ length vs
  unfolding find_valid
  find_valid-le [] = omega arith
  find_valid-le (v ∷ vs) = ground (arith, find_valid-le vs)

  pub put_value-AllReady :
      (i : ℕ) (w : BufferValue) (vs : List BufferValue)
      → (w.valid ≡ true → IsIdle w.buffer)
      → AllReady vs
      → AllReady (put_value i w vs)
  unfolding put_value
  put_value-AllReady i w [] h r = (h, tt)
  put_value-AllReady zero w (v ∷ vs) h r = (h, r.1)
  put_value-AllReady (suc i) w (v ∷ vs) h r = (r.0, put_value-AllReady i w vs h r.1)

  pub get-put :
      (i : ℕ) (w : BufferValue) (vs : List BufferValue)
      → i ≤ length vs
      → get_value i (put_value i w vs) ≡ w
  unfolding get_value put_value
  get-put zero w [] h = refl
  get-put (suc i) w [] h = absurd (omega arith)
  get-put zero w (v ∷ vs) h = refl
  get-put (suc i) w (v ∷ vs) h = get-put i w vs (omega arith)

  get-put_ne :
      (i j : ℕ) (w : BufferValue) (vs : List BufferValue)
      → i ≤ length vs
      → i ≢ j
      → get_value j (put_value i w vs) ≡ get_value j vs
  unfolding get_value put_value
  get-put_ne zero zero w [] h ne = absurd (ne refl)
  get-put_ne zero (suc j) w [] h ne = refl
  get-put_ne (suc i) j w [] h ne = absurd (omega arith)
  get-put_ne zero zero w (v ∷ vs) h ne = absurd (ne refl)
  get-put_ne zero (suc j) w (v ∷ vs) h ne = refl
  get-put_ne (suc i) zero w (v ∷ vs) h ne = refl
  get-put_ne (suc i) (suc j) w (v ∷ vs) h ne =
      get-put_ne i j w vs (omega arith) (λ e. ne (ap suc e))

  pub get-put_if :
      (i j : ℕ) (w : BufferValue) (vs : List BufferValue)
      → i ≤ length vs
      → get_value j (put_value i w vs)
        ≡ (if i == j then get_value i (put_value i w vs) else get_value j vs)
  get-put_if i j w vs h = elim (Bool-cases (i == j)) [
    | inl same ↦ let e : i ≡ j = ground arith in rw (same, e) refl
    | inr other ↦ rw other (get-put_ne i j w vs h (ground arith))
  ]

  module _ ⦃lib : RpcLibrary⦄ where
    open lib use {serialize, adler32}

    fill_lem :
        (b : Buffer) (m : RpcMessage)
        → IsIdle b
        → length (serialize m) + 4 < 2 ^ 31
        → (b' : Buffer) × (fill b m ≡ ok b') × (readable b' ≡ encode m)
    unfolding fill
    fill_lem b m idle short =
        let body = append b (serialize m) in
        let shown : readable body ≡ serialize m = readable-append b (serialize m) ∙ rw idle.empty in
        let sum = be32 (adler32 (readable body)) in
        let checked = append body sum in
        let size : (length (serialize m) + 4) % 2 ^ 32 ≡ length (serialize m) + 4 = omega arith in
        let room1 = prependable-append b (serialize m) (omega (arith, idle.room)) in
        let room2 = prependable-append body sum (omega (arith, room1, idle.room)) in
        let room : 4 ≤ prependable checked = omega (arith, room1, room2, idle.room) in
        let header = be32 (length (serialize m) + 4) in
        let payload = serialize m ++ be32 (adler32 (serialize m)) in
        let whole : readable checked ≡ payload =
          readable-append body sum ∙ ap (λ t. t ++ be32 (adler32 t)) shown in
        let long : length (serialize m) + 4 ≡ length payload =
          sym (length-append (serialize m) (be32 (adler32 (serialize m)))) in
        (
          prepend checked header,
          rw (size, le→leb 4 (prependable checked) room),
          readable-prepend checked header room
              ∙ ap (λ t. header ++ t) whole
              ∙ ap (λ n. be32 n ++ payload) long,
        )

    -- While each free buffer is empty and has its usual room, a message that fits the length field
    -- is sent: into a buffer that was free, which it takes, with one write of its encoding from
    -- there, and with every other buffer left alone.
    pub send_rpc_msg_lem :
        (c : Codec) (m : RpcMessage)
        → AllReady c.output_buffers
        → length (serialize m) + 4 < 2 ^ 31
        → (c' : Codec) × (i : ℕ) × (send_rpc_msg m c ≡ ok c')
          × AllReady c'.output_buffers
          × ((get_value i c.output_buffers).valid ≡ true)
          × ((get_value i c'.output_buffers).valid ≡ false)
          × (readable (get_value i c'.output_buffers).buffer ≡ encode m)
          × (c'.writes ≡ c.writes ++ (i, encode m) ∷ [])
          × ((j : ℕ)
              → get_value j c'.output_buffers
                ≡ (if i == j then get_value i c'.output_buffers else get_value j c.output_buffers))
    unfolding send_rpc_msg
    send_rpc_msg_lem c m ready short =
        let vs = c.output_buffers in
        let i = find_valid vs in
        let (b, e, shown) = fill_lem (get_value i vs).buffer m (find_valid-IsIdle vs ready) short in
        let w : BufferValue = record { valid = false; buffer = b } in
        let got = get-put i w vs (find_valid-le vs) in
        (
          record c { output_buffers = put_value i w vs; writes = c.writes ++ (i, readable b) ∷ [] },
          i,
          rw e,
          put_value-AllReady i w vs (λ f. cc) ready,
          find_valid-free vs,
          rw got,
          ap (λ (t : BufferValue). readable t.buffer) got ∙ shown,
          rw shown,
          λ j. get-put_if i j w vs (find_valid-le vs),
        )
