-- ===== src/ProtoRpc/Codec/Overlap.antt =====
-- proto_rpc/lib/rpc_codec.cpp: two messages whose writes are under way at once.
use boost_practice.Base.{
  ℕ, zero, suc, ◌+◌, ◌^◌, ◌<◌, ◌≡◌, ◌≢◌, ap, ◌∙◌, false, List, [], ◌∷◌, ◌++◌, length, drop,
  append_assoc, ok, arith, ◌==◌,
}
use boost_practice.Buffer.{BufferApi}
use boost_practice.ProtoRpc.Message.{RpcMessage, RpcLibrary}
use boost_practice.ProtoRpc.Codec.{BufferValue, Codec, get_value, send_rpc_msg, on_write}
use boost_practice.ProtoRpc.Codec.Slots.{AllReady, encode, send_rpc_msg_lem}
use boost_practice.ProtoRpc.Codec.Completion.{on_write_part}

three {ℓ} :
    {A : Type ℓ} (xs : List A) (x y z : A)
    → ((xs ++ x ∷ []) ++ y ∷ []) ++ z ∷ [] ≡ xs ++ x ∷ y ∷ z ∷ []
three xs x y z =
    append_assoc (xs ++ x ∷ []) (y ∷ []) (z ∷ []) ∙ append_assoc xs (x ∷ []) (y ∷ z ∷ [])

module _ ⦃api : BufferApi⦄ where
  -- A buffer that is taken stands in the list.
  taken-lt : (i : ℕ) (vs : List BufferValue) → (get_value i vs).valid ≡ false → i < length vs
  unfolding get_value
  taken-lt i [] e = absurd (cc e)
  taken-lt zero (v ∷ vs) e = omega arith
  taken-lt (suc i) (v ∷ vs) e = let h = taken-lt i vs e in omega (arith, h)

  module _ ⦃lib : RpcLibrary⦄ where
    open api use {readable}
    open lib use {serialize}

    -- Of two messages that are sent one after the other, while the free output buffers are ready
    -- and both fit the length field, each has a write of its own under way. If the first of these
    -- takes a part of its message only, the rest goes out in a further write, begun after the one
    -- of the second message: the second stands within the first.
    pub overlapping_writes :
        (c : Codec) (m n : RpcMessage) (k : ℕ)
        → AllReady c.output_buffers
        → length (serialize m) + 4 < 2 ^ 31
        → length (serialize n) + 4 < 2 ^ 31
        → k < length (encode m)
        → (c1 c2 c3 : Codec) × (i : ℕ) × (j : ℕ) × (send_rpc_msg m c ≡ ok c1)
          × (send_rpc_msg n c1 ≡ ok c2)
          × (on_write false k i c2 ≡ ok c3)
          × (i ≢ j)
          × (c3.writes ≡ c.writes ++ (i, encode m) ∷ (j, encode n) ∷ (i, drop k (encode m)) ∷ [])
    overlapping_writes c m n k ready short_m short_n part =
        let (c1, i, e1, r1, _, busy, shown, w1, _) = send_rpc_msg_lem c m ready short_m in
        let (c2, j, e2, r2, free, _, _, w2, others) = send_rpc_msg_lem c1 n r1 short_n in
        let apart : i ≢ j =
          λ same. absurd (cc (busy, free, ap (λ x. (get_value x c1.output_buffers).valid) same)) in
        let other : (j == i) ≡ false = ground arith in
        let kept : get_value i c2.output_buffers ≡ get_value i c1.output_buffers =
          rw other at (others i) in
        let busy2 : (get_value i c2.output_buffers).valid ≡ false =
          ap (λ (t : BufferValue). t.valid) kept ∙ busy in
        let shown2 : readable (get_value i c2.output_buffers).buffer ≡ encode m =
          ap (λ (t : BufferValue). readable t.buffer) kept ∙ shown in
        let within : k < length (readable (get_value i c2.output_buffers).buffer) =
          rw shown2 part in
        let (c3, e3, _, _, _, w3) =
          on_write_part c2 k i r2 (taken-lt i c2.output_buffers busy2) busy2 within in
        (
          c1,
          c2,
          c3,
          i,
          j,
          e1,
          e2,
          e3,
          apart,
          w3
              ∙ ap (λ x. x ++ (i, drop k (readable (get_value i c2.output_buffers).buffer)) ∷ [])
                  (w2 ∙ ap (λ x. x ++ (j, encode n) ∷ []) w1)
              ∙ ap
                  (λ x.
                    ((c.writes ++ (i, encode m) ∷ []) ++ (j, encode n) ∷ []) ++ (i, drop k x) ∷ [])
                  shown2
              ∙ three c.writes (i, encode m) (j, encode n) (i, drop k (encode m)),
        )
