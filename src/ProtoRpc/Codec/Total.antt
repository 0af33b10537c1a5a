-- ===== src/ProtoRpc/Codec/Total.antt =====
-- The codec's reading and sending, where the bytes are whatever the peer sends: each returns or
-- faults.
use boost_practice.Base.{
  decided_rules, after_check-IsDecided, IsDecided, if◌then◌else◌, ℕ, suc, ◌-◌, ◌<◌, ◌≡◌, ap, List,
  take, length, Option, none, some, Run, ok, arith, first_returns,
}
use boost_practice.Buffer.{BufferApi, checked_retrieve}
use boost_practice.Frame.{to_size, size_total}
use boost_practice.Frame.Total.{
  checked_retrieve-IsDecided, checked_retrieve-length, drain-IsDecided,
}
use boost_practice.ProtoRpc.Message.{RpcMessage, RpcLibrary}
use boost_practice.ProtoRpc.Codec.{
  checksum_error, no_error, CodecError, Codec, Reader, min_message_len, fill, send_rpc_msg,
  validate_checksum, on_frame, on_read,
}

module _ ⦃api : BufferApi⦄ where
  open api use {Buffer, create, readable, append}

  module _ ⦃lib : RpcLibrary⦄ where
    open lib use {serialize, parse, adler32}

    fill-IsDecided : (b : Buffer) (m : RpcMessage) → IsDecided (fill b m)
    unfolding fill
    fill-IsDecided b m = search decided_rules

    pub send_rpc_msg-IsDecided : (m : RpcMessage) (c : Codec) → IsDecided (send_rpc_msg m c)
    unfolding send_rpc_msg
    send_rpc_msg-IsDecided m c = search (decided_rules, fill-IsDecided)

    validate_checksum-IsDecided : (b : Buffer) (len : ℕ) → IsDecided (validate_checksum b len)
    unfolding validate_checksum
    validate_checksum-IsDecided b len = search decided_rules

    module _ {R : Type 0} (rpc_callback : Option RpcMessage → CodecError → R → Run R)
        (decided : (m : Option RpcMessage) (e : CodecError) (r : R)
          → IsDecided (rpc_callback m e r)) where
      on_frame-IsDecided : (len : ℕ) (s : Reader R) → IsDecided (on_frame rpc_callback len s)
      unfolding on_frame
      on_frame-IsDecided len s =
          search (decided_rules, checked_retrieve-IsDecided, validate_checksum-IsDecided, decided)

      on_frame_takes :
          (len : ℕ) (s s' : Reader R)
          → on_frame rpc_callback len s ≡ ok s'
          → length (readable s'.input_buffer) < length (readable s.input_buffer)
      unfolding on_frame
      on_frame_takes len s s' e =
          let (b, head, e1) = first_returns _ (checked_retrieve s.input_buffer 4) e in
          let (valid, checked, e2) = first_returns _ (validate_checksum b len) e1 in
          let (owner, called, e3) =
            first_returns _
              (if valid
                then rpc_callback (some (parse (take (to_size len - 4) (readable b)))) no_error
                    s.owner
                else rpc_callback none checksum_error s.owner)
              e2 in
          let (b', tail, e4) = first_returns _ (checked_retrieve b (to_size len)) e3 in
          let kept : b' ≡ s'.input_buffer = cc e4 in
          omega (
            arith,
            checked_retrieve-length s.input_buffer b 4 head,
            checked_retrieve-length b b' (to_size len) tail,
            ap (λ t. length (readable t)) kept,
          )

      pub on_read-IsDecided :
          (bytes : ℕ) (read_buffer : List ℕ) (s : Reader R)
          → IsDecided (on_read rpc_callback bytes read_buffer s)
      unfolding on_read
      on_read-IsDecided bytes read_buffer s = after_check-IsDecided _ _ (
          drain-IsDecided min_message_len size_total (λ (t : Reader R). t.input_buffer)
            (on_frame rpc_callback) on_frame-IsDecided on_frame_takes
            (suc (length (readable (append s.input_buffer (take bytes read_buffer)))))
            (record s { input_buffer = append s.input_buffer (take bytes read_buffer) })
            (omega arith))
