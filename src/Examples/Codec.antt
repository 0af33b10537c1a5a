-- ===== src/Examples/Codec.antt =====
-- The codec on concrete messages.
use boost_practice.Base.{
  drop, ◌≢◌, ℕ, ◌+◌, ◌≡◌, refl, true, false, List, [], ◌∷◌, ◌++◌, length, Option, none, some, Run,
  ok, fault, arith, if◌then◌else◌, ◌==◌,
}
use boost_practice.Frame.{next_frame}
use boost_practice.Frame.Output.{IsIdle}
use boost_practice.Inputs.{ListBuffer, list_buffer}
use boost_practice.Inputs.Library.{text_library}
use boost_practice.ProtoRpc.Message.{MessageType, RpcMessage}
use boost_practice.ProtoRpc.Codec.{
  Codec, CodecError, Reader, rpc_codec, get_value, send_rpc_msg, on_read, on_write,
}
use boost_practice.ProtoRpc.Codec.Overlap.{overlapping_writes}
use boost_practice.ProtoRpc.Codec.Slots.{encode, AllReady, rpc_codec-AllReady, send_rpc_msg_lem}
use boost_practice.ProtoRpc.Codec.Completion.{on_write_frees}
use boost_practice.ProtoRpc.Codec.Messages.{on_read_messages}
use boost_practice.ProtoRpc.Session.{empty_message}

abbrev ask : RpcMessage
ask = record (empty_message MessageType.request 7) {
  service = b's' ∷ [];
  method = b'm' ∷ [];
  request = b'x' ∷ [];
}

send_rpc_msg_lem_example :
    (c' : Codec) × (i : ℕ) × (send_rpc_msg ask rpc_codec ≡ ok c')
    × AllReady c'.output_buffers
    × ((get_value i rpc_codec.output_buffers).valid ≡ true)
    × ((get_value i c'.output_buffers).valid ≡ false)
    × ((get_value i c'.output_buffers).buffer.content ≡ encode ask)
    × (c'.writes ≡ (i, encode ask) ∷ [])
    × ((j : ℕ)
        → get_value j c'.output_buffers ≡ (
            if i == j then get_value i c'.output_buffers else get_value j rpc_codec.output_buffers))
unfolding rpc_codec
send_rpc_msg_lem_example = send_rpc_msg_lem rpc_codec ask rpc_codec-AllReady (omega arith)

-- A codec whose only buffer holds a message of twelve bytes that is being written.
abbrev sent : List ℕ
sent = 0 ∷ 0 ∷ 0 ∷ 8 ∷ 1 ∷ 2 ∷ 3 ∷ 4 ∷ 0 ∷ 24 ∷ 0 ∷ 11 ∷ []

abbrev busy : Codec
busy = record {
  output_buffers = record { valid = false; buffer = record { front = 4; content = sent } } ∷ [];
  writes = (0, sent) ∷ [];
  shutdowns = 0;
}

on_write_frees_example :
    (c' : Codec) × (on_write false 12 0 busy ≡ ok c')
    × AllReady c'.output_buffers
    × ((j : ℕ)
        → get_value j c'.output_buffers
          ≡ (if 0 == j then get_value 0 c'.output_buffers else get_value j busy.output_buffers))
    × ((get_value 0 c'.output_buffers).valid ≡ true)
    × IsIdle (get_value 0 c'.output_buffers).buffer
    × (c'.writes ≡ (0, sent) ∷ [])
unfolding get_value
on_write_frees_example = on_write_frees busy 12 0 (λ e. absurd (cc e), tt) (omega arith) refl refl

-- A callback that counts the messages.
abbrev count : Option RpcMessage → CodecError → ℕ → Run ℕ
count none e n = fault
count (some m) e n = ok (n + 1)

abbrev no_bytes : ListBuffer
no_bytes = record { front = 8; content = [] }

abbrev two : List ℕ
two = encode ask ++ encode ask ++ 0 ∷ []

on_read_messages_example :
    (s' : Reader ℕ) × (on_read count
        (length two)
        two
        (record { input_buffer = no_bytes; owner = 0 })
      ≡ ok s')
    × (s'.input_buffer.content ≡ 0 ∷ [])
    × (s'.owner ≡ 2)
unfolding next_frame
on_read_messages_example =
    on_read_messages count (record { input_buffer = no_bytes; owner = 0 }) (length two) two
      (omega arith) (ask ∷ ask ∷ []) (0 ∷ []) refl refl
      (
        (omega arith, ground arith, ground arith, omega arith),
        ((omega arith, ground arith, ground arith, omega arith), tt),
      )
      refl refl

-- Of two messages, the first write takes five bytes.
overlapping_writes_example :
    (c1 c2 c3 : Codec) × (i : ℕ) × (j : ℕ) × (send_rpc_msg ask rpc_codec ≡ ok c1)
    × (send_rpc_msg ask c1 ≡ ok c2)
    × (on_write false 5 i c2 ≡ ok c3)
    × (i ≢ j)
    × (c3.writes ≡ (i, encode ask) ∷ (j, encode ask) ∷ (i, drop 5 (encode ask)) ∷ [])
unfolding rpc_codec
overlapping_writes_example =
    overlapping_writes rpc_codec ask ask 5 rpc_codec-AllReady (omega arith) (omega arith)
      (omega arith)
