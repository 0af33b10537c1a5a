-- ===== src/ProtoRpc/Codec/Messages.antt =====
-- The two ends of the codec together: what one sends, the other hands to its callback.
use mathlib.Core.Path.{fun_ext}
use boost_practice.Base.{
  IsAscii, ℕ, ◌+◌, ◌-◌, ◌^◌, ◌≤◌, ◌<◌, ◌≡◌, refl, ap, ◌∙◌, true, false, List, [], ◌∷◌, ◌++◌, length,
  length-append, take-length, drop-length, take, Option, none, some, Run, ok, fault, ◌>>=◌, arith,
  le→leb, for_each, map, concat,
}
use boost_practice.Buffer.{BufferApi, be32}
use boost_practice.Frame.{frame_of, size_total, next_frame, wait}
use boost_practice.Frame.Relation.{Frames}
use boost_practice.Frame.Encode.{of_be32-be32, AllSendable, Frames-concat, size_total_lem}
use boost_practice.ProtoRpc.Message.{RpcMessage, RpcLibrary}
use boost_practice.ProtoRpc.Codec.{CodecError, no_error, checksum_error, Reader, on_read}
use boost_practice.ProtoRpc.Codec.Slots.{encode}
use boost_practice.ProtoRpc.Codec.Decode.{is_intact, handle, arrived, on_read-Frames, on_read_fault}

module _ ⦃api : BufferApi⦄ ⦃lib : RpcLibrary⦄ where
  open api use {readable}
  open lib use {serialize, parse, adler32, parse-serialize, adler32-lt}

  -- The payload of a message.
  abbrev pub payload : RpcMessage → List ℕ
  payload m = serialize m ++ be32 (adler32 (serialize m))

  -- A message in the range of the wire format, with ASCII names.
  abbrev pub IsInRange : RpcMessage → Type 0
  IsInRange m =
      (m.id < 2 ^ 64) × IsAscii m.service × IsAscii m.method × (length (serialize m) + 4 < 2 ^ 31)

  abbrev pub AllInRange : List RpcMessage → Type 0
  AllInRange [] = Unit {0}
  AllInRange (m ∷ ms) = IsInRange m × AllInRange ms

  payload_parts :
      (m : RpcMessage)
      → (length (payload m) - 4 ≡ length (serialize m))
        × (take (length (payload m) - 4) (payload m) ≡ serialize m)
        × (is_intact (payload m) ≡ true)
  payload_parts m =
      let body = serialize m in
      let sum = be32 (adler32 body) in
      let size : length (payload m) - 4 ≡ length body = omega (arith, length-append body sum) in
      (
        size,
        rw size (take-length body sum),
        rw (size, take-length body sum, drop-length body sum)
            (ground (arith, of_be32-be32 (adler32 body) [] (adler32-lt body))),
      )

  module _ {R : Type 0} (rpc_callback : Option RpcMessage → CodecError → R → Run R) where
    handle-payload :
        (m : RpcMessage) (v : R)
        → IsInRange m
        → handle rpc_callback (payload m) v ≡ rpc_callback (some m) no_error v
    handle-payload m v h =
        let (size, body, intact) = payload_parts m in
        let long =
          le→leb 4 (length (payload m))
            (omega (arith, length-append (serialize m) (be32 (adler32 (serialize m))))) in
        rw (long, intact, body, parse-serialize m h.0 h.1 h.2)

    handle_all :
        (ms : List RpcMessage) (v : R)
        → AllInRange ms
        → for_each (handle rpc_callback) v (map payload ms)
          ≡ for_each (λ m t. rpc_callback (some m) no_error t) v ms
    handle_all [] v h = refl
    handle_all (m ∷ ms) v h =
        ap (λ r. r >>= λ t. for_each (handle rpc_callback) t (map payload ms))
          (handle-payload m v h.0)
        ∙ ap (λ k. rpc_callback (some m) no_error v >>= k) (fun_ext λ t. handle_all ms t h.1)

    encode_all : (ms : List RpcMessage) → map encode ms ≡ map frame_of (map payload ms)
    encode_all [] = refl
    encode_all (m ∷ ms) = ap (λ t. encode m ∷ t) (encode_all ms)

    payloads_sendable :
        (ms : List RpcMessage) → AllInRange ms → AllSendable 8 size_total (map payload ms)
    payloads_sendable [] h = tt
    payloads_sendable (m ∷ ms) h =
        let size = length-append (serialize m) (be32 (adler32 (serialize m))) in
        (
          (
            omega (arith, size),
            omega (arith, size, h.0.3),
            size_total_lem (length (payload m)) (omega (arith, size, h.0.3)),
          ),
          payloads_sendable ms h.1,
        )

    module _ (s : Reader R) (bytes : ℕ) (read_buffer : List ℕ)
        (given : bytes ≤ length read_buffer) where
      -- A read of whole encoded messages, each with a 64-bit identifier, with ASCII names and of a
      -- size that fits the length field, from an empty input buffer, calls back with each message,
      -- in order and with no error, and keeps the incomplete frame that follows them, as long as the
      -- callback returns.
      pub on_read_messages :
          (ms : List RpcMessage) (tail : List ℕ) {v : R}
          → readable s.input_buffer ≡ []
          → take bytes read_buffer ≡ concat (map encode ms) ++ tail
          → AllInRange ms
          → next_frame 8 size_total tail ≡ wait
          → for_each (λ m t. rpc_callback (some m) no_error t) s.owner ms ≡ ok v
          → (s' : Reader R) × (on_read rpc_callback bytes read_buffer s ≡ ok s')
            × (readable s'.input_buffer ≡ tail)
            × (s'.owner ≡ v)
      on_read_messages ms tail empty sent range w h =
          let whole : arrived rpc_callback s bytes read_buffer given
              ≡ concat (map frame_of (map payload ms)) ++ tail =
            ap (λ t. t ++ take bytes read_buffer) empty
            ∙ sent
            ∙ ap (λ t. concat t ++ tail) (encode_all ms) in
          on_read-Frames rpc_callback s bytes read_buffer given (map payload ms)
            (rw whole
              (Frames-concat 8 size_total (map payload ms) tail (payloads_sendable ms range) w))
            (handle_all ms s.owner range ∙ h)

      -- A frame whose checksum does not fit what stands before it calls back with no message and
      -- the checksum error; if the callback faults on that, so does the read.
      pub on_read_corrupt :
          (p : List ℕ) (ps : List (List ℕ)) {rest : List ℕ}
          → Frames 8 size_total (arrived rpc_callback s bytes read_buffer given) (p ∷ ps) rest
          → 4 ≤ length p
          → is_intact p ≡ false
          → rpc_callback none checksum_error s.owner ≡ fault
          → on_read rpc_callback bytes read_buffer s ≡ fault
      on_read_corrupt p ps f long broken_sum bad =
          on_read_fault rpc_callback s bytes read_buffer given (p ∷ ps) f
            (rw (le→leb 4 (length p) long, broken_sum, bad))
