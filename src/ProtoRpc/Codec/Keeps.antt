-- ===== src/ProtoRpc/Codec/Keeps.antt =====
-- proto_rpc/lib/rpc_codec.cpp: what the callback keeps of the owner, a whole read keeps.
use boost_practice.Base.{
  ℕ, suc, ◌-◌, ◌≡◌, subst, List, length, take, Option, some, none, Run, ok, check, leb,
  first_returns, Bool, true, false, if◌then◌else◌,
}
use boost_practice.Buffer.{BufferApi, checked_retrieve}
use boost_practice.Frame.{to_size, size_total}
use boost_practice.Frame.Total.{drain_keeps}
use boost_practice.ProtoRpc.Message.{RpcMessage, RpcLibrary}
use boost_practice.ProtoRpc.Codec.{
  CodecError, Reader, min_message_len, validate_checksum, on_frame, on_read,
}

module _ ⦃api : BufferApi⦄ ⦃lib : RpcLibrary⦄ where
  module _ {R : Type 0} (rpc_callback : Option RpcMessage → CodecError → R → Run R) (P : R → Type 0)
      (keeps : (m : Option RpcMessage) (code : CodecError) (s s' : R)
        → rpc_callback m code s ≡ ok s'
        → P s
        → P s') where
    either_callback :
        (b : Bool) (m : Option RpcMessage) (s s' : R)
        → (if b
            then rpc_callback m CodecError.no_error s
            else rpc_callback none CodecError.checksum_error s)
          ≡ ok s'
        → P s
        → P s'
    either_callback true m s s' e h = keeps m CodecError.no_error s s' e h
    either_callback false m s s' e h = keeps none CodecError.checksum_error s s' e h

    on_frame_keeps :
        (len : ℕ) (r r' : Reader R) → on_frame rpc_callback len r ≡ ok r' → P r.owner → P r'.owner
    unfolding on_frame
    on_frame_keeps len r r' e h =
        let (b, _, e1) = first_returns _ (checked_retrieve r.input_buffer 4) e in
        let (valid, _, e2) = first_returns _ (validate_checksum b len) e1 in
        let m = some (lib.parse (take (to_size len - 4) (api.readable b))) in
        let (owner, called, e3) =
          first_returns _
            (if valid
              then rpc_callback m CodecError.no_error r.owner
              else rpc_callback none CodecError.checksum_error r.owner)
            e2 in
        let (b', _, e4) = first_returns _ (checked_retrieve b (to_size len)) e3 in
        let kept : owner ≡ r'.owner = cc e4 in
        subst P kept (either_callback valid m r.owner owner called h)

    -- A property of the owner that each call of the callback keeps holds after the read.
    pub on_read_keeps :
        (bytes : ℕ) (read_buffer : List ℕ) (r r' : Reader R)
        → on_read rpc_callback bytes read_buffer r ≡ ok r'
        → P r.owner
        → P r'.owner
    unfolding on_read
    on_read_keeps bytes read_buffer r r' e h =
        let input = api.append r.input_buffer (take bytes read_buffer) in
        let (_, _, drained) = first_returns _ (check (leb bytes (length read_buffer))) e in
        drain_keeps min_message_len size_total (λ (u : Reader R). u.input_buffer)
          (on_frame rpc_callback) (λ u. P u.owner) on_frame_keeps
          (suc (length (api.readable input))) (record r { input_buffer = input }) r' drained h
