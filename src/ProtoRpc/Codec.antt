-- ===== src/ProtoRpc/Codec.antt =====
-- proto_rpc/lib/rpc_codec.h and rpc_codec.cpp: a message with its length before it and its checksum
-- behind it, and a list of output buffers of which each write under way has one to itself.
pub mod Slots
pub mod Completion
pub mod Decode
pub mod Messages
pub mod Total
pub mod Keeps
pub mod Overlap
use boost_practice.Base.{
  ℕ, zero, suc, ◌+◌, ◌-◌, ◌%◌, ◌^◌, Bool, true, false, ◌&&◌, List, [], ◌∷◌, ◌++◌, length, take,
  drop, Option, none, some, Run, ok, fault, ◌>>=◌, ◌>>◌, check, leb, ltb, ◌==◌, if◌then◌else◌,
}
use boost_practice.Buffer.{BufferApi, be32, of_be32, checked_retrieve, checked_prepend}
use boost_practice.Frame.{to_size, size_total, drain}
use boost_practice.ProtoRpc.Message.{RpcMessage, RpcLibrary}

pub data CodecError : Type 0 where
  no_error checksum_error : CodecError

-- `kMinMessageLen`: the length and the checksum.
abbrev pub min_message_len : ℕ
min_message_len = 8

module _ ⦃api : BufferApi⦄ where
  open api use {Buffer, create, readable, append}

  pub record BufferValue : Type 0 where
    pub valid : Bool
    pub buffer : Buffer

  abbrev pub buffer_value : BufferValue
  buffer_value = record { valid = true; buffer = create }

  -- The codec but for its input buffer. `writes` records the calls of `async_write_some`, each with
  -- the place of its buffer in the list; `shutdowns` counts those of the socket's `shutdown`.
  pub record Codec : Type 0 where
    pub output_buffers : List BufferValue
    pub writes : List (ℕ × List ℕ)
    pub shutdowns : ℕ

  -- The codec's input buffer, beside the rest of its session: the callback does not reach it.
  pub record Reader {ℓ} (R : Type ℓ) : Type ℓ where
    pub input_buffer : Buffer
    pub owner : R

  unfoldable pub rpc_codec : Codec
  rpc_codec = record { output_buffers = buffer_value ∷ []; writes = []; shutdowns = 0 }

  -- The place of the first buffer that is free; the end of the list, if none is.
  unfoldable pub find_valid : List BufferValue → ℕ
  find_valid [] = 0
  find_valid (v ∷ vs) = if v.valid then 0 else suc (find_valid vs)

  -- The list with the buffer at a place replaced; at the end it grows.
  unfoldable pub put_value : ℕ → BufferValue → List BufferValue → List BufferValue
  put_value i w [] = w ∷ []
  put_value zero w (v ∷ vs) = w ∷ vs
  put_value (suc i) w (v ∷ vs) = v ∷ put_value i w vs

  unfoldable pub get_value : ℕ → List BufferValue → BufferValue
  get_value i [] = buffer_value
  get_value zero (v ∷ vs) = v
  get_value (suc i) (v ∷ vs) = get_value i vs

  module _ ⦃lib : RpcLibrary⦄ where
    open lib use {serialize, parse, adler32}

    -- `len - sizeof(int32_t)`, a `size_t`, as the `uInt` that `adler32` takes.
    abbrev pub covered : ℕ → ℕ
    covered len = (to_size len + (2 ^ 64 - 4)) % 2 ^ 64 % 2 ^ 32

    -- A sum over the bytes that are covered, and a read of the four bytes that end at `len`. To
    -- leave the readable bytes is a fault.
    unfoldable pub validate_checksum : Buffer → ℕ → Run Bool
    validate_checksum b len = do
      check (leb (covered len) (length (readable b)))
      check (leb 4 len && ltb len (2 ^ 31))
      check (leb len (length (readable b)))
      ok (adler32 (take (covered len) (readable b)) == of_be32 (drop (len - 4) (readable b)))

    -- What `send_rpc_msg` writes into the buffer that it has taken.
    unfoldable pub fill : Buffer → RpcMessage → Run Buffer
    fill b m = do
      let body = append b (serialize m)
      let checked = append body (be32 (adler32 (readable body)))
      checked_prepend checked (be32 ((length (serialize m) + 4) % 2 ^ 32))

    unfoldable pub send_rpc_msg : RpcMessage → Codec → Run Codec
    send_rpc_msg m c = do
      let i = find_valid c.output_buffers
      b ← fill (get_value i c.output_buffers).buffer m
      ok (record c {
        output_buffers = put_value i (record { valid = false; buffer = b }) c.output_buffers;
        writes = c.writes ++ (i, readable b) ∷ [];
      })

    module _ {R : Type 0} (rpc_callback : Option RpcMessage → CodecError → R → Run R) where
      -- The body of the loop of `on_read`.
      unfoldable pub on_frame : ℕ → Reader R → Run (Reader R)
      on_frame len s = do
        b ← checked_retrieve s.input_buffer 4
        valid ← validate_checksum b len
        owner ←
            if valid
            then rpc_callback (some (parse (take (to_size len - 4) (readable b)))) no_error s.owner
            else rpc_callback none checksum_error s.owner
        b' ← checked_retrieve b (to_size len)
        ok (record { input_buffer = b'; owner = owner })

      unfoldable pub on_read : ℕ → List ℕ → Reader R → Run (Reader R)
      on_read bytes read_buffer s = do
        check (leb bytes (length read_buffer))
        let input = append s.input_buffer (take bytes read_buffer)
        drain min_message_len size_total (λ (t : Reader R). t.input_buffer) on_frame
            (suc (length (readable input))) (record s { input_buffer = input })

  -- `i` is the place of `bufferValue` in the list.
  unfoldable pub on_write : Bool → ℕ → ℕ → Codec → Run Codec
  on_write true bytes i c = ok (record c { shutdowns = c.shutdowns + 1 })
  on_write false bytes i c = do
    b ← checked_retrieve (get_value i c.output_buffers).buffer bytes
    let v = get_value i c.output_buffers
    ok (
        if ltb 0 (length (readable b))
        then record c {
          output_buffers = put_value i (record v { buffer = b }) c.output_buffers;
          writes = c.writes ++ (i, readable b) ∷ [];
        }
        else record c {
          output_buffers = put_value i (record { valid = true; buffer = b }) c.output_buffers;
        })
