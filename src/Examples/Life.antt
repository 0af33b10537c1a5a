-- ===== src/Examples/Life.antt =====
-- A session of the RPC library over several events.
use boost_practice.Base.{
  IsDecided, ◌++◌, ℕ, ◌≡◌, refl, false, List, [], ◌∷◌, length, some, ok, arith,
}
use boost_practice.Frame.{size_total, drain, turn}
use boost_practice.Inputs.{list_buffer}
use boost_practice.Inputs.Library.{text_library}
use boost_practice.ProtoRpc.Codec.{
  CodecError, Reader, rpc_codec, send_rpc_msg, fill, find_valid, get_value, put_value, on_frame,
  validate_checksum,
}
use boost_practice.ProtoRpc.Codec as Codecs
use boost_practice.ProtoRpc.Codec.Slots.{encode}
use boost_practice.ProtoRpc.Session.{
  Session, rpc_session, on_rpc_callback, on_read, on_response, call_method, reply, do_read,
}
use boost_practice.Pending.{find_call, erase_call, put_call}
use boost_practice.Pending.Laws.{Below}
use boost_practice.Pending.Once.{Unique}
use boost_practice.ProtoRpc.Session.Life.{fresh, after, calling, reading, Reachable-Unique}
use boost_practice.ProtoRpc.Session.Total.{on_read_total}
use boost_practice.Examples.Calls.{
  name, method_name, client, server, no_bytes, ask, text, corrupt, wanted, answer,
}

-- A corrupt frame does not keep the loop from ending either.
on_read_total_example :
    IsDecided (on_read false 9 corrupt (record { input_buffer = no_bytes; owner = server }))
on_read_total_example =
    on_read_total false 9 corrupt (record { input_buffer = no_bytes; owner = server })

-- A client that has asked, whose answer arrives twice.
abbrev listening : Reader Session
listening = record { input_buffer = no_bytes; owner = client }

abbrev asked_once : Session
asked_once = record client {
  id = 1;
  req_callbacks = (0, wanted) ∷ [];
  codec = record {
    output_buffers =
        record { valid = false; buffer = record { front = 4; content = encode (ask text) } } ∷ [];
    writes = (0, encode (ask text)) ∷ [];
    shutdowns = 0;
  };
}

abbrev replies : List ℕ
replies = encode answer ++ encode answer

abbrev answered_once : Reader Session
answered_once = record {
  input_buffer = no_bytes;
  owner = record asked_once {
    req_callbacks = [];
    parsed = (40, text) ∷ [];
    ran = 50 ∷ [];
    reads = 1;
    timers = 1;
    cancels = 1;
  };
}

sends : call_method name method_name text (some 40) (some 50) client ≡ ok asked_once
unfolding rpc_session rpc_codec call_method send_rpc_msg fill find_valid get_value put_value
    put_call
sends = refl

reads_twice :
    on_read false (length replies) replies (record { input_buffer = no_bytes; owner = asked_once })
    ≡ ok answered_once
unfolding rpc_session rpc_codec on_read Codecs.on_read drain turn size_total on_frame
    validate_checksum on_rpc_callback on_response find_call erase_call reply do_read
reads_twice = refl

Reachable-Unique_example :
    Unique answered_once.owner.ran × Below answered_once.owner.id answered_once.owner.req_callbacks
unfolding rpc_session
Reachable-Unique_example = Reachable-Unique answered_once (
    after
      (after fresh
        (calling {r = listening} name method_name text (some 40) 50 (omega arith) tt sends))
      (reading false (length replies) replies reads_twice))
