-- ===== src/Lib.antt =====
-- The networking programs of this repository: a chat server and client over Boost.Asio
-- (asio_practice_1), an RPC server and client over protobuf (asio_rpc_practice), an RPC library
-- (proto_rpc/lib) with its example, and an HTTP server of files over Boost.Beast (beast_practice-1),
-- with the theorems that make them correct.
--
-- The parts and how they interact:
-- - Base: Booleans and lists over the native numbers, and `Run`, the outcome of code that can fail.
--   `fault` is a failed assertion, undefined behaviour or an exception that leaves the code, and
--   `spent` is a loop that has used up its fuel, as no run that `IsDecided` has.
-- - Buffer: the byte buffer (common/Buffer.h, a copy of muduo's, in three places) as an interface.
-- - Frame: the loop that cuts length-prefixed frames out of a stream, which every session has, with
--   its arithmetic on `int32_t` and `size_t`; Frame.Relation says how a stream splits, without a
--   loop; Frame.Loop relates the two; Frame.Output is the buffer of what is to be written.
-- - Acceptor: the constructors of the servers, which share their text; Threads: their thread loops
--   (proto_rpc/lib/rpc_server.cpp, asio_rpc_practice/server/main.cpp); Mains: what becomes of the
--   threads at the end of `main` (asio_practice_1/tcp_server_1/main.cpp,
--   beast_practice-1/beast_practice/main.cpp, asio_rpc_practice/server/main.cpp).
-- - Tcp.Session (asio_practice_1/tcp_server_1/session.cpp): `on_read`, `sendMessage`, `on_write`.
-- - Tcp.Server (asio_practice_1/tcp_server_1/boost_server_async.cpp): the sessions that are held and
--   the relaying of messages; `serve` is one read of a session with the callbacks that it makes,
--   `complete_write` one completed write.
-- - Tcp.Client (asio_practice_1/tcp_client_1): the client, and the input loop of its main.cpp;
--   Tcp.Relay takes a message from one client through the server to another.
-- - Pending: the calls that wait for a response, by their identifiers, which both RPC clients keep;
--   Pending.Once is what keeps the closure of a call from running twice.
-- - ProtoRpc.Codec (proto_rpc/lib/rpc_codec.cpp): messages with a checksum, and the output buffers.
-- - ProtoRpc.Session (proto_rpc/lib/rpc_session.cpp): `on_rpc_callback`, `CallMethod` and the rest,
--   in the build with USE_SSL, which is the default; ProtoRpc.Session.Start is the handshake that
--   comes first, ProtoRpc.Session.Handshake the session's life by phases, as a relation, and
--   ProtoRpc.Session.Spec a specification without buffers, map and codec.
-- - ProtoRpc.Server and ProtoRpc.Client (proto_rpc/lib/rpc_server.cpp, rpc_client.hpp). What a
--   session's pointer to the map of services reaches is `dereference`.
-- - ProtoRpc.Example (proto_rpc/example): the service `Add` and the client that calls it.
-- - AsioRpc.Session and AsioRpc.Server (asio_rpc_practice/server): the earlier RPC, whose frames have
--   no checksum, and its TestSolve service; AsioRpc.Client (asio_rpc_practice/client, with the
--   input loop of its main.cpp) calls it, AsioRpc.Client.Life is its life as a relation, and
--   AsioRpc.RoundTrip puts the two together.
-- - Http (beast_practice-1/beast_practice): Http.Files and Http.Mime choose the file and its type,
--   Http.Request answers a request, Http.Session is a connection and Http.Listener accepts them
--   (http_session.cpp, listener.cpp). Http.Session.Exchange is the connection as a step relation, and
--   Http.Session.Conversation the specification of what it answers.
-- - Inputs: concrete instances of the interfaces; Examples: the theorems at concrete inputs.
--
-- A state is a record of the object's fields, followed by fields that record, in order, the calls
-- that the object makes to the outside: the bytes given to `async_write_some`, the callbacks, the
-- counts of reads and of shutdowns. An operation takes the state to the next one; an error code is a
-- Boolean. An `int32_t` is its bit pattern, and sums wrap where the source's do.
--
-- The loops run on fuel, one more than the number of readable bytes. Each round takes a header of
-- four bytes, so that this is enough, and the theorems on reads prove it: none of them assumes that
-- the loop returns.
--
-- Parameters: the buffer (`BufferApi`), the message classes that protoc generates, with zlib's
-- adler32 (`RpcLibrary`, `TestLibrary`, `AddLibrary`), the services that a program registers
-- (`Service`), what Boost.Beast does with messages (`HttpLibrary`), and the files, as a function of
-- their paths.
--
-- Not modelled: the event loop, mutexes and threads (an operation is one step), the
-- cryptography of SSL, of which a handshake keeps the outcome, logging, the parsing of HTTP, and the
-- signals and arguments of the mains. Nor are the errors of the socket calls whose outcome the code
-- does not look at: `remote_endpoint` and the overload of `shutdown` without an error code throw on
-- a connection that is already gone, while here `shutdown` is counted and `remote_endpoint`, which is
-- only printed, is left out. A completed read may bring any number of bytes that its buffer holds, and
-- the buffer any length, where the sources have 30 and 100 bytes. In Example.answer a sum that
-- overflows, which is undefined, stands as a call whose closure never runs.
pub mod Base
pub mod Buffer
pub mod Frame
pub mod Acceptor
pub mod Threads
pub mod Mains
pub mod Pending
pub mod Tcp
pub mod ProtoRpc
pub mod AsioRpc
pub mod Http
pub mod Inputs
pub mod Examples
