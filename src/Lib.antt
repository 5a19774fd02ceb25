-- ===== src/Lib.antt =====
-- qtalk for JavaScript: a multiplexer that carries any number of byte streams, the channels,
-- over one connection, and the calls on top of it. The development models javascript/mux and
-- javascript/rpc, which are also compiled into javascript/qtalk.bundle.js.
--
-- The parts, and how they meet. A WebSocket connection turns binary messages into a byte stream.
-- The decoder reads that stream through the interface of a connection, one message at a time,
-- and the encoder writes each message as one buffer. A session owns the array of channels: its
-- loop gives each decoded message to itself (an open) or to the channel that the message names.
-- Channels write through the session and remove themselves from its array. Calls to `read`,
-- `open`, `accept` and `close` return promises that later messages resolve.
--
-- Where each part is:
--  * Base, Base/Tests, Base/Lists, Base/Throws: library names, Boolean tests, list lemmas, and
--    the result of code that throws.
--  * Bytes: Uint8Array and DataView as lists of bytes, with their range checks; Bytes/Laws has
--    the laws of 32-bit numbers in big-endian order.
--  * Util/Queue, Util/Concat: `queue` and `concat` of javascript/mux/util.ts. Util/Queue/Fifo
--    has the specification of the queue.
--  * Conn: `IConn` of javascript/mux/api.ts as a record of operations and laws. Conn/WebSocket:
--    the class `Conn` of javascript/mux/transport/websocket.ts; Conn/WebSocket/Stream fills the
--    record, and Conn/WebSocket/Dial has `Dial`.
--  * Codec: the messages of javascript/mux/codec/message.ts; Codec/Marshal is `Marshal` of
--    encoder.ts, Codec/Unmarshal and Codec/Decoder are `Unmarshal`, `readPacket` and
--    `Decoder.decode` of decoder.ts.
--  * Channel: the state of javascript/mux/channel.ts and the methods that touch the channel
--    alone: `read` (try_read), `handleData` (handle_data). Channel/Bytes, Stream and Readers are
--    about the bytes that go through it; Channel/Feed fills the record of Conn with a channel;
--    Sending is about what its reads leave.
--  * Session/State, Table, Methods, Dispatch: javascript/mux/session.ts and the rest of
--    channel.ts. Table has `addCh`, `rmCh`, `getCh`; Methods has the methods of a channel, from
--    `send` to `handle`; Dispatch has those of the session, from `newChannel` to `loop`.
--  * Session/Invariant, Keeps, Preserve, History: the invariant of the table, the rules by which
--    methods keep it, and all histories of a session. Session/Serving: the queue of incoming
--    channels. Session/Transfer: data from one session to another. Session/Loop, Halts, Routing,
--    Offer, Opening, Shutdown, Closing, Hangup, Oversized, Ending: what the session does.
--  * Rpc/Text, Call, Mux: `Call` of javascript/rpc/caller.ts and `RespondMux` of responder.ts,
--    on texts as lists of UTF-16 code units. Rpc/Frame: `FrameCodec` of codec.ts over the
--    interface of a connection; a codec for values is a record of operations and laws.
--    Rpc/Frame/Delivery runs it on a channel, Rpc/Frame/Crossing and Passing between two
--    sessions; Left is what it leaves of the channel. Rpc/Exchange: `call` of the caller,
--    `Respond` and `return` and `hijack` of the responder, as one exchange of values.
--    Rpc/Frame/Blank is about a frame without bytes. Rpc/Peer: `Peer` and `CallProxy` of peer.ts
--    over that exchange.
--  * Rpc/Utf8: `TextEncoder` and `TextDecoder`. Rpc/Json: the values of JSON, with
--    `JSON.stringify` in Print and `JSON.parse` in Parse; Numerals, Strings, Proper, Steps,
--    RoundTrip and Paired are about them. Rpc/Json/Codec: `JSONCodec` of
--    javascript/rpc/codec.ts, which fills the record of FrameCodec. Rpc/Wire: the frames of a
--    call as JSON, with `call`, `Respond` and `return` over their bytes; Properness and Refines
--    compare that with the exchange of values. Rpc/Wire/Sessions: the same call on a channel
--    between two sessions, and Across is about it; Opened opens and accepts the channel first,
--    and Ends is about that.
--  * Legacy/Packets, Interop, Channel, Writes, Table: `encode`, `decode`, `read`, `handleData`,
--    `write` and `rmCh` of javascript/legacy/qmux/src/qmux.ts, against the current ones.
--    Legacy/Session: its session and the other methods of its channels; Same and Dropped are
--    about them. `readPacket`, `newChannel`, `getCh`, `addCh`, `accept` and the queue are the
--    same code as in javascript/mux, and so are the definitions.
--  * Legacy/Conn: the class `Conn` of javascript/legacy/qmux/src/qmux_browser.ts, and
--    `WebsocketConn` of qmux_node.ts, which differs from it in what `write` sends; Same and Runs
--    compare it with the current one. Legacy/Tcp: `TCPConn` of qmux_node.ts; a stream of node is
--    a parameter, and Once and Empty are about its reads. Legacy/Listener: the listeners of
--    qmux_node.ts with `Server.serve` of javascript/legacy/qrpc/src/qrpc.ts, and the promises of
--    the `Dial` functions.
--  * Legacy/Qrpc: the `responder` of javascript/legacy/qrpc/src/qrpc.ts; Export has `exportFunc`
--    and `Export`, Objects has `ObjectManager` and `ManagedObject`, Api has `API.serveAPI` and
--    `Client.call`, Serve has the accept loops of `Client` and `Server`. Methods, Reach,
--    Managed, Routed and Garbled are about them. The identifiers of `uuid4`, the functions that
--    are exported and what `Object.prototype` holds are arguments.
--  * Tests: each result at a concrete input.
--
-- How the code is modelled. JavaScript runs one method at a time up to its next `await`, so a
-- method is a function on the state, and an `async` method is cut at its awaits: what is left of
-- it is a task in the state, which may be resumed at any later time. A promise is a number that
-- its caller chose, and resolving it appends an outcome to the state. Channel objects are in a
-- list and are named by their place in it, since the array of the session, the queue `incoming`
-- and the tasks may all refer to one object. A call is modelled three times, as the values that
-- its two sides exchange, as the bytes of their frames, and on a channel between two sessions. A
-- method that throws returns its error with the state as it is then. Numbers are natural
-- numbers; what is written to a DataView is taken modulo the width of its field. JavaScript adds
-- window sizes as floating point numbers, exact below 2^53, which no sum of fewer than 2^21 of
-- these 32-bit fields reaches; the model adds them exactly.
--
-- Fuel. The read loop runs on fuel, one unit for a message and one for the end of the stream, so
-- that more units than messages are enough, and on any stream more units than bytes.
--
-- Not modelled: the WebSocket of the browser and the sockets of node, which are parameters by
-- what they give and the events that they emit; debug prints; `adjustWindow`, which is empty;
-- the numbers of JavaScript and their conversions from and to JSON text, which are a parameter;
-- values that `JSON.stringify` changes or refuses; the Go and Python implementations, and the
-- rest of javascript/legacy.
pub mod Base
pub mod Bytes
pub mod Util
pub mod Conn
pub mod Codec
pub mod Channel
pub mod Legacy
pub mod Rpc
pub mod Session
mod Tests
