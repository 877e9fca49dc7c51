-- ===== src/Lib.antt =====
-- hioload-ws is a WebSocket library: protocol/ reads and writes frames and runs a connection over
-- a transport, with buffers from package pool behind the interface of api/; core/concurrency
-- holds the queues that the pools recycle through, internal/normalize the choice of a NUMA node,
-- and internal/session the sessions of connections with their context values.
-- protocol/handshake.go upgrades an HTTP request, core/protocol is a second, simpler codec and
-- connection, lowlevel/ is a client and a server over these, core/concurrency and
-- internal/concurrency run event loops, task executors and timers, control/ and adapters/ hold
-- configuration, metrics and glue, and highlevel/ puts routes, tracked connections, inbound
-- queues, reads and writes on top.
--
-- Modules and the code they model:
--
-- Frame: protocol/frame.go and protocol/constants.go, the frame and the masking loops
--   (Frame.Mask); Frame.Stream is DecodeFrame of protocol/frame.go, Frame.Decode is
--   DecodeFrameFromBytes and Frame.Encode the encoders of protocol/frame_codec.go.
-- Api.Buffer: Buffer and the BufferPool interface of api/buffer.go; the pool is a parameter of
--   the connection.
-- Connection: WSConnection of protocol/connection.go. Connection.Send is SendFrame and sendLoop,
--   Connection.Control is handleControl, Connection.Direct is the direct mode of RecvZeroCopy,
--   Connection.Loop is recvLoop and the loop mode of RecvZeroCopy.
-- Concurrency.Queue: LockFreeQueue of core/concurrency/lock_free_queue.go, with Len and Cap of
--   core/concurrency/ring.go.
-- Concurrency.Ring: internal/concurrency/ring.go with a producer and a consumer at once.
-- EventLoop: internal/concurrency/eventloop.go; core/concurrency/eventloop.go where it differs.
-- Executor: core/concurrency/executor.go, its state, Submit, the resizes with Close, and the
--   workers in a module each; internal/concurrency/executor.go has the same text.
-- Poller: adapters/poller_adapter.go over EventLoop.
-- Client: lowlevel/client/facade.go and lowlevel/client/batch.go; Client.Received joins it with
--   Connection.Direct, Client.Reader is its reading side.
-- Scheduler: core/concurrency/scheduler.go, one scheduled function at a time.
-- Server: lowlevel/server/server.go, lowlevel/server/options.go and lowlevel/server/run.go;
--   Server.Readers joins its connections with EventLoop.
-- Chain: lowlevel/server/handler_chain.go and adapters/handler_adapter.go, against
--   Highlevel.Routes.
-- Control: control/ and adapters/control_adapter.go.
-- Pool: Pool.Slab is slabPool of pool/slab_pool.go and pool/bufferpool_linux.go, over
--   Concurrency.Queue; Pool.Slab.Client puts it behind the BufferPool interface that
--   Connection.Direct uses; Pool.Classes is pool/bufferpool.go.
-- Normalize: internal/normalize/normalizer.go, which Pool.Classes uses.
-- Handshake: protocol/handshake.go; Handshake.Size is about its limit on headers,
--   Handshake.Tokens about lists of tokens, Handshake.Accepts about which requests it accepts.
-- CoreProtocol: core/protocol/frame_codec.go, against the codec of Frame; CoreProtocol.Connection
--   is core/protocol/connection.go without recvLoop.
-- Highlevel: Highlevel.Routes and Highlevel.Methods are the route table of highlevel/server.go,
--   Highlevel.Tracking its connections, with getOrCreateConn and Close in steps that interleave,
--   Highlevel.Serve the handler of ListenAndServe over those and Highlevel.Inbox; Highlevel.Inbox
--   is the inbound queue and its overflow worker in highlevel/conn.go, Highlevel.Reads and
--   Highlevel.Writes the reads and writes there.
-- Session: Session.Map is Go maps with string keys, Session.Context
--   internal/session/context_store.go, Session.Manager internal/session/session.go and
--   internal/session/store.go.
--
-- Bytes are numbers below 256, a Go int64 is an integer kept in its range by the code's own
-- conversions, a uint64 or a counter is its bit pattern below 2 ^ 64. Code that mutates a slice
-- in place returns the slice's new contents. Channels are lists with the channel's capacity;
-- goroutines are functions that run one select round, and where two cases of a select are ready a
-- Boolean argument says which is taken. An operation that would wait on a channel returns a value
-- that says so, and an index out of range or a slice out of bounds is a value too. What the
-- transport is handed is kept in the connection record. Times and what the operating system
-- reports are arguments. The inbound queue of a connection is a history of steps, one for each
-- select that the poller, the worker, the reader or the closer passes, in any order; the event
-- loop, the executor, the scheduler, the low-level client and the accepting of connections are
-- sequences of steps in the same way (Prelude.Steps), and a theorem about every sequence is about
-- every interleaving of the goroutines. Strings are byte strings; packages regexp, net/http, sha1
-- and base64 are parameters. What is written is a slice of an array in memory where it matters
-- that it is read later.
--
-- The loops over readBuf run on fuel, one more than the length of readBuf; every decoded frame
-- consumes at least two bytes. The retry loops of the queue run on any fuel from one, since a
-- single caller's first round decides. The doubling loop of NewLockFreeQueue runs on 64 rounds,
-- one for each bit of an int.
--
-- Not modelled: the transports and CPU affinity (system calls), several callers of the lock-free
-- queue at once, EncodeFrame of protocol/frame.go, recvLoop and frame.go of core/protocol, the
-- second handshake there (the same checks as in protocol/), the dial and the handshake of the
-- low-level client and its heartbeat, the listener of the low-level server, the asynchronous
-- notifications of the control plane, the adapters that only pass calls on, deadlines, and the
-- options of the high-level server. In highlevel/ a map of Go with pointers for keys is a
-- function or a list, the handler of ListenAndServe is run by one goroutine and is one step in
-- Highlevel.Serve, and the order in which a range visits a map is that of the list, which is left
-- open.
pub mod Api
pub mod Chain
pub mod Client
pub mod Concurrency
pub mod Connection
pub mod Control
pub mod CoreProtocol
pub mod EventLoop
pub mod Executor
pub mod Frame
pub mod Handshake
pub mod Highlevel
pub mod Normalize
pub mod Poller
pub mod Pool
pub mod Prelude
pub mod Scheduler
pub mod Server
pub mod Session
