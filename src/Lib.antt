-- ===== src/Lib.antt =====
-- A verification library for SimpleRedisClient: an event loop with sockets, and on it a Redis
-- client and an RPC server.
--
-- How the program is built. `EpollContext` (src/net/context) runs four event loops, each on a
-- thread of its own with the sockets that belong to it. A loop calls the read callback of a
-- connection with its buffer and the number of bytes received, and drops as many bytes as the
-- callback returns. The RPC server (src/app/rpc) parses requests out of these bytes, gives each
-- finished request to the thread pool and writes one response for it. The Redis client
-- (src/app/redis) writes commands, and settles the promises of the commands with the replies it
-- parses. The models take the callbacks at this border: a text received, the state of the
-- connection, and what the callback returns, writes and settles.
--
-- Files:
-- - Prelude: shared names, tests on numbers, lists measured by native numbers, bytes, integers.
-- - Rpc, of src/app/rpc/RpcServer.cpp and RpcServer.h. Types: `RpcContext` and its enums. Wire:
--   the big-endian reads and writes, `buildResponse`, `buildErrorResponse`. Parser: `parse`, with
--   the states of its switch; Rounds, Split, Stream and Feed have its laws. Frame: the request
--   layout of the comment at the head of the source, and its acceptance. Server: the read callback
--   of `acceptClient`, the table of handlers and `dispatch`. Service: the server with its clients,
--   its thread pool and the responses. Endpoint: `bindAndListen` and `registerDiscovery`.
--   Session: a client's connection with its read buffer in front of the callback.
-- - Socket, of src/net/socket/LinuxSocket.cpp. The operations with their system calls; World: which
--   sockets there are, with their descriptors. Forward: the operations that go to the event loop.
-- - Resp, of src/app/redis/redis.h. Types: `RESPValue`. Number: `std::stoll` and `std::to_string`.
--   Parser: `RESP_Parser`. Command: `buildRESPCommand`. Format: `formatResponse`. Reply: the
--   protocol, written without the source, which the theorems compare the parser with.
-- - Client, of src/app/redis/SimpleRedisClient.cpp: the read callback, `execute`, the split of a
--   command line. Connect: `connect` and `close`. Pipeline: the commands of a connection, with the
--   batching `execute1`, from the call through the socket to the replies.
-- - Net, of src/net/context. Connection: `Connection`, `WriteMetaInfo`, `SimpleBuffer` and what
--   epoll watches. Write: `handleWrite`, `failAllPendingWrites`, `closeConnection`,
--   `doAsyncWriteOnce`, `doAsyncWriteBatch`. Read: `SimpleBuffer::read` and `handleRead` on a
--   connection. Register: `doRegisterRead` and the registration of the other callbacks. Timers:
--   `addTimer` and `handleTimer`. Loop: the task queue, `postTask`, `postTaskBatch`, `drainTasks`,
--   `run` and `stop`, with the threads that post. Context: the descriptors of the loops, accepting sockets, epoll's reports, and
--   `EpollContextImpl`.
-- - Queue, of src/utils/thread_pool/queue. Ring: the slots of a ring. Spsc: `LockFreeQueue`, as
--   the interleaved accesses of its two threads. Mpsc: `MPSCQueue`, with any number of producers.
--   Mpmc: `MPMCQueue`, with concrete runs only. Blocking: `SpinBlockingQueue`, `BlockingQueue`.
-- - Lock, of src/utils/thread_pool/lock: `SpinLock`, with the threads that use it.
-- - Pool, of src/utils/thread_pool/thread_pool.cpp and thread_pool.h: `ThreadPool` with its
--   threads. Task: the task that `put` makes, and `Result`.
-- Each has a module Tests with concrete runs.
--
-- Bounds and fuel. Bytes are native numbers. Sizes and positions keep the wrap at 2 ^ 64 where the
-- source adds a signed length. The request parser's loop runs on fuel 13, one round for each of
-- its states; the server's loop over a read has two rounds more than bytes. The nesting of reply
-- arrays is a fuel that the source leaves to the call stack; running out of it is an outcome of
-- its own, which the theorems rule out by the depth of the reply. `max_elements` is the number of
-- elements that `std::vector::reserve` accepts, a parameter.
--
-- The callbacks of the event loop post tasks and do not change a connection while a handler runs;
-- a handler's callbacks are the list of events it returns. The loop's count of waiting bytes is a
-- native number: below 2 ^ 31 bytes the source's `int` does not overflow, and where it falls below
-- zero the source sets it to zero.
--
-- Threads are interleaved by a list of moves, which says who makes the next access. Accesses of
-- atomics are sequentially consistent, where the source orders them by acquire and release, apart
-- from `awake.store(false)` of Net.Loop: it reaches the other threads in a move of its own, which may
-- come after the loop's next look at the queue. A call that holds a lock from its start to its end
-- is one move.
--
-- In Net.Loop a push loads the head, looks at the tail and exchanges the head in three moves, as in
-- Queue.Mpsc. Where an exchange lets the head meet the tail, the queue reads as empty from there on
-- and the run is marked as `overrun`; what the places then hold is in Queue.Mpsc and not in Net.Loop.
-- The marks `overrun` and `early`, of a look before the store, are not of the source: they say which
-- runs a theorem is about.
--
-- `writev` returns some bytes, or none with an `errno` that decides.
--
-- In Client.Pipeline a call and the task that it posts are one move; the socket reports the writes
-- in the order in which it has them, as in Net.Write. In Net.Loop the loop's thread, when it posts
-- from a task, is one of the posting threads. In Net.Timers a call of `addTimer` is one move: the
-- source calls it on the caller's thread without a lock, and the model has no such overlap. In
-- Rpc.Service a thread of the pool answers a request in the move that ends its task, and a client's
-- end of stream leaves the server's tables.
--
-- Not modelled: the system calls and the Nacos client, a submodule that is not in the repository,
-- which are parameters; Windows sockets, which the build on Linux leaves out; the logger, whose
-- entries are dropped; the terminal input and output of the programs; generated protobuf code.
pub mod Prelude
pub mod Rpc
pub mod Socket
pub mod Resp
pub mod Client
pub mod Net
pub mod Lock
pub mod Queue
pub mod Pool
