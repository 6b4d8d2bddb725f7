-- ===== src/Net/Write.antt =====
-- src/net/context/EpollContext.cpp: `handleWrite`, `failAllPendingWrites`, `closeConnection`,
-- `doAsyncWriteOnce` and `doAsyncWriteBatch`.
pub mod Pending
pub mod Order
pub mod Queued
pub mod Entries
pub mod Batch
pub mod Unwatched
pub mod Watched
use simple_redis_client.Prelude.{
  ℕ, zero, suc, ◌+◌, ◌-◌, ◌*◌, Bool, true, false, not, ◌&&◌, Option, none, some, List, Bytes, [],
  ◌∷◌, ◌++◌, length, take, replicate, ltb, leb, ◌==◌, if◌then◌else◌,
}
use simple_redis_client.Net.Connection.{
  WriteMetaInfo, SimpleBuffer, Connection, Interest, absent, ctl_add, modify_epoll_events, ctl_del,
  Event, write_callback, high_level, low_level, closing, Handled, kept, closed,
}

abbrev pub default_high_level_size : ℕ
default_high_level_size = 1024 * 512

abbrev pub default_low_level_size : ℕ
default_low_level_size = 1024 * 8

abbrev pub call_back : Option ℕ → Bool → List Event → List Event
call_back none success events = events
call_back (some f) success events = write_callback f success ∷ events

abbrev pub unsent : WriteMetaInfo → ℕ
unsent meta = length meta.buffer - meta.offset

-- `iovs.empty()`: nothing to send in the entries that one `writev` may take.
abbrev pub iovs_empty : List WriteMetaInfo → Bool
iovs_empty [] = true
iovs_empty (meta ∷ queue) = unsent meta == 0 && iovs_empty queue

-- The loop over what was sent: the queue that is left, and the callbacks.
unfoldable pub advance : List WriteMetaInfo → ℕ → List WriteMetaInfo × List Event
advance [] remaining = ([], [])
advance (meta ∷ queue) remaining =
    let rest = advance queue (remaining - unsent meta) in
    if remaining == 0
    then (meta ∷ queue, [])
    else if leb (unsent meta) remaining
    then (rest.0, call_back meta.callback true rest.1)
    else (record meta { offset = meta.offset + remaining } ∷ queue, [])

abbrev pub fail_callbacks : List WriteMetaInfo → List Event
fail_callbacks [] = []
fail_callbacks (meta ∷ queue) = call_back meta.callback false (fail_callbacks queue)

abbrev pub is_empty : List WriteMetaInfo → Bool
is_empty [] = true
is_empty (meta ∷ queue) = false

-- The size is kept where there is nothing to fail.
abbrev pub fail_all_pending_writes : Connection → Connection × List Event
fail_all_pending_writes conn = if is_empty conn.write_queue then (conn, []) else (
  record conn { write_queue = []; in_queue_write_buffer_byte_size = 0 },
  fail_callbacks conn.write_queue,
)

-- `closeConnection` on a connection of the map.
unfoldable pub close_connection : Connection → List Event
close_connection conn =
    let failed = (fail_all_pending_writes conn).1 in
    if conn.closing_callback then closing ∷ failed else failed

-- What `writev` reports: `sent n` is `n + 1` bytes. Where it is none, or fails, `errno` decides:
-- `again` is EAGAIN or EWOULDBLOCK, and `broken` is anything else.
pub data Writev : Type 0 where
  sent : ℕ → Writev
  again : Writev
  broken : Writev

-- The end of `handleWrite`, when the queue is empty.
abbrev pub drained : Connection → Interest → Connection × Interest
drained conn watched =
    if is_empty conn.write_queue
    then (
      record conn { write_registered = false },
      if conn.peer_closed
          then ctl_del watched
          else if conn.read_registered
          then modify_epoll_events true false watched
          else ctl_del watched,
    )
    else (conn, watched)

-- The low water mark.
abbrev pub low_water : Connection → Interest → List Event → Handled
low_water conn watched events =
    if conn.high_level_callback_set
      && ltb conn.in_queue_write_buffer_byte_size default_low_level_size
      && conn.low_level_callback
    then kept (record conn { high_level_callback_set = false }) watched (events ++ (low_level ∷ []))
    else kept conn watched events

abbrev pub after_writev : Connection → Interest → Writev → Handled
after_writev conn watched again = kept conn watched []
after_writev conn watched broken =
    let (failed, events) = fail_all_pending_writes conn in
    closed (events ++ close_connection failed)
after_writev conn watched (sent n) =
    let (queue, events) = advance conn.write_queue (suc n) in
    let (done, watching_now) =
      drained
        (record conn {
          write_queue = queue;
          in_queue_write_buffer_byte_size = conn.in_queue_write_buffer_byte_size - suc n;
        })
        watched in
    low_water done watching_now events

-- `handleWrite(fd)` of a connection, with the result of `writev` on at most `iov_max` entries. The
-- size that falls below zero is set to zero.
unfoldable pub handle_write : ℕ → Connection → Interest → Writev → Handled
unfolding advance close_connection
handle_write iov_max conn watched result =
    if iovs_empty (take iov_max conn.write_queue)
    then kept conn watched []
    else after_writev conn watched result

-- The high water mark, and the registration of EPOLLOUT, behind the entries that were added.
abbrev pub high_water : Connection → Connection × List Event
high_water conn =
    if ltb default_high_level_size conn.in_queue_write_buffer_byte_size
      && conn.high_level_callback
      && not conn.high_level_callback_set
    then (record conn { high_level_callback_set = true }, high_level ∷ [])
    else (conn, [])

abbrev pub register_write : Connection → Interest → List Event → Handled
register_write conn watched events =
    if conn.write_registered
    then kept conn watched events
    else kept (record conn { write_registered = true })
        (modify_epoll_events conn.read_registered true watched) events

unfoldable pub default_buffer : Bytes
default_buffer = replicate 4096 0

abbrev pub new_connection : Bool → Connection
new_connection read_cb = record {
  read_cb = read_cb;
  read_buffer = record { buffer = default_buffer; data_size = 0 };
  write_queue = [];
  in_queue_write_buffer_byte_size = 0;
  high_level_callback = false;
  low_level_callback = false;
  closing_callback = false;
  high_level_callback_set = false;
  read_registered = false;
  write_registered = false;
  peer_closed = false;
}

-- The look-up of the connection, and the write-only connection where there is none.
abbrev pub find_or_create : Option Connection → Interest → Connection × Interest
find_or_create none watched =
    (record (new_connection false) { write_registered = true }, ctl_add false true watched)
find_or_create (some conn) watched = (conn, watched)

abbrev pub enqueue : Connection → Option ℕ → Bytes → Connection
enqueue conn callback buf = record conn {
  write_queue = conn.write_queue ++ (record { buffer = buf; offset = 0; callback = callback } ∷ []);
  in_queue_write_buffer_byte_size = conn.in_queue_write_buffer_byte_size + length buf;
}

abbrev pub finish_write : Connection → Interest → Handled
finish_write conn watched =
    let (marked, events) = high_water conn in register_write marked watched events

unfoldable pub do_async_write_once : Option Connection → Interest → Option ℕ → Bytes → Handled
unfolding default_buffer
do_async_write_once found watched callback buf =
    let (conn, watched_now) = find_or_create found watched in
    finish_write (enqueue conn callback buf) watched_now

-- The loop over the buffers: each entry calls the callback with its index.
unfoldable pub enqueue_all : Connection → (ℕ → ℕ) → ℕ → List Bytes → Connection
enqueue_all conn callbacks i [] = conn
enqueue_all conn callbacks i (buf ∷ bufs) =
    enqueue_all (enqueue conn (some (callbacks i)) buf) callbacks (suc i) bufs

unfoldable pub do_async_write_batch : Option Connection → Interest → (ℕ → ℕ) → List Bytes → Handled
unfolding default_buffer enqueue_all
do_async_write_batch found watched callbacks bufs =
    let (conn, watched_now) = find_or_create found watched in
    finish_write (enqueue_all conn callbacks 0 bufs) watched_now
