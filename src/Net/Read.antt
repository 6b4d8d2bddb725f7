-- ===== src/Net/Read.antt =====
-- src/net/context: `SimpleBuffer::read` of EpollContext.h and `handleRead` of EpollContext.cpp on a
-- connection of the map.
pub mod Buffered
pub mod Full
use simple_redis_client.Prelude.{
  ℕ, ◌+◌, ◌-◌, Bool, true, false, List, Bytes, [], ◌∷◌, ◌++◌, length, take, drop, replicate, ltb,
  leb, if◌then◌else◌,
}
use simple_redis_client.Net.Connection.{
  SimpleBuffer, Connection, Interest, modify_epoll_events, ctl_del, Event,
}
use simple_redis_client.Net.Write.{is_empty, close_connection}

abbrev pub clear : SimpleBuffer → SimpleBuffer
clear b = record { buffer = replicate (length b.buffer) 0; data_size = 0 }

-- `SimpleBuffer::read(n)`: the bytes behind the first `n` are moved to the front, and the rest is
-- set to zero.
unfoldable pub read_buffered : SimpleBuffer → ℕ → SimpleBuffer
read_buffered b n =
    let left = b.data_size - n in
    if leb b.data_size n then clear b else record {
      buffer = take left (drop n b.buffer) ++ replicate (length b.buffer - left) 0;
      data_size = left;
    }

-- What `socket->read` reports, on the part of the buffer behind the data.
pub data SocketRead : Type 0 where
  received : Bytes → SocketRead
  end_of_stream : SocketRead
  would_block : SocketRead
  failed_read : SocketRead

-- The connection after `handleRead` and the calls of the read callback, or its removal.
pub data ReadHandled : Type 0 where
  read_kept : Connection → Interest → List (Bytes × ℕ) → ReadHandled
  read_closed : List Event → ReadHandled

-- The bytes that `read` has put behind the data.
abbrev pub fill : SimpleBuffer → Bytes → SimpleBuffer
fill b got = record {
  buffer = take b.data_size b.buffer ++ (got ++ drop (b.data_size + length got) b.buffer);
  data_size = b.data_size + length got;
}

-- `consumed`, at most the data.
abbrev pub clamp : ℕ → ℕ → ℕ
clamp size consumed = if ltb size consumed then size else consumed

-- The peer has closed: EPOLLIN is not watched any more.
abbrev pub half_close : Connection → Interest → Connection × Interest
half_close conn watched =
    if is_empty conn.write_queue
    then (
      record conn { peer_closed = true; read_registered = false; write_registered = false },
      ctl_del watched,
    )
    else (
      record conn { peer_closed = true; read_registered = false; write_registered = true },
      modify_epoll_events false true watched,
    )

-- `read_cb` is how many bytes the callback reports as consumed, of the buffer and a size.
unfoldable pub handle_read : (Bytes → ℕ → ℕ) → Connection → Interest → SocketRead → ReadHandled
unfolding read_buffered close_connection
handle_read read_cb conn watched (received got) =
    let filled = fill conn.read_buffer got in
    if conn.read_cb
    then read_kept
        (record conn {
          read_buffer =
              read_buffered filled
                (clamp filled.data_size (read_cb filled.buffer filled.data_size));
        })
        watched ((filled.buffer, filled.data_size) ∷ [])
    else read_kept (record conn { read_buffer = clear conn.read_buffer }) watched []
handle_read read_cb conn watched end_of_stream =
    let (closed_half, watched_now) = half_close conn watched in
    if conn.read_cb
    then read_kept closed_half watched_now ((conn.read_buffer.buffer, 0) ∷ [])
    else read_kept closed_half watched_now []
handle_read read_cb conn watched would_block = read_kept conn watched []
handle_read read_cb conn watched failed_read = read_closed (close_connection conn)

-- The call of `socket->read` with the room that is left; `socket` is what it reports of a length.
unfoldable pub handle_readable :
    (Bytes → ℕ → ℕ) → (ℕ → SocketRead) → Connection → Interest → ReadHandled
unfolding handle_read
handle_readable read_cb socket conn watched =
    handle_read read_cb conn watched
      (socket (length conn.read_buffer.buffer - conn.read_buffer.data_size))
