-- ===== src/Net/Tests.antt =====
-- Runs of the event loop's handlers.
use simple_redis_client.Prelude.{
  ◌&&◌, not, inl, ℕ, ◌+◌, ◌≡◌, refl, true, false, none, some, List, Bytes, [], ◌∷◌, ◌++◌, length,
  arith, codes, take, ◌==◌, if◌then◌else◌, replicate,
}
use simple_redis_client.Net.Connection.{
  Connection, Interest, absent, watching, Event, low_level, closing, kept, closed,
}
use simple_redis_client.Net.Write.{
  advance, handle_write, do_async_write_once, do_async_write_batch, sent, broken,
}
use simple_redis_client.Net.Write.Order.{is_low, handle_write-sent}
use simple_redis_client.Net.Write.Pending.{AreUnsent, pending, waiting, reports, IsSized}
use simple_redis_client.Net.Write.Entries.{do_async_write_once-pending}
use simple_redis_client.Net.Write.Entries.{handle_write-broken}
use simple_redis_client.Net.Write.Queued.{Queues}
use simple_redis_client.Net.Write.Batch.{do_async_write_batch-pending}
use simple_redis_client.Net.Write.Unwatched.{write_after_drained}
use simple_redis_client.Net.Read.{
  SocketRead, received, end_of_stream, read_kept, handle_read, handle_readable,
}
use simple_redis_client.Net.Read.Full.{watches_input, full_buffer_closes}
use simple_redis_client.Net.Read.Buffered.{content, IsBuffer, handle_read-received}

-- Three writes wait: one of them is half sent, one has no callback.
abbrev connection : Connection
connection = record {
  read_cb = true;
  read_buffer = record { buffer = codes "ab" ++ replicate 3 0; data_size = 2 };
  write_queue =
      record { buffer = codes "hello"; offset = 3; callback = some 1 }
      ∷ (record { buffer = codes "x"; offset = 0; callback = none }
          ∷ (record { buffer = codes "world"; offset = 0; callback = some 2 } ∷ []));
  in_queue_write_buffer_byte_size = 8;
  high_level_callback = false;
  low_level_callback = false;
  closing_callback = true;
  high_level_callback_set = false;
  read_registered = false;
  write_registered = true;
  peer_closed = false;
}

handle_write-sent_example :
    (conn' : Connection) × (watched' : Interest) × (done : List ℕ) × (handle_write 1024 connection
        (watching true true)
        (sent 3)
      ≡ kept conn' watched' (
          reports true done
          ++ (if is_low connection (length (pending conn'.write_queue))
              then low_level ∷ []
              else [])))
    × (pending conn'.write_queue ≡ codes "orld")
    × ((1 ∷ (2 ∷ [])) ≡ done ++ waiting conn'.write_queue)
    × AreUnsent conn'.write_queue
    × IsSized conn'
    × (conn'.high_level_callback_set ≡ (
        connection.high_level_callback_set
        && not (is_low connection (length (pending conn'.write_queue)))))
handle_write-sent_example =
    handle_write-sent 1024 connection (watching true true) 3 refl
      (inl (λ e. cc), (inl (λ e. cc), (inl (λ e. cc), tt))) refl

handle_write-broken_example :
    handle_write 1024 connection (watching true true) broken
    ≡ closed (reports false (1 ∷ (2 ∷ [])) ++ (closing ∷ []))
handle_write-broken_example = handle_write-broken 1024 connection (watching true true) refl

do_async_write_once-pending_example :
    (conn' : Connection) × Queues connection
      (watching true true)
      conn'
      (length (pending conn'.write_queue))
      (do_async_write_once (some connection) (watching true true) (some 3) (codes "!"))
    × (pending conn'.write_queue ≡ codes "loxworld!")
    × (waiting conn'.write_queue ≡ 1 ∷ (2 ∷ (3 ∷ [])))
    × IsSized conn'
do_async_write_once-pending_example =
    do_async_write_once-pending connection (watching true true) (some 3) (codes "!") refl

write_after_drained_example :
    (conn' : Connection) × (events : List Event) × (conn'' : Connection) × (events' : List Event)
    × (handle_write 1024 connection (watching false true) (sent 7) ≡ kept conn' absent events)
    × (do_async_write_once (some conn') absent (some 3) (codes "!") ≡ kept conn'' absent events')
    × (pending conn''.write_queue ≡ codes "!")
write_after_drained_example =
    write_after_drained 1024 connection (watching false true) 7 (some 3) (codes "!") refl refl
      (unfold advance in refl)

handle_read-received_example :
    (conn' : Connection) × (zeros : ℕ) × (shown : Bytes) × (shown
      ≡ codes "abc" ++ replicate zeros 0)
    × (handle_read (λ b n. 1) connection (watching true false) (received (codes "c"))
        ≡ read_kept conn' (watching true false) ((shown, 3) ∷ []))
    × (content conn'.read_buffer ≡ codes "bc")
    × IsBuffer conn'.read_buffer
    × (length conn'.read_buffer.buffer ≡ 5)
handle_read-received_example =
    handle_read-received (λ b n. 1) connection (watching true false) (codes "c") refl
      (omega arith, refl) (omega arith)

do_async_write_batch-pending_example :
    (conn' : Connection) × Queues connection
      (watching true true)
      conn'
      (length (pending conn'.write_queue))
      (do_async_write_batch
        (some connection)
        (watching true true)
        (λ i. 10 + i)
        (codes "!" ∷ (codes "??" ∷ [])))
    × (pending conn'.write_queue ≡ codes "loxworld!??")
    × (waiting conn'.write_queue ≡ 1 ∷ (2 ∷ (10 ∷ (11 ∷ []))))
    × IsSized conn'
do_async_write_batch-pending_example =
    do_async_write_batch-pending connection (watching true true) (λ i. 10 + i)
      (codes "!" ∷ (codes "??" ∷ [])) refl

abbrev reading : Connection
reading = record connection { read_registered = true }

-- Six bytes of a longer message fill the buffer.
abbrev full_connection : Connection
full_connection = record connection {
  read_buffer = record { buffer = codes "$9\r\nab"; data_size = 6 };
}

abbrev socket_with_rest : ℕ → SocketRead
socket_with_rest room = if room == 0 then end_of_stream else received (take room (codes "cdefghi"))

full_buffer_closes_example :
    (conn' : Connection) × (watched' : Interest) × (handle_readable
        (λ buf n. 0)
        socket_with_rest
        full_connection
        (watching true true)
      ≡ read_kept conn' watched' ((codes "$9\r\nab", 0) ∷ []))
    × (conn'.peer_closed ≡ true)
    × (conn'.read_registered ≡ false)
    × (conn'.read_buffer ≡ full_connection.read_buffer)
    × (watches_input watched' ≡ false)
full_buffer_closes_example =
    full_buffer_closes (λ buf n. 0) socket_with_rest full_connection (watching true true) refl refl
      refl
