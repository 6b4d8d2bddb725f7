-- ===== src/Net/Write/Entries.antt =====
-- Failed writes, added writes and the registration of EPOLLOUT
-- (src/net/context/EpollContext.cpp).
use simple_redis_client.Prelude.{
  ◌+◌, ℕ, ◌≡◌, ◌∙◌, refl, sym, ap, true, false, Option, some, List, Bytes, [], ◌∷◌, ◌++◌, length,
  take, if◌then◌else◌, arith, length-append, Bool-cases, inl, inr, append-nil,
}
use simple_redis_client.Net.Connection.{WriteMetaInfo, Connection, Interest, Event, closing, closed}
use simple_redis_client.Net.Write.{
  do_async_write_once, close_connection, fail_callbacks, fail_all_pending_writes, enqueue,
  call_back, handle_write, iovs_empty, is_empty, broken,
}
use simple_redis_client.Net.Write.Order.{handle_write_lem}
use simple_redis_client.Net.Write.Pending.{
  AreUnsent, pending, waiting, put, reports, IsSized, call_back-reports,
}
use simple_redis_client.Net.Write.Queued.{
  pending-append, waiting-append, Queues, finish_write_lem, Queues-queue,
}

is_empty-waiting : (queue : List WriteMetaInfo) → is_empty queue ≡ true → waiting queue ≡ []
is_empty-waiting [] h = refl
is_empty-waiting (meta ∷ queue) h = ground arith

fail_callbacks-reports :
    (queue : List WriteMetaInfo) → fail_callbacks queue ≡ reports false (waiting queue)
fail_callbacks-reports [] = refl
fail_callbacks-reports (meta ∷ queue) =
    ap (call_back meta.callback false) (fail_callbacks-reports queue)
    ∙ call_back-reports meta.callback false (waiting queue)

abbrev pub close_events : Connection → List Event
close_events conn = if conn.closing_callback then closing ∷ [] else []

failed_and_closed :
    (conn : Connection)
    → (fail_all_pending_writes conn).1 ++ close_connection (fail_all_pending_writes conn).0
      ≡ reports false (waiting conn.write_queue) ++ close_events conn
unfolding close_connection
failed_and_closed conn = elim (Bool-cases (is_empty conn.write_queue)) [
  | inl e ↦ rw (e, is_empty-waiting conn.write_queue e, e) refl
  | inr e ↦ rw (e, fail_callbacks-reports conn.write_queue) refl
]

-- Where `writev` fails, the connection is removed, and the waiting writes, all of them, are
-- reported once as failures, in their order, before the closing callback, if one is set. The entries that one
-- `writev` takes have a byte to send.
pub handle_write-broken :
    (iov_max : ℕ) (conn : Connection) (watched : Interest)
    → iovs_empty (take iov_max conn.write_queue) ≡ false
    → handle_write iov_max conn watched broken
      ≡ closed (reports false (waiting conn.write_queue) ++ close_events conn)
handle_write-broken iov_max conn watched some_bytes =
    handle_write_lem iov_max conn watched broken some_bytes ∙ ap closed (failed_and_closed conn)

AreUnsent-append : (xs ys : List WriteMetaInfo) → AreUnsent xs → AreUnsent ys → AreUnsent (xs ++ ys)
AreUnsent-append [] ys h k = k
AreUnsent-append (x ∷ xs) ys (h, hs) k = (h, AreUnsent-append xs ys hs k)

-- A write that is added leaves no write in the queue whose bytes are all sent.
enqueue-AreUnsent :
    (conn : Connection) (callback : Option ℕ) (buf : Bytes)
    → AreUnsent conn.write_queue
    → AreUnsent (enqueue conn callback buf).write_queue
enqueue-AreUnsent conn callback [] h = AreUnsent-append conn.write_queue _ h (inr refl, tt)
enqueue-AreUnsent conn callback (b ∷ buf) h =
    AreUnsent-append conn.write_queue _ h (inl (λ e. cc), tt)

-- A write that is added to a connection waits behind the waiting bytes, and its callback behind the
-- waiting ones; none is called. EPOLLOUT is asked for, if it is not yet, with EPOLLIN if the
-- connection reads: nothing changes on a descriptor that epoll does not watch. The high water mark
-- is reported, once, if more than 524288 bytes wait, there is a callback and the mark was not
-- reported before, which the connection remembers; else nothing is reported. The count of waiting
-- bytes stays right if it was.
pub do_async_write_once-pending :
    (conn : Connection) (watched : Interest) (callback : Option ℕ) (buf : Bytes)
    → IsSized conn
    → (conn' : Connection) × Queues conn watched conn'
        (length (pending conn'.write_queue))
        (do_async_write_once (some conn) watched callback buf)
      × (pending conn'.write_queue ≡ pending conn.write_queue ++ buf)
      × (waiting conn'.write_queue ≡ waiting conn.write_queue ++ put callback [])
      × IsSized conn'
unfolding do_async_write_once
do_async_write_once-pending conn watched callback buf sized =
    let (conn', ran, (q, c)) = finish_write_lem (enqueue conn callback buf) watched in
    let more : pending conn'.write_queue ≡ pending conn.write_queue ++ buf =
      ap pending q
      ∙ pending-append conn.write_queue _
      ∙ ap (λ b. pending conn.write_queue ++ b) (append-nil buf) in
    let size : conn.in_queue_write_buffer_byte_size + length buf
        ≡ length (pending conn'.write_queue) =
      omega (arith, sized, length-append (pending conn.write_queue) buf) ∙ sym (ap length more) in
    (
      conn',
      Queues-queue conn (enqueue conn callback buf).write_queue
          (conn.in_queue_write_buffer_byte_size + length buf) watched conn'
          (conn.in_queue_write_buffer_byte_size + length buf) _ _ size ran,
      more,
      ap waiting q ∙ waiting-append conn.write_queue _,
      c ∙ size,
    )
