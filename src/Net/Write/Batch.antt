-- ===== src/Net/Write/Batch.antt =====
-- src/net/context/EpollContext.cpp, `doAsyncWriteBatch`.
use simple_redis_client.Prelude.{
  refl, subst, ℕ, suc, ◌≡◌, ◌∙◌, sym, ap, some, List, Bytes, [], ◌∷◌, ◌++◌, length, arith,
  length-append, append_assoc, append-nil,
}
use simple_redis_client.Net.Connection.{Connection, Interest}
use simple_redis_client.Net.Write.{do_async_write_batch, enqueue_all, enqueue, finish_write}
use simple_redis_client.Net.Write.Pending.{pending, waiting, IsSized}
use simple_redis_client.Net.Write.Queued.{
  pending-append, waiting-append, finish_write_lem, Queues, Queues-queue,
}

abbrev pub joined : List Bytes → Bytes
joined [] = []
joined (buf ∷ bufs) = buf ++ joined bufs

-- The callbacks of a batch from an index on.
abbrev pub indexed : (ℕ → ℕ) → ℕ → List Bytes → List ℕ
indexed callbacks i [] = []
indexed callbacks i (buf ∷ bufs) = callbacks i ∷ indexed callbacks (suc i) bufs

enqueue_all_lem :
    (conn : Connection) (callbacks : ℕ → ℕ) (i : ℕ) (bufs : List Bytes)
    → IsSized conn
    → (pending (enqueue_all conn callbacks i bufs).write_queue
        ≡ pending conn.write_queue ++ joined bufs)
      × (waiting (enqueue_all conn callbacks i bufs).write_queue
          ≡ waiting conn.write_queue ++ indexed callbacks i bufs)
      × IsSized (enqueue_all conn callbacks i bufs)
unfolding enqueue_all
enqueue_all_lem conn callbacks i [] sized = (sym (append-nil _), sym (append-nil _), sized)
enqueue_all_lem conn callbacks i (buf ∷ bufs) sized =
    let more : pending (enqueue conn (some (callbacks i)) buf).write_queue
        ≡ pending conn.write_queue ++ buf =
      pending-append conn.write_queue _
      ∙ ap (λ b. pending conn.write_queue ++ b) (append-nil buf) in
    let (p, w, s) =
      enqueue_all_lem (enqueue conn (some (callbacks i)) buf) callbacks (suc i) bufs (
        omega (arith, sized, length-append (pending conn.write_queue) buf)
        ∙ sym (ap length more)) in
    (
      p
          ∙ ap (λ b. b ++ joined bufs) more
          ∙ append_assoc (pending conn.write_queue) buf (joined bufs),
      w
          ∙ ap (λ b. b ++ indexed callbacks (suc i) bufs) (waiting-append conn.write_queue _)
          ∙ append_assoc (waiting conn.write_queue) (callbacks i ∷ [])
              (indexed callbacks (suc i) bufs),
      s,
    )

enqueue_all-fields :
    (conn : Connection) (callbacks : ℕ → ℕ) (i : ℕ) (bufs : List Bytes)
    → enqueue_all conn callbacks i bufs ≡ record conn {
      write_queue = (enqueue_all conn callbacks i bufs).write_queue;
      in_queue_write_buffer_byte_size =
          (enqueue_all conn callbacks i bufs).in_queue_write_buffer_byte_size;
    }
unfolding enqueue_all
enqueue_all-fields conn callbacks i [] = refl
enqueue_all-fields conn callbacks i (buf ∷ bufs) =
    enqueue_all-fields (enqueue conn (some (callbacks i)) buf) callbacks (suc i) bufs

-- A batch waits behind the waiting bytes, its buffers in order, and the callback with the index of
-- each buffer behind the waiting ones, in order; none is called. EPOLLOUT is asked for, if it is
-- not yet, with EPOLLIN if the connection reads: nothing changes on a descriptor that epoll does
-- not watch. The high water mark is reported, once, if more than 524288 bytes wait, there is a
-- callback and the mark was not reported before, which the connection remembers; else nothing is
-- reported. The count of waiting bytes stays right if it was.
pub do_async_write_batch-pending :
    (conn : Connection) (watched : Interest) (callbacks : ℕ → ℕ) (bufs : List Bytes)
    → IsSized conn
    → (conn' : Connection) × Queues conn watched conn'
        (length (pending conn'.write_queue))
        (do_async_write_batch (some conn) watched callbacks bufs)
      × (pending conn'.write_queue ≡ pending conn.write_queue ++ joined bufs)
      × (waiting conn'.write_queue ≡ waiting conn.write_queue ++ indexed callbacks 0 bufs)
      × IsSized conn'
unfolding do_async_write_batch
do_async_write_batch-pending conn watched callbacks bufs sized =
    let added = enqueue_all conn callbacks 0 bufs in
    let (conn', ran, (q, c)) = finish_write_lem added watched in
    let (p, w, s) = enqueue_all_lem conn callbacks 0 bufs sized in
    let size : added.in_queue_write_buffer_byte_size ≡ length (pending conn'.write_queue) =
      s ∙ sym (ap (λ r. length (pending r)) q) in
    (
      conn',
      Queues-queue conn added.write_queue added.in_queue_write_buffer_byte_size watched conn'
          added.in_queue_write_buffer_byte_size _ _ size
          (subst
            (λ e.
              Queues e watched conn' added.in_queue_write_buffer_byte_size
                (finish_write added watched))
            (enqueue_all-fields conn callbacks 0 bufs) ran),
      ap pending q ∙ p,
      ap waiting q ∙ w,
      c ∙ size,
    )
