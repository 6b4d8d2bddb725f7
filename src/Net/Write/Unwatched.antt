-- ===== src/Net/Write/Unwatched.antt =====
-- src/net/context/EpollContext.cpp, the end of `handleWrite`: a connection with nothing to write and
-- nothing to read is taken out of epoll, and `doAsyncWriteOnce` on it.
use simple_redis_client.Prelude.{
  suc, if◌then◌else◌, ℕ, ◌≡◌, ◌∙◌, refl, ap, true, false, Option, some, List, Bytes, [], ◌∷◌, ◌++◌,
  take, arith, Bool-cases, inl, inr, append-nil,
}
use simple_redis_client.Net.Connection.{
  low_level, WriteMetaInfo, Connection, Interest, absent, Event, kept,
}
use simple_redis_client.Net.Write.{
  do_async_write_once, finish_write, high_water, register_write, enqueue, advance, handle_write,
  iovs_empty, drained, is_empty, sent,
}
use simple_redis_client.Net.Write.Order.{handle_write_lem, low_water_lem, is_low, shrunk}
use simple_redis_client.Net.Write.Pending.{pending, SameQueue}
use simple_redis_client.Net.Write.Queued.{pending-append, high_water-SameQueue}

register_write_absent :
    (conn : Connection) (events : List Event)
    → (conn' : Connection) × (register_write conn absent events ≡ kept conn' absent events)
      × SameQueue conn' conn
register_write_absent conn events = elim (Bool-cases conn.write_registered) [
  | inl e ↦ (conn, rw e refl, (refl, refl))
  | inr e ↦ (record conn { write_registered = true }, rw e refl, (refl, refl))
]

finish_write_absent :
    (conn : Connection)
    → (conn' : Connection) × (high : List Event) × (finish_write conn absent
        ≡ kept conn' absent high)
      × (conn'.write_queue ≡ conn.write_queue)
finish_write_absent conn =
    let (conn', ran, (q, c)) = register_write_absent (high_water conn).0 (high_water conn).1 in
    (conn', (high_water conn).1, ran, q ∙ (high_water-SameQueue conn).0)

drained_absent :
    (conn : Connection) (watched : Interest)
    → is_empty conn.write_queue ≡ true
    → conn.read_registered ≡ false
    → ((drained conn watched).1 ≡ absent)
      × ((drained conn watched).0.write_queue ≡ conn.write_queue)
drained_absent conn watched e r = elim (Bool-cases conn.peer_closed) [
  | inl p ↦ (rw (e, p) refl, rw e refl)
  | inr p ↦ (rw (e, p, r) refl, rw e refl)
]

-- A connection that does not read, or whose peer has closed, is not watched by epoll any more when
-- all its writes are sent; and a write that is added afterwards stays in the queue of a connection
-- that epoll still does not watch, since EPOLL_CTL_MOD does not add it.
pub write_after_drained :
    (iov_max : ℕ) (conn : Connection) (watched : Interest) (n : ℕ) (callback : Option ℕ)
    (buf : Bytes)
    → conn.read_registered ≡ false
    → iovs_empty (take iov_max conn.write_queue) ≡ false
    → is_empty (advance conn.write_queue (suc n)).0 ≡ true
    → (conn' : Connection) × (events : List Event) × (conn'' : Connection) × (events' : List Event)
      × (handle_write iov_max conn watched (sent n) ≡ kept conn' absent events)
      × (do_async_write_once (some conn') absent callback buf ≡ kept conn'' absent events')
      × (pending conn''.write_queue ≡ buf)
unfolding do_async_write_once
write_after_drained iov_max conn watched n callback buf r some_bytes done =
    let (a, q) = drained_absent (shrunk conn (suc n)) watched done r in
    let now = (drained (shrunk conn (suc n)) watched).0 in
    let b = is_low now now.in_queue_write_buffer_byte_size in
    let low = if b then low_level ∷ [] else [] in
    let (conn', ran, (q', c'), mark) =
      low_water_lem (drained (shrunk conn (suc n)) watched).0
        (drained (shrunk conn (suc n)) watched).1 (advance conn.write_queue (suc n)).1 b refl in
    let (conn'', high, ran', q'') = finish_write_absent (enqueue conn' callback buf) in
    (
      conn',
      (advance conn.write_queue (suc n)).1 ++ low,
      conn'',
      high,
      handle_write_lem iov_max conn watched (sent n) some_bytes
          ∙ ran
          ∙ ap (λ w. kept conn' w ((advance conn.write_queue (suc n)).1 ++ low)) a,
      ran',
      ap pending q''
          ∙ pending-append conn'.write_queue _
          ∙ ap (λ b. pending b ++ (buf ++ []))
              (q' ∙ q ∙ empty_queue (advance conn.write_queue (suc n)).0 done)
          ∙ append-nil buf,
    )
  where
    empty_queue : (queue : List WriteMetaInfo) → is_empty queue ≡ true → queue ≡ []
    empty_queue [] h = refl
    empty_queue (meta ∷ queue) h = ground arith
