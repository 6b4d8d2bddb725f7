-- ===== src/Net/Write/Watched.antt =====
-- src/net/context/EpollContext.cpp: epoll watches a reading connection for EPOLLOUT exactly while
-- bytes wait.
use simple_redis_client.Prelude.{
  ℕ, zero, suc, ◌≡◌, ◌∙◌, refl, sym, ap, true, false, not, ◌&&◌, Option, some, List, Bytes, [], ◌∷◌,
  ◌++◌, take, ltb, arith, Bool-cases, inl, inr,
}
use simple_redis_client.Net.Connection.{
  WriteMetaInfo, Connection, Interest, watching, Event, low_level, high_level, Handled, kept,
  modify_epoll_events,
}
use simple_redis_client.Net.Write.{
  advance, handle_write, iovs_empty, is_empty, drained, low_water, sent, do_async_write_once,
  finish_write, register_write, enqueue, default_high_level_size, default_low_level_size,
}
use simple_redis_client.Net.Write.Order.{handle_write_lem, shrunk}

-- A connection that reads, whose peer has not closed, and for which epoll watches what it should.
abbrev pub IsWatched : Connection → Interest → Type 0
IsWatched conn watched =
    (conn.read_registered ≡ true)
    × (conn.peer_closed ≡ false)
    × (watched ≡ watching true conn.write_registered)
    × (conn.write_registered ≡ not (is_empty conn.write_queue))

-- A handler keeps the connection and what epoll should watch.
abbrev pub KeepsWatched : Handled → Type 0
KeepsWatched h =
    (conn : Connection) × (watched : Interest) × (events : List Event) × (h
      ≡ kept conn watched events)
    × IsWatched conn watched

low_water-IsWatched :
    (conn : Connection) (watched : Interest) (events : List Event)
    → IsWatched conn watched
    → KeepsWatched (low_water conn watched events)
low_water-IsWatched conn watched events valid =
    elim (Bool-cases (
      conn.high_level_callback_set
      && ltb conn.in_queue_write_buffer_byte_size default_low_level_size
      && conn.low_level_callback)) [
        | inl e ↦ (
          record conn { high_level_callback_set = false },
          watched,
          events ++ (low_level ∷ []),
          rw e refl,
          valid,
        )
        | inr e ↦ (conn, watched, events, rw e refl, valid)
      ]

not_empty :
    (m : ℕ) (queue : List WriteMetaInfo)
    → iovs_empty (take m queue) ≡ false
    → is_empty queue ≡ false
not_empty zero queue h = ground arith
not_empty (suc m) [] h = ground arith
not_empty (suc m) (meta ∷ queue) h = refl

drained-IsWatched :
    (conn : Connection) (watched : Interest)
    → conn.read_registered ≡ true
    → conn.peer_closed ≡ false
    → watched ≡ watching true true
    → conn.write_registered ≡ true
    → IsWatched (drained conn watched).0 (drained conn watched).1
drained-IsWatched conn watched r p w reg = elim (Bool-cases (is_empty conn.write_queue)) [
  | inl e ↦ rw (e, p, r, w) (refl, refl, refl, sym (ap not e))
  | inr e ↦ rw e (r, p, w ∙ ap (watching true) (sym reg), reg ∙ rw e refl)
]

-- `handleWrite` on a watched connection, when the entries that one `writev` takes have a byte to
-- send: epoll watches EPOLLOUT afterwards exactly if writes still wait, and EPOLLIN in any case.
handle_write-IsWatched :
    (iov_max : ℕ) (conn : Connection) (watched : Interest) (n : ℕ)
    → IsWatched conn watched
    → iovs_empty (take iov_max conn.write_queue) ≡ false
    → KeepsWatched (handle_write iov_max conn watched (sent n))
handle_write-IsWatched iov_max conn watched n (r, p, w, reg) some_bytes =
    let on : conn.write_registered ≡ true =
      reg ∙ ap not (not_empty iov_max conn.write_queue some_bytes) in
    let (conn', watched', events, ran, valid) =
      low_water-IsWatched (drained (shrunk conn (suc n)) watched).0
        (drained (shrunk conn (suc n)) watched).1 (advance conn.write_queue (suc n)).1
        (drained-IsWatched (shrunk conn (suc n)) watched r p (w ∙ ap (watching true) on) on) in
    (
      conn',
      watched',
      events,
      handle_write_lem iov_max conn watched (sent n) some_bytes ∙ ran,
      valid,
    )

is_empty_snoc :
    (queue : List WriteMetaInfo) (meta : WriteMetaInfo) → is_empty (queue ++ (meta ∷ [])) ≡ false
is_empty_snoc [] meta = refl
is_empty_snoc (x ∷ queue) meta = refl

register_write-IsWatched :
    (conn : Connection) (watched : Interest) (events : List Event)
    → conn.read_registered ≡ true
    → conn.peer_closed ≡ false
    → watched ≡ watching true conn.write_registered
    → is_empty conn.write_queue ≡ false
    → KeepsWatched (register_write conn watched events)
register_write-IsWatched conn watched events r p w some_write =
    elim (Bool-cases conn.write_registered) [
      | inl e ↦ (conn, watched, events, rw e refl, (r, p, w, e ∙ sym (ap not some_write)))
      | inr e ↦ (
        record conn { write_registered = true },
        modify_epoll_events conn.read_registered true watched,
        events,
        rw e refl,
        (r, p, rw (w, r) refl, sym (ap not some_write)),
      )
    ]

finish_write-IsWatched :
    (conn : Connection) (watched : Interest)
    → conn.read_registered ≡ true
    → conn.peer_closed ≡ false
    → watched ≡ watching true conn.write_registered
    → is_empty conn.write_queue ≡ false
    → KeepsWatched (finish_write conn watched)
finish_write-IsWatched conn watched r p w some_write =
    elim (Bool-cases (
      ltb default_high_level_size conn.in_queue_write_buffer_byte_size
      && conn.high_level_callback
      && not conn.high_level_callback_set)) [
        | inl e ↦ rw e (
            register_write-IsWatched (record conn { high_level_callback_set = true }) watched
              (high_level ∷ []) r p w some_write)
        | inr e ↦ rw e (register_write-IsWatched conn watched [] r p w some_write)
      ]

-- `doAsyncWriteOnce` on a watched connection: epoll watches EPOLLOUT and EPOLLIN afterwards, and
-- the write waits in the queue.
do_async_write_once-IsWatched :
    (conn : Connection) (watched : Interest) (callback : Option ℕ) (buf : Bytes)
    → IsWatched conn watched
    → KeepsWatched (do_async_write_once (some conn) watched callback buf)
unfolding do_async_write_once
do_async_write_once-IsWatched conn watched callback buf (r, p, w, reg) =
    finish_write-IsWatched (enqueue conn callback buf) watched r p w
      (is_empty_snoc conn.write_queue _)
