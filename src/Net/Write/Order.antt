-- ===== src/Net/Write/Order.antt =====
-- The bytes of a connection are sent in the order written, each once, and every write is reported
-- once (src/net/context/EpollContext.cpp).
use simple_redis_client.Prelude.{
  not, subst, if◌then◌else◌, ℕ, suc, ◌-◌, ◌≡◌, ◌∙◌, refl, sym, ap, Bool, true, false, ◌&&◌, List,
  [], ◌∷◌, ◌++◌, length, take, drop, ltb, arith, length-drop, Bool-cases, inl, inr, append-nil,
}
use simple_redis_client.Net.Connection.{Connection, Interest, Event, low_level, kept}
use simple_redis_client.Net.Write.{
  advance, handle_write, iovs_empty, drained, low_water, is_empty, after_writev, Writev, sent,
}
use simple_redis_client.Net.Write.Pending.{
  pending, waiting, reports, advance-pending, advance-waiting, AreUnsent, advance-AreUnsent,
  IsSized, SameQueue,
}

-- What the low water mark reads of a connection, with a count of waiting bytes.
abbrev pub is_low : Connection → ℕ → Bool
is_low conn size = conn.high_level_callback_set && ltb size 8192 && conn.low_level_callback

drained_lem :
    (conn : Connection) (watched : Interest)
    → SameQueue (drained conn watched).0 conn
      × ((drained conn watched).0.high_level_callback_set ≡ conn.high_level_callback_set)
      × ((drained conn watched).0.low_level_callback ≡ conn.low_level_callback)
drained_lem conn watched = elim (Bool-cases (is_empty conn.write_queue)) [
  | inl e ↦ rw e ((refl, refl), refl, refl)
  | inr e ↦ rw e ((refl, refl), refl, refl)
]

pub low_water_lem :
    (conn : Connection) (watched : Interest) (events : List Event) (b : Bool)
    → is_low conn conn.in_queue_write_buffer_byte_size ≡ b
    → (conn' : Connection) × (low_water conn watched events
        ≡ kept conn' watched (events ++ (if b then low_level ∷ [] else [])))
      × SameQueue conn' conn
      × (conn'.high_level_callback_set ≡ (conn.high_level_callback_set && not b))
low_water_lem conn watched events true e =
    (record conn { high_level_callback_set = false }, rw e refl, (refl, refl), ground arith)
low_water_lem conn watched events false e =
    (conn, rw e (ap (kept conn watched) (sym (append-nil events))), (refl, refl), ground arith)

pub handle_write_lem :
    (iov_max : ℕ) (conn : Connection) (watched : Interest) (result : Writev)
    → iovs_empty (take iov_max conn.write_queue) ≡ false
    → handle_write iov_max conn watched result ≡ after_writev conn watched result
unfolding handle_write
handle_write_lem iov_max conn watched result h = rw h refl

abbrev pub shrunk : Connection → ℕ → Connection
shrunk conn n = record conn {
  write_queue = (advance conn.write_queue n).0;
  in_queue_write_buffer_byte_size = conn.in_queue_write_buffer_byte_size - n;
}

-- A `writev` of `n + 1` bytes takes the first `n + 1` waiting bytes from the queue and keeps the
-- others in order. The writes that it ends are the first ones of the queue: each is reported once
-- as a success in their order, the others wait on, and no write whose bytes are all sent stays in
-- the queue. Behind these reports the low water mark is reported, once, if the high water mark was
-- reported before, fewer than 8192 bytes wait and there is a callback, and the connection then
-- forgets the high water mark; else nothing more is reported. The count of waiting bytes stays
-- right. Before it the count is right, no write whose bytes are all sent is in the queue, and the
-- entries that one `writev` takes have a byte to send.
pub handle_write-sent :
    (iov_max : ℕ) (conn : Connection) (watched : Interest) (n : ℕ)
    → IsSized conn
    → AreUnsent conn.write_queue
    → iovs_empty (take iov_max conn.write_queue) ≡ false
    → (conn' : Connection) × (watched' : Interest) × (done : List ℕ) × (handle_write iov_max conn
          watched
          (sent n)
        ≡ kept conn' watched' (
            reports true done
            ++ (if is_low conn (length (pending conn'.write_queue)) then low_level ∷ [] else [])))
      × (pending conn'.write_queue ≡ drop (suc n) (pending conn.write_queue))
      × (waiting conn.write_queue ≡ done ++ waiting conn'.write_queue)
      × AreUnsent conn'.write_queue
      × IsSized conn'
      × (conn'.high_level_callback_set ≡ (
          conn.high_level_callback_set && not (is_low conn (length (pending conn'.write_queue)))))
handle_write-sent iov_max conn watched n sized unsents some_bytes =
    let (done, events, order) = advance-waiting conn.write_queue (suc n) in
    let now = (drained (shrunk conn (suc n)) watched).0 in
    let ((q, c), mark, low) = drained_lem (shrunk conn (suc n)) watched in
    let (conn', ran, (q', c'), mark') =
      low_water_lem now (drained (shrunk conn (suc n)) watched).1
        (advance conn.write_queue (suc n)).1 (is_low now now.in_queue_write_buffer_byte_size)
        refl in
    let left : pending conn'.write_queue ≡ drop (suc n) (pending conn.write_queue) =
      ap pending (q' ∙ q) ∙ advance-pending conn.write_queue (suc n) in
    let size : now.in_queue_write_buffer_byte_size ≡ length (pending conn'.write_queue) =
      c
      ∙ omega (arith, sized, length-drop (suc n) (pending conn.write_queue))
      ∙ sym (ap length left) in
    let lows : is_low now now.in_queue_write_buffer_byte_size
        ≡ is_low conn (length (pending conn'.write_queue)) =
      ap (λ m. m && ltb now.in_queue_write_buffer_byte_size 8192 && now.low_level_callback) mark
      ∙ ap (λ k. conn.high_level_callback_set && ltb k 8192 && now.low_level_callback) size
      ∙ ap (λ l. conn.high_level_callback_set && ltb (length (pending conn'.write_queue)) 8192 && l)
          low in
    (
      conn',
      (drained (shrunk conn (suc n)) watched).1,
      done,
      handle_write_lem iov_max conn watched (sent n) some_bytes
          ∙ ran
          ∙ ap
              (λ es. kept conn' (drained (shrunk conn (suc n)) watched).1 (
                es
                ++ (if is_low now now.in_queue_write_buffer_byte_size then low_level ∷ [] else [])))
              events
          ∙ ap
              (λ b.
                kept conn' (drained (shrunk conn (suc n)) watched).1
                  (reports true done ++ (if b then low_level ∷ [] else [])))
              lows,
      left,
      order ∙ ap (λ r. done ++ waiting r) (sym (q' ∙ q)),
      subst AreUnsent (sym (q' ∙ q)) (advance-AreUnsent conn.write_queue (suc n) unsents),
      c' ∙ size,
      mark'
          ∙ ap (λ b. now.high_level_callback_set && not b) lows
          ∙ ap (λ b. b && not (is_low conn (length (pending conn'.write_queue)))) mark,
    )
