-- ===== src/Net/Read/Full.antt =====
-- `handleRead` of src/net/context/EpollContext.cpp on a buffer that is full.
use simple_redis_client.Prelude.{
  ℕ, ◌-◌, ◌≡◌, ◌∙◌, refl, ap, Bool, true, false, Bytes, [], ◌∷◌, length, arith, Bool-cases, inl,
  inr,
}
use simple_redis_client.Net.Connection.{Connection, Interest, absent, watching, modify_epoll_events}
use simple_redis_client.Net.Write.{is_empty}
use simple_redis_client.Net.Read.{
  SocketRead, end_of_stream, read_kept, half_close, handle_read, handle_readable,
}

abbrev pub watches_input : Interest → Bool
watches_input absent = false
watches_input (watching input output) = input

half_closed :
    (conn : Connection) (watched : Interest)
    → ((half_close conn watched).0.peer_closed ≡ true)
      × ((half_close conn watched).0.read_registered ≡ false)
      × ((half_close conn watched).0.read_buffer ≡ conn.read_buffer)
      × (watches_input (half_close conn watched).1 ≡ false)
half_closed conn watched = elim (Bool-cases (is_empty conn.write_queue)) [
  | inl e ↦ rw e (refl, refl, refl, refl)
  | inr e ↦ rw e (refl, refl, refl, modified watched)
]
  where
    modified : (w : Interest) → watches_input (modify_epoll_events false true w) ≡ false
    modified absent = refl
    modified (watching i o) = refl

-- Where `read` of no bytes reports zero, as it does on an open socket: a connection whose buffer is
-- full, since its callback waits for the rest of a message longer than the buffer, is taken for one
-- whose peer has closed. Its callback is told so, and the connection does not watch for input, with
-- the message's first part still in the buffer.
pub full_buffer_closes :
    (read_cb : Bytes → ℕ → ℕ) (socket : ℕ → SocketRead) (conn : Connection) (watched : Interest)
    → conn.read_cb ≡ true
    → conn.read_buffer.data_size ≡ length conn.read_buffer.buffer
    → socket 0 ≡ end_of_stream
    → (conn' : Connection) × (watched' : Interest) × (handle_readable read_cb socket conn watched
        ≡ read_kept conn' watched' ((conn.read_buffer.buffer, 0) ∷ []))
      × (conn'.peer_closed ≡ true)
      × (conn'.read_registered ≡ false)
      × (conn'.read_buffer ≡ conn.read_buffer)
      × (watches_input watched' ≡ false)
unfolding handle_readable
full_buffer_closes read_cb socket conn watched set full zero_read =
    let no_room : length conn.read_buffer.buffer - conn.read_buffer.data_size ≡ 0 =
      omega (arith, full) in
    let (a, b, c, d) = half_closed conn watched in
    (
      (half_close conn watched).0,
      (half_close conn watched).1,
      ap (λ n. handle_read read_cb conn watched (socket n)) no_room
          ∙ ap (handle_read read_cb conn watched) zero_read
          ∙ rw set refl,
      a,
      b,
      c,
      d,
    )
