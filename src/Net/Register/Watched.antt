-- ===== src/Net/Register/Watched.antt =====
-- src/net/context/EpollContext.cpp: `doRegisterRead` has epoll watch the connection for EPOLLIN.
use simple_redis_client.Prelude.{
  ◌≡◌, ◌∙◌, refl, ap, true, false, not, Option, none, some, [], Bool-cases, inl, inr,
}
use simple_redis_client.Net.Connection.{Connection, Interest, absent, watching, modify_epoll_events}
use simple_redis_client.Net.Write.{is_empty}
use simple_redis_client.Net.Write.Watched.{KeepsWatched}
use simple_redis_client.Net.Register.{do_register_read}

-- A descriptor with no connection that epoll does not watch, or a connection whose peer has not
-- closed and that is watched as it is registered, for writing exactly while writes wait.
abbrev pub IsConsistent : Option Connection → Interest → Type 0
IsConsistent none watched = watched ≡ absent
IsConsistent (some conn) watched =
    (conn.peer_closed ≡ false)
    × (watched ≡ watching conn.read_registered conn.write_registered)
    × (conn.write_registered ≡ not (is_empty conn.write_queue))

-- From such a descriptor, known or not, the registration of a read callback leads to a connection
-- that epoll watches for EPOLLIN, and for EPOLLOUT exactly while writes wait.
do_register_read-IsWatched :
    (found : Option Connection) (watched : Interest)
    → IsConsistent found watched
    → KeepsWatched (do_register_read found watched)
unfolding do_register_read
do_register_read-IsWatched none watched e = (_, _, _, refl, (refl, refl, rw e refl, refl))
do_register_read-IsWatched (some conn) watched (p, w, reg) =
    elim (Bool-cases conn.read_registered) [
      | inl e ↦ (
        record conn { read_cb = true },
        watched,
        [],
        rw (p, e) refl,
        (e, p, w ∙ ap (λ r. watching r conn.write_registered) e, reg),
      )
      | inr e ↦ (
        record conn { read_cb = true; read_registered = true },
        modify_epoll_events true conn.write_registered watched,
        [],
        rw (p, e) refl,
        (refl, p, rw w refl, reg),
      )
    ]
