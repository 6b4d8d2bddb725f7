-- ===== src/Client/Connect/Tests.antt =====
-- Three sockets of a Redis client, one of which has no descriptor.
use simple_redis_client.Prelude.{◌==◌, ◌≡◌, refl, true, false, none, some, [], ◌∷◌, length, codes}
use simple_redis_client.Prelude.Int.{pos}
use simple_redis_client.Socket.{System}
use simple_redis_client.Socket.Forward.{requests}
use simple_redis_client.Net.Context
use simple_redis_client.Net.Context.{new_context, register_read}
use simple_redis_client.Client.Connect.{Network, connect}
use simple_redis_client.Client.Connect.Connected.{IsLeft, connect-IsLeft}

-- A server listens on port 6379.
abbrev small_system : System
small_system = record {
  inet_pton = λ ip. some (length ip);
  somaxconn = pos 4096;
  sys_bind = λ fd addr port. true;
  sys_listen = λ fd backlog. true;
  sys_accept = λ fd. none;
  sys_connect = λ fd addr port. port == 6379;
  sys_read = λ fd len. pos 0;
  sys_write = λ fd msg. pos (length msg);
  sys_get_flags = λ fd. some 2;
  with_nonblock = λ flags. flags;
}

abbrev stopped : Network
stopped = record { context = new_context; running = false }

connect-two :
    ((connect 1024
        (λ fd. fd)
        small_system
        stopped
        (some 4 ∷ some 5 ∷ [])
        (codes "127.0.0.1")
        6379).1.context.submitted
      ≡ (4, register_read) ∷ ((5, register_read) ∷ []))
    × ((connect 1024
          (λ fd. fd)
          small_system
          stopped
          (some 4 ∷ none ∷ [])
          (codes "127.0.0.1")
          6379).0
        ≡ false)
unfolding connect Context.run requests
connect-two = (refl, refl)

connect-IsLeft_example :
    IsLeft stopped
      (some 4 ∷ some 5 ∷ [])
      (connect 1024 (λ fd. fd) small_system stopped (some 4 ∷ some 5 ∷ []) (codes "127.0.0.1") 6379)
connect-IsLeft_example =
    connect-IsLeft 1024 (λ fd. fd) small_system stopped (some 4 ∷ some 5 ∷ []) (codes "127.0.0.1")
      6379
