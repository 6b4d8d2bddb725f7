-- ===== src/Socket/Tests.antt =====
-- Sockets on a small system.
use simple_redis_client.Prelude.{
  false, ℕ, Option, Bool, ◌+◌, ◌≤◌, ◌≡◌, refl, true, none, some, List, [], ◌∷◌, length, codes,
  if◌then◌else◌,
}
use simple_redis_client.Prelude.Int.{pos, negsuc}
use simple_redis_client.Socket.{System, listen_call, listen}
use simple_redis_client.Socket.World.{
  Move, constructs, accepts_on, destroys, context_ends, no_sockets, run,
}
use simple_redis_client.Socket.Descriptors.{held, descriptors_held}
use simple_redis_client.Net.Context
use simple_redis_client.Net.Context.{new_context}
use simple_redis_client.Socket.Forward.{Request, writes_once, requests}
use simple_redis_client.Socket.Posted.{IsPosted, requests-IsPosted}
use simple_redis_client.Pool.Count.{count}

abbrev pub small_system : System
small_system = record {
  inet_pton = λ ip. some (length ip);
  somaxconn = pos 4096;
  sys_bind = λ fd addr port. true;
  sys_listen = λ fd backlog. true;
  sys_accept = λ fd. some 9;
  sys_connect = λ fd addr port. true;
  sys_read = λ fd len. pos 0;
  sys_write = λ fd msg. pos (length msg);
  sys_get_flags = λ fd. some 2;
  with_nonblock = λ flags. flags + 2048;
}

-- Only the default backlog becomes the system's largest one, and zero does not.
listen-zero :
    ((listen small_system (some 3) (negsuc 0)).1 ≡ listen_call 3 (pos 4096) ∷ [])
    × ((listen small_system (some 3) (pos 0)).1 ≡ listen_call 3 (pos 0) ∷ [])
listen-zero = (refl, refl)

-- A server's socket, a client before the end of the context and one after it, and a socket without
-- a descriptor.
abbrev late_client : List Move
late_client =
    constructs (some 3)
    ∷ accepts_on 0 (some 4)
    ∷ constructs none
    ∷ destroys 1
    ∷ context_ends
    ∷ accepts_on 0 (some 4)
    ∷ destroys 0
    ∷ []

run-late_client :
    ((run no_sockets late_client).kernel ≡ 4 ∷ [])
    × ((run no_sockets late_client).sockets ≡ none ∷ [])
unfolding run
run-late_client = (refl, refl)

descriptors_held_example :
    (count 4 (run no_sockets late_client).kernel
      ≡ count 4 (held (run no_sockets late_client).sockets)
        + count 4 (run no_sockets late_client).left_open)
    × (count 4 (run no_sockets late_client).kernel ≤ 1)
    × ((if (run no_sockets late_client).alive
          then length (run no_sockets late_client).left_open
          else 0)
        ≡ 0)
descriptors_held_example = descriptors_held late_client 4

-- A write before and one after the end of the context, and one on a socket without a descriptor.
abbrev three_writes : List (Bool × Option ℕ × Request)
three_writes =
    (true, some 6, writes_once (some 1) (codes "a"))
    ∷ (true, none, writes_once (some 2) (codes "b"))
    ∷ (false, some 6, writes_once (some 3) (codes "c"))
    ∷ []

requests-IsPosted_example :
    IsPosted 1024
      (λ fd. fd)
      new_context
      (Context.run 1024 (λ fd. fd) new_context (requests three_writes))
      three_writes
requests-IsPosted_example = requests-IsPosted 1024 (λ fd. fd) new_context three_writes
