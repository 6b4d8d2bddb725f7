-- ===== src/Socket/Own.antt =====
-- The system calls of a `LinuxSocket` of src/net/socket/LinuxSocket.cpp are on its own descriptor.
use simple_redis_client.Prelude.{ℕ, ◌≡◌, refl, Bool, false, Option, none, some, List, [], ◌∷◌}
use simple_redis_client.Prelude.Int.{negsuc}
use simple_redis_client.Socket.{
  System, SysCall, bind_call, listen_call, accept_call, connect_call, read_call, write_call,
  get_flags_call, set_flags_call, setsockopt_call, Operation, binds, listens, accepts, connects,
  reads, writes, sets_no_block, Result, success, size, client, no_result, bind_at, connect_at,
  set_flags, perform,
}

abbrev pub fd_of : SysCall → ℕ
fd_of (bind_call fd addr port) = fd
fd_of (listen_call fd backlog) = fd
fd_of (accept_call fd) = fd
fd_of (connect_call fd addr port) = fd
fd_of (read_call fd len) = fd
fd_of (write_call fd msg) = fd
fd_of (get_flags_call fd) = fd
fd_of (set_flags_call fd flags) = fd
fd_of (setsockopt_call fd option) = fd

abbrev pub AreOn : ℕ → List SysCall → Type 0
AreOn fd [] = Unit
AreOn fd (c ∷ cs) = (fd_of c ≡ fd) × AreOn fd cs

-- What a caller takes for a failure.
abbrev pub failure : Operation → Result
failure (binds ip port) = success false
failure (listens backlog) = success false
failure accepts = client none
failure (connects ip port) = success false
failure (reads len) = size (negsuc 0)
failure (writes msg) = size (negsuc 0)
failure sets_no_block = no_result

module _ (sys : System) where
  bind_at-AreOn : (fd port : ℕ) (o : Option ℕ) → AreOn fd (bind_at sys fd port o).1
  bind_at-AreOn fd port none = tt
  bind_at-AreOn fd port (some addr) = (refl, tt)

  connect_at-AreOn : (fd port : ℕ) (o : Option ℕ) → AreOn fd (connect_at sys fd port o).1
  connect_at-AreOn fd port none = tt
  connect_at-AreOn fd port (some addr) = (refl, tt)

  set_flags-AreOn : (fd : ℕ) (o : Option ℕ) → AreOn fd (set_flags sys fd o)
  set_flags-AreOn fd none = tt
  set_flags-AreOn fd (some flags) = (refl, (refl, (refl, (refl, (refl, tt)))))

  -- Every operation of a socket that has a descriptor makes system calls on this descriptor only,
  -- whatever they return; a socket whose construction failed reports the failure of each operation
  -- to its caller and makes no system call on a descriptor.
  socket_calls_own :
      (alive : Bool) (fd : ℕ) (op : Operation)
      → AreOn fd (perform sys alive (some fd) op).1 × (perform sys alive none op ≡ (failure op, []))
  unfolding perform
  socket_calls_own alive fd (binds ip port) = (bind_at-AreOn fd _ (sys.inet_pton ip), refl)
  socket_calls_own alive fd (listens backlog) = ((refl, tt), refl)
  socket_calls_own alive fd accepts = ((refl, tt), refl)
  socket_calls_own alive fd (connects ip port) = (connect_at-AreOn fd _ (sys.inet_pton ip), refl)
  socket_calls_own alive fd (reads len) = ((refl, tt), refl)
  socket_calls_own alive fd (writes msg) = ((refl, tt), refl)
  socket_calls_own alive fd sets_no_block =
      ((refl, set_flags-AreOn fd (sys.sys_get_flags fd)), refl)
