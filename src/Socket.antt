-- ===== src/Socket.antt =====
-- src/net/socket/LinuxSocket.cpp: the calls of a `LinuxSocket`. A socket is its descriptor, none for
-- -1. The system calls are parameters, and each operation lists those that it makes.
pub mod Own
pub mod World
pub mod Descriptors
pub mod Forward
pub mod Posted
mod Tests
use simple_redis_client.Prelude.{
  ℕ, zero, suc, ◌+◌, ◌*◌, ◌%◌, ◌^◌, Bool, true, false, Option, none, some, List, Bytes, [], ◌∷◌,
  ◌++◌, if◌then◌else◌,
}
use simple_redis_client.Prelude.Int.{ℤ, pos, negsuc}

-- What the system calls return; `inet_pton` an address, and `fcntl` the flags.
pub record System : Type 0 where
  pub inet_pton : Bytes → Option ℕ
  pub somaxconn : ℤ
  pub sys_bind : ℕ → ℕ → ℕ → Bool
  pub sys_listen : ℕ → ℤ → Bool
  pub sys_accept : ℕ → Option ℕ
  pub sys_connect : ℕ → ℕ → ℕ → Bool
  pub sys_read : ℕ → ℤ → ℤ
  pub sys_write : ℕ → Bytes → ℤ
  pub sys_get_flags : ℕ → Option ℕ
  pub with_nonblock : ℕ → ℕ

pub data SocketOption : Type 0 where
  tcp_nodelay : SocketOption
  so_sndbuf : ℕ → SocketOption
  so_rcvbuf : ℕ → SocketOption
  so_reuseaddr : SocketOption

-- A system call on a descriptor.
pub data SysCall : Type 0 where
  bind_call : ℕ → ℕ → ℕ → SysCall
  listen_call : ℕ → ℤ → SysCall
  accept_call : ℕ → SysCall
  connect_call : ℕ → ℕ → ℕ → SysCall
  read_call : ℕ → ℤ → SysCall
  write_call : ℕ → Bytes → SysCall
  get_flags_call : ℕ → SysCall
  set_flags_call : ℕ → ℕ → SysCall
  setsockopt_call : ℕ → SocketOption → SysCall

-- The calls of the operations that use the system; ports are `unsigned short`.
pub data Operation : Type 0 where
  binds : Bytes → ℕ → Operation
  listens : ℤ → Operation
  accepts : Operation
  connects : Bytes → ℕ → Operation
  reads : ℤ → Operation
  writes : Bytes → Operation
  sets_no_block : Operation

-- What an operation returns; a client of `accept` is its descriptor.
pub data Result : Type 0 where
  success : Bool → Result
  size : ℤ → Result
  client : Option ℕ → Result
  no_result : Result

abbrev pub is_success : Result → Bool
is_success (success b) = b
is_success (size n) = false
is_success (client c) = false
is_success no_result = false

-- `DEFAULT_BACKLOG`
abbrev pub default_backlog : ℤ
default_backlog = negsuc 0

abbrev pub backlog_of : ℤ → ℤ → ℤ
backlog_of somaxconn (pos n) = pos n
backlog_of somaxconn (negsuc zero) = somaxconn
backlog_of somaxconn (negsuc (suc n)) = negsuc (suc n)

-- The four options of `setNoBlock`, each of which only logs a failure.
abbrev pub socket_options : ℕ → List SysCall
socket_options fd =
    setsockopt_call fd tcp_nodelay
    ∷ setsockopt_call fd (so_sndbuf (1024 * 8))
    ∷ setsockopt_call fd (so_rcvbuf (1024 * 8))
    ∷ setsockopt_call fd so_reuseaddr
    ∷ []

module _ (sys : System) where
  abbrev pub bind_at : ℕ → ℕ → Option ℕ → Result × List SysCall
  bind_at fd port none = (success false, [])
  bind_at fd port (some addr) = (success (sys.sys_bind fd addr port), bind_call fd addr port ∷ [])

  abbrev pub bind : Option ℕ → Bytes → ℕ → Result × List SysCall
  bind none ip port = (success false, [])
  bind (some fd) ip port = bind_at fd (port % 2 ^ 16) (sys.inet_pton ip)

  abbrev pub listen : Option ℕ → ℤ → Result × List SysCall
  listen none backlog = (success false, [])
  listen (some fd) backlog =
      let n = backlog_of sys.somaxconn backlog in
      (success (sys.sys_listen fd n), listen_call fd n ∷ [])

  -- The client of a context that is still there: without it `accept` returns none, after the call.
  abbrev pub accept : Bool → Option ℕ → Result × List SysCall
  accept alive none = (client none, [])
  accept alive (some fd) = (client (if alive then sys.sys_accept fd else none), accept_call fd ∷ [])

  abbrev pub connect_at : ℕ → ℕ → Option ℕ → Result × List SysCall
  connect_at fd port none = (success false, [])
  connect_at fd port (some addr) =
      (success (sys.sys_connect fd addr port), connect_call fd addr port ∷ [])

  abbrev pub connect : Option ℕ → Bytes → ℕ → Result × List SysCall
  connect none ip port = (success false, [])
  connect (some fd) ip port = connect_at fd (port % 2 ^ 16) (sys.inet_pton ip)

  abbrev pub read : Option ℕ → ℤ → Result × List SysCall
  read none len = (size (negsuc 0), [])
  read (some fd) len = (size (sys.sys_read fd len), read_call fd len ∷ [])

  abbrev pub write : Option ℕ → Bytes → Result × List SysCall
  write none msg = (size (negsuc 0), [])
  write (some fd) msg = (size (sys.sys_write fd msg), write_call fd msg ∷ [])

  -- `setNoBlock` has no test: `fcntl` of -1, which is not listed, fails, and the function returns.
  abbrev pub set_flags : ℕ → Option ℕ → List SysCall
  set_flags fd none = []
  set_flags fd (some flags) = set_flags_call fd (sys.with_nonblock flags) ∷ socket_options fd

  abbrev pub set_no_block : Option ℕ → Result × List SysCall
  set_no_block none = (no_result, [])
  set_no_block (some fd) = (no_result, get_flags_call fd ∷ set_flags fd (sys.sys_get_flags fd))

  unfoldable pub perform : Bool → Option ℕ → Operation → Result × List SysCall
  perform alive s (binds ip port) = bind s ip port
  perform alive s (listens backlog) = listen s backlog
  perform alive s accepts = accept alive s
  perform alive s (connects ip port) = connect s ip port
  perform alive s (reads len) = read s len
  perform alive s (writes msg) = write s msg
  perform alive s sets_no_block = set_no_block s
