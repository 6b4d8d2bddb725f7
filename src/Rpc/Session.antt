-- ===== src/Rpc/Session.antt =====
-- One client of the RPC server: its connection in src/net/context/EpollContext.cpp, whose read buffer
-- `handleRead` fills, with the read callback that src/app/rpc/RpcServer.cpp registers for it.
pub mod Chunks
pub mod Requests
mod Tests
use simple_redis_client.Prelude.{ℕ, Option, none, some, List, Bytes, [], ◌∷◌, ◌++◌, take}
use simple_redis_client.Rpc.Types.{RpcContext}
use simple_redis_client.Rpc.Server.{Served, on_read}
use simple_redis_client.Net.Connection.{Connection, Interest}
use simple_redis_client.Net.Read.{SocketRead, ReadHandled, read_kept, read_closed, handle_read}

-- The connection and what epoll watches of it, the callback's context, and the contexts that the
-- thread pool was given, oldest first.
pub record Session : Type 0 where
  pub connection : Connection
  pub watched : Interest
  pub context : RpcContext
  pub tasks : List RpcContext

abbrev pub consumed_by : Option Served → ℕ
consumed_by none = 0
consumed_by (some served) = served.consumed

-- The callback sees the first bytes of the buffer.
unfoldable pub read_callback : RpcContext → Bytes → ℕ → ℕ
unfolding on_read
read_callback c buffer size = consumed_by (on_read (take size buffer) c)

abbrev pub after_served : Session → Option Served → Session
after_served s none = s
after_served s (some served) = record s {
  context = served.context;
  tasks = s.tasks ++ served.tasks;
}

abbrev pub after_calls : Session → List (Bytes × ℕ) → Session
after_calls s [] = s
after_calls s ((buffer, size) ∷ calls) =
    after_calls (after_served s (on_read (take size buffer) s.context)) calls

-- None when the connection is removed.
abbrev pub after_handle_read : Session → ReadHandled → Option Session
after_handle_read s (read_kept conn watched calls) =
    some (after_calls (record s { connection = conn; watched = watched }) calls)
after_handle_read s (read_closed events) = none

unfoldable pub receive : Session → SocketRead → Option Session
unfolding handle_read read_callback
receive s result =
    after_handle_read s (handle_read (read_callback s.context) s.connection s.watched result)

unfoldable pub receive_all : Session → List SocketRead → Option Session
unfolding receive
receive_all s [] = some s
receive_all s (result ∷ results) = elim (receive s result) [
  | none ↦ none
  | some s' ↦ receive_all s' results
]
